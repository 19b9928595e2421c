-- ===== src/Storage.antt =====
-- The content-addressed store of samples, artifacts and exports; src/umat/storage/local.py. A folder
-- is a list of files, the newest first; `os.replace` and the copy by way of a temporary file are one
-- step. Modes of files and `fsync` are left out.
pub mod Paths
pub mod Digests
pub mod Integrity
pub mod Roundtrip
pub mod Contents
use Prim.Native.String
use e_rakshak_umat.Prelude.{
  ℕ, ◌+◌, String, Bool, true, false, not, ◌&&◌, ◌||◌, Option, none, some, List, [], ◌∷◌, ◌==◌, ltb,
  str_eq, if◌then◌else◌, from_char, up_to_char,
}
use e_rakshak_umat.Environment.{Env, ◌<>◌}
use Paths.{FilePath, locate, same, is_parent}

-- a file of the folder of objects, by its path, or of the quarantine, by its name
pub record ObjectFile : Type 0 where
  pub path : FilePath
  pub content : String

pub record UploadFile : Type 0 where
  pub name : String
  pub content : String

pub record LocalArtifactStore : Type 0 where
  pub artifact_root : FilePath
  pub quarantine : List UploadFile
  pub objects : List ObjectFile

pub record StoredObject : Type 0 where
  pub sha256 : String
  pub size_bytes : ℕ
  pub object_key : String
  pub path : FilePath

pub record QuarantinedObject : Type 0 where
  pub sha256 : String
  pub size_bytes : ℕ
  pub name : String

-- UploadTooLargeError, DigestMismatchError, the ValueError of `resolve`, and what the file system
-- and the client raise
pub data StoreError : Type 0 where
  upload_too_large digest_mismatch invalid_object_key file_exists file_missing read_failed :
      StoreError

pub data Stored {ℓ} (A : Type ℓ) : Type ℓ where
  ok : A → Stored A
  err : StoreError → Stored A

unfoldable pub object_at : FilePath → List ObjectFile → Option String
object_at p [] = none
object_at p (f ∷ fs) = if same f.path p then some f.content else object_at p fs

unfoldable pub upload_at : String → List UploadFile → Option String
upload_at n [] = none
upload_at n (f ∷ fs) = if str_eq f.name n then some f.content else upload_at n fs

-- path.unlink(missing_ok=True)
unfoldable pub unlink : String → List UploadFile → List UploadFile
unlink n [] = []
unlink n (f ∷ fs) = let rest = unlink n fs in if str_eq f.name n then rest else f ∷ rest

-- what `upload.read` and `destination.write` give: a chunk, or an exception
pub data Chunk : Type 0 where
  bytes : String → Chunk
  broken : Chunk

-- the loop that writes the chunks: the size and the content of the file at its end. The last chunk
-- is empty.
unfoldable pub receive : Env → ℕ → ℕ → String → List Chunk → Stored (ℕ × String)
receive env max_bytes total written [] = ok (total, written)
receive env max_bytes total written (broken ∷ chunks) = err read_failed
receive env max_bytes total written (bytes b ∷ chunks) =
    let size = total + env.byte_length b in
    let rest = receive env max_bytes size (written <> b) chunks in
    if env.byte_length b == 0
    then ok (total, written)
    else if ltb max_bytes size
    then err upload_too_large
    else rest

abbrev pub keep_upload :
    Env → String → LocalArtifactStore → ℕ × String → LocalArtifactStore × Stored QuarantinedObject
keep_upload env name store (total, content) = (
  record store { quarantine = record { name = name; content = content } ∷ store.quarantine },
  ok (record { sha256 = env.sha256 content; size_bytes = total; name = name }),
)

abbrev pub drop_upload :
    String → LocalArtifactStore → StoreError → LocalArtifactStore × Stored QuarantinedObject
drop_upload name store e = (record store { quarantine = unlink name store.quarantine }, err e)

-- The name is new: `uuid` is uuid.uuid4().hex.
unfoldable pub quarantine_upload :
    Env
    → String
    → ℕ
    → List Chunk
    → LocalArtifactStore
    → LocalArtifactStore × Stored QuarantinedObject
quarantine_upload env uuid max_bytes chunks store =
    let name = "upload-" <> (uuid <> ".part") in
    elim (upload_at name store.quarantine) [
      | some _ ↦ drop_upload name store file_exists
      | none ↦ elim (receive env max_bytes 0 "" chunks) [
        | ok file ↦ keep_upload env name store file
        | err e ↦ drop_upload name store e
      ]
    ]

unfoldable pub object_key : String → String
object_key sha256 = "objects/sha256/" <> (up_to_char 2 sha256 <> ("/" <> from_char 2 sha256))

abbrev pub destination : String → LocalArtifactStore → FilePath
destination sha256 store = locate store.artifact_root (object_key sha256)

abbrev pub stored_as : String → ℕ → LocalArtifactStore → StoredObject
stored_as sha256 size store = record {
  sha256 = sha256;
  size_bytes = size;
  object_key = object_key sha256;
  path = destination sha256 store;
}

abbrev pub put_object : FilePath → String → LocalArtifactStore → LocalArtifactStore
put_object p content store = record store {
  objects = record { path = p; content = content } ∷ store.objects;
}

abbrev pub discard : String → LocalArtifactStore → LocalArtifactStore
discard name store = record store { quarantine = unlink name store.quarantine }

unfoldable pub promote :
    Env → QuarantinedObject → LocalArtifactStore → LocalArtifactStore × Stored StoredObject
promote env q store = elim (object_at (destination q.sha256 store) store.objects) [
  | some old ↦
      if not (str_eq (env.sha256 old) q.sha256)
      then (store, err digest_mismatch)
      else (discard q.name store, ok (stored_as q.sha256 q.size_bytes store))
  | none ↦ elim (upload_at q.name store.quarantine) [
    | none ↦ (store, err file_missing)
    | some content ↦ (
      discard q.name (put_object (destination q.sha256 store) content store),
      ok (stored_as q.sha256 q.size_bytes store),
    )
  ]
]

abbrev pub copy_new : FilePath → String → Option String → LocalArtifactStore → LocalArtifactStore
copy_new p source (some old) store = store
copy_new p source none store = put_object p source store

-- `source` is the content of the file at the path `source`
unfoldable pub store_file :
    Env → String → String → ℕ → LocalArtifactStore → LocalArtifactStore × Stored StoredObject
store_file env source expected_sha256 expected_size store =
    if not (env.byte_length source == expected_size)
      || not (str_eq (env.sha256 source) expected_sha256)
    then (store, err digest_mismatch)
    else (let p = destination expected_sha256 store in
        (
          copy_new p source (object_at p store.objects) store,
          ok (stored_as expected_sha256 expected_size store),
        ))

unfoldable pub resolve : String → LocalArtifactStore → Stored FilePath
resolve key store =
    let path = locate store.artifact_root key in
    if is_parent store.artifact_root path then ok path else err invalid_object_key

abbrev pub checked_file : Env → String → FilePath → Option String → Stored FilePath
checked_file env expected_sha256 p none = err digest_mismatch
checked_file env expected_sha256 p (some content) =
    if str_eq (env.sha256 content) expected_sha256 then ok p else err digest_mismatch

unfoldable pub verify : Env → String → String → LocalArtifactStore → Stored FilePath
verify env key expected_sha256 store = elim (resolve key store) [
  | err e ↦ err e
  | ok p ↦ checked_file env expected_sha256 p (object_at p store.objects)
]

-- *.part
unfoldable pub is_part : String → Bool
is_part String.[] = false
is_part (String.◌∷◌ c s) = str_eq (String.◌∷◌ c s) ".part" || is_part s

unfoldable pub cleanup_files : List UploadFile → ℕ × List UploadFile
unfolding is_part
cleanup_files [] = (0, [])
cleanup_files (f ∷ fs) =
    let (removed, kept) = cleanup_files fs in
    if is_part f.name then (removed + 1, kept) else (removed, f ∷ kept)

unfoldable pub cleanup_temporary : LocalArtifactStore → LocalArtifactStore × ℕ
cleanup_temporary store =
    let (removed, kept) = cleanup_files store.quarantine in
    (record store { quarantine = kept }, removed)

-- what a route does with a file that it received: it compares the digest and the size that were
-- announced and promotes the file. A file that differs stays in the quarantine.
abbrev pub promote_checked :
    Env
    → String
    → ℕ
    → LocalArtifactStore × Stored QuarantinedObject
    → LocalArtifactStore × Stored StoredObject
promote_checked env sha256 size_bytes (received, err e) = (received, err e)
promote_checked env sha256 size_bytes (received, ok q) =
    if not (str_eq q.sha256 sha256) || not (q.size_bytes == size_bytes)
    then (received, err digest_mismatch)
    else promote env q received

unfoldable pub accept_upload :
    Env
    → String
    → ℕ
    → List Chunk
    → String
    → ℕ
    → LocalArtifactStore
    → LocalArtifactStore × Stored StoredObject
accept_upload env uuid max_bytes chunks sha256 size_bytes store =
    promote_checked env sha256 size_bytes (quarantine_upload env uuid max_bytes chunks store)
