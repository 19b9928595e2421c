-- ===== src/Storage/Integrity.antt =====
-- What the operations of the store keep: an object has the digest of its key, and an object that is
-- there stays as it is.
use e_rakshak_umat.Prelude.{
  ℕ, ◌≡◌, refl, not, sym, ap, ◌∙◌, inl, inr, String, true, false, Option, none, some, List, [], ◌∷◌,
  str_eq, eq_iff, arith, Bool-cases, Option-cases,
}
use e_rakshak_umat.Environment.{Env, ◌<>◌}
use e_rakshak_umat.Database.Rules.{branch}
use e_rakshak_umat.Storage.{
  ObjectFile, UploadFile, LocalArtifactStore, QuarantinedObject, StoredObject, Stored, ok, err,
  Chunk, object_at, upload_at, object_key, put_object, copy_new, discard, destination,
  quarantine_upload, accept_upload, promote_checked, promote, store_file, cleanup_temporary,
  receive, unlink, keep_upload, drop_upload,
}
use e_rakshak_umat.Storage.Paths.{FilePath, locate, same}
use e_rakshak_umat.Storage.Digests.{same_iff}

abbrev pub place : Env → FilePath → String → FilePath
place env root content = locate root (object_key (env.sha256 content))

-- every object has the digest that its path names
abbrev pub IsIntact : Env → FilePath → List ObjectFile → Type 0
IsIntact env root objects =
    (p : FilePath) (content : String)
    → object_at p objects ≡ some content
    → p ≡ place env root content

-- what an operation leaves: the root, the digests, and each object
pub record Keeps (env : Env) (before after : LocalArtifactStore) : Type 0 where
  pub root : after.artifact_root ≡ before.artifact_root
  pub intact : IsIntact env after.artifact_root after.objects
  pub kept :
      (p : FilePath) (content : String)
      → object_at p before.objects ≡ some content
      → object_at p after.objects ≡ some content

pub object_at-here :
    (p q : FilePath) (new : String) (objects : List ObjectFile)
    → same p q ≡ true
    → object_at q (record { path = p; content = new } ∷ objects) ≡ some new
unfolding object_at
object_at-here p q new objects e = rw e

pub object_at-below :
    (p q : FilePath) (new : String) (objects : List ObjectFile)
    → same p q ≡ false
    → object_at q (record { path = p; content = new } ∷ objects) ≡ object_at q objects
unfolding object_at
object_at-below p q new objects e = rw e

IsIntact-put :
    (env : Env) (root : FilePath) (content : String) (objects : List ObjectFile)
    → IsIntact env root objects
    → IsIntact env root (record { path = place env root content; content = content } ∷ objects)
IsIntact-put env root content objects h p c there =
    elim (Bool-cases (same (place env root content) p)) [
      | inl e ↦
          let new : content ≡ c =
            cc (object_at-here (place env root content) p content objects e) in
          sym ((same_iff (place env root content) p).0 e) ∙ ap (place env root) new
      | inr e ↦ h p c (sym (object_at-below (place env root content) p content objects e) ∙ there)
    ]

kept-put :
    (p : FilePath) (new : String) (objects : List ObjectFile)
    → object_at p objects ≡ none
    → (q : FilePath) (content : String) → object_at q objects ≡ some content
    → object_at q (record { path = p; content = new } ∷ objects) ≡ some content
kept-put p new objects free q content there = elim (Bool-cases (same p q)) [
  | inl e ↦
      let moved : object_at p objects ≡ object_at q objects =
        ap (λ x. object_at x objects) ((same_iff p q).0 e) in
      cc
  | inr e ↦ object_at-below p q new objects e ∙ there
]

Keeps-put :
    (env : Env) (store : LocalArtifactStore) (content : String)
    → object_at (place env store.artifact_root content) store.objects ≡ none
    → IsIntact env store.artifact_root store.objects
    → Keeps env store (put_object (place env store.artifact_root content) content store)
Keeps-put env store content free h = record {
  root = refl;
  intact = IsIntact-put env store.artifact_root content store.objects h;
  kept = kept-put (place env store.artifact_root content) content store.objects free;
}

-- what changes only the quarantine
Keeps-quarantine :
    (env : Env) (store : LocalArtifactStore) (files : List UploadFile)
    → IsIntact env store.artifact_root store.objects
    → Keeps env store (record store { quarantine = files })
Keeps-quarantine env store files h = record { root = refl; intact = h; kept = λ p c there. there }

abbrev pub IsGenuine : Env → QuarantinedObject → LocalArtifactStore → Type 0
IsGenuine env q store =
    (content : String)
    → upload_at q.name store.quarantine ≡ some content
    → env.sha256 content ≡ q.sha256

Keeps-discarded :
    (env : Env) (name : String) (store : LocalArtifactStore) (content : String)
    → object_at (place env store.artifact_root content) store.objects ≡ none
    → IsIntact env store.artifact_root store.objects
    → Keeps env store
        (discard name (put_object (place env store.artifact_root content) content store))
Keeps-discarded env name store content free h = record {
  root = refl;
  intact = IsIntact-put env store.artifact_root content store.objects h;
  kept = kept-put (place env store.artifact_root content) content store.objects free;
}

Keeps-moved :
    (env : Env) (q : QuarantinedObject) (store : LocalArtifactStore) (content : String)
    → env.sha256 content ≡ q.sha256
    → object_at (destination q.sha256 store) store.objects ≡ none
    → IsIntact env store.artifact_root store.objects
    → Keeps env store (discard q.name (put_object (destination q.sha256 store) content store))
Keeps-moved env q store content e free h =
    rw (← e) (Keeps-discarded env q.name store content (rw e free) h)

Keeps-copied :
    (env : Env) (source sha256 : String) (store : LocalArtifactStore)
    → env.sha256 source ≡ sha256
    → object_at (destination sha256 store) store.objects ≡ none
    → IsIntact env store.artifact_root store.objects
    → Keeps env store (put_object (destination sha256 store) source store)
Keeps-copied env source sha256 store e free h = rw (← e) (Keeps-put env store source (rw e free) h)

pub promote-Keeps :
    (env : Env) (q : QuarantinedObject) (store : LocalArtifactStore)
    → IsGenuine env q store
    → IsIntact env store.artifact_root store.objects
    → Keeps env store (promote env q store).0
unfolding promote
promote-Keeps env q store genuine h =
    elim (Option-cases (object_at (destination q.sha256 store) store.objects)) [
      | inl free ↦
          rw (free, promote)
            (elim (Option-cases (upload_at q.name store.quarantine)) [
              | inl lost ↦ rw lost (Keeps-quarantine env store store.quarantine h)
              | inr (content, there) ↦
                  rw there (Keeps-moved env q store content (genuine content there) free h)
            ])
      | inr (old, there) ↦
          rw (there, promote)
            (branch (λ (r : LocalArtifactStore × Stored StoredObject). Keeps env store r.0)
              (not (str_eq (env.sha256 old) q.sha256)) _ _
              (λ _. Keeps-quarantine env store store.quarantine h)
              (λ _. Keeps-quarantine env store (unlink q.name store.quarantine) h))
    ]

pub quarantine_upload-Keeps :
    (env : Env) (uuid : String) (max_bytes : ℕ) (chunks : List Chunk) (store : LocalArtifactStore)
    → IsIntact env store.artifact_root store.objects
    → Keeps env store (quarantine_upload env uuid max_bytes chunks store).0
unfolding quarantine_upload
quarantine_upload-Keeps env uuid max_bytes chunks store h =
    elim (Option-cases (upload_at ("upload-" <> (uuid <> ".part")) store.quarantine)) [
      | inr (old, there) ↦ rw (there, quarantine_upload) (Keeps-quarantine env store _ h)
      | inl free ↦ rw (free, quarantine_upload) (received (receive env max_bytes 0 "" chunks))
    ]
  where
    received :
        (r : Stored (ℕ × String))
        → Keeps env store
            (elim r as (λ x. LocalArtifactStore × Stored QuarantinedObject) [
              | ok file ↦ keep_upload env ("upload-" <> (uuid <> ".part")) store file
              | err e ↦ drop_upload ("upload-" <> (uuid <> ".part")) store e
            ]).0
    received (ok (n, c)) = Keeps-quarantine env store _ h
    received (err e) = Keeps-quarantine env store _ h

-- What `quarantine_upload` returns names a file with the digest that it tells.
pub quarantine_upload-IsGenuine :
    (env : Env) (uuid : String) (max_bytes : ℕ) (chunks : List Chunk) (store : LocalArtifactStore)
    (q : QuarantinedObject)
    → (quarantine_upload env uuid max_bytes chunks store).1 ≡ ok q
    → IsGenuine env q (quarantine_upload env uuid max_bytes chunks store).0
unfolding quarantine_upload upload_at
quarantine_upload-IsGenuine env uuid max_bytes chunks store q h content there =
    ground (arith, eq_iff ("upload-" <> (uuid <> ".part")) q.name, eq_iff q.name q.name)

Keeps-copy_new :
    (env : Env) (source sha256 : String) (store : LocalArtifactStore)
    → env.sha256 source ≡ sha256
    → IsIntact env store.artifact_root store.objects
    → (old : Option String) → object_at (destination sha256 store) store.objects ≡ old
    → Keeps env store (copy_new (destination sha256 store) source old store)
Keeps-copy_new env source sha256 store e h (some old) there =
    Keeps-quarantine env store store.quarantine h
Keeps-copy_new env source sha256 store e h none free = Keeps-copied env source sha256 store e free h

pub store_file-Keeps :
    (env : Env) (source sha256 : String) (size : ℕ) (store : LocalArtifactStore)
    → IsIntact env store.artifact_root store.objects
    → Keeps env store (store_file env source sha256 size store).0
unfolding store_file
store_file-Keeps env source sha256 size store h =
    branch (λ (r : LocalArtifactStore × Stored StoredObject). Keeps env store r.0) _ _ _
      (λ _. Keeps-quarantine env store store.quarantine h)
      (λ e.
        Keeps-copy_new env source sha256 store
          (ground (arith, e, eq_iff (env.sha256 source) sha256)) h _ refl)

Keeps-trans :
    (env : Env) (r s t : LocalArtifactStore) → Keeps env r s → Keeps env s t → Keeps env r t
Keeps-trans env r s t a b = record {
  root = b.root ∙ a.root;
  intact = b.intact;
  kept = λ p c there. b.kept p c (a.kept p c there);
}

Keeps-promote_checked :
    (env : Env) (sha256 : String) (size : ℕ) (store : LocalArtifactStore)
    (r : LocalArtifactStore × Stored QuarantinedObject)
    → Keeps env store r.0
    → ((q : QuarantinedObject) → r.1 ≡ ok q → IsGenuine env q r.0)
    → Keeps env store (promote_checked env sha256 size r).0
Keeps-promote_checked env sha256 size store (received, err e) k g = k
Keeps-promote_checked env sha256 size store (received, ok q) k g =
    branch (λ (r : LocalArtifactStore × Stored StoredObject). Keeps env store r.0) _ _ _ (λ _. k)
      (λ _. Keeps-trans env store received _ k (promote-Keeps env q received (g q refl) k.intact))

pub accept_upload-Keeps :
    (env : Env) (uuid : String) (max_bytes : ℕ) (chunks : List Chunk) (sha256 : String) (size : ℕ)
    (store : LocalArtifactStore)
    → IsIntact env store.artifact_root store.objects
    → Keeps env store (accept_upload env uuid max_bytes chunks sha256 size store).0
unfolding accept_upload
accept_upload-Keeps env uuid max_bytes chunks sha256 size store h =
    Keeps-promote_checked env sha256 size store (quarantine_upload env uuid max_bytes chunks store)
      (quarantine_upload-Keeps env uuid max_bytes chunks store h)
      (quarantine_upload-IsGenuine env uuid max_bytes chunks store)

cleanup_temporary-Keeps :
    (env : Env) (store : LocalArtifactStore)
    → IsIntact env store.artifact_root store.objects
    → Keeps env store (cleanup_temporary store).0
unfolding cleanup_temporary
cleanup_temporary-Keeps env store h = Keeps-quarantine env store _ h

-- a call of the store by a route, the export of a report or the start of the process
pub data Call : Type 0 where
  upload : String → ℕ → List Chunk → String → ℕ → Call
  export : String → String → ℕ → Call
  start : Call

unfoldable pub perform : Env → Call → LocalArtifactStore → LocalArtifactStore
perform env (upload uuid max_bytes chunks sha256 size) store =
    (accept_upload env uuid max_bytes chunks sha256 size store).0
perform env (export source sha256 size) store = (store_file env source sha256 size store).0
perform env start store = (cleanup_temporary store).0

unfoldable pub perform_all : Env → List Call → LocalArtifactStore → LocalArtifactStore
perform_all env [] store = store
perform_all env (call ∷ calls) store = perform_all env calls (perform env call store)

pub perform-Keeps :
    (env : Env) (call : Call) (store : LocalArtifactStore)
    → IsIntact env store.artifact_root store.objects
    → Keeps env store (perform env call store)
unfolding perform
perform-Keeps env (upload uuid max_bytes chunks sha256 size) store h =
    accept_upload-Keeps env uuid max_bytes chunks sha256 size store h
perform-Keeps env (export source sha256 size) store h =
    store_file-Keeps env source sha256 size store h
perform-Keeps env start store h = cleanup_temporary-Keeps env store h

-- After any sequence of uploads, exports and starts, whatever the client sent and where it broke off,
-- every object of the store has the digest that its path names, and every object that was there has
-- its content.
pub perform_all-Keeps :
    (env : Env) (calls : List Call) (store : LocalArtifactStore)
    → IsIntact env store.artifact_root store.objects
    → Keeps env store (perform_all env calls store)
unfolding perform_all
perform_all-Keeps env [] store h = Keeps-quarantine env store store.quarantine h
perform_all-Keeps env (call ∷ calls) store h =
    let now = perform-Keeps env call store h in
    Keeps-trans env store (perform env call store) (perform_all env calls (perform env call store))
      now (perform_all-Keeps env calls (perform env call store) now.intact)
