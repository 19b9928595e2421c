-- ===== src/Storage/Roundtrip.antt =====
-- An upload and its verification: what was sent is what the store gives back.
use Prim.Native.String.append
use text.Mathlib.TextLemmas.{append_assoc, append-nil}
use e_rakshak_umat.Prelude.{
  ℕ, ◌+◌, ◌≤◌, ◌≡◌, ◌≢◌, refl, sym, inl, inr, String, true, Option, none, some, List, [], ◌∷◌, map,
  ==_iff, eq_iff, arith, Option-cases,
}
use e_rakshak_umat.Prelude.Tables.{All}
use e_rakshak_umat.Environment.{Env, ◌<>◌}
use e_rakshak_umat.Storage.{
  LocalArtifactStore, QuarantinedObject, StoredObject, Stored, ok, bytes, object_at, upload_at,
  object_key, destination, quarantine_upload, accept_upload, promote, receive, verify, discard,
  put_object, stored_as,
}
use e_rakshak_umat.Storage.Paths.{same}
use e_rakshak_umat.Storage.Digests.{IsDigest, same_iff, same_digest, resolve-object_key}
use e_rakshak_umat.Storage.Integrity.{IsIntact}

abbrev pub joined : List String → String
joined [] = ""
joined (b ∷ bs) = b <> joined bs

abbrev pub total : Env → List String → ℕ
total env [] = 0
total env (b ∷ bs) = env.byte_length b + total env bs

-- The loop takes the blocks of a file that is not too large, one after the other.
receive-blocks :
    (env : Env) (max_bytes size : ℕ) (written : String) (blocks : List String)
    → All (λ b. env.byte_length b ≢ 0) blocks
    → size + total env blocks ≤ max_bytes
    → receive env max_bytes size written (map bytes blocks)
      ≡ ok (size + total env blocks, written <> joined blocks)
unfolding receive
receive-blocks env max_bytes size written [] h fits = rw append-nil (ground arith)
receive-blocks env max_bytes size written (b ∷ bs) h fits = ground (
  arith,
  append_assoc written b (joined bs),
  receive-blocks env max_bytes (size + env.byte_length b) (written <> b) bs h.1,
)

-- the file that was there, or the new one
abbrev pub or_new : Option String → String → String
or_new (some old) new = old
or_new none new = new

abbrev name_of : String → String
name_of uuid = "upload-" <> (uuid <> ".part")

abbrev pub digest_of : Env → List String → String
digest_of env blocks = env.sha256 (joined blocks)

-- The upload is accepted, verifies, and its object is the one that was there or the sent blocks.
abbrev pub Verified :
    Env → List String → LocalArtifactStore → LocalArtifactStore × Stored StoredObject → Type 0
Verified env blocks store (after, result) =
    (result ≡ ok (stored_as (digest_of env blocks) (total env blocks) store))
    × (verify env (object_key (digest_of env blocks)) (digest_of env blocks) after
        ≡ ok (destination (digest_of env blocks) store))
    × (object_at (destination (digest_of env blocks) store) after.objects
        ≡ some (
            or_new (object_at (destination (digest_of env blocks) store) store.objects)
              (joined blocks)))

module _ (env : Env) (uuid : String) (max_bytes : ℕ) (blocks : List String)
    (store : LocalArtifactStore) (hexadecimal : (text : String) → IsDigest (env.sha256 text))
    (intact : IsIntact env store.artifact_root store.objects)
    (unused : upload_at (name_of uuid) store.quarantine ≡ none)
    (read : All (λ b. env.byte_length b ≢ 0) blocks) (fits : total env blocks ≤ max_bytes) where
  abbrev received : LocalArtifactStore
  received = record store {
    quarantine = record { name = name_of uuid; content = joined blocks } ∷ store.quarantine;
  }

  abbrev quarantined : QuarantinedObject
  quarantined = record {
    sha256 = (digest_of env blocks);
    size_bytes = total env blocks;
    name = name_of uuid;
  }

  receive_all : receive env max_bytes 0 "" (map bytes blocks) ≡ ok (total env blocks, joined blocks)
  receive_all = ground (
    arith,
    append.nil (joined blocks),
    receive-blocks env max_bytes 0 "" blocks read (omega arith),
  )

  quarantine_upload-received :
      quarantine_upload env uuid max_bytes (map bytes blocks) store ≡ (received, ok quarantined)
  unfolding quarantine_upload
  quarantine_upload-received =
      rw (unused, quarantine_upload) (rw (receive_all, quarantine_upload) refl)

  verify-there :
      (after : LocalArtifactStore) (content : String)
      → after.artifact_root ≡ store.artifact_root
      → object_at (destination (digest_of env blocks) store) after.objects ≡ some content
      → env.sha256 content ≡ (digest_of env blocks)
      → verify env (object_key (digest_of env blocks)) (digest_of env blocks) after
        ≡ ok (destination (digest_of env blocks) store)
  unfolding verify
  verify-there after content root there same_hash =
      rw (resolve-object_key after (digest_of env blocks) (hexadecimal (joined blocks)), verify)
        (rw root (rw there (rw ((eq_iff (env.sha256 content) (digest_of env blocks)).1 same_hash))))

  same_hash :
      (old : String)
      → object_at (destination (digest_of env blocks) store) store.objects ≡ some old
      → (digest_of env blocks) ≡ env.sha256 old
  same_hash old there =
      same_digest store.artifact_root (digest_of env blocks) (env.sha256 old)
        (hexadecimal (joined blocks)) (hexadecimal old)
        (intact (destination (digest_of env blocks) store) old there)

  same_self :
      same (destination (digest_of env blocks) store) (destination (digest_of env blocks) store)
      ≡ true
  same_self =
      (same_iff (destination (digest_of env blocks) store)
          (destination (digest_of env blocks) store)).1
        refl

  promote-Verified : Verified env blocks store (promote env quarantined received)
  unfolding promote upload_at object_at
  promote-Verified =
      elim (Option-cases (object_at (destination (digest_of env blocks) store) store.objects)) [
        | inr (old, there) ↦
            rw (there, promote)
              (rw ((eq_iff (env.sha256 old) (digest_of env blocks)).1 (sym (same_hash old there))) (
                refl,
                verify-there (discard (name_of uuid) received) old refl there
                    (sym (same_hash old there)),
                there,
              ))
        | inl free ↦
            rw (free, promote)
              (rw ((eq_iff (name_of uuid) (name_of uuid)).1 refl) (
                refl,
                verify-there
                    (discard (name_of uuid) (
                      put_object (destination (digest_of env blocks) store) (joined blocks)
                        received))
                    (joined blocks) refl (rw same_self refl) refl,
                rw same_self refl,
              ))
      ]

  -- If every digest is a text of at least three characters without slash and dot: a file that arrives
  -- whole under an unused name, within the limit, with the digest and the size that were announced, is
  -- accepted by a store whose objects are intact; the store then verifies it under its key, at
  -- the place that the answer names; and where the store had no file with this digest, the object is
  -- the sent blocks, one after the other.
  pub accept_upload-Verified : Verified env blocks store (
      accept_upload env uuid max_bytes
        (map bytes blocks)
        (digest_of env blocks)
        (total env blocks)
        store)
  unfolding accept_upload
  accept_upload-Verified =
      rw (quarantine_upload-received, accept_upload)
        (rw ((eq_iff (digest_of env blocks) (digest_of env blocks)).1 refl)
          (rw ((==_iff (total env blocks) (total env blocks)).1 refl) promote-Verified))
