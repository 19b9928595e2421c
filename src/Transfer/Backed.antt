-- ===== src/Transfer/Backed.antt =====
-- The rows of artifacts and their objects in the store: what an upload keeps.
use mathlib.Core.Path.{subst}
use e_rakshak_umat.Prelude.{
  ℕ, ◌≡◌, refl, sym, ap, ◌∙◌, inl, inr, not, ◌&&◌, String, Bool, true, Option, none, some, List, [],
  ◌∷◌, str_eq, eq_iff, is_some, arith,
}
use e_rakshak_umat.Prelude.Tables.{All, scalar}
use e_rakshak_umat.Json.{Json, truthy}
use e_rakshak_umat.Models.{AccessTier}
use e_rakshak_umat.Models.Rows.{Executor, ExecutorRequest, Artifact}
use e_rakshak_umat.Environment.{Env}
use e_rakshak_umat.Database.{Db, Result, ok, err, after, pure}
use e_rakshak_umat.Database.Rules.{
  branch, Ensures, Ensures-after, Ensures-found, Ensures-lifted, Ensures-test, Ensures-ok,
}
use e_rakshak_umat.Executors.Request.{
  Request, Holding, signed_request, answer_key, record_request, validate_lease,
  verify_executor_signature, same_nonce, mismatched, lapsed,
}
use e_rakshak_umat.Executors.Request.Replay.{Mutation, verify_stage_mutation}
use e_rakshak_umat.Storage.{
  LocalArtifactStore, QuarantinedObject, StoredObject, Stored, StoreError, ok, err, Chunk,
  upload_too_large, digest_mismatch, object_key, destination, promote, promote_checked,
  accept_upload, quarantine_upload,
}
use e_rakshak_umat.Storage.Digests.{IsDigest}
use e_rakshak_umat.Storage.Integrity.{IsIntact, Keeps, accept_upload-Keeps}
use e_rakshak_umat.Storage.Contents.{contents, Steps, accept_upload-Steps}
use e_rakshak_umat.Transfer.{Files, Reply, stop}
use e_rakshak_umat.Transfer.Uploads.{
  ArtifactEnvelope, Upload, access_tier_of, register, register_as, receive_artifact, answer_upload,
  upload_artifact, envelope_json,
}

-- The object of an artifact is in the store, under the key and with the digest of the row.
abbrev pub IsBacked : Env → LocalArtifactStore → Artifact → Type 0
IsBacked env store a =
    (c : String) × (contents store a.sha256 ≡ some c)
    × (env.sha256 c ≡ a.sha256)
    × (a.object_key ≡ object_key a.sha256)

abbrev pub Backed : Env → Files → Type 0
Backed env files =
    IsIntact env files.store.artifact_root files.store.objects
    × All (IsBacked env files.store) files.db.artifacts

-- the rows of artifacts are those of `db`
abbrev SameArtifacts {ℓ} : {A : Type ℓ} → Db → A → Db → Type 0
SameArtifacts db a after = after.artifacts ≡ db.artifacts

module _ (env : Env) (executor : Executor) (rq : Request) where
  key-SameArtifacts :
      (hash : String) (o : Option ExecutorRequest) (db : Db)
      → Ensures (SameArtifacts db) (answer_key executor rq hash o db)
  unfolding answer_key record_request
  key-SameArtifacts hash (some p) db =
      Ensures-test (SameArtifacts db) (not (str_eq p.request_hash hash)) 409
        "idempotency key reused with different request" db
        (λ _. pure (record { request = p; replay = true }))
        (λ _. Ensures-ok (SameArtifacts db) (record { request = p; replay = true }) db refl)
  key-SameArtifacts hash none db =
      Ensures-test (SameArtifacts db) (is_some (scalar (same_nonce executor rq) db.requests)) 409
        "executor nonce already used" db (λ _. record_request executor rq hash)
        (λ _. record { holds = refl })

  signed-SameArtifacts :
      (body : Json) (db : Db) → Ensures (SameArtifacts db) (signed_request env executor rq body db)
  unfolding signed_request
  signed-SameArtifacts body db =
      Ensures-lifted (SameArtifacts db) (verify_executor_signature env executor rq body) db _
        (λ hash _. key-SameArtifacts hash _ db)

  lease-SameArtifacts :
      (stage lease attempt : ℕ) (expired : Bool) (db : Db)
      → Ensures (SameArtifacts db) (validate_lease env executor rq stage lease attempt expired db)
  unfolding validate_lease
  lease-SameArtifacts stage lease attempt expired db =
      Ensures-found (SameArtifacts db) _ _ _ db _ (λ s _.
        Ensures-found (SameArtifacts db) _ _ _ db _ (λ a _.
          Ensures-found (SameArtifacts db) _ _ _ db _ (λ l _.
            let h : Holding = record { stage = s; attempt = a; lease = l } in
            Ensures-test (SameArtifacts db) (mismatched executor h) _ _ db _ (λ _.
              Ensures-test (SameArtifacts db) (lapsed env rq.checked_at expired rq.lease_token l) _
                _ db _ (λ _. Ensures-ok (SameArtifacts db) h db refl)))))

  mutation-SameArtifacts :
      (stage lease attempt : ℕ) (body : Json) (db : Db)
      → Ensures
          (SameArtifacts db)
          (verify_stage_mutation env executor rq stage lease attempt body db)
  unfolding verify_stage_mutation
  mutation-SameArtifacts stage lease attempt body db =
      Ensures-after (SameArtifacts db) (SameArtifacts db) (signed_request env executor rq body db) _
        (signed-SameArtifacts body db)
        (λ signed d e.
          Ensures-after (SameArtifacts db) (SameArtifacts d)
            (validate_lease env executor rq stage lease attempt signed.replay d) _
            (lease-SameArtifacts stage lease attempt signed.replay d)
            (λ h d' e'. Ensures-ok (SameArtifacts db) _ d' (e' ∙ e)))

-- A step that answers with an object leaves a content with its digest.
Steps-there :
    (env : Env) (before after : String → Option String) (o : StoredObject)
    → IsDigest o.sha256
    → Steps env before (some (ok o)) after
    → (c : String) × (after o.sha256 ≡ some c) × (env.sha256 c ≡ o.sha256)
Steps-there env before after o d (c, e, inl (there, kept)) = (c, kept o.sha256 d ∙ there, e)
Steps-there env before after o d (c, e, inr (free, adds)) =
    (c, adds o.sha256 d ∙ rw ((eq_iff o.sha256 o.sha256).1 refl) refl, e)

-- the answer names the digest that was announced
Named : String → StoredObject → Type 0
Named sha256 o = (o.sha256 ≡ sha256) × (o.object_key ≡ object_key sha256)

promote-Named :
    (env : Env) (q : QuarantinedObject) (store : LocalArtifactStore) (o : StoredObject)
    → (promote env q store).1 ≡ ok o
    → Named q.sha256 o
unfolding promote Named
promote-Named env q store o h = ground (arith, h)

checked-Named :
    (env : Env) (sha256 : String) (size : ℕ) (r : LocalArtifactStore × Stored QuarantinedObject)
    (o : StoredObject)
    → (promote_checked env sha256 size r).1 ≡ ok o
    → Named sha256 o
unfolding Named
checked-Named env sha256 size (received, err e) o h = cc
checked-Named env sha256 size (received, ok q) o h =
    ground (arith, h, eq_iff q.sha256 sha256, promote-Named env q received o)

module _ (env : Env) (hexadecimal : (text : String) → IsDigest (env.sha256 text)) where
  accepted :
      (uuid : String) (max_bytes : ℕ) (chunks : List Chunk) (sha256 : String) (size : ℕ)
      (store : LocalArtifactStore) (o : StoredObject)
      → (accept_upload env uuid max_bytes chunks sha256 size store).1 ≡ ok o
      → (c : String) × (contents
            (accept_upload env uuid max_bytes chunks sha256 size store).0
            sha256
          ≡ some c)
        × (env.sha256 c ≡ sha256)
        × (o.object_key ≡ object_key sha256)
  unfolding accept_upload Named
  accepted uuid max_bytes chunks sha256 size store o h =
      let r = accept_upload env uuid max_bytes chunks sha256 size store in
      let named =
        checked-Named env sha256 size (quarantine_upload env uuid max_bytes chunks store) o h in
      let step : Steps env (contents store) (some (ok o)) (contents r.0) =
        subst (λ x. Steps env (contents store) (some x) (contents r.0)) h
          (accept_upload-Steps env hexadecimal uuid max_bytes chunks sha256 size store) in
      let digest : IsDigest o.sha256 = of_step (contents store) (contents r.0) o step in
      let (c, there, e) = Steps-there env (contents store) (contents r.0) o digest step in
      (c, ap (contents r.0) (sym named.0) ∙ there, e ∙ named.0, named.1)
    where
      of_step :
          (before after : String → Option String) (x : StoredObject)
          → Steps env before (some (ok x)) after
          → IsDigest x.sha256
      of_step before after x (c, e, rest) = rw (← e) (hexadecimal c)

IsBacked-kept :
    (env : Env) (store after : LocalArtifactStore) (as_ : List Artifact)
    → Keeps env store after
    → All (IsBacked env store) as_
    → All (IsBacked env after) as_
IsBacked-kept env store after [] k h = tt
IsBacked-kept env store after (a ∷ as_) k ((c, there, e, key), rest) = (
  (c, rw k.root (k.kept (destination a.sha256 store) c there), e, key),
  IsBacked-kept env store after as_ k rest,
)

module _ (env : Env) (hexadecimal : (text : String) → IsDigest (env.sha256 text))
    (executor : Executor) (rq : Request) where
  register_as-Backed :
      (m : Mutation) (e : ArtifactEnvelope) (o : StoredObject) (db : Db) (files : Files)
      (tier : Option AccessTier)
      → IsIntact env files.store.artifact_root files.store.objects
      → All (IsBacked env files.store) db.artifacts
      → All (IsBacked env files.store) files.db.artifacts
      → (c : String) × (contents files.store e.sha256 ≡ some c)
        × (env.sha256 c ≡ e.sha256)
        × (o.object_key ≡ object_key e.sha256)
      → Backed env (register_as env executor rq m e o db files tier).0
  register_as-Backed m e o db files none intact now before there = (intact, before)
  register_as-Backed m e o db files (some tier) intact now before there = (intact, (there, now))

  -- what the store did, and what its answer says, keep the artifacts backed
  register-Backed :
      (m : Mutation) (e : ArtifactEnvelope) (db : Db) (files : Files) (r : Stored StoredObject)
      → IsIntact env files.store.artifact_root files.store.objects
      → All (IsBacked env files.store) db.artifacts
      → All (IsBacked env files.store) files.db.artifacts
      → ((o : StoredObject)
          → r ≡ ok o
          → (c : String) × (contents files.store e.sha256 ≡ some c)
            × (env.sha256 c ≡ e.sha256)
            × (o.object_key ≡ object_key e.sha256))
      → Backed env (register env executor rq m e db files r).0
  register-Backed m e db files (err upload_too_large) intact now before there = (intact, now)
  register-Backed m e db files (err digest_mismatch) intact now before there = (intact, now)
  register-Backed m e db files (err StoreError.invalid_object_key) intact now before there =
      (intact, before)
  register-Backed m e db files (err StoreError.file_exists) intact now before there =
      (intact, before)
  register-Backed m e db files (err StoreError.file_missing) intact now before there =
      (intact, before)
  register-Backed m e db files (err StoreError.read_failed) intact now before there =
      (intact, before)
  register-Backed m e db files (ok o) intact now before there =
      register_as-Backed m e o db files (access_tier_of e.access_tier) intact now before
        (there o refl)

  receive-Backed :
      (m : Mutation) (e : ArtifactEnvelope) (u : Upload) (db : Db) (files : Files)
      → Backed env files
      → db.artifacts ≡ files.db.artifacts
      → Backed env (receive_artifact env executor rq m e u db files).0
  receive-Backed m e u db files (intact, backed) same =
      let r = accept_upload env u.uuid u.max_bytes u.chunks e.sha256 e.size_bytes files.store in
      let keeps =
        accept_upload-Keeps env u.uuid u.max_bytes u.chunks e.sha256 e.size_bytes files.store
          intact in
      let kept : All (IsBacked env r.0) files.db.artifacts =
        IsBacked-kept env files.store r.0 files.db.artifacts keeps backed in
      register-Backed m e db (record files { store = r.0 }) r.1 keeps.intact (rw same kept) kept
        (accepted env hexadecimal u.uuid u.max_bytes u.chunks e.sha256 e.size_bytes files.store)

  answer-Backed :
      (m : Mutation) (e : ArtifactEnvelope) (u : Upload) (db : Db) (files : Files) (o : Option Json)
      → Backed env files
      → db.artifacts ≡ files.db.artifacts
      → Backed env (answer_upload env executor rq m e u db files o).0
  answer-Backed m e u db files none h same = receive-Backed m e u db files h same
  answer-Backed m e u db files (some response) h same =
      branch (λ (r : Files × Reply). Backed env r.0) (m.signed.replay && truthy (some response)) _ _
        (λ _. h) (λ _. receive-Backed m e u db files h same)

  -- If every digest is a text of at least three characters without slash and dot, and the objects and
  -- the rows of artifacts were in order before: an upload of an artifact, whatever the request and the
  -- client's chunks and wherever it breaks off, leaves every object with the digest of its path and
  -- every row of an artifact with its object in the store, under the key and with the digest of the
  -- row.
  pub upload_artifact-Backed :
      (stage_id : ℕ) (envelope : Option ArtifactEnvelope) (u : Upload) (files : Files)
      → Backed env files
      → Backed env (upload_artifact env executor rq stage_id envelope u files).0
  unfolding upload_artifact
  upload_artifact-Backed stage_id none u files h = h
  upload_artifact-Backed stage_id (some e) u files h =
      checked
        (verify_stage_mutation env executor rq stage_id e.lease_id e.attempt_id
          (envelope_json env e) files.db)
        (mutation-SameArtifacts env executor rq stage_id e.lease_id e.attempt_id
          (envelope_json env e) files.db)
    where
      checked :
          (r : Result (Mutation × Db))
          → Ensures (SameArtifacts files.db) r
          → Backed env
              (elim r as (λ _. Files × Reply) [
                | err x ↦ (files, stop x)
                | ok (m, db) ↦
                    answer_upload env executor rq m e u db files m.signed.request.response_json
              ]).0
      checked (err x) k = h
      checked (ok (m, db)) k = answer-Backed m e u db files m.signed.request.response_json h k.holds
