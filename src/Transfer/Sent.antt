-- ===== src/Transfer/Sent.antt =====
-- What the downloads hand out.
use e_rakshak_umat.Prelude.{
  sym, inl, inr, List, [], ◌∷◌, str_eq, Bool-cases, ℕ, ◌≡◌, refl, ap, ◌∙◌, String, true, Option,
  none, some, eq_iff, arith,
}
use e_rakshak_umat.Json.{Json}
use e_rakshak_umat.Prelude.Tables.{get, scalar}
use e_rakshak_umat.Models.{platform_analysis, type_eq}
use e_rakshak_umat.Models.Rows.{
  AnalysisStage, AnalysisRun, Submission, run_entity, submission_entity, Executor, Artifact,
}
use e_rakshak_umat.Environment.{Env, ◌<>◌}
use e_rakshak_umat.Database.{Db, Result, ok, err, found}
use e_rakshak_umat.Executors.Request.{Request}
use e_rakshak_umat.Audit.{Entry}
use e_rakshak_umat.Executors.Request.Replay.{Mutation, verify_stage_mutation}
use e_rakshak_umat.Executors.Claim.Inputs.{source_of}
use e_rakshak_umat.Storage.{
  LocalArtifactStore, Stored, StoreError, ok, err, upload_too_large, digest_mismatch, object_at,
  object_key, destination, resolve, verify, checked_file,
}
use e_rakshak_umat.Storage.Paths.{FilePath}
use e_rakshak_umat.Storage.Digests.{IsDigest, resolve-object_key}
use e_rakshak_umat.Storage.Contents.{contents}
use e_rakshak_umat.Transfer.{Sample, Files, Reply, file, stop, send}
use e_rakshak_umat.Transfer.Downloads.{
  find_sample, find_input, is_complete, send_sample, find_sample_of, submission_of,
  download_stage_sample, download_stage_input, sample_json, input_json,
}
use e_rakshak_umat.Transfer.Backed.{IsBacked}

-- what a check of the store that succeeds tells
verified :
    (env : Env) (key sha256 : String) (store : LocalArtifactStore) (path : FilePath)
    → verify env key sha256 store ≡ ok path
    → (c : String) × (object_at path store.objects ≡ some c) × (env.sha256 c ≡ sha256)
unfolding verify
verified env key sha256 store path h = resolved (resolve key store) h
  where
    at_path :
        (p : FilePath) (o : Option String)
        → object_at p store.objects ≡ o
        → checked_file env sha256 p o ≡ ok path
        → (c : String) × (object_at path store.objects ≡ some c) × (env.sha256 c ≡ sha256)
    at_path p none e h = cc
    at_path p (some c) e h =
        (c, ground (arith, e, h), ground (arith, h, eq_iff (env.sha256 c) sha256))

    resolved :
        (r : Stored FilePath)
        → (elim r as (λ _. Stored FilePath) [
          | err x ↦ err x
          | ok p ↦ checked_file env sha256 p (object_at p store.objects)
        ])
          ≡ ok path
        → (c : String) × (object_at path store.objects ≡ some c) × (env.sha256 c ≡ sha256)
    resolved (err x) h = cc
    resolved (ok p) h = at_path p (object_at p store.objects) refl h

-- an intact object verifies under the key of its digest
verify-there :
    (env : Env) (sha256 c : String) (store : LocalArtifactStore)
    → IsDigest sha256
    → contents store sha256 ≡ some c
    → env.sha256 c ≡ sha256
    → verify env (object_key sha256) sha256 store ≡ ok (destination sha256 store)
unfolding verify
verify-there env sha256 c store d there e =
    rw (resolve-object_key store sha256 d, verify)
      (rw there (rw ((eq_iff (env.sha256 c) sha256).1 e) refl))

-- what a file that is sent is: the content that the store has at its path, with the digest
abbrev pub IsSent : Env → Files → String → FilePath → Type 0
IsSent env files sha256 path =
    (c : String) × (object_at path files.store.objects ≡ some c) × (env.sha256 c ≡ sha256)

send-path :
    (env : Env) (rq : Request) (m : Mutation) (response : Json) (sent corrupted : Entry)
    (name failure : String) (db : Db) (files : Files) (r : Stored FilePath) (path : FilePath)
    (given : String)
    → (send env rq m response sent corrupted name failure db files r).1 ≡ file path given
    → r ≡ ok path
send-path env rq m response sent corrupted name failure db files (ok p) path given h = cc
send-path env rq m response sent corrupted name failure db files (err digest_mismatch) path given
      h =
    cc
send-path env rq m response sent corrupted name failure db files (err upload_too_large) path given
      h =
    cc
send-path env rq m response sent corrupted name failure db files (err StoreError.invalid_object_key)
      path given h =
    cc
send-path env rq m response sent corrupted name failure db files (err StoreError.file_exists) path
      given h =
    cc
send-path env rq m response sent corrupted name failure db files (err StoreError.file_missing) path
      given h =
    cc
send-path env rq m response sent corrupted name failure db files (err StoreError.read_failed) path
      given h =
    cc

-- the sample of the submission of the stage's run
abbrev pub HasSubmission : AnalysisStage → Db → Sample → Type 0
HasSubmission stage db s =
    (run : AnalysisRun) × (submission : Submission) × (get stage.analysis_run_id db.runs ≡ some run)
    × (get run.submission_id db.submissions ≡ some submission)
    × (s.sha256 ≡ submission.sample_sha256)

abbrev pub IsSampleOf : AnalysisStage → Db → Sample → Type 0
IsSampleOf stage db s =
    (type_eq stage.stage_type platform_analysis ≡ true) × HasSubmission stage db s

scalar-sha256 :
    (sha256 : String) (samples : List Sample) (s : Sample)
    → scalar (λ x. str_eq x.sha256 sha256) samples ≡ some s
    → s.sha256 ≡ sha256
unfolding scalar
scalar-sha256 sha256 [] s h = cc
scalar-sha256 sha256 (x ∷ xs) s h = elim (Bool-cases (str_eq x.sha256 sha256)) [
  | inl e ↦
      let same : x ≡ s = ground (arith, h, e) in
      ap (λ (y : Sample). y.sha256) (sym same) ∙ (eq_iff x.sha256 sha256).0 e
  | inr e ↦ scalar-sha256 sha256 xs s (ground (arith, h, e))
]

module _ (stage : AnalysisStage) (db : Db) (samples : List Sample) (s : Sample) where
  of_submission :
      (run : AnalysisRun) (o : Option Submission)
      → get stage.analysis_run_id db.runs ≡ some run
      → get run.submission_id db.submissions ≡ o
      → find_sample_of samples o ≡ some s
      → HasSubmission stage db s
  of_submission run none there e k = cc
  of_submission run (some submission) there e k =
      (run, submission, there, e, scalar-sha256 submission.sample_sha256 samples s k)

  of_run :
      (o : Option AnalysisRun)
      → get stage.analysis_run_id db.runs ≡ o
      → find_sample_of samples (submission_of db o) ≡ some s
      → HasSubmission stage db s
  of_run none there k = cc
  of_run (some run) there k = of_submission run (get run.submission_id db.submissions) there refl k

  find_sample-IsSampleOf : find_sample stage db samples ≡ some s → IsSampleOf stage db s
  unfolding find_sample
  find_sample-IsSampleOf h = elim (Bool-cases (type_eq stage.stage_type platform_analysis)) [
    | inr e ↦ let lost : ◌≡◌ {A = Option Sample} none (some s) = rw e at h in cc
    | inl e ↦
        let rest : find_sample_of samples (submission_of db (get stage.analysis_run_id db.runs))
            ≡ some s =
          rw e at h in
        (e, of_run (get stage.analysis_run_id db.runs) refl rest)
  ]

-- A sample is sent only to a request that passed, as the sample of the leased stage, and with the
-- digest of the sample.
abbrev pub SampleSent : Env → Executor → Request → ℕ → ℕ → ℕ → Files → FilePath → Type 0
SampleSent env executor rq stage_id lease_id attempt_id files path =
    (m : Mutation) × (db : Db) × (s : Sample) × (verify_stage_mutation env executor rq stage_id
        lease_id attempt_id (sample_json env lease_id attempt_id) files.db
      ≡ ok (m, db))
    × IsSampleOf m.held.stage db s
    × IsSent env files s.sha256 path

module _ (env : Env) (executor : Executor) (rq : Request) (files : Files) where
  sample-IsSent :
      (m : Mutation) (db : Db) (o : Option Sample) (path : FilePath) (name : String)
      → (send_sample env executor rq m db files o).1 ≡ file path name
      → (s : Sample) × (o ≡ some s) × IsSent env files s.sha256 path
  sample-IsSent m db none path name h = cc
  sample-IsSent m db (some s) path name h = (
    s,
    refl,
    verified env s.object_key s.sha256 files.store path
        (send-path env rq m _ _ _ _ _ db files _ path name h),
  )

  -- A sample that is handed out goes to a request whose signature and lease passed, it is the sample
  -- of the submission of the leased stage's run, and the file has the digest of the sample.
  pub download_stage_sample-SampleSent :
      (stage_id lease_id attempt_id : ℕ) (path : FilePath) (name : String)
      → (download_stage_sample env executor rq stage_id lease_id attempt_id files).1
        ≡ file path name
      → SampleSent env executor rq stage_id lease_id attempt_id files path
  unfolding download_stage_sample
  download_stage_sample-SampleSent stage_id lease_id attempt_id path name h = checked _ refl h
    where
      checked :
          (r : Result (Mutation × Db))
          → verify_stage_mutation env executor rq stage_id lease_id attempt_id
              (sample_json env lease_id attempt_id)
              files.db
            ≡ r
          → (elim r as (λ _. Files × Reply) [
            | err e ↦ (files, stop e)
            | ok (m, db) ↦
                send_sample env executor rq m db files (find_sample m.held.stage db files.samples)
          ]).1
            ≡ file path name
          → SampleSent env executor rq stage_id lease_id attempt_id files path
      checked (err e) v h = cc
      checked (ok (m, db)) v h =
          let (s, there, sent) =
            sample-IsSent m db (find_sample m.held.stage db files.samples) path name h in
          (m, db, s, v, find_sample-IsSampleOf m.held.stage db files.samples s there, sent)

  -- An artifact of another, finished stage of the run is handed out, as the object of its digest, to
  -- every request whose signature and lease pass, if its object is in the store under the key and with
  -- the digest of its row, and every digest is a text of at least three characters without slash and
  -- dot.
  pub download_stage_input-backed :
      (hexadecimal : (text : String) → IsDigest (env.sha256 text))
      (stage_id artifact_id lease_id attempt_id : ℕ) (m : Mutation) (db : Db) (a : Artifact)
      → verify_stage_mutation env executor rq stage_id lease_id attempt_id
          (input_json env lease_id attempt_id artifact_id)
          files.db
        ≡ ok (m, db)
      → find_input artifact_id m.held.stage db ≡ some a
      → is_complete (source_of db a.stage_id) ≡ true
      → IsBacked env files.store a
      → (download_stage_input env executor rq stage_id artifact_id lease_id attempt_id files).1
        ≡ file (destination a.sha256 files.store) ("input-" <> env.str_uuid a.id)
  unfolding download_stage_input
  download_stage_input-backed hexadecimal stage_id artifact_id lease_id attempt_id m db a v found
        done (c, there, e, key) =
      let digest : IsDigest a.sha256 = rw (← e) (hexadecimal c) in
      let whole : verify env a.object_key a.sha256 files.store
          ≡ ok (destination a.sha256 files.store) =
        ap (λ k. verify env k a.sha256 files.store) key
        ∙ verify-there env a.sha256 c files.store digest there e in
      rw (v, download_stage_input) (rw found (rw done (rw whole refl)))
