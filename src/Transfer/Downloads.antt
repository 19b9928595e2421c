-- ===== src/Transfer/Downloads.antt =====
-- download_stage_sample and download_stage_input of src/umat/api/executor_routes.py.
use e_rakshak_umat.Prelude.{
  ℕ, Bool, true, false, not, ◌||◌, Option, none, some, List, [], ◌∷◌, ◌==◌, str_eq, if◌then◌else◌,
}
use e_rakshak_umat.Prelude.Tables.{get, scalar}
use e_rakshak_umat.Json.{Json, dict, fields, string, bool}
use e_rakshak_umat.Models.{platform_analysis, type_eq}
use e_rakshak_umat.Models.Rows.{
  Submission, AnalysisRun, AnalysisStage, Executor, Artifact, stage_entity, run_entity,
  submission_entity, request_entity,
}
use e_rakshak_umat.Environment.{Env, ◌<>◌}
use e_rakshak_umat.Database.{Db, ok, err}
use e_rakshak_umat.Storage.{ok, err, verify}
use e_rakshak_umat.Executors.Request.{Request}
use e_rakshak_umat.Executors.Request.Replay.{Mutation, verify_stage_mutation}
use e_rakshak_umat.Executors.Claim.Inputs.{is_finished, source_of}
use e_rakshak_umat.Transfer.{
  Sample, Files, Reply, raised, stop, system_entry, executor_entry, send, artifact_entity,
}

abbrev pub find_sample_of : List Sample → Option Submission → Option Sample
find_sample_of samples none = none
find_sample_of samples (some s) = scalar (λ x. str_eq x.sha256 s.sample_sha256) samples

abbrev pub submission_of : Db → Option AnalysisRun → Option Submission
submission_of db none = none
submission_of db (some run) = get run.submission_id db.submissions

unfoldable pub find_sample : AnalysisStage → Db → List Sample → Option Sample
find_sample stage db samples =
    if not (type_eq stage.stage_type platform_analysis)
    then none
    else find_sample_of samples (submission_of db (get stage.analysis_run_id db.runs))

abbrev pub send_sample :
    Env → Executor → Request → Mutation → Db → Files → Option Sample → Files × Reply
send_sample env executor rq m db files none = (files, raised 404 "sample input not found")
send_sample env executor rq m db files (some s) =
    send env rq m (dict (("sample_sha256", string s.sha256) ∷ []))
      (executor_entry env executor "sample.downloaded_by_executor" "sample" s.sha256
        (fields (("stage_id", string (env.str_uuid m.held.stage.id)) ∷ [])))
      (system_entry "sample.integrity_failed" "sample" s.sha256) ("sample-" <> s.sha256)
      "sample integrity verification failed" db files (verify env s.object_key s.sha256 files.store)

pub sample_json : Env → ℕ → ℕ → Json
sample_json env lease_id attempt_id = dict (
    ("lease_id", string (env.str_uuid lease_id))
    ∷ ("attempt_id", string (env.str_uuid attempt_id))
    ∷ ("sample", bool true)
    ∷ [])

unfoldable pub download_stage_sample : Env → Executor → Request → ℕ → ℕ → ℕ → Files → Files × Reply
unfolding sample_json
download_stage_sample env executor rq stage_id lease_id attempt_id files =
    elim (verify_stage_mutation env executor rq stage_id lease_id attempt_id
      (sample_json env lease_id attempt_id) files.db) [
        | err e ↦ (files, stop e)
        | ok (m, db) ↦
            send_sample env executor rq m db files (find_sample m.held.stage db files.samples)
      ]

abbrev is_own : ℕ → Option ℕ → Bool
is_own stage_id none = false
is_own stage_id (some i) = i == stage_id

-- an artifact of the run that another stage has made
unfoldable pub find_input : ℕ → AnalysisStage → Db → Option Artifact
find_input artifact_id stage db = elim (get artifact_id db.artifacts) [
  | none ↦ none
  | some a ↦
      if not (a.analysis_run_id == stage.analysis_run_id) || is_own stage.id a.stage_id
      then none
      else some a
]

abbrev pub is_complete : Option AnalysisStage → Bool
is_complete none = false
is_complete (some s) = is_finished s.state

abbrev pub send_input :
    Env → Executor → Request → Mutation → Db → Files → Option Artifact → Files × Reply
send_input env executor rq m db files none = (files, raised 404 "input artifact not found")
send_input env executor rq m db files (some a) =
    if not (is_complete (source_of db a.stage_id))
    then (files, raised 409 "input artifact stage is not complete")
    else send env rq m
        (dict (("artifact_id", string (env.str_uuid a.id)) ∷ ("sha256", string a.sha256) ∷ []))
        (executor_entry env executor "executor_input.downloaded" "artifact" (env.str_uuid a.id)
          (fields (("stage_id", string (env.str_uuid m.held.stage.id)) ∷ [])))
        (system_entry "executor_input.integrity_failed" "artifact" (env.str_uuid a.id))
        ("input-" <> env.str_uuid a.id) "input artifact integrity failed" db files
        (verify env a.object_key a.sha256 files.store)

pub input_json : Env → ℕ → ℕ → ℕ → Json
input_json env lease_id attempt_id artifact_id = dict (
    ("lease_id", string (env.str_uuid lease_id))
    ∷ ("attempt_id", string (env.str_uuid attempt_id))
    ∷ ("artifact_id", string (env.str_uuid artifact_id))
    ∷ [])

unfoldable pub download_stage_input :
    Env → Executor → Request → ℕ → ℕ → ℕ → ℕ → Files → Files × Reply
unfolding input_json
download_stage_input env executor rq stage_id artifact_id lease_id attempt_id files =
    elim (verify_stage_mutation env executor rq stage_id lease_id attempt_id
      (input_json env lease_id attempt_id artifact_id) files.db) [
        | err e ↦ (files, stop e)
        | ok (m, db) ↦
            send_input env executor rq m db files (find_input artifact_id m.held.stage db)
      ]
