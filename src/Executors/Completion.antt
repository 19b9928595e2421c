-- ===== src/Executors/Completion.antt =====
-- The routes complete_stage, fail_stage and cancellation_ack of src/umat/api/executor_routes.py.
use e_rakshak_umat.Prelude.{
  ℕ, String, Bool, not, ◌&&◌, Option, none, some, List, [], ◌∷◌, ltb, if◌then◌else◌,
}
use e_rakshak_umat.Prelude.Tables.{get}
use e_rakshak_umat.Json.{Json, dict, fields, string, bool, null, optional}
use e_rakshak_umat.Models.{
  StageState, AttemptState, cancelling, RunResult, platform_analysis, stage_state_of,
  stage_state_value, run_status_value, run_result_value, state_eq, status_eq, type_eq,
}
use e_rakshak_umat.Models.Rows.{AnalysisRun, AnalysisStage, Executor, run_entity, stage_entity}
use e_rakshak_umat.Environment.{Env}
use e_rakshak_umat.Database.{
  Db, Result, ok, http, Action, raise_if, require, lift, write, gets, ◌>>=◌, ◌>>◌,
}
use e_rakshak_umat.Audit.{Entry, append_audit}
use e_rakshak_umat.Executors.Request.{Request, Holding}
use e_rakshak_umat.Executors.Request.Replay.{mutation}
use e_rakshak_umat.Executors.Workflow.{
  set_run, set_stage, set_attempt, run_of, advance_workflow, finish_run, end_session, attempt_count,
  finish_cancellation,
}
use e_rakshak_umat.Executors.Expiry.{release, retry_or_fail}

pub record CompleteRequest : Type 0 where
  pub lease_id : ℕ
  pub attempt_id : ℕ
  pub outcome : String
  pub detail : Option String

complete_json : Env → CompleteRequest → Json
complete_json env b = dict (
    ("lease_id", string (env.str_uuid b.lease_id))
    ∷ ("attempt_id", string (env.str_uuid b.attempt_id))
    ∷ ("outcome", string b.outcome)
    ∷ ("detail", optional b.detail)
    ∷ [])

abbrev pub allowed_outcome : Option StageState → Result StageState
allowed_outcome none = http 500 "Internal Server Error"
allowed_outcome (some StageState.completed) = ok StageState.completed
allowed_outcome (some StageState.partial) = ok StageState.partial
allowed_outcome (some StageState.unsupported) = ok StageState.unsupported
allowed_outcome (some _) = http 422 "invalid completion outcome"

-- a ValueError of `StageState(outcome)` is not caught
unfoldable pub requested_outcome : String → Result StageState
requested_outcome outcome = allowed_outcome (stage_state_of outcome)

-- The attempt is over: its state, its end and the release of its lease.
unfoldable pub close_attempt : Holding → StageState → AttemptState → ℕ → String → Db → Db
close_attempt h stage_state attempt_state now reason db = release h.lease.id now reason (
    set_attempt h.attempt.id (λ a. record a { state = attempt_state; ended_at = some now })
      (set_stage h.stage.id (λ s. record s { state = stage_state }) db))

-- What a completed stage does to its run.
unfoldable pub apply_outcome : Env → ℕ → StageState → AnalysisRun → AnalysisStage → Db → Db
apply_outcome env now outcome run stage db =
    if state_eq outcome StageState.unsupported && type_eq stage.stage_type platform_analysis
    then finish_run run.id RunResult.unsupported db
    else if state_eq outcome StageState.partial
    then advance_workflow env now run stage
        (set_run run.id (λ r. record r { result = some RunResult.partial }) db)
    else advance_workflow env now run stage db

abbrev executor_entry : Env → Executor → String → AnalysisStage → List (String × Json) → Entry
executor_entry env executor action stage payload = record {
  actor_type = "executor";
  actor_id = some (env.str_uuid executor.id);
  action = action;
  target_type = "analysis_stage";
  target_id = some (env.str_uuid stage.id);
  payload = fields payload;
}

abbrev result_json : Option RunResult → Json
result_json none = null
result_json (some r) = string (run_result_value r)

abbrev run_status_json : Option AnalysisRun → Json
run_status_json none = null
run_status_json (some run) = string (run_status_value run.status)

abbrev run_result_json : Option AnalysisRun → Json
run_result_json none = null
run_result_json (some run) = result_json run.result

unfoldable pub complete_body : Env → Executor → ℕ → String → Holding → Action Json
complete_body env executor now outcome h = do
  requested ← lift (requested_outcome outcome)
  write (close_attempt h requested AttemptState.completed now "completed")
  run ← require (run_of h.stage) 409 "run missing"
  write (end_session run h.stage.stage_type "ended" "ended" now)
  write (apply_outcome env now requested run h.stage)
  append_audit env now (
      executor_entry env executor "stage.completed" h.stage
        (("outcome", string (stage_state_value requested)) ∷ []))
  gets (λ db. dict (
      ("stage_id", string (env.str_uuid h.stage.id))
      ∷ ("state", string (stage_state_value requested))
      ∷ ("run_status", run_status_json (run_of h.stage db))
      ∷ ("run_result", run_result_json (run_of h.stage db))
      ∷ []))

unfoldable pub complete_stage : Env → Executor → Request → ℕ → CompleteRequest → Action Json
unfolding complete_json
complete_stage env executor rq stage_id b =
    mutation env executor rq stage_id b.lease_id b.attempt_id (complete_json env b)
      (complete_body env executor rq.now b.outcome)

pub record FailRequest : Type 0 where
  pub lease_id : ℕ
  pub attempt_id : ℕ
  pub error_code : String
  pub detail : String
  pub retryable : Bool

fail_json : Env → FailRequest → Json
fail_json env b = dict (
    ("lease_id", string (env.str_uuid b.lease_id))
    ∷ ("attempt_id", string (env.str_uuid b.attempt_id))
    ∷ ("error_code", string b.error_code)
    ∷ ("detail", string b.detail)
    ∷ ("retryable", bool b.retryable)
    ∷ [])

-- the attempt and the stage carry the error
unfoldable pub note_failure : Holding → FailRequest → ℕ → Db → Db
note_failure h b now db =
    set_stage h.stage.id
      (λ s. record s { failure_code = some b.error_code; failure_detail = some b.detail })
      (release h.lease.id now "failed" (
        set_attempt h.attempt.id
          (λ a. record a {
            state = AttemptState.failed;
            error_code = some b.error_code;
            error_detail = some b.detail;
            ended_at = some now;
          })
          db))

abbrev pub fail_session : Option AnalysisRun → Bool → AnalysisStage → ℕ → Db → Db
fail_session none again stage now db = db
fail_session (some run) again stage now db =
    end_session run stage.stage_type (if again then "recovering" else "failed") "failed" now db

unfoldable pub fail_attempt : Holding → FailRequest → ℕ → Db → Db
unfolding note_failure
fail_attempt h b now db =
    let attempts = attempt_count h.stage.id db in
    let again = b.retryable && ltb attempts h.stage.max_attempts in
    retry_or_fail again h.stage (run_of h.stage db) attempts now
      (fail_session (run_of h.stage db) again h.stage now (note_failure h b now db))

abbrev retry_json : Env → Option AnalysisStage → Json
retry_json env none = null
retry_json env (some stage) = elim stage.next_attempt_at [
  | none ↦ null
  | some t ↦ string (env.isoformat t)
]

abbrev state_json : Option AnalysisStage → Json
state_json none = null
state_json (some stage) = string (stage_state_value stage.state)

unfoldable pub fail_body : Env → Executor → ℕ → FailRequest → Holding → Action Json
fail_body env executor now b h = do
  write (fail_attempt h b now)
  append_audit env now (
      executor_entry env executor "stage.failed" h.stage
        (("error_code", string b.error_code) ∷ ("retryable", bool b.retryable) ∷ []))
  gets (λ db. dict (
      ("stage_id", string (env.str_uuid h.stage.id))
      ∷ ("state", state_json (get h.stage.id db.stages))
      ∷ ("retry_at", retry_json env (get h.stage.id db.stages))
      ∷ []))

unfoldable pub fail_stage : Env → Executor → Request → ℕ → FailRequest → Action Json
unfolding fail_json
fail_stage env executor rq stage_id b =
    mutation env executor rq stage_id b.lease_id b.attempt_id (fail_json env b)
      (fail_body env executor rq.now b)

pub record CancellationAckRequest : Type 0 where
  pub lease_id : ℕ
  pub attempt_id : ℕ
  pub detail : Option String

ack_json : Env → CancellationAckRequest → Json
ack_json env b = dict (
    ("lease_id", string (env.str_uuid b.lease_id))
    ∷ ("attempt_id", string (env.str_uuid b.attempt_id))
    ∷ ("detail", optional b.detail)
    ∷ [])

unfoldable pub ack_body : Env → Executor → ℕ → Holding → Action Json
ack_body env executor now h = do
  run ← require (run_of h.stage) 409 "run is not cancelling"
  raise_if (not (status_eq run.status cancelling)) 409 "run is not cancelling"
  write (end_session run h.stage.stage_type "cancelled" "cancelled" now)
  write (close_attempt h StageState.cancelled AttemptState.cancelled now "cancelled")
  write (finish_cancellation run.id h.stage.id)
  append_audit env now (executor_entry env executor "stage.cancellation_acknowledged" h.stage [])
  gets (λ db. dict (
      ("stage_id", string (env.str_uuid h.stage.id))
      ∷ ("state", string (stage_state_value StageState.cancelled))
      ∷ ("run_status", run_status_json (run_of h.stage db))
      ∷ []))

unfoldable pub cancellation_ack :
    Env → Executor → Request → ℕ → CancellationAckRequest → Action Json
unfolding ack_json
cancellation_ack env executor rq stage_id b =
    mutation env executor rq stage_id b.lease_id b.attempt_id (ack_json env b)
      (ack_body env executor rq.now)
