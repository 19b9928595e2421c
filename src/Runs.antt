-- ===== src/Runs.antt =====
-- What a user may do to a run: accessible_case, owned_run, create_platform_stage, confirm_run and
-- cancel_run of src/umat/api/case_routes.py, retry_eligible and retry_run of
-- src/umat/api/operations_routes.py, and Principal of src/umat/auth/dependencies.py.
pub mod Laws
use e_rakshak_umat.Prelude.{
  ℕ, suc, ◌+◌, String, Bool, true, false, not, ◌&&◌, ◌||◌, Option, none, some, List, [], ◌∷◌, ◌==◌,
  contains, if◌then◌else◌,
}
use e_rakshak_umat.Prelude.Tables.{get, count, update_where}
use e_rakshak_umat.Json.{Fields, fields, string, num, end}
use e_rakshak_umat.Models.{
  RunStatus, awaiting_confirmation, terminal, RunResult, StageState, platform_analysis, status_eq,
  run_status_value, run_result_value,
}
use e_rakshak_umat.Models.Rows.{Case, AnalysisRun, AnalysisStage, case_entity, run_entity}
use e_rakshak_umat.Environment.{Env}
use e_rakshak_umat.Database.{Db, Action, pure, raise_if, require, write, gets, new_id, ◌>>=◌, ◌>>◌}
use e_rakshak_umat.Audit.{Entry, append_audit}
use e_rakshak_umat.Executors.Workflow.{
  set_run, add_stage, queued_stage, finish_run, is_held, is_pending,
}

pub record Principal : Type 0 where
  pub user_id : ℕ
  pub roles : List String

abbrev pub is_staff : Principal → Bool
is_staff p = contains "analyst" p.roles || contains "administrator" p.roles

abbrev pub can_access_case : Principal → Case → Bool
can_access_case p c = is_staff p || c.owner_user_id == p.user_id

unfoldable pub accessible_case : Principal → ℕ → Action Case
accessible_case p case_id = do
  c ← require (λ db. get case_id db.cases) 404 "case not found"
  raise_if (not (can_access_case p c)) 404 "case not found"
  pure c

unfoldable pub owned_run : Principal → ℕ → Action AnalysisRun
owned_run p run_id = do
  run ← require (λ db. get run_id db.runs) 404 "analysis run not found"
  case' ← accessible_case p run.case_id
  pure run

-- the queued platform analysis that a run starts with
abbrev pub create_platform_stage : Env → ℕ → ℕ → Db → Db
create_platform_stage env now run_id = add_stage (queued_stage env now run_id platform_analysis)

pub record RunActionResponse : Type 0 where
  pub analysis_run_id : ℕ
  pub status : String
  pub result : Option String

abbrev result_value : Option RunResult → Option String
result_value none = none
result_value (some r) = some (run_result_value r)

abbrev pub run_answer : ℕ → RunStatus → Option RunResult → RunActionResponse
run_answer run_id status result = record {
  analysis_run_id = run_id;
  status = run_status_value status;
  result = result_value result;
}

abbrev user_entry : Env → Principal → String → ℕ → Fields → Entry
user_entry env p action run_id payload = record {
  actor_type = "user";
  actor_id = some (env.str_uuid p.user_id);
  action = action;
  target_type = "analysis_run";
  target_id = some (env.str_uuid run_id);
  payload = payload;
}

abbrev pub confirmed : ℕ → AnalysisRun → AnalysisRun
confirmed now r = record r { status = RunStatus.queued; confirmed_at = some now }

unfoldable pub confirm : Env → Principal → ℕ → AnalysisRun → Action RunActionResponse
confirm env p now run = do
  write (set_run run.id (confirmed now))
  write (create_platform_stage env now run.id)
  append_audit env now (user_entry env p "duplicate.confirmed" run.id end)
  pure (run_answer run.id RunStatus.queued run.result)

abbrev pub is_started : RunStatus → Bool
is_started RunStatus.queued = true
is_started RunStatus.running = true
is_started _ = false

abbrev pub keep_started : AnalysisRun → Action RunActionResponse
keep_started run = do
  raise_if (not (is_started run.status)) 409 "run can no longer be confirmed"
  pure (run_answer run.id run.status run.result)

unfoldable pub confirm_run : Env → Principal → ℕ → ℕ → Action RunActionResponse
unfolding confirm
confirm_run env p now run_id = do
  run ← owned_run p run_id
  if status_eq run.status awaiting_confirmation then confirm env p now run else keep_started run

-- the stages of a run that an executor holds
abbrev pub held_by_run : ℕ → AnalysisStage → Bool
held_by_run run_id s = s.analysis_run_id == run_id && is_held s.state

abbrev pub pending_of_run : ℕ → AnalysisStage → Bool
pending_of_run run_id s = s.analysis_run_id == run_id && is_pending s.state

-- A run with a held stage waits for its executor; any other ends at once.
unfoldable pub stop : ℕ → Db → Db
stop run_id db =
    if not (count (held_by_run run_id) db.stages == 0)
    then set_run run_id (λ r. record r { status = RunStatus.cancelling }) db
    else finish_run run_id RunResult.cancelled (record db {
      stages =
          update_where (pending_of_run run_id) (λ s. record s { state = StageState.cancelled })
            db.stages;
    })

abbrev pub request_cancellation : ℕ → AnalysisRun → AnalysisRun
request_cancellation now r = record r { cancellation_requested_at = some now }

abbrev run_state : Option AnalysisRun → ℕ → RunActionResponse
run_state none run_id = run_answer run_id terminal none
run_state (some r) run_id = run_answer run_id r.status r.result

unfoldable pub cancel : Env → Principal → ℕ → AnalysisRun → Action RunActionResponse
cancel env p now run = do
  active ← gets (λ db. count (held_by_run run.id) db.stages)
  write (set_run run.id (request_cancellation now))
  write (stop run.id)
  append_audit env now (
      user_entry env p "run.cancellation_requested" run.id
        (fields (("active_stage_count", num active) ∷ [])))
  gets (λ db. run_state (get run.id db.runs) run.id)

unfoldable pub cancel_run : Env → Principal → ℕ → ℕ → Action RunActionResponse
unfolding cancel
cancel_run env p now run_id = do
  run ← owned_run p run_id
  if status_eq run.status terminal
      then pure (run_answer run.id run.status run.result)
      else cancel env p now run

abbrev is_retryable : Option RunResult → Bool
is_retryable (some RunResult.partial) = true
is_retryable (some RunResult.inconclusive) = true
is_retryable (some RunResult.failed) = true
is_retryable (some RunResult.cancelled) = true
is_retryable (some RunResult.unsupported) = true
is_retryable (some RunResult.completed) = false
is_retryable none = false

unfoldable pub retry_eligible : AnalysisRun → Bool
retry_eligible run = status_eq run.status terminal && is_retryable run.result

-- a new run of the same submission with the same choices
unfoldable pub retried_run : AnalysisRun → ℕ → ℕ → AnalysisRun
retried_run source now id = record source {
  id = id;
  status = RunStatus.queued;
  result = none;
  confirmed_at = some now;
  cancellation_requested_at = none;
}

-- the profile snapshot of a run, copied to another
abbrev pub copy_configuration : ℕ → ℕ → List (ℕ × Fields) → List (ℕ × Fields) → List (ℕ × Fields)
copy_configuration source_id id [] all = all
copy_configuration source_id id ((i, f) ∷ r) all =
    if i == source_id then (id, f) ∷ all else copy_configuration source_id id r all

-- `reason` has been stripped
unfoldable pub retry_run : Env → Principal → ℕ → ℕ → String → Action ℕ
unfolding retried_run
retry_run env p now run_id reason = do
  raise_if (not (is_staff p)) 403 "insufficient role"
  source ← require (λ db. get run_id db.runs) 404 "analysis run not found"
  case' ← accessible_case p source.case_id
  raise_if (not (retry_eligible source)) 409
      "only terminal unsuccessful runs are eligible for retry"
  id ← new_id
  write (λ db. record db {
    runs = retried_run source now id ∷ db.runs;
    configurations = copy_configuration source.id id db.configurations db.configurations;
  })
  write (create_platform_stage env now id)
  append_audit env now (
      user_entry env p "run.retry_created" id (
        fields
          (("source_run_id", string (env.str_uuid source.id)) ∷ ("reason", string reason) ∷ [])))
  pure id
