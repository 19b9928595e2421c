-- ===== src/Protocol.antt =====
-- The control plane as a whole: the requests of executors and users and the turns of the scheduler
-- (process_once of src/umat/scheduler/worker.py), one after the other, each in its transaction. Each
-- kind of call is a route of src/umat/api/executor_routes.py, src/umat/api/case_routes.py or
-- src/umat/api/operations_routes.py.
pub mod Users
pub mod Executors
pub mod History
pub mod Laws
use e_rakshak_umat.Prelude.{ℕ, String, List, [], ◌∷◌}
use e_rakshak_umat.Json.{Json}
use e_rakshak_umat.Models.Rows.{Executor}
use e_rakshak_umat.Environment.{Env}
use e_rakshak_umat.Database.{Db, commit}
use e_rakshak_umat.Executors.Request.{Request}
use e_rakshak_umat.Executors.Registration.{
  RegisterExecutorRequest, register_executor, CapabilityRequest, publish_capabilities,
}
use e_rakshak_umat.Executors.Profiles.{
  claim_windows_profile_operation, WindowsProfileOperationCompleteRequest,
  complete_windows_profile_operation,
}
use e_rakshak_umat.Executors.Claim.{Draw, claim_stage}
use e_rakshak_umat.Executors.Claim.Fit.{ClaimRequest}
use e_rakshak_umat.Executors.Expiry.{expire_leases}
use e_rakshak_umat.Executors.Heartbeat.{HeartbeatRequest, heartbeat, NativeTaskRequest, native_task}
use e_rakshak_umat.Executors.Completion.{
  CompleteRequest, complete_stage, FailRequest, fail_stage, CancellationAckRequest,
  cancellation_ack,
}
use e_rakshak_umat.Executors.Sessions.Windows.{
  WindowsSessionReadyRequest, windows_session_ready, WindowsSessionPollRequest,
  windows_session_poll,
}
use e_rakshak_umat.Executors.Sessions.Android.{
  AndroidSessionReadyRequest, android_session_ready, AndroidCommandPollRequest,
  android_session_poll, AndroidCommandCompleteRequest, android_session_complete_command,
}
use e_rakshak_umat.Runs.{Principal, confirm_run, cancel_run, retry_run}

-- a route on a stage, with its body
pub data StageCall : Type 0 where
  beat : HeartbeatRequest → StageCall
  record_native_task : NativeTaskRequest → StageCall
  complete : CompleteRequest → StageCall
  fail : FailRequest → StageCall
  acknowledge : CancellationAckRequest → StageCall
  windows_ready : WindowsSessionReadyRequest → StageCall
  windows_poll : WindowsSessionPollRequest → StageCall
  android_ready : AndroidSessionReadyRequest → StageCall
  android_poll : AndroidCommandPollRequest → StageCall
  android_complete_command : AndroidCommandCompleteRequest → StageCall

pub data Call : Type 0 where
  register : ℕ → String → RegisterExecutorRequest → Call
  publish_snapshot : Executor → ℕ → CapabilityRequest → Call
  claim_operation : Executor → ℕ → String → Call
  complete_operation : Executor → Request → ℕ → WindowsProfileOperationCompleteRequest → Call
  claim : Executor → ClaimRequest → Draw → Call
  on_stage : Executor → Request → ℕ → StageCall → Call
  expire : ℕ → Call
  confirm : Principal → ℕ → ℕ → Call
  cancel : Principal → ℕ → ℕ → Call
  retry : Principal → ℕ → ℕ → String → Call

unfoldable pub stage_step : Env → Executor → Request → ℕ → StageCall → Db → Db
stage_step env executor rq stage_id (StageCall.beat b) =
    commit (heartbeat env executor rq stage_id b)
stage_step env executor rq stage_id (StageCall.record_native_task b) =
    commit (native_task env executor rq stage_id b)
stage_step env executor rq stage_id (StageCall.complete b) =
    commit (complete_stage env executor rq stage_id b)
stage_step env executor rq stage_id (StageCall.fail b) =
    commit (fail_stage env executor rq stage_id b)
stage_step env executor rq stage_id (StageCall.acknowledge b) =
    commit (cancellation_ack env executor rq stage_id b)
stage_step env executor rq stage_id (StageCall.windows_ready b) =
    commit (windows_session_ready env executor rq stage_id b)
stage_step env executor rq stage_id (StageCall.windows_poll b) =
    commit (windows_session_poll env executor rq stage_id b)
stage_step env executor rq stage_id (StageCall.android_ready b) =
    commit (android_session_ready env executor rq stage_id b)
stage_step env executor rq stage_id (StageCall.android_poll b) =
    commit (android_session_poll env executor rq stage_id b)
stage_step env executor rq stage_id (StageCall.android_complete_command b) =
    commit (android_session_complete_command env executor rq stage_id b)

unfoldable pub step : Env → Call → Db → Db
unfolding stage_step
step env (Call.register now credential body) = commit (register_executor env now credential body)
step env (Call.publish_snapshot executor now body) =
    commit (publish_capabilities env executor now body)
step env (Call.claim_operation executor now token) =
    commit (claim_windows_profile_operation env executor now token)
step env (Call.complete_operation executor rq operation_id b) =
    commit (complete_windows_profile_operation env executor rq operation_id b)
step env (Call.claim executor body draw) = commit (claim_stage env executor body draw)
step env (Call.on_stage executor rq stage_id call) = stage_step env executor rq stage_id call
step env (Call.expire now) = λ db. (expire_leases env now db).0
step env (Call.confirm p now run_id) = commit (confirm_run env p now run_id)
step env (Call.cancel p now run_id) = commit (cancel_run env p now run_id)
step env (Call.retry p now run_id reason) = commit (retry_run env p now run_id reason)

-- the database after the calls of a history
unfoldable pub after_calls : Env → List Call → Db → Db
unfolding step
after_calls env [] db = db
after_calls env (c ∷ cs) db = after_calls env cs (step env c db)
