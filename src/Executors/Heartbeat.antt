-- ===== src/Executors/Heartbeat.antt =====
-- The routes heartbeat and native_task of src/umat/api/executor_routes.py.
use e_rakshak_umat.Prelude.{
  ℕ, ◌+◌, String, Bool, true, false, not, ◌||◌, Option, none, some, [], ◌∷◌, leb, str_eq, ◌==◌,
  if◌then◌else◌,
}
use e_rakshak_umat.Prelude.Tables.{scalar, update}
use e_rakshak_umat.Json.{Json, Fields, dict, obj, fields, string, bool, null}
use e_rakshak_umat.Models.{StageState, AttemptState, cancelling, status_eq}
use e_rakshak_umat.Models.Rows.{
  AnalysisRun, AnalysisStage, AnalysisAttempt, ExecutorLease, Executor, BackendTask,
  executor_entity, run_entity, stage_entity, attempt_entity, lease_entity,
}
use e_rakshak_umat.Environment.{Env, seconds}
use e_rakshak_umat.Database.{Db, ok, Action, pure, raise_if, write, gets, new_id, ◌>>=◌, ◌>>◌}
use e_rakshak_umat.Audit.{Entry, append_audit}
use e_rakshak_umat.Executors.Request.{Request, Holding}
use e_rakshak_umat.Executors.Request.Replay.{mutation}
use e_rakshak_umat.Executors.Workflow.{set_stage, set_attempt, set_lease, run_of}
use e_rakshak_umat.Executors.Expiry.{deadline, expire_attempt, log}

pub record HeartbeatRequest : Type 0 where
  pub lease_id : ℕ
  pub attempt_id : ℕ
  pub state : String

heartbeat_json : Env → HeartbeatRequest → Json
heartbeat_json env b = dict (
    ("lease_id", string (env.str_uuid b.lease_id))
    ∷ ("attempt_id", string (env.str_uuid b.attempt_id))
    ∷ ("state", string b.state)
    ∷ [])

abbrev lease_expiry : Env → ℕ → ℕ
lease_expiry env now = now + seconds env.settings.lease_ttl_seconds

abbrev pub extend_lease : Env → ExecutorLease → ℕ → Db → Db
extend_lease env lease now =
    set_lease lease.id λ l. record l { last_heartbeat_at = now; expires_at = lease_expiry env now }

abbrev heartbeat_answer : Env → ℕ → Json → Json
heartbeat_answer env expiry stop =
    dict (("lease_expires_at", string (env.isoformat expiry)) ∷ ("stop_requested", stop) ∷ [])

abbrev pub is_cancelling : Option AnalysisRun → Bool
is_cancelling none = false
is_cancelling (some run) = status_eq run.status cancelling

abbrev timeout_entry : Env → AnalysisStage → AnalysisAttempt → Entry
timeout_entry env stage attempt = record {
  actor_type = "system";
  actor_id = some "scheduler";
  action = "stage.timed_out";
  target_type = "analysis_stage";
  target_id = some (env.str_uuid stage.id);
  payload =
      fields
        (("attempt_id", string (env.str_uuid attempt.id)) ∷ ("source", string "heartbeat") ∷ []);
}

-- the stage and its attempt are running, and the executor has been seen
unfoldable pub keep_running : Env → Executor → ℕ → Holding → Db → Db
keep_running env executor now h db =
    let beaten =
      set_attempt h.attempt.id (λ a. record a { state = AttemptState.running })
        (set_stage h.stage.id (λ s. record s { state = StageState.running })
          (extend_lease env h.lease now db)) in
    record beaten {
      executors = update executor.id (λ x. record x { last_seen_at = some now }) beaten.executors;
    }

unfoldable pub time_out : Env → ℕ → Holding → Db → Db
time_out env now h db =
    log env now (timeout_entry env h.stage h.attempt)
      (expire_attempt h.lease h.attempt h.stage now "timeout" db)

unfoldable pub beat : Env → Executor → ℕ → Holding → Db → Json × Db
unfolding keep_running time_out
beat env executor now h db =
    if is_cancelling (run_of h.stage db)
    then (
      heartbeat_answer env (lease_expiry env now) (string "cancelled"),
      extend_lease env h.lease now db,
    )
    else if leb (deadline h.attempt h.stage) now
    then (heartbeat_answer env now (string "timeout"), time_out env now h db)
    else (heartbeat_answer env (lease_expiry env now) null, keep_running env executor now h db)

abbrev pub beat_action : Env → Executor → ℕ → Holding → Action Json
beat_action env executor now h db = ok (beat env executor now h db)

unfoldable pub heartbeat : Env → Executor → Request → ℕ → HeartbeatRequest → Action Json
unfolding heartbeat_json
heartbeat env executor rq stage_id b =
    mutation env executor rq stage_id b.lease_id b.attempt_id (heartbeat_json env b)
      (beat_action env executor rq.now)

pub record NativeTaskRequest : Type 0 where
  pub lease_id : ℕ
  pub attempt_id : ℕ
  pub task_type : String
  pub native_task_id : String
  pub recovery_metadata : Fields

native_json : Env → NativeTaskRequest → Json
native_json env b = dict (
    ("lease_id", string (env.str_uuid b.lease_id))
    ∷ ("attempt_id", string (env.str_uuid b.attempt_id))
    ∷ ("task_type", string b.task_type)
    ∷ ("native_task_id", string b.native_task_id)
    ∷ ("recovery_metadata", obj b.recovery_metadata)
    ∷ [])

abbrev pub task_answer : Env → ℕ → Bool → Json
task_answer env id recovered =
    dict (("backend_task_id", string (env.str_uuid id)) ∷ ("recovered", bool recovered) ∷ [])

unfoldable pub add_task : Env → Executor → ℕ → ℕ → NativeTaskRequest → Action Json
add_task env executor now stage_id b = do
  id ← new_id
  let task : BackendTask = record {
    id = id;
    stage_id = stage_id;
    attempt_id = b.attempt_id;
    executor_id = executor.id;
    task_type = b.task_type;
    native_task_id = b.native_task_id;
    recovery_metadata = b.recovery_metadata;
    created_at = now;
  }
  write (λ db. record db { tasks = task ∷ db.tasks })
  append_audit env now (record {
    actor_type = "executor";
    actor_id = some (env.str_uuid executor.id);
    action = "native_task.recorded";
    target_type = "analysis_stage";
    target_id = some (env.str_uuid stage_id);
    payload =
        fields
          (("task_type", string b.task_type) ∷ ("native_task_id", string b.native_task_id) ∷ []);
  })
  pure (task_answer env id false)

-- one native task for a stage: the same one again is recovered, another is refused
unfoldable pub record_task :
    Env → Executor → ℕ → ℕ → NativeTaskRequest → Option BackendTask → Action Json
unfolding add_task
record_task env executor now stage_id b (some existing) = do
  raise_if
      (not (str_eq existing.native_task_id b.native_task_id)
        || not (str_eq existing.task_type b.task_type))
      409 "stage already has another native task"
  pure (task_answer env existing.id true)
record_task env executor now stage_id b none = add_task env executor now stage_id b

unfoldable pub native_task_body : Env → Executor → ℕ → ℕ → NativeTaskRequest → Action Json
native_task_body env executor now stage_id b = do
  existing ← gets (λ db. scalar (λ t. t.stage_id == stage_id) db.tasks)
  record_task env executor now stage_id b existing

unfoldable pub native_task : Env → Executor → Request → ℕ → NativeTaskRequest → Action Json
unfolding native_json
native_task env executor rq stage_id b =
    mutation env executor rq stage_id b.lease_id b.attempt_id (native_json env b)
      (λ h. native_task_body env executor rq.now stage_id b)
