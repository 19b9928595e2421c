-- ===== src/Executors/Sessions/Windows.antt =====
-- windows_session_ready and windows_session_poll of src/umat/api/executor_routes.py.
use e_rakshak_umat.Prelude.{
  ℕ, suc, ◌+◌, min, String, Bool, false, not, ◌&&◌, ◌||◌, Option, none, some, [], ◌∷◌, leb, ◌==◌,
  str_eq, if◌then◌else◌,
}
use e_rakshak_umat.Prelude.Tables.{scalar, update}
use e_rakshak_umat.Json.{Json, dict, fields, string, num, bool}
use e_rakshak_umat.Models.{windows, platform_eq}
use e_rakshak_umat.Models.Rows.{AnalysisRun, Executor, run_entity}
use e_rakshak_umat.Models.Sessions.{WindowsDynamicSession, windows_session_entity}
use e_rakshak_umat.Environment.{Env, seconds}
use e_rakshak_umat.Database.{Db, Action, pure, raise_if, require, write, gets, ◌>>=◌, ◌>>◌}
use e_rakshak_umat.Audit.{append_audit}
use e_rakshak_umat.Executors.Request.{Request, Holding}
use e_rakshak_umat.Executors.Request.Replay.{mutation}
use e_rakshak_umat.Executors.Workflow.{run_of}

pub record WindowsSessionReadyRequest : Type 0 where
  pub lease_id : ℕ
  pub attempt_id : ℕ
  pub cape_task_id : ℕ
  pub machine_label : String
  pub console_url : String
  pub duration_seconds : ℕ

ready_json : Env → WindowsSessionReadyRequest → Json
ready_json env b = dict (
    ("lease_id", string (env.str_uuid b.lease_id))
    ∷ ("attempt_id", string (env.str_uuid b.attempt_id))
    ∷ ("cape_task_id", num b.cape_task_id)
    ∷ ("machine_label", string b.machine_label)
    ∷ ("console_url", string b.console_url)
    ∷ ("duration_seconds", num b.duration_seconds)
    ∷ [])

abbrev pub is_manual : AnalysisRun → Bool
is_manual run = platform_eq run.platform windows && run.windows_interactive

-- A task that is registered again never gets a longer window.
abbrev pub window_end : Option WindowsDynamicSession → ℕ → ℕ → ℕ
window_end none cape_task_id proposed = proposed
window_end (some session) cape_task_id proposed =
    if session.cape_task_id == cape_task_id then min session.expires_at proposed else proposed

abbrev pub session_values :
    Holding
    → Executor
    → WindowsSessionReadyRequest
    → ℕ
    → ℕ
    → WindowsDynamicSession
    → WindowsDynamicSession
session_values h executor b now expires_at s = record s {
  stage_id = h.stage.id;
  attempt_id = h.attempt.id;
  executor_id = executor.id;
  state = "ready";
  cape_task_id = b.cape_task_id;
  machine_label = b.machine_label;
  console_url = b.console_url;
  expires_at = expires_at;
  ended_at = none;
  last_seen_at = now;
  status_details = dict (("message", string "Live CAPE console is ready") ∷ []);
}

new_session :
    Holding → Executor → WindowsSessionReadyRequest → ℕ → ℕ → ℕ → ℕ → WindowsDynamicSession
new_session h executor b run_id now expires_at id = record {
  id = id;
  analysis_run_id = run_id;
  stage_id = h.stage.id;
  attempt_id = h.attempt.id;
  executor_id = executor.id;
  state = "ready";
  cape_task_id = b.cape_task_id;
  machine_label = b.machine_label;
  console_url = b.console_url;
  expires_at = expires_at;
  started_at = now;
  last_seen_at = now;
  ended_at = none;
  status_details = dict (("message", string "Live CAPE console is ready") ∷ []);
}

-- the session of the run, and its key
unfoldable pub store_session :
    Holding
    → Executor
    → WindowsSessionReadyRequest
    → ℕ
    → ℕ
    → Option WindowsDynamicSession
    → Db
    → ℕ × Db
unfolding new_session
store_session h executor b run_id now none db = (
  db.next_id,
  record db {
    windows_sessions =
        new_session h executor b run_id now
          (window_end none b.cape_task_id (now + seconds b.duration_seconds)) db.next_id
        ∷ db.windows_sessions;
    next_id = suc db.next_id;
  },
)
store_session h executor b run_id now (some session) db = (
  session.id,
  record db {
    windows_sessions =
        update session.id
          (session_values h executor b now
            (window_end (some session) b.cape_task_id (now + seconds b.duration_seconds)))
          db.windows_sessions;
  },
)

abbrev pub of_run : ℕ → WindowsDynamicSession → Bool
of_run run_id s = s.analysis_run_id == run_id

unfoldable pub ready_body : Env → Executor → ℕ → WindowsSessionReadyRequest → Holding → Action Json
ready_body env executor now b h = do
  run ← require (run_of h.stage) 409 "run is not manual Windows analysis"
  raise_if (not (is_manual run)) 409 "run is not manual Windows analysis"
  task ←
      require (λ db. scalar (λ t. t.stage_id == h.stage.id) db.tasks) 409
        "CAPE task does not belong to this stage"
  raise_if
      (not (str_eq task.task_type "cape")
        || not (str_eq task.native_task_id (env.str_value (num b.cape_task_id))))
      409 "CAPE task does not belong to this stage"
  session ← gets (λ db. scalar (of_run run.id) db.windows_sessions)
  let expires_at = window_end session b.cape_task_id (now + seconds b.duration_seconds)
  id ← (λ db.
      pure (store_session h executor b run.id now session db).0
        (store_session h executor b run.id now session db).1)
  append_audit env now (record {
    actor_type = "executor";
    actor_id = some (env.str_uuid executor.id);
    action = "windows_session.ready";
    target_type = "windows_dynamic_session";
    target_id = some (env.str_uuid id);
    payload = fields (
        ("analysis_run_id", string (env.str_uuid run.id))
        ∷ ("cape_task_id", num b.cape_task_id)
        ∷ ("machine_label", string b.machine_label)
        ∷ ("expires_at", string (env.isoformat expires_at))
        ∷ []);
  })
  pure (
      dict (
        ("session_id", string (env.str_uuid id))
        ∷ ("expires_at", string (env.isoformat expires_at))
        ∷ []))

unfoldable pub windows_session_ready :
    Env → Executor → Request → ℕ → WindowsSessionReadyRequest → Action Json
unfolding ready_json
windows_session_ready env executor rq stage_id b =
    mutation env executor rq stage_id b.lease_id b.attempt_id (ready_json env b)
      (ready_body env executor rq.now b)

pub record WindowsSessionPollRequest : Type 0 where
  pub lease_id : ℕ
  pub attempt_id : ℕ

poll_json : Env → WindowsSessionPollRequest → Json
poll_json env b = dict (
    ("lease_id", string (env.str_uuid b.lease_id))
    ∷ ("attempt_id", string (env.str_uuid b.attempt_id))
    ∷ [])

abbrev pub wants_finalize : ℕ → Option WindowsDynamicSession → Bool
wants_finalize now none = false
wants_finalize now (some s) = str_eq s.state "finalizing" || leb s.expires_at now

abbrev seen_session : Bool → ℕ → WindowsDynamicSession → WindowsDynamicSession
seen_session finalize now s = record s {
  last_seen_at = now;
  state = if finalize then "finalizing" else s.state;
}

abbrev pub touch : Option WindowsDynamicSession → Bool → ℕ → Db → Db
touch none finalize now db = db
touch (some s) finalize now db = record db {
  windows_sessions = update s.id (seen_session finalize now) db.windows_sessions;
}

unfoldable pub poll_body : ℕ → Holding → Action Json
poll_body now h = do
  session ← gets (λ db. scalar (of_run h.stage.analysis_run_id) db.windows_sessions)
  write (touch session (wants_finalize now session) now)
  pure (dict (("finalize", bool (wants_finalize now session)) ∷ []))

unfoldable pub windows_session_poll :
    Env → Executor → Request → ℕ → WindowsSessionPollRequest → Action Json
unfolding poll_json
windows_session_poll env executor rq stage_id b =
    mutation env executor rq stage_id b.lease_id b.attempt_id (poll_json env b) (poll_body rq.now)
