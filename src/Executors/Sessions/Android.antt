-- ===== src/Executors/Sessions/Android.antt =====
-- android_session_ready, android_session_poll and android_session_complete_command of
-- src/umat/api/executor_routes.py.
use e_rakshak_umat.Prelude.{
  ℕ, suc, ◌+◌, ◌*◌, String, Bool, true, false, not, ◌&&◌, ◌||◌, Option, none, some, [], ◌∷◌, leb,
  ltb, ◌==◌, str_eq, if◌then◌else◌,
}
use e_rakshak_umat.Prelude.Tables.{get, scalar, first, update}
use e_rakshak_umat.Json.{Json, Fields, dict, obj, fields, string, num, bool, null, optional}
use e_rakshak_umat.Models.{android, platform_eq}
use e_rakshak_umat.Models.Rows.{AnalysisRun, Executor, run_entity}
use e_rakshak_umat.Models.Sessions.{
  AndroidDynamicSession, AndroidSessionCommand, android_session_entity, command_entity,
}
use e_rakshak_umat.Environment.{Env, seconds}
use e_rakshak_umat.Database.{Db, Action, pure, raise_if, require, write, gets, ◌>>=◌, ◌>>◌}
use e_rakshak_umat.Audit.{append_audit}
use e_rakshak_umat.Executors.Request.{Request, Holding}
use e_rakshak_umat.Executors.Request.Replay.{mutation}
use e_rakshak_umat.Executors.Workflow.{run_of}

pub record AndroidSessionReadyRequest : Type 0 where
  pub lease_id : ℕ
  pub attempt_id : ℕ
  pub scan_hash : String
  pub package_name : Option String
  pub main_activity : Option String
  pub guest_ip : Option String
  pub duration_seconds : ℕ

ready_json : Env → AndroidSessionReadyRequest → Json
ready_json env b = dict (
    ("lease_id", string (env.str_uuid b.lease_id))
    ∷ ("attempt_id", string (env.str_uuid b.attempt_id))
    ∷ ("scan_hash", string b.scan_hash)
    ∷ ("package_name", optional b.package_name)
    ∷ ("main_activity", optional b.main_activity)
    ∷ ("guest_ip", optional b.guest_ip)
    ∷ ("duration_seconds", num b.duration_seconds)
    ∷ [])

new_session : Holding → Executor → AndroidSessionReadyRequest → ℕ → ℕ → ℕ → AndroidDynamicSession
new_session h executor b run_id now id = record {
  id = id;
  analysis_run_id = run_id;
  stage_id = h.stage.id;
  attempt_id = h.attempt.id;
  executor_id = executor.id;
  state = "ready";
  scan_hash = b.scan_hash;
  package_name = b.package_name;
  main_activity = b.main_activity;
  guest_ip = b.guest_ip;
  expires_at = now + seconds b.duration_seconds;
  started_at = now;
  last_seen_at = now;
  ended_at = none;
  status_details = dict (("message", string "Interactive Android guest is ready") ∷ []);
}

abbrev ready_again :
    Holding
    → Executor
    → AndroidSessionReadyRequest
    → ℕ
    → AndroidDynamicSession
    → AndroidDynamicSession
ready_again h executor b now s = record s {
  state = "ready";
  stage_id = h.stage.id;
  attempt_id = h.attempt.id;
  executor_id = executor.id;
  scan_hash = b.scan_hash;
  package_name = b.package_name;
  main_activity = b.main_activity;
  guest_ip = b.guest_ip;
  expires_at = now + seconds b.duration_seconds;
  ended_at = none;
  last_seen_at = now;
}

unfoldable pub store_session :
    Holding
    → Executor
    → AndroidSessionReadyRequest
    → ℕ
    → ℕ
    → Option AndroidDynamicSession
    → Db
    → ℕ × Db
unfolding new_session
store_session h executor b run_id now none db = (
  db.next_id,
  record db {
    android_sessions = new_session h executor b run_id now db.next_id ∷ db.android_sessions;
    next_id = suc db.next_id;
  },
)
store_session h executor b run_id now (some session) db = (
  session.id,
  record db {
    android_sessions = update session.id (ready_again h executor b now) db.android_sessions;
  },
)

abbrev pub of_run : ℕ → AndroidDynamicSession → Bool
of_run run_id s = s.analysis_run_id == run_id

abbrev pub is_interactive : AnalysisRun → Bool
is_interactive run = platform_eq run.platform android && run.android_interactive

unfoldable pub ready_body : Env → Executor → ℕ → AndroidSessionReadyRequest → Holding → Action Json
ready_body env executor now b h = do
  run ← require (run_of h.stage) 409 "run is not interactive Android analysis"
  raise_if (not (is_interactive run)) 409 "run is not interactive Android analysis"
  session ← gets (λ db. scalar (of_run run.id) db.android_sessions)
  id ← (λ db.
      pure (store_session h executor b run.id now session db).0
        (store_session h executor b run.id now session db).1)
  let expiry = string (env.isoformat (now + seconds b.duration_seconds))
  append_audit env now (record {
    actor_type = "executor";
    actor_id = some (env.str_uuid executor.id);
    action = "android_session.ready";
    target_type = "android_dynamic_session";
    target_id = some (env.str_uuid id);
    payload =
        fields (("analysis_run_id", string (env.str_uuid run.id)) ∷ ("expires_at", expiry) ∷ []);
  })
  pure (dict (("session_id", string (env.str_uuid id)) ∷ ("expires_at", expiry) ∷ []))

unfoldable pub android_session_ready :
    Env → Executor → Request → ℕ → AndroidSessionReadyRequest → Action Json
unfolding ready_json
android_session_ready env executor rq stage_id b =
    mutation env executor rq stage_id b.lease_id b.attempt_id (ready_json env b)
      (ready_body env executor rq.now b)

pub record AndroidCommandPollRequest : Type 0 where
  pub lease_id : ℕ
  pub attempt_id : ℕ

poll_json : Env → AndroidCommandPollRequest → Json
poll_json env b = dict (
    ("lease_id", string (env.str_uuid b.lease_id))
    ∷ ("attempt_id", string (env.str_uuid b.attempt_id))
    ∷ [])

unfoldable pub poll_answer : Env → AndroidDynamicSession → Bool → Json → Json
poll_answer env s finalize command = dict (
    ("session_id", string (env.str_uuid s.id))
    ∷ ("finalize", bool finalize)
    ∷ ("command", command)
    ∷ [])

unfoldable pub command_json : Env → AndroidSessionCommand → Json
command_json env c = dict (
    ("id", string (env.str_uuid c.id))
    ∷ ("type", string c.command_type)
    ∷ ("payload", obj c.payload)
    ∷ [])

unfoldable pub is_over : ℕ → AndroidDynamicSession → Bool
is_over now s = leb s.expires_at now || str_eq s.state "finalizing" || str_eq s.state "expired"

abbrev finalizing : Bool → AndroidDynamicSession → AndroidDynamicSession
finalizing false s = s
finalizing true s = record s { state = "finalizing" }

abbrev see : ℕ → AndroidDynamicSession → Bool → Db → Db
see now s finalize db = record db {
  android_sessions =
      update s.id (λ x. finalizing finalize (record x { last_seen_at = now })) db.android_sessions;
}

abbrev claim_command : AndroidSessionCommand → ℕ → Db → Db
claim_command c now db = record db {
  commands = update c.id (λ x. record x { state = "running"; claimed_at = some now }) db.commands;
}

abbrev pub is_finalize : AndroidSessionCommand → Bool
is_finalize c = str_eq c.command_type "finalize"

-- the queued command of the session that was made first
unfoldable pub next_command : AndroidDynamicSession → Db → Option AndroidSessionCommand
next_command s db =
    first (λ a b. ltb a.created_at b.created_at)
      (λ c. c.session_id == s.id && str_eq c.state "queued") db.commands

unfoldable pub hand_command :
    Env → ℕ → AndroidDynamicSession → Option AndroidSessionCommand → Db → Json × Db
unfolding poll_answer command_json
hand_command env now s none db = (poll_answer env s false null, see now s false db)
hand_command env now s (some c) db = (
  poll_answer env s (is_finalize c) (command_json env c),
  see now s (is_finalize c) (claim_command c now db),
)

unfoldable pub poll_session : Env → ℕ → AndroidDynamicSession → Db → Json × Db
unfolding hand_command
poll_session env now s db =
    if is_over now s
    then (poll_answer env s true null, see now s true db)
    else hand_command env now s (next_command s db) db

unfoldable pub poll_body : Env → ℕ → Holding → Action Json
poll_body env now h = do
  session ←
      require (λ db. scalar (of_run h.stage.analysis_run_id) db.android_sessions) 409
        "interactive session is not registered"
  (λ db. pure (poll_session env now session db).0 (poll_session env now session db).1)

unfoldable pub android_session_poll :
    Env → Executor → Request → ℕ → AndroidCommandPollRequest → Action Json
unfolding poll_json
android_session_poll env executor rq stage_id b =
    mutation env executor rq stage_id b.lease_id b.attempt_id (poll_json env b)
      (poll_body env rq.now)

pub record AndroidCommandCompleteRequest : Type 0 where
  pub lease_id : ℕ
  pub attempt_id : ℕ
  pub command_id : ℕ
  pub success : Bool
  pub result : Fields

command_result_json : Env → AndroidCommandCompleteRequest → Json
command_result_json env b = dict (
    ("lease_id", string (env.str_uuid b.lease_id))
    ∷ ("attempt_id", string (env.str_uuid b.attempt_id))
    ∷ ("command_id", string (env.str_uuid b.command_id))
    ∷ ("success", bool b.success)
    ∷ ("result", obj b.result)
    ∷ [])

abbrev pub max_result_bytes : ℕ
max_result_bytes = 2 * 1024 * 1024

abbrev outcome : Bool → String
outcome success = if success then "completed" else "failed"

-- a running command of the session of the run, and a result of at most 2 MiB
unfoldable pub complete_command_body :
    Env → ℕ → AndroidCommandCompleteRequest → Holding → Action Json
complete_command_body env now b h = do
  command ← require (λ db. get b.command_id db.commands) 409 "Android session command is not active"
  session ←
      require (λ db. scalar (of_run h.stage.analysis_run_id) db.android_sessions) 409
        "Android session command is not active"
  raise_if (not (command.session_id == session.id) || not (str_eq command.state "running")) 409
      "Android session command is not active"
  raise_if (ltb max_result_bytes (env.byte_length (env.json_dumps (obj b.result)))) 413
      "command result is too large"
  write (λ db. record db {
    commands =
        update command.id
          (λ c. record c { state = outcome b.success; result = b.result; completed_at = some now })
          db.commands;
  })
  pure (
      dict (
        ("command_id", string (env.str_uuid command.id))
        ∷ ("state", string (outcome b.success))
        ∷ []))

unfoldable pub android_session_complete_command :
    Env → Executor → Request → ℕ → AndroidCommandCompleteRequest → Action Json
unfolding command_result_json
android_session_complete_command env executor rq stage_id b =
    mutation env executor rq stage_id b.lease_id b.attempt_id (command_result_json env b)
      (complete_command_body env rq.now b)
