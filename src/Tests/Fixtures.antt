-- ===== src/Tests/Fixtures.antt =====
-- A runtime whose digests are the identity, and a database with one run and one queued stage.
use e_rakshak_umat.Prelude.{true, false, none, some, [], ◌∷◌, arith}
use e_rakshak_umat.Prelude.Tables.{get, count}
use e_rakshak_umat.Json.{fields, string, bool, arr, texts, end}
use e_rakshak_umat.Models.{
  windows, platform_analysis, StageState, RunStatus, AttemptState, ExecutorStatus,
}
use e_rakshak_umat.Models.Rows.{
  Case, AnalysisRun, AnalysisStage, AnalysisAttempt, ExecutorLease, Executor,
  BackendCapabilitySnapshot, stage_entity, lease_entity,
}
use e_rakshak_umat.Environment.{Env, Settings, aware, policy_for_stage}
use e_rakshak_umat.Database.{Db}
use e_rakshak_umat.Executors.Request.{Request}
use e_rakshak_umat.Executors.Custody.{GrantsAttempts, Custody}
use e_rakshak_umat.Executors.Custody.Invariant.{Invariant}

abbrev pub defaults : Settings
defaults = record {
  lease_ttl_seconds = 60;
  default_stage_max_attempts = 3;
  default_stage_timeout_seconds = 600;
  stage_max_attempts = [];
  stage_timeout_seconds = [];
}

abbrev pub runtime : Env
runtime = record {
  sha256 = λ s. s;
  canonical_json = λ j. "{}";
  json_dumps = λ j. "{}";
  upper = λ s. s;
  zulu_to_offset = λ s. s;
  fromisoformat = λ s. some (aware 0);
  isoformat = λ n. "1970-01-01";
  str_uuid = λ n. "id";
  str_value = λ j. "1";
  b64decode = λ s. some s;
  byte_length = λ s. 32;
  ed25519_verify = λ key signature message. true;
  settings = defaults;
}

abbrev pub windows_run : AnalysisRun
windows_run = record {
  id = 1;
  case_id = 4;
  submission_id = 5;
  platform = windows;
  status = RunStatus.queued;
  result = none;
  network_mode = "isolated";
  c2_analysis_enabled = true;
  android_interactive = false;
  windows_interactive = true;
  confirmed_at = some 0;
  cancellation_requested_at = none;
}

abbrev pub analysis : AnalysisStage
analysis = record {
  id = 2;
  analysis_run_id = 1;
  stage_type = platform_analysis;
  state = StageState.queued;
  priority = 0;
  max_attempts = 3;
  next_attempt_at = none;
  timeout_seconds = 600;
  failure_code = none;
  failure_detail = none;
  created_at = 0;
}

abbrev pub worker : Executor
worker = record {
  id = 3;
  name = "worker";
  executor_type = "windows";
  status = ExecutorStatus.active;
  public_key = "key";
  supported_stage_types = "platform_analysis" ∷ [];
  metadata_json = end;
  last_seen_at = none;
}

abbrev pub case_file : Case
case_file = record { id = 4; owner_user_id = 7 }

abbrev pub published : BackendCapabilitySnapshot
published = record {
  id = 6;
  executor_id = 3;
  runtime_identity = "cape";
  schema_version = "1";
  capabilities = fields (
      ("platforms", arr (texts ("windows" ∷ [])))
      ∷ ("cape_native", bool true)
      ∷ ("handoff_schema", string "1.0")
      ∷ []);
  captured_at = 0;
}

abbrev pub queued_db : Db
queued_db = record {
  cases = case_file ∷ [];
  submissions =
      record {
        id = 5;
        case_id = 4;
        uploader_user_id = 7;
        sample_sha256 = "sample";
        original_filename = "sample.exe";
      }
      ∷ [];
  runs = windows_run ∷ [];
  stages = analysis ∷ [];
  executors = worker ∷ [];
  credentials = [];
  requests = [];
  enrollments = [];
  attempts = [];
  leases = [];
  tasks = [];
  snapshots = published ∷ [];
  artifacts = [];
  windows_sessions = [];
  android_sessions = [];
  commands = [];
  profiles = [];
  operations = [];
  reports = [];
  configurations = [];
  audit = [];
  next_id = 10;
}

-- the stage once it is leased
abbrev pub leased : AnalysisStage
leased = record analysis { state = StageState.leased }

abbrev pub attempt : AnalysisAttempt
attempt = record {
  id = 10;
  stage_id = 2;
  executor_id = 3;
  attempt_number = 1;
  state = AttemptState.leased;
  error_code = none;
  error_detail = none;
  started_at = 0;
  ended_at = none;
}

abbrev pub lease : ExecutorLease
lease = record {
  id = 11;
  stage_id = 2;
  attempt_id = 10;
  executor_id = 3;
  token_hash = "token";
  expires_at = 60000000;
  last_heartbeat_at = 0;
  released_at = none;
  release_reason = none;
}

abbrev pub leased_db : Db
leased_db = record queued_db {
  stages = leased ∷ [];
  attempts = attempt ∷ [];
  leases = lease ∷ [];
  next_id = 12;
}

abbrev pub request : Request
request = record {
  method = "POST";
  path = "/";
  timestamp = "1970-01-01";
  nonce = "nonce";
  idempotency_key = "key";
  signature = "signature";
  lease_token = "token";
  signed_at = 1;
  checked_at = 2;
  now = 3;
}

pub GrantsAttempts-runtime : GrantsAttempts runtime
unfolding policy_for_stage
GrantsAttempts-runtime t = ground arith

Custody-queued_db : Custody queued_db
unfolding get count
Custody-queued_db = record {
  keyed = (omega arith, tt);
  keyed_leases = tt;
  exclusive = λ i. omega arith;
  budget = λ i. ground arith;
}

pub Invariant-queued_db : Invariant runtime queued_db
Invariant-queued_db = record { custody = Custody-queued_db; answered = tt; chained = tt }
