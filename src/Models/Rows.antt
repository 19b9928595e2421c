-- ===== src/Models/Rows.antt =====
-- The rows of src/umat/db/models.py that the executor protocol works on. A primary key is a
-- number, a time is a number of microseconds. Relationships are queries, and `updated_at`, which
-- the database layer sets by itself, is left out.
use e_rakshak_umat.Prelude.{ℕ, String, Bool, Option, List}
use e_rakshak_umat.Prelude.Tables.{Entity}
use e_rakshak_umat.Json.{Json, Fields}
use e_rakshak_umat.Models.{
  Platform, RunStatus, RunResult, StageType, StageState, AttemptState, AccessTier, ExecutorStatus,
  Verdict,
}

pub record Case : Type 0 where
  pub id : ℕ
  pub owner_user_id : ℕ

pub record CaseReportSnapshot : Type 0 where
  pub id : ℕ
  pub case_id : ℕ
  pub analysis_run_id : ℕ
  pub revision : ℕ
  pub verdict : Verdict

pub record Submission : Type 0 where
  pub id : ℕ
  pub case_id : ℕ
  pub uploader_user_id : ℕ
  pub sample_sha256 : String
  pub original_filename : String

pub record AnalysisRun : Type 0 where
  pub id : ℕ
  pub case_id : ℕ
  pub submission_id : ℕ
  pub platform : Platform
  pub status : RunStatus
  pub result : Option RunResult
  pub network_mode : String
  pub c2_analysis_enabled : Bool
  pub android_interactive : Bool
  pub windows_interactive : Bool
  pub confirmed_at : Option ℕ
  pub cancellation_requested_at : Option ℕ

pub record AnalysisStage : Type 0 where
  pub id : ℕ
  pub analysis_run_id : ℕ
  pub stage_type : StageType
  pub state : StageState
  pub priority : ℕ
  pub max_attempts : ℕ
  pub next_attempt_at : Option ℕ
  pub timeout_seconds : ℕ
  pub failure_code : Option String
  pub failure_detail : Option String
  pub created_at : ℕ

pub record Executor : Type 0 where
  pub id : ℕ
  pub name : String
  pub executor_type : String
  pub status : ExecutorStatus
  pub public_key : String
  pub supported_stage_types : List String
  pub metadata_json : Fields
  pub last_seen_at : Option ℕ

pub record ExecutorCredential : Type 0 where
  pub id : ℕ
  pub executor_id : ℕ
  pub token_hash : String
  pub scopes : List String
  pub expires_at : Option ℕ
  pub revoked_at : Option ℕ

pub record ExecutorRequest : Type 0 where
  pub id : ℕ
  pub executor_id : ℕ
  pub idempotency_key : String
  pub nonce : String
  pub request_hash : String
  pub response_json : Option Json

pub record ExecutorEnrollmentToken : Type 0 where
  pub id : ℕ
  pub token_hash : String
  pub executor_type : String
  pub scopes : List String
  pub expires_at : ℕ
  pub used_at : Option ℕ

pub record AnalysisAttempt : Type 0 where
  pub id : ℕ
  pub stage_id : ℕ
  pub executor_id : ℕ
  pub attempt_number : ℕ
  pub state : AttemptState
  pub error_code : Option String
  pub error_detail : Option String
  pub started_at : ℕ
  pub ended_at : Option ℕ

pub record ExecutorLease : Type 0 where
  pub id : ℕ
  pub stage_id : ℕ
  pub attempt_id : ℕ
  pub executor_id : ℕ
  pub token_hash : String
  pub expires_at : ℕ
  pub last_heartbeat_at : ℕ
  pub released_at : Option ℕ
  pub release_reason : Option String

pub record BackendTask : Type 0 where
  pub id : ℕ
  pub stage_id : ℕ
  pub attempt_id : ℕ
  pub executor_id : ℕ
  pub task_type : String
  pub native_task_id : String
  pub recovery_metadata : Fields
  pub created_at : ℕ

pub record BackendCapabilitySnapshot : Type 0 where
  pub id : ℕ
  pub executor_id : ℕ
  pub runtime_identity : String
  pub schema_version : String
  pub capabilities : Fields
  pub captured_at : ℕ

pub record Artifact : Type 0 where
  pub id : ℕ
  pub analysis_run_id : ℕ
  pub stage_id : Option ℕ
  pub attempt_id : Option ℕ
  pub kind : String
  pub sha256 : String
  pub size_bytes : ℕ
  pub media_type : String
  pub object_key : String
  pub access_tier : AccessTier
  pub bundle_id : Option ℕ
  pub created_at : ℕ

pub record AuditEvent : Type 0 where
  pub sequence : ℕ
  pub actor_type : String
  pub actor_id : Option String
  pub action : String
  pub target_type : String
  pub target_id : Option String
  pub payload : Fields
  pub previous_hash : String
  pub event_hash : String
  pub created_at : ℕ

instance abbrev pub run_entity : Entity AnalysisRun
run_entity = record { key = λ x. x.id }

instance abbrev pub stage_entity : Entity AnalysisStage
stage_entity = record { key = λ x. x.id }

instance abbrev pub attempt_entity : Entity AnalysisAttempt
attempt_entity = record { key = λ x. x.id }

instance abbrev pub lease_entity : Entity ExecutorLease
lease_entity = record { key = λ x. x.id }

instance abbrev pub executor_entity : Entity Executor
executor_entity = record { key = λ x. x.id }

instance abbrev pub request_entity : Entity ExecutorRequest
request_entity = record { key = λ x. x.id }

instance abbrev pub enrollment_entity : Entity ExecutorEnrollmentToken
enrollment_entity = record { key = λ x. x.id }

instance abbrev pub submission_entity : Entity Submission
submission_entity = record { key = λ x. x.id }

instance abbrev pub case_entity : Entity Case
case_entity = record { key = λ x. x.id }
