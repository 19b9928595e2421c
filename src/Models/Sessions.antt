-- ===== src/Models/Sessions.antt =====
-- The rows of the interactive sessions and of the Windows VM profiles, src/umat/db/models.py.
use e_rakshak_umat.Prelude.{ℕ, String, Option}
use e_rakshak_umat.Prelude.Tables.{Entity}
use e_rakshak_umat.Json.{Json, Fields}
use e_rakshak_umat.Models.{
  WindowsProfileState, WindowsProfileOperationType, WindowsProfileOperationState,
}

pub record WindowsVmProfile : Type 0 where
  pub id : ℕ
  pub name : String
  pub state : WindowsProfileState
  pub windows_version : String
  pub architecture : String
  pub vcpus : ℕ
  pub ram_mb : ℕ
  pub disk_gb : ℕ
  pub user_profile : Fields
  pub analysis_profile : String
  pub cape_machine_label : Option String
  pub cape_template : String
  pub error_detail : Option String

pub record WindowsProfileOperation : Type 0 where
  pub id : ℕ
  pub profile_id : ℕ
  pub operation_type : WindowsProfileOperationType
  pub state : WindowsProfileOperationState
  pub executor_id : Option ℕ
  pub lease_token_hash : Option String
  pub lease_expires_at : Option ℕ
  pub native_operation_id : Option String
  pub result : Json
  pub error_detail : Option String
  pub created_at : ℕ
  pub completed_at : Option ℕ

pub record AndroidDynamicSession : Type 0 where
  pub id : ℕ
  pub analysis_run_id : ℕ
  pub stage_id : ℕ
  pub attempt_id : ℕ
  pub executor_id : ℕ
  pub state : String
  pub scan_hash : String
  pub package_name : Option String
  pub main_activity : Option String
  pub guest_ip : Option String
  pub expires_at : ℕ
  pub started_at : ℕ
  pub last_seen_at : ℕ
  pub ended_at : Option ℕ
  pub status_details : Json

pub record AndroidSessionCommand : Type 0 where
  pub id : ℕ
  pub session_id : ℕ
  pub requested_by_user_id : ℕ
  pub command_type : String
  pub payload : Fields
  pub state : String
  pub result : Fields
  pub created_at : ℕ
  pub claimed_at : Option ℕ
  pub completed_at : Option ℕ

pub record WindowsDynamicSession : Type 0 where
  pub id : ℕ
  pub analysis_run_id : ℕ
  pub stage_id : ℕ
  pub attempt_id : ℕ
  pub executor_id : ℕ
  pub state : String
  pub cape_task_id : ℕ
  pub machine_label : String
  pub console_url : String
  pub expires_at : ℕ
  pub started_at : ℕ
  pub last_seen_at : ℕ
  pub ended_at : Option ℕ
  pub status_details : Json

instance abbrev pub profile_entity : Entity WindowsVmProfile
profile_entity = record { key = λ x. x.id }

instance abbrev pub operation_entity : Entity WindowsProfileOperation
operation_entity = record { key = λ x. x.id }

instance abbrev pub android_session_entity : Entity AndroidDynamicSession
android_session_entity = record { key = λ x. x.id }

instance abbrev pub command_entity : Entity AndroidSessionCommand
command_entity = record { key = λ x. x.id }

instance abbrev pub windows_session_entity : Entity WindowsDynamicSession
windows_session_entity = record { key = λ x. x.id }
