-- ===== src/Executors/Profiles.antt =====
-- claim_windows_profile_operation and complete_windows_profile_operation of
-- src/umat/api/executor_routes.py.
use e_rakshak_umat.Prelude.{
  ℕ, ◌+◌, String, Bool, true, false, not, ◌&&◌, ◌||◌, Option, none, some, List, [], ◌∷◌, leb, ltb,
  ◌==◌, str_eq, contains, if◌then◌else◌,
}
use e_rakshak_umat.Prelude.Tables.{get, first, update, update_where}
use e_rakshak_umat.Json.{Json, dict, fields, string, bool, optional, truthy}
use e_rakshak_umat.Models.{
  WindowsProfileState, WindowsProfileOperationType, create, delete, WindowsProfileOperationState,
}
use e_rakshak_umat.Models.Rows.{Executor}
use e_rakshak_umat.Models.Sessions.{
  WindowsVmProfile, WindowsProfileOperation, profile_entity, operation_entity,
}
use e_rakshak_umat.Environment.{Env, seconds, token_hash}
use e_rakshak_umat.Database.{Db, Action, pure, raise_if, require, write, gets, ◌>>=◌, ◌>>◌}
use e_rakshak_umat.Audit.{Entry, append_audit}
use e_rakshak_umat.Executors.Request.{Request, signed_request}
use e_rakshak_umat.Executors.Request.Replay.{answer}

abbrev operation_type_value : WindowsProfileOperationType → String
operation_type_value create = "create"
operation_type_value delete = "delete"

abbrev operation_state_value : WindowsProfileOperationState → String
operation_state_value WindowsProfileOperationState.queued = "queued"
operation_state_value WindowsProfileOperationState.leased = "leased"
operation_state_value WindowsProfileOperationState.completed = "completed"
operation_state_value WindowsProfileOperationState.failed = "failed"

abbrev profile_state_value : WindowsProfileState → String
profile_state_value WindowsProfileState.provisioning = "provisioning"
profile_state_value WindowsProfileState.active = "active"
profile_state_value WindowsProfileState.retired = "retired"
profile_state_value WindowsProfileState.deleting = "deleting"
profile_state_value WindowsProfileState.deleted = "deleted"
profile_state_value WindowsProfileState.error = "error"

abbrev pub is_leased : WindowsProfileOperationState → Bool
is_leased WindowsProfileOperationState.leased = true
is_leased _ = false

abbrev pub is_queued : WindowsProfileOperationState → Bool
is_queued WindowsProfileOperationState.queued = true
is_queued _ = false

abbrev past : ℕ → Option ℕ → Bool
past now none = false
past now (some t) = leb t now

abbrev pub is_expired : ℕ → WindowsProfileOperation → Bool
is_expired now o = is_leased o.state && past now o.lease_expires_at

abbrev pub requeue : WindowsProfileOperation → WindowsProfileOperation
requeue o = record o {
  state = WindowsProfileOperationState.queued;
  executor_id = none;
  lease_token_hash = none;
  lease_expires_at = none;
}

-- the expired leases are taken back
abbrev pub reclaim : ℕ → Db → Db
reclaim now db = record db { operations = update_where (is_expired now) requeue db.operations }

unfoldable pub next_operation : Db → Option WindowsProfileOperation
next_operation db =
    first (λ a b. ltb a.created_at b.created_at) (λ o. is_queued o.state) db.operations

pub record ProfileClaim : Type 0 where
  pub operation_id : ℕ
  pub operation_type : String
  pub lease_token : String
  pub lease_expires_at : ℕ
  pub profile : WindowsVmProfile

abbrev lease_end : Env → ℕ → ℕ
lease_end env now = now + seconds env.settings.lease_ttl_seconds

abbrev pub leased_operation :
    Env → Executor → ℕ → String → WindowsProfileOperation → WindowsProfileOperation
leased_operation env executor now token o = record o {
  state = WindowsProfileOperationState.leased;
  executor_id = some executor.id;
  lease_token_hash = some (token_hash env token);
  lease_expires_at = some (lease_end env now);
}

abbrev operation_entry : Env → Executor → String → ℕ → List (String × Json) → Entry
operation_entry env executor action id payload = record {
  actor_type = "executor";
  actor_id = some (env.str_uuid executor.id);
  action = action;
  target_type = "windows_profile_operation";
  target_id = some (env.str_uuid id);
  payload = fields payload;
}

unfoldable pub lease_operation :
    Env → Executor → ℕ → String → Option WindowsProfileOperation → Action (Option ProfileClaim)
lease_operation env executor now token none = pure none
lease_operation env executor now token (some o) = do
  profile ← require (λ db. get o.profile_id db.profiles) 409 "profile operation has no profile"
  write (λ db. record db {
    operations = update o.id (leased_operation env executor now token) db.operations;
  })
  append_audit env now (
      operation_entry env executor "windows_profile.operation_leased" o.id
        (("operation", string (operation_type_value o.operation_type)) ∷ []))
  pure (
      some (record {
        operation_id = o.id;
        operation_type = operation_type_value o.operation_type;
        lease_token = token;
        lease_expires_at = lease_end env now;
        profile = profile;
      }))

unfoldable pub claim_windows_profile_operation :
    Env → Executor → ℕ → String → Action (Option ProfileClaim)
unfolding lease_operation
claim_windows_profile_operation env executor now token = do
  raise_if
      (not (str_eq executor.executor_type "windows")
        || not (contains "platform_analysis" executor.supported_stage_types))
      403 "Windows management scope required"
  write (reclaim now)
  operation ← gets next_operation
  lease_operation env executor now token operation

pub record WindowsProfileOperationCompleteRequest : Type 0 where
  pub operation_id : ℕ
  pub success : Bool
  pub native_operation_id : Option String
  pub cape_machine_label : Option String
  pub detail : Option String

complete_json : Env → WindowsProfileOperationCompleteRequest → Json
complete_json env b = dict (
    ("operation_id", string (env.str_uuid b.operation_id))
    ∷ ("success", bool b.success)
    ∷ ("native_operation_id", optional b.native_operation_id)
    ∷ ("cape_machine_label", optional b.cape_machine_label)
    ∷ ("detail", optional b.detail)
    ∷ [])

abbrev pub owned_by : Executor → Option ℕ → Bool
owned_by executor none = false
owned_by executor (some i) = i == executor.id

abbrev is_ahead : ℕ → Option ℕ → Bool
is_ahead now none = false
is_ahead now (some t) = ltb now t

abbrev token_is : Env → String → Option String → Bool
token_is env token none = false
token_is env token (some h) = str_eq (token_hash env token) h

-- the lease of the operation is the executor's and is good
unfoldable pub holds_operation : Env → Request → WindowsProfileOperation → Bool
holds_operation env rq o =
    is_leased o.state
    && (is_ahead rq.now o.lease_expires_at && token_is env rq.lease_token o.lease_token_hash)

abbrev outcome_state : Bool → WindowsProfileOperationState
outcome_state true = WindowsProfileOperationState.completed
outcome_state false = WindowsProfileOperationState.failed

abbrev detail_of : WindowsProfileOperationCompleteRequest → Option String
detail_of b = if b.success then none else b.detail

abbrev pub finished_operation :
    WindowsProfileOperationCompleteRequest → ℕ → WindowsProfileOperation → WindowsProfileOperation
finished_operation b now o = record o {
  native_operation_id = b.native_operation_id;
  error_detail = detail_of b;
  completed_at = some now;
  state = outcome_state b.success;
  result =
      dict (
        ("cape_machine_label", optional b.cape_machine_label) ∷ ("detail", optional b.detail) ∷ []);
}

-- what the outcome of an operation makes of its profile
unfoldable pub finished_profile :
    WindowsProfileOperationCompleteRequest
    → WindowsProfileOperationType
    → WindowsVmProfile
    → WindowsVmProfile
finished_profile b t p = elim b.success [
  | true ↦ elim t [
    | create ↦ record p {
      cape_machine_label = b.cape_machine_label;
      state = WindowsProfileState.active;
      error_detail = none;
    }
    | delete ↦ record p { state = WindowsProfileState.deleted; cape_machine_label = none }
  ]
  | false ↦ record p { state = WindowsProfileState.error; error_detail = b.detail }
]

abbrev completion_answer :
    Env → ℕ → WindowsProfileOperationState → WindowsProfileState → List (String × Json)
completion_answer env id state profile_state =
    ("operation_id", string (env.str_uuid id))
    ∷ ("state", string (operation_state_value state))
    ∷ ("profile_state", string (profile_state_value profile_state))
    ∷ []

unfoldable pub finish_operation :
    Env → Executor → Request → WindowsProfileOperationCompleteRequest → Action Json
finish_operation env executor rq b = do
  o ← require (λ db. get b.operation_id db.operations) 404 "profile operation not found"
  raise_if (not (owned_by executor o.executor_id)) 404 "profile operation not found"
  raise_if (not (holds_operation env rq o)) 409 "profile operation lease is not active"
  profile ← require (λ db. get o.profile_id db.profiles) 409 "profile operation has no profile"
  write (λ db. record db {
    operations = update o.id (finished_operation b rq.now) db.operations;
    profiles = update profile.id (finished_profile b o.operation_type) db.profiles;
  })
  let response =
      completion_answer env o.id (outcome_state b.success)
        (finished_profile b o.operation_type profile).state
  append_audit env rq.now (
      operation_entry env executor
        (if b.success
          then "windows_profile.operation_completed"
          else "windows_profile.operation_failed")
        o.id response)
  pure (dict response)

unfoldable pub complete_windows_profile_operation :
    Env → Executor → Request → ℕ → WindowsProfileOperationCompleteRequest → Action Json
unfolding complete_json
complete_windows_profile_operation env executor rq operation_id b = do
  raise_if (not (b.operation_id == operation_id)) 422 "operation identity mismatch"
  signed ← signed_request env executor rq (complete_json env b)
  answer signed (signed.replay && truthy signed.request.response_json) signed.request.response_json
      (finish_operation env executor rq b)
