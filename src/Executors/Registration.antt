-- ===== src/Executors/Registration.antt =====
-- The routes register_executor and publish_capabilities of src/umat/api/executor_routes.py.
use e_rakshak_umat.Prelude.{
  ℕ, String, Bool, true, false, not, ◌||◌, Option, none, some, List, [], ◌∷◌, leb, ◌==◌, str_eq,
  contains, is_some, if◌then◌else◌,
}
use e_rakshak_umat.Prelude.Tables.{scalar, update, select}
use e_rakshak_umat.Json.{Fields, fields, string, arr, texts}
use e_rakshak_umat.Models.{ExecutorStatus}
use e_rakshak_umat.Models.Rows.{
  Executor, ExecutorEnrollmentToken, executor_entity, enrollment_entity,
}
use e_rakshak_umat.Environment.{Env, token_hash}
use e_rakshak_umat.Database.{
  Db, Result, ok, http, Action, pure, raise_if, require, lift, write, new_id, ◌>>=◌, ◌>>◌,
}
use e_rakshak_umat.Audit.{append_audit}

pub record RegisterExecutorRequest : Type 0 where
  pub enrollment_token : String
  pub name : String
  pub public_key : String
  pub metadata : Fields

pub record RegisterExecutorResponse : Type 0 where
  pub executor_id : ℕ
  pub credential : String

abbrev pub key_of : Env → Option String → Result String
key_of env none = http 422 "public_key must be a base64 Ed25519 public key"
key_of env (some key) =
    if env.byte_length key == 32
    then ok key
    else http 422 "public_key must be a base64 Ed25519 public key"

enrolled_executor : RegisterExecutorRequest → ExecutorEnrollmentToken → String → ℕ → Executor
enrolled_executor body enrollment public_key id = record {
  id = id;
  name = body.name;
  executor_type = enrollment.executor_type;
  status = ExecutorStatus.active;
  public_key = public_key;
  supported_stage_types = enrollment.scopes;
  metadata_json = body.metadata;
  last_seen_at = none;
}

-- The executor, the used token and the credential. `credential` is the token that is drawn.
unfoldable pub enroll :
    Env → RegisterExecutorRequest → ExecutorEnrollmentToken → String → ℕ → String → ℕ → ℕ → Db → Db
unfolding enrolled_executor
enroll env body enrollment public_key now credential id credential_id db = record db {
  executors = enrolled_executor body enrollment public_key id ∷ db.executors;
  enrollments = update enrollment.id (λ e. record e { used_at = some now }) db.enrollments;
  credentials =
      record {
        id = credential_id;
        executor_id = id;
        token_hash = token_hash env credential;
        scopes = enrollment.scopes;
        expires_at = none;
        revoked_at = none;
      }
      ∷ db.credentials;
}

unfoldable pub register_executor :
    Env → ℕ → String → RegisterExecutorRequest → Action RegisterExecutorResponse
unfolding enroll
register_executor env now credential body = do
  enrollment ←
      require
        (λ db.
          scalar (λ e. str_eq e.token_hash (token_hash env body.enrollment_token)) db.enrollments)
        401 "invalid or expired enrollment token"
  raise_if (is_some enrollment.used_at || leb enrollment.expires_at now) 401
      "invalid or expired enrollment token"
  public_key ← lift (key_of env (env.b64decode body.public_key))
  id ← new_id
  credential_id ← new_id
  write (enroll env body enrollment public_key now credential id credential_id)
  append_audit env now (record {
    actor_type = "executor";
    actor_id = some (env.str_uuid id);
    action = "executor.registered";
    target_type = "executor";
    target_id = some (env.str_uuid id);
    payload = fields (("name", string body.name) ∷ ("type", string enrollment.executor_type) ∷ []);
  })
  pure (record { executor_id = id; credential = credential })

pub record CapabilityRequest : Type 0 where
  pub schema_version : String
  pub runtime_identity : String
  pub supported_stage_types : List String
  pub capabilities : Fields

abbrev any_left : List String → Bool
any_left [] = false
any_left (_ ∷ _) = true

-- a requested type outside the scope
unfoldable pub unscoped : Executor → CapabilityRequest → Bool
unscoped executor body =
    any_left
      (select (λ t. not (contains t executor.supported_stage_types)) body.supported_stage_types)

unfoldable pub publish : Executor → ℕ → CapabilityRequest → ℕ → Db → Db
publish executor now body id db = record db {
  executors =
      update executor.id
        (λ x. record x {
          supported_stage_types = body.supported_stage_types;
          last_seen_at = some now;
        })
        db.executors;
  snapshots =
      record {
        id = id;
        executor_id = executor.id;
        runtime_identity = body.runtime_identity;
        schema_version = body.schema_version;
        capabilities = body.capabilities;
        captured_at = now;
      }
      ∷ db.snapshots;
}

unfoldable pub publish_capabilities : Env → Executor → ℕ → CapabilityRequest → Action (Unit {0})
unfolding publish
publish_capabilities env executor now body = do
  raise_if (unscoped executor body) 403 "unscoped stage types"
  id ← new_id
  write (publish executor now body id)
  append_audit env now (record {
    actor_type = "executor";
    actor_id = some (env.str_uuid executor.id);
    action = "executor.capabilities_published";
    target_type = "executor";
    target_id = some (env.str_uuid executor.id);
    payload = fields (
        ("stage_types", arr (texts body.supported_stage_types))
        ∷ ("runtime", string body.runtime_identity)
        ∷ []);
  })
