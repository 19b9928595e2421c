-- ===== src/Executors/Request.antt =====
-- Who sends a request, and what it may touch: src/umat/executors/security.py, signature_message of
-- src/umat/executors/protocol.py, and signed_request, validate_lease and verify_stage_mutation of
-- src/umat/api/executor_routes.py.
pub mod Replay
use e_rakshak_umat.Prelude.{
  ℕ, zero, suc, ◌+◌, ◌*◌, String, Bool, true, false, not, ◌&&◌, ◌||◌, Option, none, some, List, ltb,
  leb, ◌==◌, str_eq, is_some, if◌then◌else◌, [], ◌∷◌, from_char, starts_with,
}
use e_rakshak_umat.Prelude.Tables.{get, scalar, update}
use e_rakshak_umat.Json.{Json, dict, string}
use e_rakshak_umat.Models.{ExecutorStatus, active}
use e_rakshak_umat.Models.Rows.{
  Executor, ExecutorCredential, ExecutorRequest, AnalysisStage, AnalysisAttempt, ExecutorLease,
  executor_entity, stage_entity, attempt_entity, lease_entity, request_entity,
}
use e_rakshak_umat.Environment.{Env, Instant, naive, aware, seconds, token_hash}
use e_rakshak_umat.Database.{
  Db, Result, ok, err, http, Action, pure, raise, raise_if, require, lift, write, new_id, gets,
  ◌>>=◌, ◌>>◌,
}

abbrev passed : ℕ → Option ℕ → Bool
passed now none = false
passed now (some t) = leb t now

abbrev is_active : ExecutorStatus → Bool
is_active active = true
is_active _ = false

bearer : Option String → Option String
bearer none = none
bearer (some authorization) =
    if starts_with "Bearer " authorization then some (from_char 7 authorization) else none

unfoldable pub current_executor : Env → ℕ → Option String → Action Executor
unfolding bearer
current_executor env now authorization = do
  token ← require (λ _. bearer authorization) 401 "executor credential required"
  credential ←
      require (λ db. scalar (λ c. str_eq c.token_hash (token_hash env token)) db.credentials) 401
        "invalid executor credential"
  raise_if (is_some credential.revoked_at || passed now credential.expires_at) 401
      "invalid executor credential"
  executor ← require (λ db. get credential.executor_id db.executors) 403 "executor disabled"
  raise_if (not (is_active executor.status)) 403 "executor disabled"
  pure executor

-- The signed headers, the method and the path of a request; and the three instants at which its
-- handler reads the clock: for the signature, for the lease, and for its own work.
pub record Request : Type 0 where
  pub method : String
  pub path : String
  pub timestamp : String
  pub nonce : String
  pub idempotency_key : String
  pub signature : String
  pub lease_token : String
  pub signed_at : ℕ
  pub checked_at : ℕ
  pub now : ℕ

unfoldable pub signature_message : Env → Request → Json → String
signature_message env rq body = env.canonical_json (
    dict (
      ("method", string (env.upper rq.method))
      ∷ ("path", string rq.path)
      ∷ ("timestamp", string rq.timestamp)
      ∷ ("nonce", string rq.nonce)
      ∷ ("idempotency_key", string rq.idempotency_key)
      ∷ ("body_sha256", string (env.sha256 (env.canonical_json body)))
      ∷ []))

-- within five minutes of the clock
unfoldable pub in_window : ℕ → Option Instant → Bool
in_window now (some (aware t)) = not (ltb (t + seconds 300) now || ltb (now + seconds 300) t)
in_window now _ = false

unfoldable pub verified : Env → Executor → Option String → String → Bool
verified env executor none message = false
verified env executor (some signature) message =
    env.ed25519_verify executor.public_key signature message

-- the digest of the message that was signed
unfoldable pub verify_executor_signature : Env → Executor → Request → Json → Result String
unfolding in_window verified
verify_executor_signature env executor rq body =
    let message = signature_message env rq body in
    if in_window rq.signed_at (env.fromisoformat (env.zulu_to_offset rq.timestamp))
      && verified env executor (env.b64decode rq.signature) message
    then ok (env.sha256 message)
    else http 401 "invalid executor signature"

-- The stored request, and whether it is a replay.
pub record Signed : Type 0 where
  pub request : ExecutorRequest
  pub replay : Bool

unfoldable pub same_key : Executor → Request → ExecutorRequest → Bool
same_key executor rq r = r.executor_id == executor.id && str_eq r.idempotency_key rq.idempotency_key

unfoldable pub same_nonce : Executor → Request → ExecutorRequest → Bool
same_nonce executor rq r = r.executor_id == executor.id && str_eq r.nonce rq.nonce

unfoldable pub record_request : Executor → Request → String → Action Signed
record_request executor rq request_hash = do
  id ← new_id
  let request : ExecutorRequest = record {
    id = id;
    executor_id = executor.id;
    idempotency_key = rq.idempotency_key;
    nonce = rq.nonce;
    request_hash = request_hash;
    response_json = none;
  }
  write (λ db. record db { requests = request ∷ db.requests })
  pure (record { request = request; replay = false })

unfoldable pub answer_key : Executor → Request → String → Option ExecutorRequest → Action Signed
unfolding same_nonce record_request
answer_key executor rq request_hash (some previous_key) = do
  raise_if (not (str_eq previous_key.request_hash request_hash)) 409
      "idempotency key reused with different request"
  pure (record { request = previous_key; replay = true })
answer_key executor rq request_hash none = do
  used ← gets (λ db. is_some (scalar (same_nonce executor rq) db.requests))
  raise_if used 409 "executor nonce already used"
  record_request executor rq request_hash

unfoldable pub signed_request : Env → Executor → Request → Json → Action Signed
unfolding same_key
signed_request env executor rq body = do
  request_hash ← lift (verify_executor_signature env executor rq body)
  previous_key ← gets (λ db. scalar (same_key executor rq) db.requests)
  answer_key executor rq request_hash previous_key

pub record Holding : Type 0 where
  pub stage : AnalysisStage
  pub attempt : AnalysisAttempt
  pub lease : ExecutorLease

unfoldable pub mismatched : Executor → Holding → Bool
mismatched executor h =
    not (h.attempt.stage_id == h.stage.id)
    || not (h.attempt.executor_id == executor.id)
    || not (h.lease.attempt_id == h.attempt.id)
    || not (h.lease.executor_id == executor.id)
    || not (h.lease.stage_id == h.stage.id)

unfoldable pub lapsed : Env → ℕ → Bool → String → ExecutorLease → Bool
lapsed env now allow_expired lease_token lease =
    is_some lease.released_at && not allow_expired
    || not allow_expired && leb lease.expires_at now
    || not (str_eq (token_hash env lease_token) lease.token_hash)

unfoldable pub validate_lease : Env → Executor → Request → ℕ → ℕ → ℕ → Bool → Action Holding
validate_lease env executor rq stage_id lease_id attempt_id allow_expired = do
  stage ← require (λ db. get stage_id db.stages) 404 "stage lease not found"
  attempt ← require (λ db. get attempt_id db.attempts) 404 "stage lease not found"
  lease ← require (λ db. get lease_id db.leases) 404 "stage lease not found"
  let held : Holding = record { stage = stage; attempt = attempt; lease = lease }
  raise_if (mismatched executor held) 403 "lease identity mismatch"
  raise_if (lapsed env rq.checked_at allow_expired rq.lease_token lease) 409 "lease is not active"
  pure held
