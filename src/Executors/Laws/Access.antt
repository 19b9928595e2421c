-- ===== src/Executors/Laws/Access.antt =====
-- What a request has shown once it passes: verify_executor_signature of
-- src/umat/executors/security.py and validate_lease of src/umat/api/executor_routes.py.
use e_rakshak_umat.Prelude.{
  ℕ, ◌+◌, ◌≤◌, ◌<◌, ◌≡◌, refl, String, Bool, true, false, Option, none, some, eq_iff, is_none,
  arith,
}
use e_rakshak_umat.Prelude.Tables.{get}
use e_rakshak_umat.Json.{Json}
use e_rakshak_umat.Models.Rows.{Executor, stage_entity, attempt_entity, lease_entity}
use e_rakshak_umat.Environment.{Env, Instant, naive, aware, seconds, token_hash}
use e_rakshak_umat.Database.{Db, ok}
use e_rakshak_umat.Database.Rules.{Ensures, Ensures-found, Ensures-test, Ensures-ok}
use e_rakshak_umat.Executors.Request.{
  Request, Holding, signature_message, in_window, verified, verify_executor_signature, mismatched,
  lapsed, validate_lease,
}

-- What a verified signature shows.
pub record IsSigned (env : Env) (executor : Executor) (rq : Request) (body : Json) (digest : String)
    : Type 0 where
  pub signature : String
  pub decoded : env.b64decode rq.signature ≡ some signature
  pub verifies :
      env.ed25519_verify executor.public_key signature (signature_message env rq body) ≡ true
  pub stamp : ℕ
  pub stamped : env.fromisoformat (env.zulu_to_offset rq.timestamp) ≡ some (aware stamp)
  pub recent : (rq.signed_at ≤ stamp + seconds 300) × (stamp ≤ rq.signed_at + seconds 300)
  pub digest_of : digest ≡ env.sha256 (signature_message env rq body)

module _ (env : Env) (executor : Executor) (rq : Request) (body : Json) (digest : String) where
  IsSigned-parts :
      (when : Option Instant) (signature : Option String)
      → env.fromisoformat (env.zulu_to_offset rq.timestamp) ≡ when
      → env.b64decode rq.signature ≡ signature
      → in_window rq.signed_at when ≡ true
      → verified env executor signature (signature_message env rq body) ≡ true
      → digest ≡ env.sha256 (signature_message env rq body)
      → IsSigned env executor rq body digest
  unfolding in_window verified
  IsSigned-parts (some (aware t)) (some s) w d wt vt dt = record {
    signature = s;
    decoded = d;
    verifies = vt;
    stamp = t;
    stamped = w;
    recent = ground arith;
    digest_of = dt;
  }
  IsSigned-parts none s w d wt vt dt = ground arith
  IsSigned-parts (some naive) s w d wt vt dt = ground arith
  IsSigned-parts (some (aware t)) none w d wt vt dt = ground arith

  -- A request whose signature verifies carries a time stamp with a zone within five minutes of the
  -- clock and a signature of the message under the executor's key, and the answer is the digest of
  -- that message.
  pub verify_executor_signature-IsSigned :
      verify_executor_signature env executor rq body ≡ ok digest
      → IsSigned env executor rq body digest
  unfolding verify_executor_signature
  verify_executor_signature-IsSigned e =
      IsSigned-parts _ _ refl refl (ground arith) (ground arith) (ground arith)

-- What a lease that passes shows of the three rows.
pub record IsChecked (env : Env) (executor : Executor) (rq : Request) (replay : Bool) (h : Holding)
    : Type 0 where
  pub of_stage : (h.attempt.stage_id ≡ h.stage.id) × (h.lease.stage_id ≡ h.stage.id)
  pub of_attempt : h.lease.attempt_id ≡ h.attempt.id
  pub of_executor : (h.attempt.executor_id ≡ executor.id) × (h.lease.executor_id ≡ executor.id)
  pub token : token_hash env rq.lease_token ≡ h.lease.token_hash
  pub active :
      replay ≡ false → (is_none h.lease.released_at ≡ true) × (rq.checked_at < h.lease.expires_at)

pub checked :
    (env : Env) (executor : Executor) (rq : Request) (replay : Bool) (h : Holding)
    → mismatched executor h ≡ false
    → lapsed env rq.checked_at replay rq.lease_token h.lease ≡ false
    → IsChecked env executor rq replay h
unfolding mismatched lapsed
checked env executor rq replay h m l = record {
  of_stage = ground arith;
  of_attempt = ground arith;
  of_executor = ground arith;
  token = (eq_iff (token_hash env rq.lease_token) h.lease.token_hash).0 (ground arith);
  active = λ r. ground arith;
}

-- what a lease check that returns has found and checked
abbrev pub Checked : Env → Executor → Request → ℕ → ℕ → ℕ → Bool → Holding → Db → Type 0
Checked env executor rq stage_id lease_id attempt_id replay h db =
    (get stage_id db.stages ≡ some h.stage)
    × (get attempt_id db.attempts ≡ some h.attempt)
    × (get lease_id db.leases ≡ some h.lease)
    × IsChecked env executor rq replay h

-- A lease check that returns has found the rows of the three keys in the database, the lease and
-- the attempt belong to the stage and to the executor, the token is the lease's, and unless the
-- request is a replay the lease is neither released nor expired.
pub validate_lease-IsChecked :
    (env : Env) (executor : Executor) (rq : Request) (stage_id lease_id attempt_id : ℕ)
    (replay : Bool) (db : Db)
    → Ensures
        (Checked env executor rq stage_id lease_id attempt_id replay)
        (validate_lease env executor rq stage_id lease_id attempt_id replay db)
unfolding validate_lease
validate_lease-IsChecked env executor rq stage_id lease_id attempt_id replay db =
    let P = Checked env executor rq stage_id lease_id attempt_id replay in
    Ensures-found P _ _ _ _ _ λ stage s. Ensures-found P _ _ _ _ _ λ attempt a.
      Ensures-found P _ _ _ _ _ λ lease l.
        let h : Holding = record { stage = stage; attempt = attempt; lease = lease } in
        Ensures-test P (mismatched executor h) _ _ db _ λ m.
          Ensures-test P (lapsed env rq.checked_at replay rq.lease_token lease) _ _ db _
            λ e. Ensures-ok P h db (s, a, l, checked env executor rq replay h m e)
