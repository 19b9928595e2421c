-- ===== src/Executors/Custody/Routes.antt =====
-- The frame of a route on a stage: what its body may count on, and what every route keeps, given
-- what its body keeps.
pub mod Stages
pub mod Failures
pub mod Sessions
use e_rakshak_umat.Prelude.{
  ℕ, suc, ◌+◌, ◌≡◌, refl, sym, inl, inr, String, Bool, true, false, not, ◌&&◌, ◌||◌, Option, none,
  some, List, [], ◌∷◌, ◌==◌, ==_iff, str_eq, is_none, is_some, leb, Bool-cases, arith,
  if◌then◌else◌,
}
use e_rakshak_umat.Prelude.Tables.{get, scalar, update, All, Keyed-mono}
use e_rakshak_umat.Prelude.Tables.Laws.{get_own}
use e_rakshak_umat.Json.{Json, truthy}
use e_rakshak_umat.Models.Rows.{
  Executor, ExecutorRequest, AnalysisStage, AnalysisAttempt, ExecutorLease, AuditEvent,
  stage_entity, attempt_entity, lease_entity, request_entity,
}
use e_rakshak_umat.Environment.{Env}
use e_rakshak_umat.Database.{Db, Result, ok, err, Action, after}
use e_rakshak_umat.Database.Rules.{
  branch, Ensures, Ensures-after, Ensures-found, Ensures-lifted, Ensures-test, Ensures-ok,
}
use e_rakshak_umat.Audit.{zero_hash}
use e_rakshak_umat.Audit.Chain.{Linked, Linked-next_event}
use e_rakshak_umat.Executors.Request.{
  Request, Signed, Holding, signed_request, answer_key, validate_lease, mismatched, lapsed,
  verify_executor_signature, same_key, same_nonce, record_request,
}
use e_rakshak_umat.Executors.Request.Replay.{
  Mutation, verify_stage_mutation, respond, answer, mutation,
}
use e_rakshak_umat.Executors.Custody.{Custody, InCustody}
use e_rakshak_umat.Executors.Custody.Steps.{Held}
use e_rakshak_umat.Executors.Custody.Frame.{Framed}
use e_rakshak_umat.Executors.Custody.Invariant.{
  IsAnswered, Invariant, Granted, Beside, framed-Beside, Good, Kept, Custody-next_id, scalar-All,
  IsAnswered-after,
}

-- the stored request: it was there, with its answer, or it is new
pub data Stored (signed : Signed) (requests : List ExecutorRequest) : Type 0 where
  replayed :
      signed.replay ≡ true
      → IsAnswered signed.request
      → All IsAnswered requests
      → Stored signed requests
  opened :
      signed.replay ≡ false
      → (old : List ExecutorRequest) → requests ≡ signed.request ∷ old
      → All IsAnswered old
      → Stored signed requests

pub record Ready (env : Env) (signed : Signed) (db : Db) : Type 0 where
  pub custody : Custody db
  pub chained : Linked env zero_hash db.audit
  pub stored : Stored signed db.requests

module _ (env : Env) (executor : Executor) (rq : Request) where
  Ready-answer_key :
      (request_hash : String) (o : Option ExecutorRequest) (db : Db)
      → Invariant env db
      → ((r : ExecutorRequest) → o ≡ some r → IsAnswered r)
      → Ensures (Ready env) (answer_key executor rq request_hash o db)
  unfolding answer_key record_request
  Ready-answer_key request_hash (some r) db i h =
      Ensures-test (Ready env) (not (str_eq r.request_hash request_hash)) _ _ db _ λ _.
        Ensures-ok (Ready env) _ db (record {
          custody = i.custody;
          chained = i.chained;
          stored = Stored.replayed refl (h r refl) i.answered;
        })
  Ready-answer_key request_hash none db i h =
      Ensures-test (Ready env) (is_some (scalar (same_nonce executor rq) db.requests)) _ _ db _ λ _.
        Ensures-ok (Ready env) _ _ (record {
          custody = Custody-next_id db i.custody;
          chained = i.chained;
          stored = Stored.opened refl db.requests refl i.answered;
        })

  pub Ready-signed_request :
      (body : Json) (db : Db)
      → Invariant env db
      → Ensures (Ready env) (signed_request env executor rq body db)
  unfolding signed_request
  Ready-signed_request body db i =
      Ensures-lifted (Ready env) (verify_executor_signature env executor rq body) db _ λ hash _.
        Ready-answer_key hash (scalar (same_key executor rq) db.requests) db i
          (λ r e. scalar-All (same_key executor rq) db.requests r i.answered e)

  granted :
      (db : Db) (stage_id lease_id attempt_id : ℕ) (h : Holding)
      → Custody db
      → get stage_id db.stages ≡ some h.stage
      → get attempt_id db.attempts ≡ some h.attempt
      → get lease_id db.leases ≡ some h.lease
      → mismatched executor h ≡ false
      → lapsed env rq.checked_at false rq.lease_token h.lease ≡ false
      → Granted executor h db
  unfolding mismatched lapsed
  granted db stage_id lease_id attempt_id h c s a l m e = record {
    custody = c;
    stage = get_own stage_id db.stages h.stage s;
    attempt = get_own attempt_id db.attempts h.attempt a;
    held = record {
      found = get_own lease_id db.leases h.lease l;
      of_stage = (==_iff h.lease.stage_id h.stage.id).0 (ground arith);
      unreleased = ground arith;
    };
  }

  -- the lease check answers with the rows, and unless it is for a replay they are granted
  pub Ensures-validate_lease :
      (P : Holding → Db → Type 0) (stage_id lease_id attempt_id : ℕ) (replay : Bool) (db : Db)
      → Custody db
      → ((h : Holding) → (replay ≡ false → Granted executor h db) → P h db)
      → Ensures P (validate_lease env executor rq stage_id lease_id attempt_id replay db)
  unfolding validate_lease
  Ensures-validate_lease P stage_id lease_id attempt_id replay db c next =
      Ensures-found P _ _ _ _ _ λ stage s. Ensures-found P _ _ _ _ _ λ attempt a.
        Ensures-found P _ _ _ _ _ λ lease l. Ensures-test P (mismatched executor _) _ _ db _ λ m.
          Ensures-test P (lapsed env rq.checked_at replay rq.lease_token lease) _ _ db _ λ e.
            Ensures-ok P _ db (
              next (record { stage = stage; attempt = attempt; lease = lease })
                (λ r.
                  granted db stage_id lease_id attempt_id
                    (record { stage = stage; attempt = attempt; lease = lease }) c s a l m
                    (rw r at e)))

  Invariant-respond :
      (signed : Signed) (old : List ExecutorRequest) (response : Json) (db : Db)
      → All IsAnswered old
      → Good env (signed.request ∷ old) response db
      → Ensures (Kept env) (respond signed response db)
  unfolding respond update
  Invariant-respond signed old response db a g = Ensures-ok (Kept env) response _ (record {
    custody = g.0;
    answered =
        rw g.1.0 (ground (arith, g.2, IsAnswered-after signed.request.id response old g.2 a));
    chained = g.1.1;
  })

  -- the request is checked, and its stage granted unless it is a replay
  record Prepared (m : Mutation) (db : Db) : Type 0 where
    ready : Ready env m.signed db
    granted : m.signed.replay ≡ false → Granted executor m.held db

  Invariant-replayed :
      (signed : Signed) (response : Option Json) (body : Action Json) (db : Db)
      → truthy response ≡ true
      → Invariant env db
      → Ensures (Kept env) (answer signed true response body db)
  unfolding answer
  Invariant-replayed signed none body db t i = ground arith
  Invariant-replayed signed (some response) body db t i = Ensures-ok (Kept env) response db i

  -- the answer to a request that is checked: a stored one, or that of the body
  pub Invariant-answer :
      (signed : Signed) (run : Action Json) (db : Db)
      → Ready env signed db
      → Stored signed db.requests
      → ((requests : List ExecutorRequest)
          → signed.replay ≡ false
          → Beside env requests db
          → Ensures (Good env requests) (run db))
      → Ensures (Kept env) (
          answer signed
            (signed.replay && truthy signed.request.response_json)
            signed.request.response_json
            run
            db)
  unfolding answer respond
  Invariant-answer signed run db p (Stored.replayed r t a) good =
      rw (r, t)
        (Invariant-replayed signed signed.request.response_json run db t
          (record { custody = p.custody; answered = a; chained = p.chained }))
  Invariant-answer signed run db p (Stored.opened r old e a) good = rw r (
      Ensures-after (Kept env) (Good env (signed.request ∷ old)) (run db) _
        (good (signed.request ∷ old) r (e, p.chained))
        (λ response db' g. Invariant-respond signed old response db' a g))

  -- A route keeps the invariant if its body, with its stage granted, keeps its promises.
  pub Invariant-mutation :
      (stage_id lease_id attempt_id : ℕ) (body : Json) (run : Holding → Action Json) (db : Db)
      → ((h : Holding) (requests : List ExecutorRequest) (db : Db)
          → Granted executor h db
          → Beside env requests db
          → Ensures (Good env requests) (run h db))
      → Invariant env db
      → Ensures (Kept env) (mutation env executor rq stage_id lease_id attempt_id body run db)
  unfolding mutation verify_stage_mutation
  Invariant-mutation stage_id lease_id attempt_id body run db good i =
      Ensures-after (Kept env) Prepared _ _
        (Ensures-after Prepared (Ready env) _ _ (Ready-signed_request body db i) λ signed db' r.
          Ensures-after Prepared
            (λ held db''. Prepared (record { held = held; signed = signed }) db'') _ _
            (Ensures-validate_lease _ stage_id lease_id attempt_id signed.replay db' r.custody
              (λ h g. record { ready = r; granted = g }))
            (λ held db'' p. Ensures-ok Prepared _ db'' p))
        (λ m db' p.
          Invariant-answer m.signed (run m.held) db' p.ready p.ready.stored
            (λ requests r b. good m.held requests db' (p.granted r) b))
