-- ===== src/Protocol/Laws.antt =====
-- What holds after every history of calls.
use e_rakshak_umat.Prelude.{
  true, refl, ap, sym, ◌∙◌, Option, some, arith, ℕ, ◌≤◌, ◌+◌, ◌≡◌, none, List,
}
use e_rakshak_umat.Prelude.Tables.{get, count, scalar, All}
use e_rakshak_umat.Models.Rows.{Executor, ExecutorRequest, stage_entity}
use e_rakshak_umat.Json.{Json, truthy}
use e_rakshak_umat.Environment.{Env}
use e_rakshak_umat.Database.{Db, Action, ok}
use e_rakshak_umat.Audit.{verify_audit_chain}
use e_rakshak_umat.Audit.Chain.{verify_audit_chain_iff}
use e_rakshak_umat.Executors.Workflow.{attempts_of}
use e_rakshak_umat.Executors.Custody.{active_leases, capacity, owed, allowance, GrantsAttempts}
use e_rakshak_umat.Executors.Custody.Invariant.{Invariant, IsAnswered, scalar-All}
use e_rakshak_umat.Executors.Request.{
  Request, Holding, same_key, validate_lease, verify_executor_signature,
}
use e_rakshak_umat.Executors.Request.Replay.{mutation}
use e_rakshak_umat.Executors.Laws.Replay.{mutation_repeated}
use e_rakshak_umat.Protocol.{Call, after_calls}
use e_rakshak_umat.Protocol.History.{Invariant-after_calls}

module _ (env : Env) (grants : GrantsAttempts env) (cs : List Call) (db : Db)
    (i : Invariant env db) where
  -- If the settings grant every stage an attempt and the database satisfies the invariant, then after
  -- any calls of executors, users and the scheduler, in any order, a stage has at most one lease
  -- that is not released, and none unless it is leased or running.
  pub one_lease :
      (stage_id : ℕ)
      → active_leases stage_id (after_calls env cs db).leases
        ≤ capacity (get stage_id (after_calls env cs db).stages)
  one_lease stage_id = (Invariant-after_calls env grants cs db i).custody.exclusive stage_id

  -- Under the same conditions a stage never has more attempts than its limit, and while it is
  -- waiting or queued it has at least one attempt left.
  pub bounded_attempts :
      (stage_id : ℕ)
      → count (attempts_of stage_id) (after_calls env cs db).attempts
          + owed (get stage_id (after_calls env cs db).stages)
        ≤ allowance (get stage_id (after_calls env cs db).stages)
  bounded_attempts stage_id = (Invariant-after_calls env grants cs db i).custody.budget stage_id

  -- Under the same conditions the check of the audit log finds nothing broken.
  pub audit_intact : verify_audit_chain env (after_calls env cs db) ≡ none
  audit_intact =
      (verify_audit_chain_iff env (after_calls env cs db)).1
        (Invariant-after_calls env grants cs db i).chained

  -- Every request that the calls have stored has its answer.
  pub all-IsAnswered : All IsAnswered (after_calls env cs db).requests
  all-IsAnswered = (Invariant-after_calls env grants cs db i).answered

  -- Under the same conditions, and after any calls among which there is no transfer of a file: a
  -- request to a route on a stage that comes again, with the key and the digest of a stored one and
  -- with a lease that passes the check of a replay, is given the stored answer. The body of the route,
  -- whatever it is, does not run, and the database stays as it is.
  pub mutation_answered :
      (executor : Executor) (rq : Request) (stage_id lease_id attempt_id : ℕ) (body : Json)
      (run : Holding → Action Json) (stored : ExecutorRequest) (h : Holding)
      → verify_executor_signature env executor rq body ≡ ok stored.request_hash
      → scalar (same_key executor rq) (after_calls env cs db).requests ≡ some stored
      → validate_lease env executor rq stage_id lease_id attempt_id true (after_calls env cs db)
        ≡ ok (h, after_calls env cs db)
      → (response : Json) × (stored.response_json ≡ some response)
        × (mutation env executor rq stage_id lease_id attempt_id body run (after_calls env cs db)
            ≡ ok (response, after_calls env cs db))
  mutation_answered executor rq stage_id lease_id attempt_id body run stored h signed known held =
      given stored.response_json refl (
        scalar-All (same_key executor rq) (after_calls env cs db).requests stored all-IsAnswered
          known)
    where
      given :
          (o : Option Json)
          → stored.response_json ≡ o
          → truthy stored.response_json ≡ true
          → (response : Json) × (stored.response_json ≡ some response)
            × (mutation env executor rq stage_id lease_id attempt_id body run
                  (after_calls env cs db)
                ≡ ok (response, after_calls env cs db))
      given none e t = absurd (ground (arith, e, t))
      given (some response) e t = (
        response,
        e,
        mutation_repeated env executor rq stage_id lease_id attempt_id body run
            (after_calls env cs db) stored response h signed known e (ap truthy (sym e) ∙ t) held,
      )
