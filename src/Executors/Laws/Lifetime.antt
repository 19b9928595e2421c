-- ===== src/Executors/Laws/Lifetime.antt =====
-- Until when a lease passes validate_lease of src/umat/api/executor_routes.py.
use e_rakshak_umat.Prelude.{
  ℕ, ◌≡◌, refl, inl, inr, String, Bool, true, false, not, none, some, ltb, str_eq, eq_iff, is_some,
  arith, Bool-cases,
}
use e_rakshak_umat.Prelude.Tables.{get}
use e_rakshak_umat.Models.Rows.{Executor, ExecutorLease, stage_entity, attempt_entity, lease_entity}
use e_rakshak_umat.Environment.{Env, token_hash}
use e_rakshak_umat.Database.{Db, Result, ok, err, found}
use e_rakshak_umat.Database.Rules.{Ensures, Ensures-found, Ensures-test, Ensures-ok}
use e_rakshak_umat.Executors.Request.{Request, Holding, mismatched, lapsed, validate_lease}
use e_rakshak_umat.Executors.Laws.Access.{IsChecked, checked}

-- whether a check of a lease lets the request through
abbrev pub passes : Result (Holding × Db) → Bool
passes (ok r) = true
passes (err e) = false

-- an unreleased lease, for a request with its token
lapsed_live :
    (env : Env) (now : ℕ) (token : String) (l : ExecutorLease)
    → l.released_at ≡ none
    → token_hash env token ≡ l.token_hash
    → lapsed env now false token l ≡ not (ltb now l.expires_at)
unfolding lapsed
lapsed_live env now token l fresh known =
    let same : str_eq (token_hash env token) l.token_hash ≡ true =
      (eq_iff (token_hash env token) l.token_hash).1 known in
    rw same (rw fresh (ground arith))

module _ (env : Env) (executor : Executor) (rq : Request) (stage_id lease_id attempt_id : ℕ)
    (db : Db) where
  -- The rows of an unreleased lease let the executor with its token through until its time is over.
  pub lease_passes :
      (h : Holding)
      → get stage_id db.stages ≡ some h.stage
      → get attempt_id db.attempts ≡ some h.attempt
      → get lease_id db.leases ≡ some h.lease
      → mismatched executor h ≡ false
      → h.lease.released_at ≡ none
      → token_hash env rq.lease_token ≡ h.lease.token_hash
      → passes (validate_lease env executor rq stage_id lease_id attempt_id false db)
        ≡ ltb rq.checked_at h.lease.expires_at
  unfolding validate_lease found
  lease_passes h s a l own fresh known =
      rw (s, a, l, own)
        (rw (lapsed_live env rq.checked_at rq.lease_token h.lease fresh known)
          (elim (Bool-cases (ltb rq.checked_at h.lease.expires_at)) [
            | inl e ↦ rw e refl
            | inr e ↦ rw e refl
          ]))

  -- the lease that passed is the row
  abbrev Found : Holding → Db → Type 0
  Found h after = (get lease_id db.leases ≡ some h.lease) × IsChecked env executor rq false h

  validate_lease-Found :
      Ensures Found (validate_lease env executor rq stage_id lease_id attempt_id false db)
  unfolding validate_lease
  validate_lease-Found = Ensures-found Found _ _ _ _ _ λ stage s.
      Ensures-found Found _ _ _ _ _ λ attempt a. Ensures-found Found _ _ _ _ _ λ lease l.
        let h : Holding = record { stage = stage; attempt = attempt; lease = lease } in
        Ensures-test Found (mismatched executor h) _ _ db _ λ m.
          Ensures-test Found (lapsed env rq.checked_at false rq.lease_token lease) _ _ db _
            λ e. Ensures-ok Found h db (l, checked env executor rq false h m e)

  refused :
      (r : Result (Holding × Db)) (l : ExecutorLease)
      → get lease_id db.leases ≡ some l
      → is_some l.released_at ≡ true
      → Ensures Found r
      → passes r ≡ false
  refused (err e) l there over k = refl
  refused (ok (h, d)) l there over k =
      absurd (ground (arith, there, over, k.holds.0, (k.holds.1.active refl).0))

  -- A released lease lets nothing through.
  pub lease_refused :
      (l : ExecutorLease)
      → get lease_id db.leases ≡ some l
      → is_some l.released_at ≡ true
      → passes (validate_lease env executor rq stage_id lease_id attempt_id false db) ≡ false
  lease_refused l there over =
      refused (validate_lease env executor rq stage_id lease_id attempt_id false db) l there over
        validate_lease-Found
