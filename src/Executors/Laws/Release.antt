-- ===== src/Executors/Laws/Release.antt =====
-- One turn of the scheduler, expire_leases of src/umat/api/executor_routes.py, releases the leases
-- that are past their time.
use e_rakshak_umat.Prelude.{
  ℕ, ◌≤◌, ◌≡◌, ◌≢◌, refl, sym, ap, ◌∙◌, inl, inr, String, Bool, true, false, ◌&&◌, Option, none,
  some, List, [], ◌∷◌, ◌==◌, ==_iff, ltb, leb, is_none, is_some, Bool-cases, arith, if◌then◌else◌,
}
use e_rakshak_umat.Prelude.Tables.{
  get, count, update, update_where, select, order_by, Entity, Apart, Distinct, Keyed,
}
use e_rakshak_umat.Prelude.Tables.Laws.{
  KeepsKey, get-update, get-update_where, get-update_own, touched,
}
use e_rakshak_umat.Prelude.Tables.Queries.{
  Distinct-take, Distinct-order_by, Distinct-select, Distinct-of_Keyed,
}
use e_rakshak_umat.Prelude.Tables.Members.{
  Among, Among-select, Among-order_by, Among-take, size-order_by, size-select,
}
use e_rakshak_umat.Models.{StageState, cancelling, status_eq}
use e_rakshak_umat.Models.Rows.{
  AnalysisRun, AnalysisStage, AnalysisAttempt, ExecutorLease, stage_entity, attempt_entity,
  lease_entity,
}
use e_rakshak_umat.Environment.{Env}
use e_rakshak_umat.Database.{Db}
use e_rakshak_umat.Database.Rules.{branch}
use e_rakshak_umat.Executors.Workflow.{
  run_of, finish_cancellation, other_stage, is_held, is_pending,
}
use e_rakshak_umat.Executors.Expiry.{
  retry_or_fail, cancel_attempt, lose_attempt, conclude_attempt, end_run_session, expire_attempt,
  deadline, expire_due, expire_one, expire_each, outstanding, expire_leases, ended,
}
use e_rakshak_umat.Executors.Custody.Steps.{released}
use e_rakshak_umat.Executors.Custody.Leases.{leases-expire_attempt}
use e_rakshak_umat.Executors.Custody.Workflow.{end_session_keeps}

module _ {A : Type 0} ⦃e : Entity A⦄ where
  is_some-touched : (p : A → Bool) (f : A → A) (o : Option A) → is_some (touched p f o) ≡ is_some o
  is_some-touched p f none = refl
  is_some-touched p f (some x) = refl

  -- a row that is there stays there under writes of rows
  kept_row :
      (i j : ℕ) (f : A → A) (xs : List A)
      → KeepsKey f
      → is_some (get j xs) ≡ true
      → is_some (get j (update i f xs)) ≡ true
  kept_row i j f xs k h =
      rw (get-update i j f xs k, is_some-touched (λ x. e.key x == i) f (get j xs)) h

  kept_row_where :
      (p : A → Bool) (j : ℕ) (f : A → A) (xs : List A)
      → KeepsKey f
      → is_some (get j xs) ≡ true
      → is_some (get j (update_where p f xs)) ≡ true
  kept_row_where p j f xs k h = rw (get-update_where p j f xs k, is_some-touched p f (get j xs)) h

module _ (i j : ℕ) where
  -- the rows of a stage and of an attempt
  abbrev There : Db → Type 0
  There db = (is_some (get i db.stages) ≡ true) × (is_some (get j db.attempts) ≡ true)

  There-finish_cancellation :
      (run_id stage_id : ℕ) (db : Db) → There db → There (finish_cancellation run_id stage_id db)
  unfolding finish_cancellation
  There-finish_cancellation run_id stage_id db h =
      branch There (count (λ s. other_stage run_id stage_id s && is_held s.state) db.stages == 0) _
        _
        (λ _. (
          kept_row_where (λ s. other_stage run_id stage_id s && is_pending s.state) i
              (λ s. record s { state = StageState.cancelled }) db.stages (λ s. refl) h.0,
          h.1,
        ))
        (λ _. h)

  There-retry_or_fail :
      (again : Bool) (stage : AnalysisStage) (run : Option AnalysisRun) (attempts now : ℕ) (db : Db)
      → There db
      → There (retry_or_fail again stage run attempts now db)
  unfolding retry_or_fail
  There-retry_or_fail true stage run attempts now db h =
      (kept_row stage.id i _ db.stages (λ s. refl) h.0, h.1)
  There-retry_or_fail false stage none attempts now db h =
      (kept_row stage.id i _ db.stages (λ s. refl) h.0, h.1)
  There-retry_or_fail false stage (some run) attempts now db h =
      (kept_row stage.id i _ db.stages (λ s. refl) h.0, h.1)

  module _ (attempt : AnalysisAttempt) (stage : AnalysisStage) (now : ℕ) (reason : String) where
    There-lose_attempt :
        (o : Option AnalysisRun) (db : Db)
        → There db
        → There (lose_attempt o attempt stage now reason db)
    unfolding lose_attempt
    There-lose_attempt o db h = There-retry_or_fail _ stage o _ now _ (
      kept_row stage.id i _ db.stages (λ s. refl) h.0,
      kept_row attempt.id j _ db.attempts (λ a. refl) h.1,
    )

    There-conclude_attempt :
        (o : Option AnalysisRun) (db : Db)
        → There db
        → There (conclude_attempt o attempt stage now reason db)
    unfolding conclude_attempt cancel_attempt
    There-conclude_attempt none db h = There-lose_attempt none db h
    There-conclude_attempt (some run) db h =
        branch There (status_eq run.status cancelling) _ _
          (λ _. There-finish_cancellation run.id stage.id _ (
            kept_row stage.id i _ db.stages (λ s. refl) h.0,
            kept_row attempt.id j _ db.attempts (λ a. refl) h.1,
          ))
          (λ _. There-lose_attempt (some run) db h)

    There-end_run_session :
        (o : Option AnalysisRun) (db : Db) → There db → There (end_run_session o stage now db)
    There-end_run_session none db h = h
    There-end_run_session (some run) db h =
        end_session_keeps There run stage.stage_type "expired" "expired" now db h h h

    There-expire_attempt :
        (lease : ExecutorLease) (db : Db)
        → There db
        → There (expire_attempt lease attempt stage now reason db)
    unfolding expire_attempt
    There-expire_attempt lease db h =
        let before = There-end_run_session (run_of stage db) db h in
        There-conclude_attempt (run_of stage db) _
          (before.0, kept_row attempt.id j (ended now) _ (λ a. refl) before.1)

get_other :
    (i j : ℕ) (f : ExecutorLease → ExecutorLease) (xs : List ExecutorLease)
    → ((x : ExecutorLease) → (f x).id ≡ x.id)
    → j ≢ i
    → get j (update i f xs) ≡ get j xs
unfolding get update
get_other i j f [] k h = refl
get_other i j f (x ∷ xs) k h = elim (Bool-cases (x.id == i)) [
  | inl hit ↦ elim (Bool-cases (x.id == j)) [
    | inl both ↦ absurd (h (omega (arith, (==_iff x.id i).0 hit, (==_iff x.id j).0 both)))
    | inr miss ↦ ground (arith, k x, get_other i j f xs k h)
  ]
  | inr miss ↦ ground (arith, get_other i j f xs k h)
]

Apart-Among :
    (i : ℕ) (x : ExecutorLease) (xs : List ExecutorLease) → Apart i xs → Among x xs → x.id ≢ i
Apart-Among i x [] a m = absurd m
Apart-Among i x (y ∷ ys) a (inl hit) = λ e. a.0 (ap (λ (z : ExecutorLease). z.id) hit ∙ e)
Apart-Among i x (y ∷ ys) a (inr rest) = Apart-Among i x ys a.1 rest

module _ (env : Env) (now : ℕ) (l : ExecutorLease) where
  -- the lease is as it was, and its stage and its attempt are there
  abbrev Waiting : Db → Type 0
  Waiting db = (get l.id db.leases ≡ some l) × There l.stage_id l.attempt_id db

  -- the lease was released at this turn
  abbrev pub Released : Db → Type 0
  Released db = (reason : String) × (get l.id db.leases ≡ some (released now reason l))

  leases_other :
      (x : ExecutorLease) (a : Option AnalysisAttempt) (st : Option AnalysisStage) (s : Db × ℕ)
      → l.id ≢ x.id
      → get l.id (expire_one env now x a st s).0.leases ≡ get l.id s.0.leases
  unfolding expire_one expire_due
  leases_other x none st s h = refl
  leases_other x (some a) none s h = refl
  leases_other x (some a) (some st) (db, n) h =
      branch (λ (r : Db × ℕ). get l.id r.0.leases ≡ get l.id db.leases)
        (ltb now x.expires_at && ltb now (deadline a st)) _ _ (λ _. refl)
        (λ _.
          rw (leases-expire_attempt x a st now _ db)
            (get_other x.id l.id (released now _) db.leases (λ y. refl) h))

  There-expire_one :
      (x : ExecutorLease) (a : Option AnalysisAttempt) (st : Option AnalysisStage) (s : Db × ℕ)
      → There l.stage_id l.attempt_id s.0
      → There l.stage_id l.attempt_id (expire_one env now x a st s).0
  unfolding expire_one expire_due
  There-expire_one x none st s h = h
  There-expire_one x (some a) none s h = h
  There-expire_one x (some a) (some st) (db, n) h =
      branch (λ (r : Db × ℕ). There l.stage_id l.attempt_id r.0)
        (ltb now x.expires_at && ltb now (deadline a st)) _ _ (λ _. h)
        (λ _. There-expire_attempt l.stage_id l.attempt_id a st now _ x db h)

  own_turn :
      (a : Option AnalysisAttempt) (st : Option AnalysisStage) (s : Db × ℕ)
      → is_some a ≡ true
      → is_some st ≡ true
      → l.expires_at ≤ now
      → get l.id s.0.leases ≡ some l
      → Released (expire_one env now l a st s).0
  unfolding expire_one expire_due
  own_turn none st s ha hs late g = ground arith
  own_turn (some a) none s ha hs late g = ground arith
  own_turn (some a) (some st) (db, n) ha hs late g =
      branch (λ (r : Db × ℕ). Released r.0) (ltb now l.expires_at && ltb now (deadline a st)) _ _
        (λ early. ground (arith, early, late))
        (λ _.
          let reason = if leb (deadline a st) now then "timeout" else "lease_expired" in
          (
            reason,
            rw (leases-expire_attempt l a st now reason db)
                (get-update_own l.id (released now reason) db.leases l (λ y. refl) g),
          ))

  Released-expire_each :
      (ls : List ExecutorLease) (s : Db × ℕ)
      → Apart l.id ls
      → Released s.0
      → Released (expire_each env now ls s).0
  unfolding expire_each
  Released-expire_each [] s a r = r
  Released-expire_each (x ∷ xs) s a r = Released-expire_each xs _ a.1 (
    r.0,
    leases_other x (get x.attempt_id s.0.attempts) (get x.stage_id s.0.stages) s (λ e. a.0 (sym e))
        ∙ r.1,
  )

  Released-of_Waiting :
      (ls : List ExecutorLease) (s : Db × ℕ)
      → l.expires_at ≤ now
      → Distinct ls
      → Among l ls
      → Waiting s.0
      → Released (expire_each env now ls s).0
  unfolding expire_each
  Released-of_Waiting [] s late d m w = absurd m
  Released-of_Waiting (x ∷ xs) s late d (inl hit) w = rw hit (
      Released-expire_each xs _ (rw hit at d.0) (
        own_turn (get l.attempt_id s.0.attempts) (get l.stage_id s.0.stages) s w.1.1 w.1.0 late
          w.0))
  Released-of_Waiting (x ∷ xs) s late d (inr rest) w = Released-of_Waiting xs _ late d.1 rest (
    leases_other x (get x.attempt_id s.0.attempts) (get x.stage_id s.0.stages) s
          (Apart-Among x.id l xs d.0 rest)
        ∙ w.0,
    There-expire_one x (get x.attempt_id s.0.attempts) (get x.stage_id s.0.stages) s w.1,
  )

  -- A lease that is not released and is past its time, with its stage and its attempt in the
  -- database, is released by one turn of the scheduler, with the time of the turn, if the keys of
  -- the leases fall along the table and there are at most a thousand leases to look at.
  pub expire_leases-Released :
      (db : Db)
      → Keyed db.next_id db.leases
      → count (λ (x : ExecutorLease). is_none x.released_at) db.leases ≤ 1000
      → get l.id db.leases ≡ some l
      → is_none l.released_at ≡ true
      → l.expires_at ≤ now
      → is_some (get l.stage_id db.stages) ≡ true
      → is_some (get l.attempt_id db.attempts) ≡ true
      → Released (expire_leases env now db).0
  unfolding expire_leases outstanding
  expire_leases-Released db k few found open' late stage attempt =
      let unreleased : ExecutorLease → Bool = λ x. is_none x.released_at in
      let before : ExecutorLease → ExecutorLease → Bool = λ a b. ltb a.expires_at b.expires_at in
      let rows = select unreleased db.leases in
      Released-of_Waiting (outstanding db) (db, 0) late
        (Distinct-take 1000 _ (
          Distinct-order_by _ _
            (Distinct-select _ db.leases (Distinct-of_Keyed db.next_id db.leases k))))
        (Among-take 1000 l (order_by before rows)
          (omega (arith, size-order_by before rows, size-select unreleased db.leases))
          (Among-order_by before l rows (Among-select unreleased l.id db.leases l found open')))
        (found, (stage, attempt))
