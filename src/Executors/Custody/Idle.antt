-- ===== src/Executors/Custody/Idle.antt =====
-- Custody under a write of a stage that has no unreleased lease.
use e_rakshak_umat.Prelude.{
  ℕ, ◌+◌, ◌≤◌, ◌<◌, ◌≡◌, refl, inl, inr, false, Option, none, some, ◌==◌, ==_iff, Bool-cases, arith,
}
use e_rakshak_umat.Prelude.Tables.{get, count}
use e_rakshak_umat.Prelude.Tables.Laws.{touched, get-update, Keyed-update, get_key}
use e_rakshak_umat.Models.Rows.{AnalysisStage, stage_entity, lease_entity, attempt_entity}
use e_rakshak_umat.Database.{Db}
use e_rakshak_umat.Executors.Workflow.{set_stage, is_pending, attempts_of}
use e_rakshak_umat.Executors.Custody.{active_leases, capacity, owed, allowance, Idle}

-- a write of stages that leaves keys and limits alone
pub record Keeps (f : AnalysisStage → AnalysisStage) : Type 0 where
  pub id : (s : AnalysisStage) → (f s).id ≡ s.id
  pub max_attempts : (s : AnalysisStage) → (f s).max_attempts ≡ s.max_attempts

module _ (i limit made : ℕ) (f : AnalysisStage → AnalysisStage) (db : Db) (k : Keeps f) where
  capacity_after :
      (j : ℕ) (o : Option AnalysisStage)
      → Idle i limit made db
      → active_leases j db.leases ≤ capacity o
      → ((s : AnalysisStage) → o ≡ some s → s.id ≡ j)
      → active_leases j db.leases ≤ capacity (touched (λ s. s.id == i) f o)
  capacity_after j none h c e = c
  capacity_after j (some s) h c e = elim (Bool-cases (s.id == i)) [
    | inl hit ↦ rw hit (ground (arith, e s refl, h.idle))
    | inr miss ↦ rw miss c
  ]

  budget_after :
      (j : ℕ) (o : Option AnalysisStage)
      → count (attempts_of j) db.attempts + owed o ≤ allowance o
      → ((s : AnalysisStage)
          → o ≡ some s
          → j ≡ i
          → count (attempts_of i) db.attempts + owed (some (f s)) ≤ s.max_attempts)
      → ((s : AnalysisStage) → o ≡ some s → s.id ≡ j)
      → count (attempts_of j) db.attempts + owed (touched (λ s. s.id == i) f o)
        ≤ allowance (touched (λ s. s.id == i) f o)
  budget_after j none h r e = h
  budget_after j (some s) h r e = elim (Bool-cases (s.id == i)) [
    | inl hit ↦
        let eq : j ≡ i = omega (arith, e s refl, (==_iff s.id i).0 hit) in
        rw (hit, k.max_attempts s) (rw eq (r s refl eq))
    | inr miss ↦ rw miss h
  ]

  limit_after :
      (o : Option AnalysisStage) (s : AnalysisStage)
      → ((s : AnalysisStage) → o ≡ some s → s.max_attempts ≡ limit)
      → touched (λ s. s.id == i) f o ≡ some s
      → s.max_attempts ≡ limit
  limit_after none s h e = ground arith
  limit_after (some x) s h e = elim (Bool-cases (x.id == i)) [
    | inl hit ↦ cc (h x refl, k.max_attempts x, rw hit at e)
    | inr miss ↦ cc (h x refl, rw miss at e)
  ]

  -- The write of an idle stage: custody stays if there is an attempt for what the stage is owed.
  Idle-write :
      ((s : AnalysisStage)
        → get i db.stages ≡ some s
        → count (attempts_of i) db.attempts + owed (some (f s)) ≤ s.max_attempts)
      → Idle i limit made db
      → Idle i limit made (set_stage i f db)
  Idle-write room h = record {
    custody = record {
      keyed = Keyed-update db.next_id i f db.stages k.id h.custody.keyed;
      keyed_leases = h.custody.keyed_leases;
      exclusive = λ j.
          rw (get-update i j f db.stages k.id)
            (capacity_after j (get j db.stages) h (h.custody.exclusive j) (get_key j db.stages));
      budget = λ j. rw (get-update i j f db.stages k.id) (
          budget_after j (get j db.stages) (h.custody.budget j) (λ s g e. room s (rw e at g))
            (get_key j db.stages));
    };
    idle = h.idle;
    limit_of = λ s g.
        limit_after (get i db.stages) s h.limit_of (rw (get-update i i f db.stages k.id) at g);
    made_of = h.made_of;
  }

  -- a state in which the stage is owed nothing
  pub Idle-settle :
      ((s : AnalysisStage) → is_pending (f s).state ≡ false)
      → Idle i limit made db
      → Idle i limit made (set_stage i f db)
  Idle-settle settled h = Idle-write room h
    where
      spent :
          (o : Option AnalysisStage) (s : AnalysisStage)
          → o ≡ some s
          → count (attempts_of i) db.attempts + owed o ≤ allowance o
          → count (attempts_of i) db.attempts + owed (some (f s)) ≤ s.max_attempts
      spent none s e b = ground arith
      spent (some x) s e b = ground (arith, settled s, settled x)

      room :
          (s : AnalysisStage)
          → get i db.stages ≡ some s
          → count (attempts_of i) db.attempts + owed (some (f s)) ≤ s.max_attempts
      room s g = spent (get i db.stages) s g (h.custody.budget i)

  -- any state, with an attempt left
  pub Idle-requeue : made < limit → Idle i limit made db → Idle i limit made (set_stage i f db)
  Idle-requeue left h = Idle-write (λ s g. ground (arith, h.limit_of s g, h.made_of)) h

  -- a write that leaves the state alone
  pub Idle-note :
      ((s : AnalysisStage) → (f s).state ≡ s.state)
      → Idle i limit made db
      → Idle i limit made (set_stage i f db)
  Idle-note same h = Idle-write room h
    where
      unchanged :
          (o : Option AnalysisStage) (s : AnalysisStage)
          → o ≡ some s
          → count (attempts_of i) db.attempts + owed o ≤ allowance o
          → count (attempts_of i) db.attempts + owed (some (f s)) ≤ s.max_attempts
      unchanged none s e b = ground arith
      unchanged (some x) s e b = ground (arith, same s, same x)

      room :
          (s : AnalysisStage)
          → get i db.stages ≡ some s
          → count (attempts_of i) db.attempts + owed (some (f s)) ≤ s.max_attempts
      room s g = unchanged (get i db.stages) s g (h.custody.budget i)
