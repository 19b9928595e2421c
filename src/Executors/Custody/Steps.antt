-- ===== src/Executors/Custody/Steps.antt =====
-- Custody under the single writes of the handlers.
use e_rakshak_umat.Prelude.{
  ℕ, ◌+◌, ◌≤◌, ◌<◌, ◌≡◌, refl, ap, inl, inr, String, Bool, true, false, Option, none, some, List,
  [], ◌∷◌, ◌==◌, Bool-cases, is_none, arith,
}
use e_rakshak_umat.Prelude.Tables.{get, count, update, update_where, Keyed-mono}
use e_rakshak_umat.Prelude.Tables.Laws.{
  touched, get-update, get-update_where, Keyed-update, Keyed-update_where, get_above,
  count-update_same, count-update_le, count-update_lt,
}
use e_rakshak_umat.Models.{StageState}
use e_rakshak_umat.Models.Rows.{
  AnalysisStage, AnalysisAttempt, ExecutorLease, stage_entity, lease_entity, attempt_entity,
}
use e_rakshak_umat.Database.{Db}
use e_rakshak_umat.Executors.Workflow.{
  set_stage, set_attempt, set_lease, add_stage, is_held, is_pending, attempts_of,
}
use e_rakshak_umat.Executors.Expiry.{release}
use e_rakshak_umat.Executors.Custody.{
  holds, active_leases, capacity, owed, allowance, Custody, Idle,
}
use e_rakshak_umat.Executors.Custody.Idle.{Keeps}

-- a write of attempts that leaves them with their stages
pub Custody-set_attempt :
    (i : ℕ) (f : AnalysisAttempt → AnalysisAttempt) (db : Db)
    → ((a : AnalysisAttempt) → (f a).stage_id ≡ a.stage_id)
    → Custody db
    → Custody (set_attempt i f db)
Custody-set_attempt i f db k c = record {
  keyed = c.keyed;
  keyed_leases = c.keyed_leases;
  exclusive = c.exclusive;
  budget = λ j.
      rw (count-update_same (attempts_of j) i f db.attempts (λ a. ap (λ (n : ℕ). n == j) (k a)))
        (c.budget j);
}

pub Idle-set_attempt :
    (i limit made n : ℕ) (f : AnalysisAttempt → AnalysisAttempt) (db : Db)
    → ((a : AnalysisAttempt) → (f a).stage_id ≡ a.stage_id)
    → Idle i limit made db
    → Idle i limit made (set_attempt n f db)
Idle-set_attempt i limit made n f db k h = record {
  custody = Custody-set_attempt n f db k h.custody;
  idle = h.idle;
  limit_of = h.limit_of;
  made_of =
      rw (count-update_same (attempts_of i) n f db.attempts (λ a. ap (λ (m : ℕ). m == i) (k a)))
        h.made_of;
}

abbrev pub released : ℕ → String → ExecutorLease → ExecutorLease
released now reason l = record l { released_at = some now; release_reason = some reason }

released_holds_not :
    (j now : ℕ) (reason : String) (l : ExecutorLease) → holds j (released now reason l) ≡ false
released_holds_not j now reason l = ground arith

-- What is known of a lease that is held on a stage.
pub record Held (i : ℕ) (l : ExecutorLease) (leases : List ExecutorLease) : Type 0 where
  pub found : get l.id leases ≡ some l
  pub of_stage : l.stage_id ≡ i
  pub unreleased : is_none l.released_at ≡ true

capacity_le : (o : Option AnalysisStage) → capacity o ≤ 1
capacity_le none = omega arith
capacity_le (some s) = ground arith

-- the release of the lease of a stage leaves the stage without one
pub Idle-release :
    (i limit made now : ℕ) (reason : String) (db : Db) (l : ExecutorLease)
    → Held i l db.leases
    → Custody db
    → ((s : AnalysisStage) → get i db.stages ≡ some s → s.max_attempts ≡ limit)
    → count (attempts_of i) db.attempts ≡ made
    → Idle i limit made (release l.id now reason db)
Idle-release i limit made now reason db l h c lim m = record {
  custody = record {
    keyed = c.keyed;
    keyed_leases =
        Keyed-update db.next_id l.id (released now reason) db.leases (λ x. refl) c.keyed_leases;
    exclusive = λ j. omega (arith, fewer j, c.exclusive j);
    budget = c.budget;
  };
  idle = omega (arith, gone, c.exclusive i, capacity_le (get i db.stages));
  limit_of = lim;
  made_of = m;
}
  where
    fewer :
        (j : ℕ)
        → active_leases j (update l.id (released now reason) db.leases) ≤ active_leases j db.leases
    fewer j =
        count-update_le (holds j) l.id (released now reason) db.leases
          (λ x _. released_holds_not j now reason x)

    gone : active_leases i (update l.id (released now reason) db.leases) < active_leases i db.leases
    gone =
        count-update_lt (holds i) l.id (released now reason) db.leases l
          (λ x. released_holds_not i now reason x) h.found
          (ground (arith, h.of_stage, h.unreleased))

-- a write of leases that leaves them with their stages, and as released as they were
pub Custody-set_lease :
    (i : ℕ) (f : ExecutorLease → ExecutorLease) (db : Db)
    → ((l : ExecutorLease) → (f l).id ≡ l.id)
    → ((j : ℕ) (l : ExecutorLease) → holds j (f l) ≡ holds j l)
    → Custody db
    → Custody (set_lease i f db)
Custody-set_lease i f db k same c = record {
  keyed = c.keyed;
  keyed_leases = Keyed-update db.next_id i f db.leases k c.keyed_leases;
  exclusive = λ j. rw (count-update_same (holds j) i f db.leases (same j)) (c.exclusive j);
  budget = c.budget;
}

-- a lease that is not released is counted
pub active-pos :
    (i : ℕ) (leases : List ExecutorLease) (l : ExecutorLease) (lease_id : ℕ)
    → get lease_id leases ≡ some l
    → l.stage_id ≡ i
    → is_none l.released_at ≡ true
    → 0 < active_leases i leases
unfolding get count
active-pos i [] l lease_id g at open' = ground arith
active-pos i (x ∷ xs) l lease_id g at open' = ground (arith, active-pos i xs l lease_id)

-- A new queued stage, with an attempt granted to it.
pub Custody-add_stage :
    (row : ℕ → AnalysisStage) (db : Db)
    → (row db.next_id).id ≡ db.next_id
    → (row db.next_id).state ≡ StageState.queued
    → 1 ≤ (row db.next_id).max_attempts
    → Custody db
    → Custody (add_stage row db)
unfolding get
Custody-add_stage row db same queued granted c = record {
  keyed = (omega (arith, same), rw same c.keyed);
  keyed_leases = Keyed-mono db.next_id (db.next_id + 1) db.leases (omega arith) c.keyed_leases;
  exclusive = λ j. ground (arith, c.exclusive j, fresh j, same, queued);
  budget = λ j. ground (arith, c.budget j, fresh j, same, queued, granted);
}
  where
    fresh : (j : ℕ) → db.next_id ≤ j → get j db.stages ≡ none
    fresh j h = get_above db.next_id j db.stages c.keyed h

abbrev cancel_stage : AnalysisStage → AnalysisStage
cancel_stage s = record s { state = StageState.cancelled }

-- pending stages are cancelled
pub Custody-cancel :
    (p : AnalysisStage → Bool) (db : Db)
    → ((s : AnalysisStage) → p s ≡ true → is_pending s.state ≡ true)
    → Custody db
    → Custody (record db {
      stages = update_where p (λ s. record s { state = StageState.cancelled }) db.stages;
    })
Custody-cancel p db pending c = record {
  keyed = Keyed-update_where db.next_id p cancel_stage db.stages (λ s. refl) c.keyed;
  keyed_leases = c.keyed_leases;
  exclusive = λ j.
      rw (get-update_where p j cancel_stage db.stages (λ s. refl))
        (exclusive j (get j db.stages) (c.exclusive j));
  budget = λ j.
      rw (get-update_where p j cancel_stage db.stages (λ s. refl))
        (budget j (get j db.stages) (c.budget j));
}
  where
    exclusive :
        (j : ℕ) (o : Option AnalysisStage)
        → active_leases j db.leases ≤ capacity o
        → active_leases j db.leases ≤ capacity (touched p cancel_stage o)
    exclusive j none h = h
    exclusive j (some s) h = ground (arith, pending s)

    budget :
        (j : ℕ) (o : Option AnalysisStage)
        → count (attempts_of j) db.attempts + owed o ≤ allowance o
        → count (attempts_of j) db.attempts + owed (touched p cancel_stage o)
          ≤ allowance (touched p cancel_stage o)
    budget j none h = h
    budget j (some s) h = ground (arith, pending s)

-- A stage that is held after a write: its one lease may stay, and it is owed nothing.
module _ (i : ℕ) (f : AnalysisStage → AnalysisStage) (db : Db) (k : Keeps f)
    (held : (s : AnalysisStage) → is_held (f s).state ≡ true) where
  room_after :
      (o : Option AnalysisStage) (n : ℕ)
      → n ≤ capacity o
      → n ≤ capacity (touched (λ s. s.id == i) f o)
  room_after none n h = h
  room_after (some s) n h = elim (Bool-cases (s.id == i)) [
    | inl hit ↦ rw (hit, held s) (omega (arith, h, capacity_le (some s)))
    | inr miss ↦ rw miss h
  ]

  held_owed : (s : AnalysisStage) → owed (some (f s)) ≡ 0
  held_owed s = ground (arith, held s)

  spent_after :
      (o : Option AnalysisStage) (n : ℕ)
      → n + owed o ≤ allowance o
      → n + owed (touched (λ s. s.id == i) f o) ≤ allowance (touched (λ s. s.id == i) f o)
  spent_after none n h = h
  spent_after (some s) n h = elim (Bool-cases (s.id == i)) [
    | inl hit ↦ rw (hit, held_owed s, k.max_attempts s) (omega (arith, h))
    | inr miss ↦ rw miss h
  ]

  pub Custody-hold : Custody db → Custody (set_stage i f db)
  Custody-hold c = record {
    keyed = Keyed-update db.next_id i f db.stages k.id c.keyed;
    keyed_leases = c.keyed_leases;
    exclusive =
        λ j. rw (get-update i j f db.stages k.id) (room_after (get j db.stages) _ (c.exclusive j));
    budget =
        λ j. rw (get-update i j f db.stages k.id) (spent_after (get j db.stages) _ (c.budget j));
  }
