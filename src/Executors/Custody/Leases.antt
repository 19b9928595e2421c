-- ===== src/Executors/Custody/Leases.antt =====
-- Custody under expire_leases: each lease of the list is still held when its turn comes.
use e_rakshak_umat.Prelude.{
  ℕ, ◌≡◌, refl, sym, inl, inr, String, true, ◌&&◌, Option, none, some, List, [], ◌∷◌, ◌==◌, ==_iff,
  Bool-cases, is_none, ltb,
}
use e_rakshak_umat.Prelude.Tables.{get, update, All, Apart, Distinct}
use e_rakshak_umat.Prelude.Tables.Laws.{get-update, get_key}
use e_rakshak_umat.Prelude.Tables.Queries.{
  All-select, All-order_by, All-take, Distinct-select, Distinct-order_by, Distinct-take,
  Distinct-of_Keyed, All_of_Keyed, All-map,
}
use e_rakshak_umat.Models.Rows.{
  AnalysisStage, AnalysisAttempt, ExecutorLease, stage_entity, lease_entity, attempt_entity,
  run_entity,
}
use e_rakshak_umat.Environment.{Env}
use e_rakshak_umat.Database.{Db}
use e_rakshak_umat.Database.Rules.{branch}
use e_rakshak_umat.Executors.Workflow.{run_of}
use e_rakshak_umat.Executors.Expiry.{
  expire_attempt, deadline, expire_due, expire_one, expire_each, expire_leases, outstanding,
}
use e_rakshak_umat.Executors.Custody.{Custody}
use e_rakshak_umat.Executors.Custody.Steps.{released}
use e_rakshak_umat.Executors.Custody.Frame.{Framed, kept-conclude_attempt, kept-end_run_session}
use e_rakshak_umat.Executors.Custody.Expiry.{Holds, Custody-expire_attempt}

framed : (leases : List ExecutorLease) → Framed (λ db. db.leases ≡ leases)
framed leases = record {
  stages = λ x db h. h;
  runs = λ x db h. h;
  attempts = λ x db h. h;
  windows = λ x db h. h;
  android = λ x db h. h;
  next_id = λ x db h. h;
}

-- the expiry of an attempt writes its own lease and no other
pub leases-expire_attempt :
    (lease : ExecutorLease) (attempt : AnalysisAttempt) (stage : AnalysisStage) (now : ℕ)
    (reason : String) (db : Db)
    → (expire_attempt lease attempt stage now reason db).leases
      ≡ update lease.id (released now reason) db.leases
unfolding expire_attempt
leases-expire_attempt lease attempt stage now reason db =
    kept-conclude_attempt _ (framed _) (run_of stage db) attempt stage now reason _
      (rw (kept-end_run_session _ (framed db.leases) (run_of stage db) stage now db refl))

abbrev IsOutstanding : Db → ExecutorLease → Type 0
IsOutstanding db l = (get l.id db.leases ≡ some l) × (is_none l.released_at ≡ true)

-- the leases that are left to the loop
record Pending (ls : List ExecutorLease) (db : Db) : Type 0 where
  custody : Custody db
  distinct : Distinct ls
  outstanding : All (IsOutstanding db) ls

still_outstanding :
    (i now : ℕ) (reason : String) (ls : List ExecutorLease) (leases : List ExecutorLease)
    → Apart i ls
    → All (λ l. (get l.id leases ≡ some l) × (is_none l.released_at ≡ true)) ls
    → All
        (λ l.
          (get l.id (update i (released now reason) leases) ≡ some l)
          × (is_none l.released_at ≡ true))
        ls
still_outstanding i now reason [] leases a h = tt
still_outstanding i now reason (l ∷ ls) leases a h = (
  (
    rw (get-update i l.id (released now reason) leases (λ x. refl)) (
        rw h.0.0 (elim (Bool-cases (l.id == i)) [
          | inl hit ↦ absurd (a.0 ((==_iff l.id i).0 hit))
          | inr miss ↦ rw miss
        ])),
    h.0.1,
  ),
  still_outstanding i now reason ls leases a.1 h.1,
)

-- One turn of the loop keeps custody and the leases that come after.
Pending-expire_due :
    (env : Env) (now : ℕ) (l : ExecutorLease) (ls : List ExecutorLease) (attempt : AnalysisAttempt)
    (stage : AnalysisStage) (s : Db × ℕ)
    → get l.stage_id s.0.stages ≡ some stage
    → Pending (l ∷ ls) s.0
    → Pending ls (expire_due env now l attempt stage s).0
unfolding expire_due
Pending-expire_due env now l ls attempt stage (db, expired) g h =
    branch (λ (r : Db × ℕ). Pending ls r.0)
      (ltb now l.expires_at && ltb now (deadline attempt stage)) _ _
      (λ _. record { custody = h.custody; distinct = h.distinct.1; outstanding = h.outstanding.1 })
      (λ _. record {
        custody = Custody-expire_attempt l attempt stage now _ db holds;
        distinct = h.distinct.1;
        outstanding =
            rw (leases-expire_attempt l attempt stage now _ db)
              (still_outstanding l.id now _ ls db.leases h.distinct.0 h.outstanding.1);
      })
  where
    same : stage.id ≡ l.stage_id
    same = get_key l.stage_id db.stages stage g

    holds : Holds stage l db
    holds = record {
      custody = h.custody;
      held = record {
        found = h.outstanding.0.0;
        of_stage = sym same;
        unreleased = h.outstanding.0.1;
      };
      limit_of = λ x p. cc (p, g, same);
    }

Pending-expire_one :
    (env : Env) (now : ℕ) (l : ExecutorLease) (ls : List ExecutorLease)
    (attempt : Option AnalysisAttempt) (stage : Option AnalysisStage) (s : Db × ℕ)
    → get l.stage_id s.0.stages ≡ stage
    → Pending (l ∷ ls) s.0
    → Pending ls (expire_one env now l attempt stage s).0
unfolding expire_one
Pending-expire_one env now l ls (some attempt) (some stage) s g h =
    Pending-expire_due env now l ls attempt stage s g h
Pending-expire_one env now l ls none stage s g h = record {
  custody = h.custody;
  distinct = h.distinct.1;
  outstanding = h.outstanding.1;
}
Pending-expire_one env now l ls (some attempt) none s g h = record {
  custody = h.custody;
  distinct = h.distinct.1;
  outstanding = h.outstanding.1;
}

Custody-expire_each :
    (env : Env) (now : ℕ) (ls : List ExecutorLease) (s : Db × ℕ)
    → Pending ls s.0
    → Custody (expire_each env now ls s).0
unfolding expire_each
Custody-expire_each env now [] s h = h.custody
Custody-expire_each env now (l ∷ ls) s h = Custody-expire_each env now ls _ (
    Pending-expire_one env now l ls (get l.attempt_id s.0.attempts) (get l.stage_id s.0.stages) s
      refl h)

Pending-outstanding : (db : Db) → Custody db → Pending (outstanding db) db
unfolding outstanding
Pending-outstanding db c = record {
  custody = c;
  distinct = Distinct-take 1000 _ (
      Distinct-order_by _ _
        (Distinct-select _ db.leases (Distinct-of_Keyed db.next_id db.leases c.keyed_leases)));
  outstanding = All-take (IsOutstanding db) 1000 _ (
      All-order_by (IsOutstanding db) _ _ (
        All-select (IsOutstanding db) _ db.leases (
          All-map db.leases (λ l found t. (found, t))
            (All_of_Keyed db.next_id db.leases c.keyed_leases))));
}

pub Custody-expire_leases :
    (env : Env) (now : ℕ) (db : Db) → Custody db → Custody (expire_leases env now db).0
unfolding expire_leases
Custody-expire_leases env now db c =
    Custody-expire_each env now (outstanding db) (db, 0) (Pending-outstanding db c)
