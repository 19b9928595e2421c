-- ===== src/Protocol/Users.antt =====
-- The invariant of the protocol under confirm_run, cancel_run and retry_run of
-- src/umat/api/case_routes.py and src/umat/api/operations_routes.py.
use e_rakshak_umat.Prelude.{ℕ, suc, refl, ◌∷◌, String, not, ◌==◌, arith}
use e_rakshak_umat.Prelude.Tables.{count, All}
use e_rakshak_umat.Models.{awaiting_confirmation, terminal, platform_analysis, status_eq}
use e_rakshak_umat.Models.Rows.{Case, AnalysisRun, run_entity, case_entity}
use e_rakshak_umat.Environment.{Env}
use e_rakshak_umat.Database.{Db, Action, after}
use e_rakshak_umat.Database.Rules.{
  branch, Ensures, Ensures-after, Ensures-found, Ensures-test, Ensures-ok,
}
use e_rakshak_umat.Audit.{Entry, zero_hash, append_audit}
use e_rakshak_umat.Audit.Chain.{Linked, Linked-next_event}
use e_rakshak_umat.Executors.Workflow.{queued_stage, set_run}
use e_rakshak_umat.Executors.Expiry.{log}
use e_rakshak_umat.Executors.Custody.{Custody, GrantsAttempts}
use e_rakshak_umat.Executors.Custody.Steps.{Custody-add_stage, Custody-cancel}
use e_rakshak_umat.Executors.Custody.Frame.{Framed}
use e_rakshak_umat.Executors.Custody.Invariant.{
  Invariant, Kept, IsAnswered, Beside, framed-Beside, Custody-next_id,
}
use e_rakshak_umat.Runs.{
  Principal, is_staff, can_access_case, accessible_case, owned_run, create_platform_stage,
  RunActionResponse, confirmed, confirm, confirm_run, is_started, held_by_run, pending_of_run, stop,
  request_cancellation, cancel, cancel_run, retry_eligible, retried_run, retry_run,
  copy_configuration,
}

module _ {ℓ} {B : Type ℓ} (P : B → Db → Type 0) (p : Principal) where
  Ensures-accessible :
      (R : Case → Db → Type 0) (case_id : ℕ) (db : Db)
      → ((c : Case) → R c db)
      → Ensures R (accessible_case p case_id db)
  unfolding accessible_case
  Ensures-accessible R case_id db next =
      Ensures-found R _ _ _ _ _
        λ c _. Ensures-test R (not (can_access_case p c)) _ _ db _ λ _. Ensures-ok R c db (next c)

  -- access to a case or a run, then something that keeps the promise
  pub Ensures-accessible_case :
      (case_id : ℕ) (db : Db) (f : Case → Action B)
      → ((c : Case) → Ensures P (f c db))
      → Ensures P (after (accessible_case p case_id db) f)
  Ensures-accessible_case case_id db f next =
      let Q : Case → Db → Type 0 = λ c db'. Ensures P (f c db') in
      Ensures-after P Q _ f (Ensures-accessible Q case_id db next) (λ c db' h. h)

  pub Ensures-owned_run :
      (run_id : ℕ) (db : Db) (f : AnalysisRun → Action B)
      → ((run : AnalysisRun) → Ensures P (f run db))
      → Ensures P (after (owned_run p run_id db) f)
  unfolding owned_run
  Ensures-owned_run run_id db f next =
      let Q : AnalysisRun → Db → Type 0 = λ run db'. Ensures P (f run db') in
      Ensures-after P Q _ f
        (Ensures-found Q _ _ _ _ _ λ run _.
          let R : Case → Db → Type 0 = λ c db'. Ensures P (f run db') in
          Ensures-after Q R _ _ (Ensures-accessible R run.case_id db (λ c. next run))
            (λ c db' h. Ensures-ok Q run db' h))
        (λ run db' h. h)

module _ (env : Env) (p : Principal) (now : ℕ) where
  Custody-stop : (run_id : ℕ) (db : Db) → Custody db → Custody (stop run_id db)
  unfolding stop
  Custody-stop run_id db c =
      branch Custody (not (count (held_by_run run_id) db.stages == 0)) _ _ (λ _. c)
        (λ _. Custody-cancel (pending_of_run run_id) db (λ s h. ground arith) c)

  kept-stop : (P : Db → Type 0) (run_id : ℕ) (db : Db) → Framed P → P db → P (stop run_id db)
  unfolding stop
  kept-stop P run_id db f h =
      branch P (not (count (held_by_run run_id) db.stages == 0)) _ _ (λ _. f.runs _ db h)
        (λ _. f.runs _ _ (f.stages _ db h))

  -- a user's call appends one event, and leaves the requests
  Invariant-logged :
      (entry : Entry) (db : Db)
      → Custody db
      → All IsAnswered db.requests
      → Linked env zero_hash db.audit
      → Invariant env (log env now entry db)
  Invariant-logged entry db c a l = record {
    custody = c;
    answered = a;
    chained = Linked-next_event env now entry db.audit l;
  }

  Invariant-stopped :
      (run : AnalysisRun) (entry : Entry) (db : Db)
      → Invariant env db
      → Invariant env
          (log env now entry (stop run.id (set_run run.id (request_cancellation now) db)))
  Invariant-stopped run entry db i =
      let before = set_run run.id (request_cancellation now) db in
      let b =
        kept-stop (Beside env db.requests) run.id before (framed-Beside env db.requests)
          (refl, i.chained) in
      Invariant-logged entry (stop run.id before) (Custody-stop run.id before i.custody)
        (rw b.0 i.answered) b.1

  pub Invariant-cancel_run :
      (run_id : ℕ) (db : Db)
      → Invariant env db
      → Ensures (Kept env) (cancel_run env p now run_id db)
  unfolding cancel_run cancel append_audit
  Invariant-cancel_run run_id db i = Ensures-owned_run (Kept env) p run_id db _ λ run.
      branch (λ (m : Action RunActionResponse). Ensures (Kept env) (m db))
        (status_eq run.status terminal) _ _ (λ _. Ensures-ok (Kept env) _ db i)
        (λ _. record { holds = Invariant-stopped run _ db i })

  module _ (grants : GrantsAttempts env) where
    Custody-platform_stage :
        (run_id : ℕ) (db : Db) → Custody db → Custody (create_platform_stage env now run_id db)
    unfolding queued_stage
    Custody-platform_stage run_id db c =
        Custody-add_stage (queued_stage env now run_id platform_analysis) db refl refl
          (grants platform_analysis) c

    pub Invariant-confirm_run :
        (run_id : ℕ) (db : Db)
        → Invariant env db
        → Ensures (Kept env) (confirm_run env p now run_id db)
    unfolding confirm_run confirm append_audit
    Invariant-confirm_run run_id db i = Ensures-owned_run (Kept env) p run_id db _ λ run.
        branch (λ (m : Action RunActionResponse). Ensures (Kept env) (m db))
          (status_eq run.status awaiting_confirmation) _ _
          (λ _. record {
            holds =
                Invariant-logged _
                  (create_platform_stage env now run.id (set_run run.id (confirmed now) db))
                  (Custody-platform_stage run.id (set_run run.id (confirmed now) db) i.custody)
                  i.answered i.chained;
          })
          (λ _.
            Ensures-test (Kept env) (not (is_started run.status)) _ _ db _
              λ _. Ensures-ok (Kept env) _ db i)

    pub Invariant-retry_run :
        (run_id : ℕ) (reason : String) (db : Db)
        → Invariant env db
        → Ensures (Kept env) (retry_run env p now run_id reason db)
    unfolding retry_run append_audit
    Invariant-retry_run run_id reason db i =
        Ensures-test (Kept env) (not (is_staff p)) _ _ db _ λ _.
          Ensures-found (Kept env) _ _ _ _ _ λ source _.
            Ensures-accessible_case (Kept env) p source.case_id db _ λ c.
              Ensures-test (Kept env) (not (retry_eligible source)) _ _ db _ λ _.
                let made : Db = record db {
                  runs = retried_run source now db.next_id ∷ db.runs;
                  configurations =
                      copy_configuration source.id db.next_id db.configurations db.configurations;
                  next_id = suc db.next_id;
                } in
                record {
                  holds =
                      Invariant-logged _ (create_platform_stage env now db.next_id made)
                        (Custody-platform_stage db.next_id made (Custody-next_id db i.custody))
                        i.answered i.chained;
                }
