-- ===== src/Runs/Laws.antt =====
-- Who may act on a run, and what a retry makes; src/umat/api/case_routes.py and
-- src/umat/api/operations_routes.py.
use e_rakshak_umat.Prelude.{
  ℕ, suc, ◌≡◌, refl, inl, inr, String, true, false, not, ◌||◌, some, ◌∷◌, ◌==◌, Bool-cases, arith,
  if◌then◌else◌,
}
use e_rakshak_umat.Prelude.Tables.{get}
use e_rakshak_umat.Models.{platform_analysis}
use e_rakshak_umat.Models.Rows.{Case, AnalysisRun, case_entity, run_entity, stage_entity}
use e_rakshak_umat.Environment.{Env}
use e_rakshak_umat.Database.{Db, ok, http, found}
use e_rakshak_umat.Database.Rules.{Ensures, Ensures-found, Ensures-test}
use e_rakshak_umat.Audit.{append_audit}
use e_rakshak_umat.Executors.Workflow.{queued_stage}
use e_rakshak_umat.Protocol.Users.{Ensures-accessible_case}
use e_rakshak_umat.Runs.{
  Principal, is_staff, can_access_case, accessible_case, owned_run, cancel_run, confirm_run,
  retry_eligible, retried_run, retry_run,
}

-- Access to a run that is there, in a case that is there: a user who is neither staff nor the owner
-- of the case is refused with the status 404, and any other gets the run with the database as it is.
pub owned_run_lem :
    (p : Principal) (run : AnalysisRun) (c : Case) (db : Db)
    → get run.id db.runs ≡ some run
    → get run.case_id db.cases ≡ some c
    → owned_run p run.id db ≡ (
        if is_staff p || c.owner_user_id == p.user_id
        then ok (run, db)
        else http 404 "case not found")
unfolding owned_run accessible_case found
owned_run_lem p run c db run_there case_there =
    rw (run_there, case_there)
      (elim (Bool-cases (can_access_case p c)) [ inl may ↦ rw may refl | inr not' ↦ rw not' refl ])

-- A user without access changes nothing by a confirmation or a cancellation: both are refused with
-- the status 404.
pub no_access :
    (env : Env) (p : Principal) (now : ℕ) (run : AnalysisRun) (c : Case) (db : Db)
    → get run.id db.runs ≡ some run
    → get run.case_id db.cases ≡ some c
    → (is_staff p || c.owner_user_id == p.user_id) ≡ false
    → (confirm_run env p now run.id db ≡ http 404 "case not found")
      × (cancel_run env p now run.id db ≡ http 404 "case not found")
unfolding confirm_run cancel_run
no_access env p now run c db run_there case_there refused =
    let e = owned_run_lem p run c db run_there case_there in
    (rw (e, refused) refl, rw (e, refused) refl)

abbrev pub Retried : Env → Principal → ℕ → ℕ → Db → ℕ → Db → Type 0
Retried env p now run_id db id after =
    (is_staff p ≡ true)
    × ((source : AnalysisRun) × (get run_id db.runs ≡ some source)
        × (retry_eligible source ≡ true)
        × (after.runs ≡ retried_run source now id ∷ db.runs))
    × (after.stages ≡ queued_stage env now id platform_analysis (suc id) ∷ db.stages)

-- A retry that returns comes from a user of the staff and a run that is terminal without success.
-- The new run is queued with no result and has the submission and the choices of the old one, its
-- platform analysis is queued, and the old runs stay as they were.
pub retry_run_lem :
    (env : Env) (p : Principal) (now run_id : ℕ) (reason : String) (db : Db)
    → Ensures (Retried env p now run_id db) (retry_run env p now run_id reason db)
unfolding retry_run append_audit
retry_run_lem env p now run_id reason db =
    Ensures-test (Retried env p now run_id db) (not (is_staff p)) _ _ db _ λ staff.
      Ensures-found (Retried env p now run_id db) _ _ _ _ _ λ source there.
        Ensures-accessible_case (Retried env p now run_id db) p source.case_id db _ λ c.
          Ensures-test (Retried env p now run_id db) (not (retry_eligible source)) _ _ db _
            λ eligible. record {
              holds =
                  (ground (arith, staff), (source, there, ground (arith, eligible), refl), refl);
            }
