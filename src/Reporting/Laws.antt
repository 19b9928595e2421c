-- ===== src/Reporting/Laws.antt =====
-- What the report worker does to a run; src/umat/reporting/worker.py.
use e_rakshak_umat.Prelude.{ℕ, ◌≡◌, refl, ◌&&◌, some, List, [], ◌∷◌, arith}
use e_rakshak_umat.Prelude.Tables.{get}
use e_rakshak_umat.Prelude.Tables.Laws.{get-update_own}
use e_rakshak_umat.Models.{case_aggregation, StageState, status_eq, running}
use e_rakshak_umat.Models.Rows.{
  AnalysisRun, AnalysisStage, CaseReportSnapshot, run_entity, stage_entity,
}
use e_rakshak_umat.Environment.{Env}
use e_rakshak_umat.Database.{Db}
use e_rakshak_umat.Database.Rules.{branch, Ensures, Ensures-found}
use e_rakshak_umat.Audit.{append_audit}
use e_rakshak_umat.Executors.Laws.Pipeline.{OncePerType, create_next_stage-OncePerType}
use e_rakshak_umat.Reporting.{
  is_ready, ensure_aggregation, ensure_each, ensure_ready_aggregation_stages, report_stage,
  latest_report, reported, complete,
}

abbrev pub Ended : AnalysisRun → AnalysisStage → CaseReportSnapshot → Unit {0} → Db → Type 0
Ended run stage report answer after =
    (get run.id after.runs ≡ some (reported report.verdict run))
    × (get stage.id after.stages ≡ some (record stage { state = StageState.completed }))

-- A report stage whose run has a report ends the run: the stage is completed and the run terminal,
-- with the result that the verdict of the newest report gives.
pub report_stage_ends :
    (env : Env) (now : ℕ) (run : AnalysisRun) (stage : AnalysisStage) (report : CaseReportSnapshot)
    (db : Db)
    → latest_report run.id db ≡ some report
    → get run.id db.runs ≡ some run
    → get stage.id db.stages ≡ some stage
    → Ensures (Ended run stage report) (report_stage env now run stage db)
unfolding report_stage append_audit
report_stage_ends env now run stage report db newest run_there stage_there =
    Ensures-found (Ended run stage report) _ _ _ _ _ λ s e. record {
      holds = (
        rw (get-update_own run.id (reported s.verdict) db.runs run (λ r. refl) run_there)
            (ground (arith, e, newest)),
        get-update_own stage.id complete db.stages stage (λ x. refl) stage_there,
      );
    }

ensure_each-OncePerType :
    (env : Env) (now run_id : ℕ) (runs : List AnalysisRun) (db : Db)
    → OncePerType run_id db
    → OncePerType run_id (ensure_each env now runs db)
unfolding ensure_each ensure_aggregation
ensure_each-OncePerType env now run_id [] db h = h
ensure_each-OncePerType env now run_id (run ∷ runs) db h =
    ensure_each-OncePerType env now run_id runs _ (
      branch (OncePerType run_id) (status_eq run.status running && is_ready run db) _ _
        (λ _. create_next_stage-OncePerType env now run run_id case_aggregation db h) (λ _. h))

-- The pass of the report worker over the runs keeps at most one stage of each type in every run.
pub ensure_ready-OncePerType :
    (env : Env) (now run_id : ℕ) (db : Db)
    → OncePerType run_id db
    → OncePerType run_id (ensure_ready_aggregation_stages env now db)
unfolding ensure_ready_aggregation_stages
ensure_ready-OncePerType env now run_id db h = ensure_each-OncePerType env now run_id db.runs db h
