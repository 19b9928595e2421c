-- ===== src/Reporting.antt =====
-- The report worker, src/umat/reporting/worker.py: _ensure_ready_aggregation_stages and process_once.
-- The aggregation of a report (src/umat/reporting/aggregator.py) is a parameter, an action that may
-- raise.
pub mod Laws
pub mod Visible
pub mod Findings
use e_rakshak_umat.Prelude.{
  ℕ, suc, ◌+◌, String, Bool, true, false, not, ◌&&◌, ◌||◌, Option, none, some, List, [], ◌∷◌, ◌==◌,
  ltb, is_none, up_to_char, if◌then◌else◌,
}
use e_rakshak_umat.Prelude.Tables.{get, scalar, first, update}
use e_rakshak_umat.Json.{fields, string, num}
use e_rakshak_umat.Models.{
  StageType, platform_adaptation, c2_adaptation, case_aggregation, report_generation, StageState,
  RunStatus, running, RunResult, Verdict, type_eq, state_eq, status_eq,
}
use e_rakshak_umat.Models.Rows.{
  AnalysisRun, AnalysisStage, CaseReportSnapshot, run_entity, stage_entity,
}
use e_rakshak_umat.Environment.{Env}
use e_rakshak_umat.Database.{
  Db, Result, ok, err, HttpException, Action, pure, raise, write, gets, require, ◌>>=◌, ◌>>◌,
}
use e_rakshak_umat.Audit.{append_audit}
use e_rakshak_umat.Executors.Workflow.{
  set_run, set_stage, run_of, of_type, queued_stage, add_stage, create_next_stage,
}

abbrev is_completed : Option AnalysisStage → Bool
is_completed none = false
is_completed (some s) = state_eq s.state StageState.completed

-- the stage of the run with the type is there and completed
abbrev pub type_completed : ℕ → StageType → List AnalysisStage → Bool
type_completed run_id t stages = is_completed (scalar (of_type run_id t) stages)

-- every required adaptation of a running run is completed
unfoldable pub is_ready : AnalysisRun → Db → Bool
is_ready run db =
    type_completed run.id platform_adaptation db.stages
    && (not run.c2_analysis_enabled || type_completed run.id c2_adaptation db.stages)

-- one pass of the loop over the running runs
unfoldable pub ensure_aggregation : Env → ℕ → AnalysisRun → Db → Db
ensure_aggregation env now run db =
    if status_eq run.status running && is_ready run db
    then create_next_stage env now run case_aggregation db
    else db

unfoldable pub ensure_each : Env → ℕ → List AnalysisRun → Db → Db
unfolding ensure_aggregation
ensure_each env now [] db = db
ensure_each env now (run ∷ runs) db = ensure_each env now runs (ensure_aggregation env now run db)

unfoldable pub ensure_ready_aggregation_stages : Env → ℕ → Db → Db
unfolding ensure_each
ensure_ready_aggregation_stages env now db = ensure_each env now db.runs db

abbrev pub is_report_work : AnalysisStage → Bool
is_report_work s =
    (type_eq s.stage_type case_aggregation || type_eq s.stage_type report_generation)
    && state_eq s.state StageState.queued

-- the queued aggregation or report stage that was made first
unfoldable pub next_work : Db → Option AnalysisStage
next_work db = first (λ a b. ltb a.created_at b.created_at) is_report_work db.stages

abbrev verdict_value : Verdict → String
verdict_value Verdict.malicious = "malicious"
verdict_value Verdict.suspicious = "suspicious"
verdict_value Verdict.no_malicious_activity_observed = "no_malicious_activity_observed"
verdict_value Verdict.inconclusive = "inconclusive"
verdict_value Verdict.failed = "failed"

abbrev pub complete : AnalysisStage → AnalysisStage
complete s = record s { state = StageState.completed }

unfoldable pub aggregate_stage :
    Env → ℕ → (ℕ → Action CaseReportSnapshot) → AnalysisRun → AnalysisStage → Action (Unit {0})
aggregate_stage env now aggregate run stage = do
  snapshot ← aggregate run.id
  write (set_stage stage.id complete)
  write (create_next_stage env now run report_generation)
  append_audit env now (record {
    actor_type = "system";
    actor_id = some "report-worker";
    action = "case.aggregated";
    target_type = "case_report_snapshot";
    target_id = some (env.str_uuid snapshot.id);
    payload = fields (
        ("run_id", string (env.str_uuid run.id))
        ∷ ("verdict", string (verdict_value snapshot.verdict))
        ∷ []);
  })

-- the result of a run with the verdict of its report
abbrev pub result_of : Verdict → Option RunResult → RunResult
result_of Verdict.failed result = RunResult.failed
result_of Verdict.inconclusive result = RunResult.inconclusive
result_of _ (some RunResult.partial) = RunResult.partial
result_of _ _ = RunResult.completed

abbrev pub reported : Verdict → AnalysisRun → AnalysisRun
reported verdict r = record r {
  status = RunStatus.terminal;
  result = some (result_of verdict r.result);
}

unfoldable pub latest_report : ℕ → Db → Option CaseReportSnapshot
latest_report run_id db =
    first (λ a b. ltb b.revision a.revision) (λ s. s.analysis_run_id == run_id) db.reports

-- the ValueError for a missing snapshot is an error like any other here
unfoldable pub report_stage : Env → ℕ → AnalysisRun → AnalysisStage → Action (Unit {0})
report_stage env now run stage = do
  snapshot ← require (latest_report run.id) 500 "report snapshot is unavailable"
  write (set_stage stage.id complete)
  write (set_run run.id (reported snapshot.verdict))
  append_audit env now (record {
    actor_type = "system";
    actor_id = some "report-worker";
    action = "report.generated";
    target_type = "case_report_snapshot";
    target_id = some (env.str_uuid snapshot.id);
    payload =
        fields
          (("run_id", string (env.str_uuid run.id)) ∷ ("revision", num snapshot.revision) ∷ []);
  })

-- the work of the stage, begun by setting it running
unfoldable pub do_work :
    Env → ℕ → (ℕ → Action CaseReportSnapshot) → AnalysisRun → AnalysisStage → Action (Unit {0})
unfolding aggregate_stage report_stage
do_work env now aggregate run stage = do
  write (set_stage stage.id (λ s. record s { state = StageState.running }))
  if type_eq stage.stage_type case_aggregation
      then aggregate_stage env now aggregate run stage
      else report_stage env now run stage

abbrev pub failed_with : String → AnalysisStage → AnalysisStage
failed_with detail s = record s {
  state = StageState.failed;
  failure_code = some "report_processing_failed";
  failure_detail = some (up_to_char 2000 detail);
}

-- What is answered or raised, and the database that is committed: after an error the work is
-- undone, that of _ensure_ready_aggregation_stages too, and the stage has failed.
abbrev finish_work : AnalysisStage → Db → Result (Unit {0} × Db) → Result Bool × Db
finish_work stage before (ok (_, db)) = (ok true, db)
finish_work stage before (err e) = (err e, set_stage stage.id (failed_with e.detail) before)

abbrev work_on :
    Env
    → ℕ
    → (ℕ → Action CaseReportSnapshot)
    → AnalysisStage
    → Option AnalysisRun
    → Db
    → Db
    → Result Bool × Db
work_on env now aggregate stage none before db = (
  ok true,
  set_stage stage.id
      (λ s. record s { state = StageState.failed; failure_code = some "run_missing" }) db,
)
work_on env now aggregate stage (some run) before db =
    finish_work stage before (do_work env now aggregate run stage db)

abbrev take_work :
    Env → ℕ → (ℕ → Action CaseReportSnapshot) → Option AnalysisStage → Db → Db → Result Bool × Db
take_work env now aggregate none before db = (ok false, db)
take_work env now aggregate (some stage) before db =
    work_on env now aggregate stage (run_of stage db) before db

unfoldable pub process_once : Env → ℕ → (ℕ → Action CaseReportSnapshot) → Db → Result Bool × Db
unfolding do_work
process_once env now aggregate db =
    let ensured = ensure_ready_aggregation_stages env now db in
    take_work env now aggregate (next_work ensured) db ensured
