-- ===== src/Executors/Custody/Workflow.antt =====
-- Custody under advance_workflow, under the end of a cancelled run and under the end of a session.
use e_rakshak_umat.Prelude.{ℕ, refl, inl, inr, String, not, ◌&&◌, ◌==◌, Option-cases, arith}
use e_rakshak_umat.Prelude.Tables.{scalar, count}
use e_rakshak_umat.Models.{
  StageType, platform_analysis, c2_analysis, platform_adaptation, c2_adaptation, case_aggregation,
  report_generation, android, type_eq, platform_eq,
}
use e_rakshak_umat.Models.Rows.{AnalysisRun, AnalysisStage}
use e_rakshak_umat.Environment.{Env}
use e_rakshak_umat.Database.{Db}
use e_rakshak_umat.Database.Rules.{branch}
use e_rakshak_umat.Executors.Workflow.{
  queued_stage, create_next_stage, of_type, adaptations_done, advance, advance_workflow,
  finish_cancellation, end_session, end_android, end_windows, is_held, is_pending, other_stage,
}
use e_rakshak_umat.Executors.Custody.{Custody, GrantsAttempts}
use e_rakshak_umat.Executors.Custody.Steps.{Custody-add_stage, Custody-cancel}

module _ (env : Env) (grants : GrantsAttempts env) (now : ℕ) (run : AnalysisRun) where
  pub Custody-create_next_stage :
      (t : StageType) (db : Db) → Custody db → Custody (create_next_stage env now run t db)
  unfolding create_next_stage queued_stage
  Custody-create_next_stage t db c = elim (Option-cases (scalar (of_type run.id t) db.stages)) [
    | inl e ↦
        rw (e, create_next_stage)
          (Custody-add_stage (queued_stage env now run.id t) db refl refl (grants t) c)
    | inr (s, e) ↦ rw (e, create_next_stage) c
  ]

  Custody-advance : (t : StageType) (db : Db) → Custody db → Custody (advance t env now run db)
  unfolding advance
  Custody-advance platform_analysis db c =
      branch Custody (not run.c2_analysis_enabled) _ _
        (λ _. Custody-create_next_stage platform_adaptation db c)
        (λ _. Custody-create_next_stage c2_analysis db c)
  Custody-advance c2_analysis db c =
      Custody-create_next_stage c2_adaptation _ (Custody-create_next_stage platform_adaptation db c)
  Custody-advance platform_adaptation db c =
      branch Custody (not run.c2_analysis_enabled) _ _
        (λ _. Custody-create_next_stage case_aggregation db c)
        (λ _.
          branch Custody (adaptations_done run.id db.stages) _ _
            (λ _. Custody-create_next_stage case_aggregation db c) (λ _. c))
  Custody-advance c2_adaptation db c =
      branch Custody (adaptations_done run.id db.stages) _ _
        (λ _. Custody-create_next_stage case_aggregation db c) (λ _. c)
  Custody-advance case_aggregation db c = Custody-create_next_stage report_generation db c
  Custody-advance report_generation db c = c

  pub Custody-advance_workflow :
      (stage : AnalysisStage) (db : Db)
      → Custody db
      → Custody (advance_workflow env now run stage db)
  unfolding advance_workflow
  Custody-advance_workflow stage db c = Custody-advance stage.stage_type db c

pub Custody-finish_cancellation :
    (run_id stage_id : ℕ) (db : Db) → Custody db → Custody (finish_cancellation run_id stage_id db)
unfolding finish_cancellation
Custody-finish_cancellation run_id stage_id db c =
    branch Custody (count (λ s. other_stage run_id stage_id s && is_held s.state) db.stages == 0) _
      _
      (λ _.
        Custody-cancel (λ s. other_stage run_id stage_id s && is_pending s.state) db
          (λ s h. ground arith) c)
      (λ _. c)

-- The end of a session writes none of the tables that custody is about.
pub end_session_keeps :
    (P : Db → Type 0) (run : AnalysisRun) (t : StageType) (a w : String) (now : ℕ) (db : Db)
    → P db
    → P (end_android run.id a now db)
    → P (end_windows run.id w now db)
    → P (end_session run t a w now db)
unfolding end_session
end_session_keeps P run t a w now db h ha hw =
    branch P (not (type_eq t platform_analysis)) _ _ (λ _. h)
      (λ _. branch P (platform_eq run.platform android) _ _ (λ _. ha) (λ _. hw))
