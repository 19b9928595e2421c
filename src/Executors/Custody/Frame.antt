-- ===== src/Executors/Custody/Frame.antt =====
-- What the writes of the workflow leave alone: a predicate that reads neither the tables that they
-- write nor, but for its chain, the audit log.
use e_rakshak_umat.Prelude.{
  ℕ, String, inl, inr, Bool, not, ◌&&◌, Option, none, some, List, [], ◌∷◌, Option-cases, ltb, ◌==◌,
}
use e_rakshak_umat.Prelude.Tables.{get, scalar, count}
use e_rakshak_umat.Models.{
  StageType, platform_analysis, c2_analysis, platform_adaptation, c2_adaptation, case_aggregation,
  report_generation, status_eq, cancelling,
}
use e_rakshak_umat.Models.Rows.{
  AnalysisRun, AnalysisStage, AnalysisAttempt, ExecutorLease, attempt_entity, stage_entity,
}
use e_rakshak_umat.Models.Sessions.{WindowsDynamicSession, AndroidDynamicSession}
use e_rakshak_umat.Environment.{Env}
use e_rakshak_umat.Database.{Db}
use e_rakshak_umat.Database.Rules.{branch}
use e_rakshak_umat.Audit.{Entry}
use e_rakshak_umat.Executors.Workflow.{
  create_next_stage, of_type, adaptations_done, advance, finish_cancellation, end_session, is_held,
  other_stage, run_of,
}
use e_rakshak_umat.Executors.Expiry.{
  log, retry_or_fail, cancel_attempt, lose_attempt, conclude_attempt, expire_attempt,
  end_run_session, deadline, expire_due, expire_one, expire_each, expire_leases, outstanding,
}
use e_rakshak_umat.Executors.Custody.Workflow.{end_session_keeps}

pub record Framed (P : Db → Type 0) : Type 0 where
  pub stages : (x : List AnalysisStage) (db : Db) → P db → P (record db { stages = x })
  pub runs : (x : List AnalysisRun) (db : Db) → P db → P (record db { runs = x })
  pub attempts : (x : List AnalysisAttempt) (db : Db) → P db → P (record db { attempts = x })
  pub windows :
      (x : List WindowsDynamicSession) (db : Db) → P db → P (record db { windows_sessions = x })
  pub android :
      (x : List AndroidDynamicSession) (db : Db) → P db → P (record db { android_sessions = x })
  pub next_id : (x : ℕ) (db : Db) → P db → P (record db { next_id = x })

module _ (P : Db → Type 0) (p : Framed P) where
  pub kept-create_next_stage :
      (env : Env) (now : ℕ) (run : AnalysisRun) (t : StageType) (db : Db)
      → P db
      → P (create_next_stage env now run t db)
  unfolding create_next_stage
  kept-create_next_stage env now run t db h =
      elim (Option-cases (scalar (of_type run.id t) db.stages)) [
        | inl e ↦ rw (e, create_next_stage) (p.next_id _ _ (p.stages _ db h))
        | inr (s, e) ↦ rw (e, create_next_stage) h
      ]

  pub kept-advance :
      (t : StageType) (env : Env) (now : ℕ) (run : AnalysisRun) (db : Db)
      → P db
      → P (advance t env now run db)
  unfolding advance
  kept-advance platform_analysis env now run db h =
      branch P (not run.c2_analysis_enabled) _ _
        (λ _. kept-create_next_stage env now run platform_adaptation db h)
        (λ _. kept-create_next_stage env now run c2_analysis db h)
  kept-advance c2_analysis env now run db h =
      kept-create_next_stage env now run c2_adaptation _
        (kept-create_next_stage env now run platform_adaptation db h)
  kept-advance platform_adaptation env now run db h =
      branch P (not run.c2_analysis_enabled) _ _
        (λ _. kept-create_next_stage env now run case_aggregation db h)
        (λ _.
          branch P (adaptations_done run.id db.stages) _ _
            (λ _. kept-create_next_stage env now run case_aggregation db h) (λ _. h))
  kept-advance c2_adaptation env now run db h =
      branch P (adaptations_done run.id db.stages) _ _
        (λ _. kept-create_next_stage env now run case_aggregation db h) (λ _. h)
  kept-advance case_aggregation env now run db h =
      kept-create_next_stage env now run report_generation db h
  kept-advance report_generation env now run db h = p.runs _ db h

  pub kept-finish_cancellation :
      (run_id stage_id : ℕ) (db : Db) → P db → P (finish_cancellation run_id stage_id db)
  unfolding finish_cancellation
  kept-finish_cancellation run_id stage_id db h =
      branch P (count (λ s. other_stage run_id stage_id s && is_held s.state) db.stages == 0) _ _
        (λ _. p.runs _ _ (p.stages _ db h)) (λ _. h)

  pub kept-end_session :
      (run : AnalysisRun) (t : StageType) (a w : String) (now : ℕ) (db : Db)
      → P db
      → P (end_session run t a w now db)
  kept-end_session run t a w now db h =
      end_session_keeps P run t a w now db h (p.android _ db h) (p.windows _ db h)

  pub kept-retry_or_fail :
      (again : Bool) (stage : AnalysisStage) (run : Option AnalysisRun) (attempts now : ℕ) (db : Db)
      → P db
      → P (retry_or_fail again stage run attempts now db)
  unfolding retry_or_fail
  kept-retry_or_fail again stage none attempts now db h =
      branch P again _ _ (λ _. p.stages _ db h) (λ _. p.stages _ db h)
  kept-retry_or_fail again stage (some run) attempts now db h =
      branch P again _ _ (λ _. p.stages _ db h) (λ _. p.runs _ _ (p.stages _ db h))

  kept-lose_attempt :
      (run : Option AnalysisRun) (attempt : AnalysisAttempt) (stage : AnalysisStage) (now : ℕ)
      (reason : String) (db : Db)
      → P db
      → P (lose_attempt run attempt stage now reason db)
  unfolding lose_attempt
  kept-lose_attempt run attempt stage now reason db h =
      kept-retry_or_fail _ stage run _ now _ (p.stages _ _ (p.attempts _ db h))

  pub kept-conclude_attempt :
      (run : Option AnalysisRun) (attempt : AnalysisAttempt) (stage : AnalysisStage) (now : ℕ)
      (reason : String) (db : Db)
      → P db
      → P (conclude_attempt run attempt stage now reason db)
  unfolding conclude_attempt cancel_attempt
  kept-conclude_attempt none attempt stage now reason db h =
      kept-lose_attempt none attempt stage now reason db h
  kept-conclude_attempt (some run) attempt stage now reason db h =
      branch P (status_eq run.status cancelling) _ _
        (λ _. kept-finish_cancellation run.id stage.id _ (p.stages _ _ (p.attempts _ db h)))
        (λ _. kept-lose_attempt (some run) attempt stage now reason db h)

  pub kept-end_run_session :
      (run : Option AnalysisRun) (stage : AnalysisStage) (now : ℕ) (db : Db)
      → P db
      → P (end_run_session run stage now db)
  kept-end_run_session none stage now db h = h
  kept-end_run_session (some run) stage now db h =
      kept-end_session run stage.stage_type "expired" "expired" now db h

-- a predicate that does not read the leases either
module _ (P : Db → Type 0) (p : Framed P)
    (leases : (x : List ExecutorLease) (db : Db) → P db → P (record db { leases = x })) where
  pub kept-expire_attempt :
      (lease : ExecutorLease) (attempt : AnalysisAttempt) (stage : AnalysisStage) (now : ℕ)
      (reason : String) (db : Db)
      → P db
      → P (expire_attempt lease attempt stage now reason db)
  unfolding expire_attempt
  kept-expire_attempt lease attempt stage now reason db h =
      kept-conclude_attempt P p (run_of stage db) attempt stage now reason _
        (p.attempts _ _ (leases _ _ (kept-end_run_session P p (run_of stage db) stage now db h)))

  module _ (env : Env)
      (logged : (now : ℕ) (entry : Entry) (db : Db) → P db → P (log env now entry db)) where
    kept-expire_one :
        (now : ℕ) (l : ExecutorLease) (attempt : Option AnalysisAttempt)
        (stage : Option AnalysisStage) (s : Db × ℕ)
        → P s.0
        → P (expire_one env now l attempt stage s).0
    unfolding expire_one expire_due
    kept-expire_one now l (some attempt) (some stage) (db, n) h =
        branch (λ (r : Db × ℕ). P r.0) (ltb now l.expires_at && ltb now (deadline attempt stage)) _
          _ (λ _. h) (λ _. logged now _ _ (kept-expire_attempt l attempt stage now _ db h))
    kept-expire_one now l none stage s h = h
    kept-expire_one now l (some attempt) none s h = h

    kept-expire_each :
        (now : ℕ) (ls : List ExecutorLease) (s : Db × ℕ) → P s.0 → P (expire_each env now ls s).0
    unfolding expire_each
    kept-expire_each now [] s h = h
    kept-expire_each now (l ∷ ls) s h =
        kept-expire_each now ls _
          (kept-expire_one now l (get l.attempt_id s.0.attempts) (get l.stage_id s.0.stages) s h)

    pub kept-expire_leases : (now : ℕ) (db : Db) → P db → P (expire_leases env now db).0
    unfolding expire_leases
    kept-expire_leases now db h = kept-expire_each now (outstanding db) (db, 0) h
