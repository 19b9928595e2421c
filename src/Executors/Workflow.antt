-- ===== src/Executors/Workflow.antt =====
-- The stage pipeline of src/umat/api/executor_routes.py: create_next_stage and advance_workflow;
-- and the parts that several handlers share: the end of a dynamic session, the failure of a run and
-- the end of a cancelled run.
use e_rakshak_umat.Prelude.{
  ℕ, ◌+◌, ◌^◌, min, String, Bool, true, false, not, ◌&&◌, Option, none, some, ◌==◌, if◌then◌else◌,
  List, ◌∷◌,
}
use e_rakshak_umat.Prelude.Tables.{get, scalar, update, update_where, count}
use e_rakshak_umat.Models.{
  Platform, windows, android, StageType, platform_analysis, c2_analysis, platform_adaptation,
  c2_adaptation, case_aggregation, report_generation, StageState, RunResult, type_eq, state_eq,
  platform_eq,
}
use e_rakshak_umat.Models
use e_rakshak_umat.Models.Rows.{
  AnalysisRun, AnalysisStage, AnalysisAttempt, ExecutorLease, run_entity, stage_entity,
  attempt_entity, lease_entity,
}
use e_rakshak_umat.Environment.{Env, seconds, policy_for_stage}
use e_rakshak_umat.Database.{Db}

-- Assignments to one row, and the query for the run of a stage.
abbrev pub set_run : ℕ → (AnalysisRun → AnalysisRun) → Db → Db
set_run i f db = record db { runs = update i f db.runs }

abbrev pub set_stage : ℕ → (AnalysisStage → AnalysisStage) → Db → Db
set_stage i f db = record db { stages = update i f db.stages }

abbrev pub set_attempt : ℕ → (AnalysisAttempt → AnalysisAttempt) → Db → Db
set_attempt i f db = record db { attempts = update i f db.attempts }

abbrev pub set_lease : ℕ → (ExecutorLease → ExecutorLease) → Db → Db
set_lease i f db = record db { leases = update i f db.leases }

abbrev pub run_of : AnalysisStage → Db → Option AnalysisRun
run_of stage db = get stage.analysis_run_id db.runs

abbrev pub of_type : ℕ → StageType → AnalysisStage → Bool
of_type run_id t s = s.analysis_run_id == run_id && type_eq s.stage_type t

-- the row that create_next_stage and the report worker add
unfoldable pub queued_stage : Env → ℕ → ℕ → StageType → ℕ → AnalysisStage
queued_stage env now run_id t id =
    let (max_attempts, timeout_seconds) = policy_for_stage env.settings t in
    record {
      id = id;
      analysis_run_id = run_id;
      stage_type = t;
      state = StageState.queued;
      priority = 0;
      max_attempts = max_attempts;
      next_attempt_at = none;
      timeout_seconds = timeout_seconds;
      failure_code = none;
      failure_detail = none;
      created_at = now;
    }

abbrev pub add_stage : (ℕ → AnalysisStage) → Db → Db
add_stage row db = record db { stages = row db.next_id ∷ db.stages; next_id = db.next_id + 1 }

unfoldable pub create_next_stage : Env → ℕ → AnalysisRun → StageType → Db → Db
create_next_stage env now run t db = elim (scalar (of_type run.id t) db.stages) [
  | some existing ↦ db
  | none ↦ add_stage (queued_stage env now run.id t) db
]

abbrev pub is_adaptation : StageType → Bool
is_adaptation platform_adaptation = true
is_adaptation c2_adaptation = true
is_adaptation _ = false

abbrev pub adaptation_of : ℕ → AnalysisStage → Bool
adaptation_of run_id s = s.analysis_run_id == run_id && is_adaptation s.stage_type

-- two adaptation stages, and all of them completed
unfoldable pub adaptations_done : ℕ → List AnalysisStage → Bool
adaptations_done run_id stages =
    (count (adaptation_of run_id) stages == 2)
    && (count (λ s. adaptation_of run_id s && not (state_eq s.state StageState.completed)) stages
        == 0)

-- Both adaptations are wanted only with the command-and-control analysis.
unfoldable pub after_adaptation : Env → ℕ → AnalysisRun → Db → Db
after_adaptation env now run db =
    if not run.c2_analysis_enabled
    then create_next_stage env now run case_aggregation db
    else if adaptations_done run.id db.stages
    then create_next_stage env now run case_aggregation db
    else db

abbrev pub after_c2_adaptation : Env → ℕ → AnalysisRun → Db → Db
after_c2_adaptation env now run db =
    if adaptations_done run.id db.stages
    then create_next_stage env now run case_aggregation db
    else db

abbrev pub finish_run : ℕ → RunResult → Db → Db
finish_run run_id result =
    set_run run_id λ r. record r { status = Models.RunStatus.terminal; result = some result }

-- by the type of the completed stage
unfoldable pub advance : StageType → Env → ℕ → AnalysisRun → Db → Db
unfolding after_adaptation
advance platform_analysis env now run db =
    if not run.c2_analysis_enabled
    then create_next_stage env now run platform_adaptation db
    else create_next_stage env now run c2_analysis db
advance c2_analysis env now run db =
    create_next_stage env now run c2_adaptation
      (create_next_stage env now run platform_adaptation db)
advance platform_adaptation env now run db = after_adaptation env now run db
advance c2_adaptation env now run db = after_c2_adaptation env now run db
advance case_aggregation env now run db = create_next_stage env now run report_generation db
advance report_generation env now run db = finish_run run.id RunResult.completed db

unfoldable pub advance_workflow : Env → ℕ → AnalysisRun → AnalysisStage → Db → Db
unfolding advance
advance_workflow env now run completed db = advance completed.stage_type env now run db

-- if the stage is the platform analysis, the run's session is given a state and an end
abbrev pub end_android : ℕ → String → ℕ → Db → Db
end_android run_id state now db = record db {
  android_sessions =
      update_where (λ s. s.analysis_run_id == run_id)
        (λ s. record s { state = state; ended_at = some now; last_seen_at = now })
        db.android_sessions;
}

abbrev pub end_windows : ℕ → String → ℕ → Db → Db
end_windows run_id state now db = record db {
  windows_sessions =
      update_where (λ s. s.analysis_run_id == run_id)
        (λ s. record s { state = state; ended_at = some now; last_seen_at = now })
        db.windows_sessions;
}

unfoldable pub end_session : AnalysisRun → StageType → String → String → ℕ → Db → Db
end_session run t android_state windows_state now db =
    if not (type_eq t platform_analysis)
    then db
    else if platform_eq run.platform android
    then end_android run.id android_state now db
    else end_windows run.id windows_state now db

-- the result of a run when a stage of the type has failed for good
abbrev pub failed_result : StageType → RunResult
failed_result platform_analysis = RunResult.failed
failed_result c2_analysis = RunResult.partial
failed_result _ = RunResult.inconclusive

-- min(300, 2 ** attempts) seconds
unfoldable pub backoff : ℕ → ℕ
backoff attempts = seconds (min 300 (2 ^ attempts))

abbrev pub attempts_of : ℕ → AnalysisAttempt → Bool
attempts_of stage_id a = a.stage_id == stage_id

unfoldable pub attempt_count : ℕ → Db → ℕ
attempt_count stage_id db = count (attempts_of stage_id) db.attempts

abbrev pub is_held : StageState → Bool
is_held StageState.leased = true
is_held StageState.running = true
is_held _ = false

abbrev pub is_pending : StageState → Bool
is_pending StageState.waiting = true
is_pending StageState.queued = true
is_pending _ = false

abbrev pub other_stage : ℕ → ℕ → AnalysisStage → Bool
other_stage run_id stage_id s = s.analysis_run_id == run_id && not (s.id == stage_id)

-- When no other stage of the cancelled run is held, what is pending is cancelled and the run ends.
unfoldable pub finish_cancellation : ℕ → ℕ → Db → Db
finish_cancellation run_id stage_id db =
    let ended = finish_run run_id RunResult.cancelled (record db {
      stages =
          update_where (λ s. other_stage run_id stage_id s && is_pending s.state)
            (λ s. record s { state = StageState.cancelled }) db.stages;
    }) in
    if count (λ s. other_stage run_id stage_id s && is_held s.state) db.stages == 0
    then ended
    else db
