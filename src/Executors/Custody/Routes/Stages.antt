-- ===== src/Executors/Custody/Routes/Stages.antt =====
-- What the bodies of heartbeat and complete_stage keep.
use e_rakshak_umat.Prelude.{ℕ, ◌≡◌, refl, String, false, ◌&&◌, Option, none, some, List, leb, arith}
use e_rakshak_umat.Prelude.Tables.{get, count}
use e_rakshak_umat.Json.{Json}
use e_rakshak_umat.Models.{
  StageState, AttemptState, RunResult, platform_analysis, state_eq, type_eq,
}
use e_rakshak_umat.Models.Rows.{
  AnalysisRun, AnalysisStage, Executor, ExecutorRequest, run_entity, stage_entity,
}
use e_rakshak_umat.Environment.{Env}
use e_rakshak_umat.Database.{Db, ok}
use e_rakshak_umat.Database.Rules.{branch, Ensures, Ensures-found, Ensures-lifted}
use e_rakshak_umat.Audit.{append_audit}
use e_rakshak_umat.Audit.Chain.{Linked-next_event}
use e_rakshak_umat.Executors.Request.{Holding}
use e_rakshak_umat.Executors.Workflow.{
  set_run, run_of, attempts_of, set_stage, set_attempt, is_pending, end_session, advance_workflow,
}
use e_rakshak_umat.Executors.Expiry.{release, deadline}
use e_rakshak_umat.Executors.Heartbeat.{
  beat, beat_action, extend_lease, keep_running, time_out, is_cancelling,
}
use e_rakshak_umat.Executors.Completion.{
  close_attempt, requested_outcome, complete_body, apply_outcome, allowed_outcome,
}
use e_rakshak_umat.Executors.Custody.{Custody, Idle, GrantsAttempts}
use e_rakshak_umat.Executors.Custody.Idle.{Idle-settle}
use e_rakshak_umat.Executors.Custody.Steps.{
  Idle-release, Idle-set_attempt, Custody-set_attempt, Custody-set_lease, Custody-hold,
}
use e_rakshak_umat.Executors.Custody.Workflow.{end_session_keeps, Custody-advance_workflow}
use e_rakshak_umat.Executors.Custody.Expiry.{Custody-expire_attempt, Holds}
use e_rakshak_umat.Executors.Custody.Frame.{kept-advance, kept-end_session, kept-expire_attempt}
use e_rakshak_umat.Executors.Custody.Invariant.{Granted, Beside, framed-Beside, Good}

-- an outcome that complete_stage takes leaves nothing to do
settled_outcome :
    (o : Option StageState) (s : StageState) → allowed_outcome o ≡ ok s → is_pending s ≡ false
settled_outcome none s e = ground arith
settled_outcome (some StageState.waiting) s e = ground arith
settled_outcome (some StageState.queued) s e = ground arith
settled_outcome (some StageState.leased) s e = ground arith
settled_outcome (some StageState.running) s e = ground arith
settled_outcome (some StageState.completed) s e = ground arith
settled_outcome (some StageState.partial) s e = ground arith
settled_outcome (some StageState.failed) s e = ground arith
settled_outcome (some StageState.cancelled) s e = ground arith
settled_outcome (some StageState.unsupported) s e = ground arith

-- a stage whose attempts are all counted, and whose limit is known
module _ (executor : Executor) (h : Holding) (db : Db) (g : Granted executor h db) where
  pub limit_of :
      (s : AnalysisStage)
      → get h.stage.id db.stages ≡ some s
      → s.max_attempts ≡ h.stage.max_attempts
  limit_of s e = ground (arith, g.stage)

  holds : Holds h.stage h.lease db
  holds = record { custody = g.custody; held = g.held; limit_of = limit_of }

module _ (env : Env) (executor : Executor) (requests : List ExecutorRequest) (now : ℕ)
    (h : Holding) where
  -- the lease of the stage, extended
  Custody-extend_lease : (db : Db) → Custody db → Custody (extend_lease env h.lease now db)
  Custody-extend_lease db c = Custody-set_lease h.lease.id _ db (λ l. refl) (λ j l. refl) c

  Custody-keep_running : (db : Db) → Custody db → Custody (keep_running env executor now h db)
  unfolding keep_running
  Custody-keep_running db c =
      let kept = extend_lease env h.lease now db in
      let held = set_stage h.stage.id (λ s. record s { state = StageState.running }) kept in
      Custody-set_attempt h.attempt.id _ held (λ a. refl)
        (Custody-hold h.stage.id _ kept (record { id = λ s. refl; max_attempts = λ s. refl })
          (λ s. refl) (Custody-extend_lease db c))

  -- the timeout keeps what any expiry keeps
  Good-time_out :
      (db : Db)
      → Granted executor h db
      → Beside env requests db
      → Custody (time_out env now h db) × Beside env requests (time_out env now h db)
  unfolding time_out
  Good-time_out db g b =
      let beside =
        kept-expire_attempt (Beside env requests) (framed-Beside env requests) (λ x db h. h) h.lease
          h.attempt h.stage now "timeout" db b in
      (
        Custody-expire_attempt h.lease h.attempt h.stage now "timeout" db (holds executor h db g),
        (beside.0, Linked-next_event env now _ _ beside.1),
      )

  pub Good-beat :
      (db : Db)
      → Granted executor h db
      → Beside env requests db
      → Ensures (Good env requests) (beat_action env executor now h db)
  unfolding beat keep_running
  Good-beat db g b = record {
    holds =
        branch (λ (r : Json × Db). Good env requests r.0 r.1) (is_cancelling (run_of h.stage db)) _
          _ (λ _. (Custody-extend_lease db g.custody, b, refl))
          (λ _.
            branch (λ (r : Json × Db). Good env requests r.0 r.1)
              (leb (deadline h.attempt h.stage) now) _ _
              (λ _. let t = Good-time_out db g b in (t.0, t.1, refl))
              (λ _. (Custody-keep_running db g.custody, b, refl)));
  }

  -- the attempt is closed and the stage left in a state that is owed nothing
  pub Idle-close_attempt :
      (stage_state : StageState) (attempt_state : AttemptState) (reason : String) (db : Db)
      → is_pending stage_state ≡ false
      → Granted executor h db
      → Idle h.stage.id h.stage.max_attempts
          (count (attempts_of h.stage.id) db.attempts)
          (close_attempt h stage_state attempt_state now reason db)
  unfolding close_attempt
  Idle-close_attempt stage_state attempt_state reason db settled g =
      let limit = h.stage.max_attempts in
      let made = count (attempts_of h.stage.id) db.attempts in
      let freed = release h.lease.id now reason db in
      let over =
        set_attempt h.attempt.id (λ a. record a { state = attempt_state; ended_at = some now })
          freed in
      Idle-settle h.stage.id limit made (λ s. record s { state = stage_state }) over
        (record { id = λ s. refl; max_attempts = λ s. refl }) (λ s. settled)
        (Idle-set_attempt h.stage.id limit made h.attempt.id
          (λ a. record a { state = attempt_state; ended_at = some now }) freed (λ a. refl)
          (Idle-release h.stage.id limit made now reason db h.lease g.held g.custody
            (limit_of executor h db g) refl))

  Custody-end_session :
      (run : AnalysisRun) (a w : String) (db : Db)
      → Custody db
      → Custody (end_session run h.stage.stage_type a w now db)
  Custody-end_session run a w db c =
      end_session_keeps Custody run h.stage.stage_type a w now db c c c

module _ (env : Env) (grants : GrantsAttempts env) (executor : Executor)
    (requests : List ExecutorRequest) (now : ℕ) (h : Holding) where
  Custody-apply_outcome :
      (outcome : StageState) (run : AnalysisRun) (db : Db)
      → Custody db
      → Custody (apply_outcome env now outcome run h.stage db)
  unfolding apply_outcome
  Custody-apply_outcome outcome run db c =
      branch Custody
        (state_eq outcome StageState.unsupported && type_eq h.stage.stage_type platform_analysis) _
        _ (λ _. c)
        (λ _.
          branch Custody (state_eq outcome StageState.partial) _ _
            (λ _.
              Custody-advance_workflow env grants now run h.stage
                (set_run run.id (λ r. record r { result = some RunResult.partial }) db) c)
            (λ _. Custody-advance_workflow env grants now run h.stage db c))

  Beside-apply_outcome :
      (outcome : StageState) (run : AnalysisRun) (db : Db)
      → Beside env requests db
      → Beside env requests (apply_outcome env now outcome run h.stage db)
  unfolding apply_outcome advance_workflow
  Beside-apply_outcome outcome run db b =
      let P = Beside env requests in
      branch P
        (state_eq outcome StageState.unsupported && type_eq h.stage.stage_type platform_analysis) _
        _ (λ _. b)
        (λ _.
          branch P (state_eq outcome StageState.partial) _ _
            (λ _.
              kept-advance P (framed-Beside env requests) h.stage.stage_type env now run
                (set_run run.id (λ r. record r { result = some RunResult.partial }) db) b)
            (λ _. kept-advance P (framed-Beside env requests) h.stage.stage_type env now run db b))

  Good-close :
      (outcome : StageState) (run : AnalysisRun) (db : Db)
      → is_pending outcome ≡ false
      → Granted executor h db
      → Beside env requests db
      → let closed = apply_outcome env now outcome run h.stage (
          end_session run h.stage.stage_type "ended" "ended" now
            (close_attempt h outcome AttemptState.completed now "completed" db)) in
        Custody closed × Beside env requests closed
  unfolding close_attempt
  Good-close outcome run db settled g b =
      let over = close_attempt h outcome AttemptState.completed now "completed" db in
      (
        Custody-apply_outcome outcome run _ (
            Custody-end_session env executor requests now h run "ended" "ended" over
              (Idle-close_attempt env executor requests now h outcome AttemptState.completed
                "completed" db settled g).custody),
        Beside-apply_outcome outcome run _ (
            kept-end_session (Beside env requests) (framed-Beside env requests) run
              h.stage.stage_type "ended" "ended" now over b),
      )

  pub Good-complete_body :
      (outcome : String) (db : Db)
      → Granted executor h db
      → Beside env requests db
      → Ensures (Good env requests) (complete_body env executor now outcome h db)
  unfolding complete_body append_audit requested_outcome
  Good-complete_body outcome db g b =
      Ensures-lifted (Good env requests) (requested_outcome outcome) db _ λ requested e.
        Ensures-found (Good env requests) _ _ _ _ _ λ run _.
          let c = Good-close requested run db (settled_outcome _ requested e) g b in
          record { holds = (c.0, (c.1.0, Linked-next_event env now _ _ c.1.1), refl) }
