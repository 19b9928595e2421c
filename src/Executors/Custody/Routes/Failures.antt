-- ===== src/Executors/Custody/Routes/Failures.antt =====
-- What the bodies of fail_stage, cancellation_ack and native_task keep.
use e_rakshak_umat.Prelude.{
  ℕ, refl, Bool, not, ◌&&◌, ◌||◌, Option, none, some, List, ◌==◌, str_eq, ltb, arith, if◌then◌else◌,
}
use e_rakshak_umat.Prelude.Tables.{count, scalar}
use e_rakshak_umat.Models.{StageState, AttemptState, cancelling, status_eq}
use e_rakshak_umat.Models.Rows.{
  AnalysisRun, AnalysisAttempt, Executor, ExecutorRequest, BackendTask, run_entity, stage_entity,
}
use e_rakshak_umat.Models.Sessions.{WindowsDynamicSession, AndroidDynamicSession}
use e_rakshak_umat.Environment.{Env}
use e_rakshak_umat.Database.{Db}
use e_rakshak_umat.Database.Rules.{Ensures, Ensures-found, Ensures-test}
use e_rakshak_umat.Audit.{append_audit}
use e_rakshak_umat.Audit.Chain.{Linked-next_event}
use e_rakshak_umat.Executors.Request.{Holding}
use e_rakshak_umat.Executors.Workflow.{
  run_of, attempts_of, attempt_count, set_attempt, finish_cancellation, end_session,
}
use e_rakshak_umat.Executors.Expiry.{release}
use e_rakshak_umat.Executors.Heartbeat.{add_task, NativeTaskRequest, native_task_body, record_task}
use e_rakshak_umat.Executors.Completion.{
  close_attempt, FailRequest, fail_body, fail_session, note_failure, fail_attempt, ack_body,
}
use e_rakshak_umat.Executors.Custody.{Custody, Idle}
use e_rakshak_umat.Executors.Custody.Idle.{Idle-note}
use e_rakshak_umat.Executors.Custody.Steps.{Idle-release, Idle-set_attempt}
use e_rakshak_umat.Executors.Custody.Workflow.{end_session_keeps, Custody-finish_cancellation}
use e_rakshak_umat.Executors.Custody.Expiry.{Custody-retry_or_fail}
use e_rakshak_umat.Executors.Custody.Frame.{
  kept-finish_cancellation, kept-end_session, kept-retry_or_fail,
}
use e_rakshak_umat.Executors.Custody.Invariant.{
  Granted, Beside, framed-Beside, Good, Custody-next_id,
}
use e_rakshak_umat.Executors.Custody.Routes.Stages.{limit_of, Idle-close_attempt}

module _ (env : Env) (executor : Executor) (requests : List ExecutorRequest) (now : ℕ)
    (h : Holding) where
  abbrev made : Db → ℕ
  made db = count (attempts_of h.stage.id) db.attempts

  Idle-note_failure :
      (b : FailRequest) (db : Db)
      → Granted executor h db
      → Idle h.stage.id h.stage.max_attempts (made db) (note_failure h b now db)
  unfolding note_failure
  Idle-note_failure b db g =
      let limit = h.stage.max_attempts in
      let freed = release h.lease.id now "failed" db in
      let f : AnalysisAttempt → AnalysisAttempt = λ a. record a {
        state = AttemptState.failed;
        error_code = some b.error_code;
        error_detail = some b.detail;
        ended_at = some now;
      } in
      Idle-note h.stage.id limit (made db)
        (λ s. record s { failure_code = some b.error_code; failure_detail = some b.detail })
        (set_attempt h.attempt.id f freed) (record { id = λ s. refl; max_attempts = λ s. refl })
        (λ s. refl)
        (Idle-set_attempt h.stage.id limit (made db) h.attempt.id f freed (λ a. refl)
          (Idle-release h.stage.id limit (made db) now "failed" db h.lease g.held g.custody
            (limit_of executor h db g) refl))

  -- what a predicate of idle stages, or any that does not read the sessions, keeps
  kept-fail_session :
      (P : Db → Type 0) (run : Option AnalysisRun) (again : Bool) (db : Db)
      → ((x : List AndroidDynamicSession) (db : Db) → P db → P (record db { android_sessions = x }))
      → ((x : List WindowsDynamicSession) (db : Db) → P db → P (record db { windows_sessions = x }))
      → P db
      → P (fail_session run again h.stage now db)
  kept-fail_session P none again db a w p = p
  kept-fail_session P (some run) again db a w p =
      end_session_keeps P run h.stage.stage_type (if again then "recovering" else "failed") "failed"
        now db p (a _ db p) (w _ db p)

  Good-fail_attempt :
      (b : FailRequest) (db : Db)
      → Granted executor h db
      → Beside env requests db
      → Custody (fail_attempt h b now db) × Beside env requests (fail_attempt h b now db)
  unfolding fail_attempt attempt_count note_failure
  Good-fail_attempt b db g beside =
      let again = b.retryable && ltb (made db) h.stage.max_attempts in
      let noted = note_failure h b now db in
      let session = fail_session (run_of h.stage db) again h.stage now noted in
      let idle =
        kept-fail_session (Idle h.stage.id h.stage.max_attempts (made db)) (run_of h.stage db) again
          noted (λ x db p. p) (λ x db p. p) (Idle-note_failure b db g) in
      let P = Beside env requests in
      (
        Custody-retry_or_fail again h.stage (run_of h.stage db) (made db) now (made db) session
            (λ e. ground arith) idle,
        kept-retry_or_fail P (framed-Beside env requests) again h.stage (run_of h.stage db)
            (made db) now session
            (kept-fail_session P (run_of h.stage db) again noted (λ x db p. p) (λ x db p. p)
              beside),
      )

  pub Good-fail_body :
      (b : FailRequest) (db : Db)
      → Granted executor h db
      → Beside env requests db
      → Ensures (Good env requests) (fail_body env executor now b h db)
  unfolding fail_body append_audit
  Good-fail_body b db g beside =
      let c = Good-fail_attempt b db g beside in
      record { holds = (c.0, (c.1.0, Linked-next_event env now _ _ c.1.1), refl) }

  Good-cancelled :
      (run : AnalysisRun) (db : Db)
      → Granted executor h db
      → Beside env requests db
      → let closed = finish_cancellation run.id h.stage.id (
          close_attempt h StageState.cancelled AttemptState.cancelled now "cancelled"
            (end_session run h.stage.stage_type "cancelled" "cancelled" now db)) in
        Custody closed × Beside env requests closed
  unfolding close_attempt
  Good-cancelled run db g b =
      let before = end_session run h.stage.stage_type "cancelled" "cancelled" now db in
      let still : Granted executor h before =
        end_session_keeps (Granted executor h) run h.stage.stage_type "cancelled" "cancelled" now db
          g (record { custody = g.custody; stage = g.stage; attempt = g.attempt; held = g.held })
          (record { custody = g.custody; stage = g.stage; attempt = g.attempt; held = g.held }) in
      let beside : Beside env requests before =
        kept-end_session (Beside env requests) (framed-Beside env requests) run h.stage.stage_type
          "cancelled" "cancelled" now db b in
      let over =
        close_attempt h StageState.cancelled AttemptState.cancelled now "cancelled" before in
      (
        Custody-finish_cancellation run.id h.stage.id over
            (Idle-close_attempt env executor requests now h StageState.cancelled
              AttemptState.cancelled "cancelled" before refl still).custody,
        kept-finish_cancellation (Beside env requests) (framed-Beside env requests) run.id
            h.stage.id over beside,
      )

  pub Good-ack_body :
      (db : Db)
      → Granted executor h db
      → Beside env requests db
      → Ensures (Good env requests) (ack_body env executor now h db)
  unfolding ack_body append_audit
  Good-ack_body db g b = Ensures-found (Good env requests) _ _ _ _ _ λ run _.
      Ensures-test (Good env requests) (not (status_eq run.status cancelling)) _ _ db _ λ _.
        let c = Good-cancelled run db g b in
        record { holds = (c.0, (c.1.0, Linked-next_event env now _ _ c.1.1), refl) }

  Good-record_task :
      (stage_id : ℕ) (b : NativeTaskRequest) (existing : Option BackendTask) (db : Db)
      → Custody db
      → Beside env requests db
      → Ensures (Good env requests) (record_task env executor now stage_id b existing db)
  unfolding record_task add_task append_audit
  Good-record_task stage_id b (some existing) db c beside =
      Ensures-test (Good env requests)
        (not (str_eq existing.native_task_id b.native_task_id)
          || not (str_eq existing.task_type b.task_type))
        _ _ db _ λ _. record { holds = (c, beside, refl) }
  Good-record_task stage_id b none db c beside = record {
    holds = (Custody-next_id db c, (beside.0, Linked-next_event env now _ _ beside.1), refl);
  }

  pub Good-native_task_body :
      (stage_id : ℕ) (b : NativeTaskRequest) (db : Db)
      → Custody db
      → Beside env requests db
      → Ensures (Good env requests) (native_task_body env executor now stage_id b db)
  unfolding native_task_body
  Good-native_task_body stage_id b db c beside =
      Good-record_task stage_id b (scalar (λ t. t.stage_id == stage_id) db.tasks) db c beside
