-- ===== src/Executors/Expiry.antt =====
-- expire_attempt and expire_leases of src/umat/api/executor_routes.py; and process_once of
-- src/umat/scheduler/worker.py, which calls the latter.
use e_rakshak_umat.Prelude.{
  ℕ, suc, ◌+◌, String, Bool, ◌&&◌, Option, none, some, List, [], ◌∷◌, ◌++◌, ltb, leb, is_none,
  if◌then◌else◌,
}
use e_rakshak_umat.Prelude.Tables.{get, select, order_by, take}
use e_rakshak_umat.Json.{fields, string}
use e_rakshak_umat.Models.{StageState, AttemptState, cancelling, StageType, status_eq}
use e_rakshak_umat.Models.Rows.{
  AnalysisRun, AnalysisStage, AnalysisAttempt, ExecutorLease, stage_entity, attempt_entity,
  run_entity,
}
use e_rakshak_umat.Environment.{Env, seconds}
use e_rakshak_umat.Database.{Db}
use e_rakshak_umat.Audit.{next_event, Entry}
use e_rakshak_umat.Executors.Workflow.{
  set_stage, set_attempt, set_lease, run_of, finish_run, end_session, failed_result, backoff,
  attempt_count, finish_cancellation,
}

abbrev pub release : ℕ → ℕ → String → Db → Db
release lease_id now reason =
    set_lease lease_id λ l. record l { released_at = some now; release_reason = some reason }

abbrev pub fail_run : Option AnalysisRun → StageType → Db → Db
fail_run none t db = db
fail_run (some run) t db = finish_run run.id (failed_result t) db

-- Another attempt after the backoff while the stage has any left, and otherwise the end of the run.
unfoldable pub retry_or_fail : Bool → AnalysisStage → Option AnalysisRun → ℕ → ℕ → Db → Db
retry_or_fail again stage run attempts now db =
    if again
    then set_stage stage.id
        (λ s. record s {
          state = StageState.queued;
          next_attempt_at = some (now + backoff attempts);
        })
        db
    else fail_run run stage.stage_type
        (set_stage stage.id (λ s. record s { state = StageState.failed }) db)

abbrev pub end_run_session : Option AnalysisRun → AnalysisStage → ℕ → Db → Db
end_run_session none stage now db = db
end_run_session (some run) stage now db =
    end_session run stage.stage_type "expired" "expired" now db

-- the fields that are assigned to an attempt
abbrev pub ended : ℕ → AnalysisAttempt → AnalysisAttempt
ended now a = record a { ended_at = some now }

abbrev pub mark_cancelled : AnalysisAttempt → AnalysisAttempt
mark_cancelled a = record a { state = AttemptState.cancelled }

abbrev pub mark_expired : String → AnalysisAttempt → AnalysisAttempt
mark_expired reason a = record a { state = AttemptState.expired; error_code = some reason }

unfoldable pub cancel_attempt : AnalysisRun → AnalysisAttempt → AnalysisStage → Db → Db
cancel_attempt run attempt stage db = finish_cancellation run.id stage.id (
    set_stage stage.id (λ s. record s { state = StageState.cancelled })
      (set_attempt attempt.id mark_cancelled db))

unfoldable pub lose_attempt :
    Option AnalysisRun → AnalysisAttempt → AnalysisStage → ℕ → String → Db → Db
lose_attempt run attempt stage now reason db =
    let marked =
      set_stage stage.id (λ s. record s { failure_code = some reason })
        (set_attempt attempt.id (mark_expired reason) db) in
    let attempts = attempt_count stage.id db in
    retry_or_fail (ltb attempts stage.max_attempts) stage run attempts now marked

unfoldable pub conclude_attempt :
    Option AnalysisRun → AnalysisAttempt → AnalysisStage → ℕ → String → Db → Db
unfolding cancel_attempt lose_attempt
conclude_attempt none attempt stage now reason db = lose_attempt none attempt stage now reason db
conclude_attempt (some run) attempt stage now reason db =
    if status_eq run.status cancelling
    then cancel_attempt run attempt stage db
    else lose_attempt (some run) attempt stage now reason db

unfoldable pub expire_attempt :
    ExecutorLease → AnalysisAttempt → AnalysisStage → ℕ → String → Db → Db
expire_attempt lease attempt stage now reason db =
    conclude_attempt (run_of stage db) attempt stage now reason (
      set_attempt attempt.id (ended now)
        (release lease.id now reason (end_run_session (run_of stage db) stage now db)))

abbrev pub deadline : AnalysisAttempt → AnalysisStage → ℕ
deadline attempt stage = attempt.started_at + seconds stage.timeout_seconds

abbrev pub expiry_entry : Env → AnalysisStage → AnalysisAttempt → Bool → String → Entry
expiry_entry env stage attempt timed_out reason = record {
  actor_type = "system";
  actor_id = some "scheduler";
  action = if timed_out then "stage.timed_out" else "stage.lease_expired";
  target_type = "analysis_stage";
  target_id = some (env.str_uuid stage.id);
  payload =
      fields (("attempt_id", string (env.str_uuid attempt.id)) ∷ ("reason", string reason) ∷ []);
}

abbrev pub log : Env → ℕ → Entry → Db → Db
log env now entry db = record db { audit = db.audit ++ next_event env now entry db.audit ∷ [] }

-- the pass of the loop for a lease whose attempt and stage are there
unfoldable pub expire_due :
    Env → ℕ → ExecutorLease → AnalysisAttempt → AnalysisStage → Db × ℕ → Db × ℕ
expire_due env now lease attempt stage (db, expired) =
    let timed_out = leb (deadline attempt stage) now in
    let reason = if timed_out then "timeout" else "lease_expired" in
    if ltb now lease.expires_at && ltb now (deadline attempt stage) then (db, expired) else (
      log env now (expiry_entry env stage attempt timed_out reason)
          (expire_attempt lease attempt stage now reason db),
      suc expired,
    )

unfoldable pub expire_one :
    Env → ℕ → ExecutorLease → Option AnalysisAttempt → Option AnalysisStage → Db × ℕ → Db × ℕ
unfolding expire_due
expire_one env now lease (some attempt) (some stage) s = expire_due env now lease attempt stage s
expire_one env now lease _ _ s = s

unfoldable pub expire_each : Env → ℕ → List ExecutorLease → Db × ℕ → Db × ℕ
expire_each env now [] s = s
expire_each env now (lease ∷ leases) s =
    expire_each env now leases (
      expire_one env now lease (get lease.attempt_id s.0.attempts) (get lease.stage_id s.0.stages)
        s)

-- the unreleased leases, the earliest expiry first, a thousand at most
unfoldable pub outstanding : Db → List ExecutorLease
outstanding db = take 1000 (
    order_by (λ a b. ltb a.expires_at b.expires_at) (select (λ l. is_none l.released_at) db.leases))

unfoldable pub expire_leases : Env → ℕ → Db → Db × ℕ
unfolding expire_each outstanding
expire_leases env now db = expire_each env now (outstanding db) (db, 0)
