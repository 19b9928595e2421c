-- ===== src/Executors/Laws/Retry.antt =====
-- What becomes of a stage whose attempt is lost: expire_attempt and fail_stage of
-- src/umat/api/executor_routes.py.
use e_rakshak_umat.Prelude.{
  ℕ, zero, suc, ◌+◌, ◌^◌, ◌≤◌, ◌≡◌, refl, ◌∙◌, String, Bool, true, false, Option, none, some, List,
  ltb, arith, if◌then◌else◌,
}
use e_rakshak_umat.Prelude.Tables.{get, count, update}
use e_rakshak_umat.Prelude.Tables.Laws.{get-update, count-update_same}
use e_rakshak_umat.Models.{StageState, cancelling, terminal, status_eq}
use e_rakshak_umat.Models.Rows.{
  AnalysisRun, AnalysisStage, AnalysisAttempt, ExecutorLease, run_entity, stage_entity,
  attempt_entity, lease_entity,
}
use e_rakshak_umat.Environment.{seconds}
use e_rakshak_umat.Database.{Db}
use e_rakshak_umat.Database.Rules.{branch}
use e_rakshak_umat.Executors.Workflow.{
  backoff, failed_result, attempt_count, attempts_of, run_of, set_stage, set_attempt,
}
use e_rakshak_umat.Executors.Heartbeat.{is_cancelling}
use e_rakshak_umat.Executors.Expiry.{
  ended, mark_expired, release, expire_attempt, conclude_attempt, lose_attempt, retry_or_fail,
  end_run_session,
}
use e_rakshak_umat.Executors.Custody.Workflow.{end_session_keeps}

power_pos : (n : ℕ) → 1 ≤ 2 ^ n
power_pos zero = omega arith
power_pos (suc n) = omega (arith, power_pos n)

power_mono : (m n : ℕ) → m ≤ n → 2 ^ m ≤ 2 ^ n
power_mono zero n h = power_pos n
power_mono (suc m) zero h = omega arith
power_mono (suc m) (suc n) h = omega (arith, power_mono m n (omega arith))

-- The wait before another attempt is at least a second and at most five minutes, and it does not
-- get shorter with more attempts.
pub backoff_bounds :
    (m n : ℕ)
    → m ≤ n
    → (seconds 1 ≤ backoff m) × (backoff m ≤ backoff n) × (backoff n ≤ seconds 300)
unfolding backoff
backoff_bounds m n h = (omega (arith, power_pos m), omega (arith, power_mono m n h), omega arith)

-- the row of the key of a row that is there, after writes of it
found_after :
    (i : ℕ) (f : AnalysisStage → AnalysisStage) (xs : List AnalysisStage) (s : AnalysisStage)
    → ((x : AnalysisStage) → (f x).id ≡ x.id)
    → get i xs ≡ some s
    → s.id ≡ i
    → get i (update i f xs) ≡ some (f s)
found_after i f xs s k g e = rw (get-update i i f xs k) (rw g (ground (arith, e)))

abbrev requeued : ℕ → ℕ → AnalysisStage → AnalysisStage
requeued now attempts s = record s {
  state = StageState.queued;
  next_attempt_at = some (now + backoff attempts);
}

abbrev failed_stage : AnalysisStage → AnalysisStage
failed_stage s = record s { state = StageState.failed }

-- A stage after retry_or_fail: queued until the backoff is over if there is to be another attempt,
-- and failed otherwise.
stage-retry_or_fail :
    (again : Bool) (stage : AnalysisStage) (run : Option AnalysisRun) (attempts now : ℕ) (db : Db)
    (s : AnalysisStage)
    → get stage.id db.stages ≡ some s
    → s.id ≡ stage.id
    → get stage.id (retry_or_fail again stage run attempts now db).stages
      ≡ some (if again then requeued now attempts s else failed_stage s)
unfolding retry_or_fail
stage-retry_or_fail true stage run attempts now db s g e =
    found_after stage.id (requeued now attempts) db.stages s (λ x. refl) g e
stage-retry_or_fail false stage none attempts now db s g e =
    found_after stage.id failed_stage db.stages s (λ x. refl) g e
stage-retry_or_fail false stage (some run) attempts now db s g e =
    found_after stage.id failed_stage db.stages s (λ x. refl) g e

-- the run after it
run-retry_or_fail :
    (again : Bool) (stage : AnalysisStage) (run : AnalysisRun) (attempts now : ℕ) (db : Db)
    → get run.id db.runs ≡ some run
    → get run.id (retry_or_fail again stage (some run) attempts now db).runs
      ≡ some (
          if again
          then run
          else record run { status = terminal; result = some (failed_result stage.stage_type) })
unfolding retry_or_fail
run-retry_or_fail true stage run attempts now db g = g
run-retry_or_fail false stage run attempts now db g =
    rw
      (get-update run.id run.id
        (λ r. record r { status = terminal; result = some (failed_result stage.stage_type) })
        db.runs (λ r. refl))
      (rw g (ground arith))

-- what becomes of a stage that has had `attempts` attempts
abbrev pub after_loss : ℕ → String → ℕ → AnalysisStage → AnalysisStage
after_loss now reason attempts stage =
    if ltb attempts stage.max_attempts
    then requeued now attempts (record stage { failure_code = some reason })
    else failed_stage (record stage { failure_code = some reason })

-- the stage, and the attempts that it has had
abbrev HadIn : AnalysisStage → ℕ → List AnalysisStage → List AnalysisAttempt → Type 0
HadIn stage n stages attempts =
    (get stage.id stages ≡ some stage) × (count (attempts_of stage.id) attempts ≡ n)

abbrev Had : AnalysisStage → ℕ → Db → Type 0
Had stage n db = HadIn stage n db.stages db.attempts

Had-end_run_session :
    (o : Option AnalysisRun) (stage : AnalysisStage) (n now : ℕ) (db : Db)
    → Had stage n db
    → Had stage n (end_run_session o stage now db)
Had-end_run_session none stage n now db h = h
Had-end_run_session (some run) stage n now db h =
    end_session_keeps (Had stage n) run stage.stage_type "expired" "expired" now db h h h

Had-set_attempt :
    (stage : AnalysisStage) (n i now : ℕ) (db : Db)
    → Had stage n db
    → Had stage n (set_attempt i (ended now) db)
Had-set_attempt stage n i now db h =
    (h.0, count-update_same (attempts_of stage.id) i (ended now) db.attempts (λ a. refl) ∙ h.1)

module _ (attempt : AnalysisAttempt) (stage : AnalysisStage) (n now : ℕ) (reason : String) where
  stage-lose_attempt :
      (o : Option AnalysisRun) (db : Db)
      → Had stage n db
      → get stage.id (lose_attempt o attempt stage now reason db).stages
        ≡ some (after_loss now reason n stage)
  unfolding lose_attempt attempt_count
  stage-lose_attempt o db h = rw (h.1) (
      stage-retry_or_fail (ltb n stage.max_attempts) stage o n now
        (set_stage stage.id (λ s. record s { failure_code = some reason })
          (set_attempt attempt.id (mark_expired reason) db))
        (record stage { failure_code = some reason })
        (found_after stage.id (λ s. record s { failure_code = some reason }) db.stages stage
          (λ x. refl) h.0 refl)
        refl)

  stage-conclude_attempt :
      (o : Option AnalysisRun) (db : Db)
      → is_cancelling o ≡ false
      → Had stage n db
      → get stage.id (conclude_attempt o attempt stage now reason db).stages
        ≡ some (after_loss now reason n stage)
  unfolding conclude_attempt
  stage-conclude_attempt none db live h = stage-lose_attempt none db h
  stage-conclude_attempt (some run) db live h =
      branch (λ (x : Db). get stage.id x.stages ≡ some (after_loss now reason n stage))
        (status_eq run.status cancelling) _ _ (λ c. ground (arith, c, live))
        (λ _. stage-lose_attempt (some run) db h)

-- An attempt of a run that is not being cancelled expires. Its stage then carries the reason; if it
-- had fewer attempts than its limit it is queued until the backoff for that number is over, and
-- otherwise it has failed.
pub stage-expire_attempt :
    (lease : ExecutorLease) (attempt : AnalysisAttempt) (stage : AnalysisStage) (now : ℕ)
    (reason : String) (db : Db)
    → get stage.id db.stages ≡ some stage
    → is_cancelling (run_of stage db) ≡ false
    → get stage.id (expire_attempt lease attempt stage now reason db).stages
      ≡ some (after_loss now reason (attempt_count stage.id db) stage)
unfolding expire_attempt attempt_count
stage-expire_attempt lease attempt stage now reason db there live =
    let n = count (attempts_of stage.id) db.attempts in
    let over = end_run_session (run_of stage db) stage now db in
    stage-conclude_attempt attempt stage n now reason (run_of stage db)
      (set_attempt attempt.id (ended now) (release lease.id now reason over)) live
      (Had-set_attempt stage n attempt.id now (release lease.id now reason over)
        (Had-end_run_session (run_of stage db) stage n now db (there, refl)))
