-- ===== src/Executors/Custody/Expiry.antt =====
-- Custody under expire_attempt and expire_leases.
use e_rakshak_umat.Prelude.{
  ℕ, ◌<◌, ◌≡◌, refl, String, Bool, true, Option, none, some, List, ltb, arith,
}
use e_rakshak_umat.Prelude.Tables.{get, count}
use e_rakshak_umat.Models.{StageType, cancelling, status_eq}
use e_rakshak_umat.Models.Rows.{
  AnalysisRun, AnalysisStage, AnalysisAttempt, ExecutorLease, stage_entity, lease_entity,
  attempt_entity, run_entity,
}
use e_rakshak_umat.Database.{Db}
use e_rakshak_umat.Database.Rules.{branch}
use e_rakshak_umat.Executors.Workflow.{set_attempt, run_of, attempts_of, attempt_count}
use e_rakshak_umat.Executors.Expiry.{
  release, ended, mark_cancelled, mark_expired, fail_run, retry_or_fail, cancel_attempt,
  lose_attempt, conclude_attempt, expire_attempt, end_run_session,
}
use e_rakshak_umat.Executors.Custody.{InCustody, Custody, Idle}
use e_rakshak_umat.Executors.Custody.Idle.{Idle-settle, Idle-requeue, Idle-note}
use e_rakshak_umat.Executors.Custody.Steps.{Held, Idle-set_attempt, Idle-release}
use e_rakshak_umat.Executors.Custody.Workflow.{Custody-finish_cancellation, end_session_keeps}

Custody-fail_run :
    (run : Option AnalysisRun) (t : StageType) (db : Db) → Custody db → Custody (fail_run run t db)
Custody-fail_run none t db c = c
Custody-fail_run (some run) t db c = c

-- A stage is queued again only with an attempt left.
pub Custody-retry_or_fail :
    (again : Bool) (stage : AnalysisStage) (run : Option AnalysisRun) (attempts now made : ℕ)
    (db : Db)
    → (again ≡ true → made < stage.max_attempts)
    → Idle stage.id stage.max_attempts made db
    → Custody (retry_or_fail again stage run attempts now db)
unfolding retry_or_fail
Custody-retry_or_fail again stage run attempts now made db left h =
    branch Custody again _ _
      (λ e.
        (Idle-requeue stage.id stage.max_attempts made _ db
          (record { id = λ s. refl; max_attempts = λ s. refl }) (left e) h).custody)
      (λ e.
        Custody-fail_run run stage.stage_type _
          (Idle-settle stage.id stage.max_attempts made _ db
            (record { id = λ s. refl; max_attempts = λ s. refl }) (λ s. refl) h).custody)

Custody-cancel_attempt :
    (run : AnalysisRun) (attempt : AnalysisAttempt) (stage : AnalysisStage) (made : ℕ) (db : Db)
    → Idle stage.id stage.max_attempts made db
    → Custody (cancel_attempt run attempt stage db)
unfolding cancel_attempt
Custody-cancel_attempt run attempt stage made db h =
    Custody-finish_cancellation run.id stage.id _
      (Idle-settle stage.id stage.max_attempts made _ (set_attempt attempt.id mark_cancelled db)
        (record { id = λ s. refl; max_attempts = λ s. refl }) (λ s. refl)
        (Idle-set_attempt stage.id stage.max_attempts made attempt.id mark_cancelled db (λ a. refl)
          h)).custody

Custody-lose_attempt :
    (run : Option AnalysisRun) (attempt : AnalysisAttempt) (stage : AnalysisStage) (now : ℕ)
    (reason : String) (made : ℕ) (db : Db)
    → Idle stage.id stage.max_attempts made db
    → Custody (lose_attempt run attempt stage now reason db)
unfolding lose_attempt attempt_count
Custody-lose_attempt run attempt stage now reason made db h =
    Custody-retry_or_fail (ltb (attempt_count stage.id db) stage.max_attempts) stage run _ now made
      _ (λ e. ground (arith, h.made_of))
      (Idle-note stage.id stage.max_attempts made _
        (set_attempt attempt.id (mark_expired reason) db)
        (record { id = λ s. refl; max_attempts = λ s. refl }) (λ s. refl)
        (Idle-set_attempt stage.id stage.max_attempts made attempt.id (mark_expired reason) db
          (λ a. refl) h))

Custody-conclude_attempt :
    (run : Option AnalysisRun) (attempt : AnalysisAttempt) (stage : AnalysisStage) (now : ℕ)
    (reason : String) (made : ℕ) (db : Db)
    → Idle stage.id stage.max_attempts made db
    → Custody (conclude_attempt run attempt stage now reason db)
unfolding conclude_attempt
Custody-conclude_attempt none attempt stage now reason made db h =
    Custody-lose_attempt none attempt stage now reason made db h
Custody-conclude_attempt (some run) attempt stage now reason made db h =
    branch Custody (status_eq run.status cancelling) _ _
      (λ _. Custody-cancel_attempt run attempt stage made db h)
      (λ _. Custody-lose_attempt (some run) attempt stage now reason made db h)

-- What is known of a stage that is about to lose its attempt.
pub record HoldsIn (stage : AnalysisStage) (lease : ExecutorLease) (stages : List AnalysisStage)
    (leases : List ExecutorLease) (attempts : List AnalysisAttempt) (next_id : ℕ) : Type 0 where
  pub custody : InCustody stages leases attempts next_id
  pub held : Held stage.id lease leases
  pub limit_of :
      (s : AnalysisStage) → get stage.id stages ≡ some s → s.max_attempts ≡ stage.max_attempts

abbrev pub Holds : AnalysisStage → ExecutorLease → Db → Type 0
Holds stage lease db = HoldsIn stage lease db.stages db.leases db.attempts db.next_id

Holds-end_run_session :
    (run : Option AnalysisRun) (stage : AnalysisStage) (lease : ExecutorLease) (now : ℕ) (db : Db)
    → Holds stage lease db
    → Holds stage lease (end_run_session run stage now db)
Holds-end_run_session none stage lease now db h = h
Holds-end_run_session (some run) stage lease now db h =
    end_session_keeps (Holds stage lease) run stage.stage_type "expired" "expired" now db h h h

-- An attempt that holds its stage expires into custody.
pub Custody-expire_attempt :
    (lease : ExecutorLease) (attempt : AnalysisAttempt) (stage : AnalysisStage) (now : ℕ)
    (reason : String) (db : Db)
    → Holds stage lease db
    → Custody (expire_attempt lease attempt stage now reason db)
unfolding expire_attempt
Custody-expire_attempt lease attempt stage now reason db h =
    let run = run_of stage db in
    let ended_run = end_run_session run stage now db in
    let k : Holds stage lease ended_run = Holds-end_run_session run stage lease now db h in
    let made = count (attempts_of stage.id) ended_run.attempts in
    Custody-conclude_attempt run attempt stage now reason made
      (set_attempt attempt.id (ended now) (release lease.id now reason ended_run))
      (Idle-set_attempt stage.id stage.max_attempts made attempt.id (ended now)
        (release lease.id now reason ended_run) (λ a. refl)
        (Idle-release stage.id stage.max_attempts made now reason ended_run lease k.held k.custody
          k.limit_of refl))
