-- ===== src/Executors/Laws/Beat.antt =====
-- What a heartbeat does, in each of its three cases; and what native_task does when it is repeated.
use e_rakshak_umat.Prelude.{
  ℕ, none, ap, ◌∙◌, ◌||◌, ltb, ◌+◌, ◌≤◌, ◌<◌, ◌≡◌, refl, inl, inr, true, false, ◌&&◌, some, ◌==◌,
  leb, str_eq, Bool-cases, arith, if◌then◌else◌,
}
use e_rakshak_umat.Prelude.Tables.{get, scalar, update}
use e_rakshak_umat.Prelude.Tables.Laws.{get-update_own}
use e_rakshak_umat.Models.{StageState, AttemptState}
use e_rakshak_umat.Models.Rows.{
  AnalysisStage, AnalysisAttempt, ExecutorLease, Executor, BackendTask, stage_entity,
  attempt_entity, lease_entity,
}
use e_rakshak_umat.Environment.{Env, seconds, token_hash}
use e_rakshak_umat.Database.{Db, ok, http}
use e_rakshak_umat.Executors.Request.{Request, Holding, mismatched, validate_lease}
use e_rakshak_umat.Executors.Workflow.{run_of, attempt_count}
use e_rakshak_umat.Executors.Expiry.{deadline}
use e_rakshak_umat.Executors.Heartbeat.{
  beat, keep_running, time_out, is_cancelling, NativeTaskRequest, native_task_body, record_task,
  task_answer,
}
use e_rakshak_umat.Executors.Custody.Steps.{released}
use e_rakshak_umat.Executors.Custody.Leases.{leases-expire_attempt}
use e_rakshak_umat.Executors.Laws.Lifetime.{passes, lease_passes, lease_refused}
use e_rakshak_umat.Executors.Laws.Retry.{after_loss, stage-expire_attempt}

abbrev pub extended : Env → ℕ → ExecutorLease → ExecutorLease
extended env now l = record l {
  last_heartbeat_at = now;
  expires_at = now + seconds env.settings.lease_ttl_seconds;
}

module _ (env : Env) (executor : Executor) (now : ℕ) (h : Holding) (db : Db)
    (stage_there : get h.stage.id db.stages ≡ some h.stage)
    (lease_there : get h.lease.id db.leases ≡ some h.lease)
    (attempt_there : get h.attempt.id db.attempts ≡ some h.attempt) where
  lease_extended :
      get h.lease.id (update h.lease.id (extended env now) db.leases)
      ≡ some (extended env now h.lease)
  lease_extended =
      get-update_own h.lease.id (extended env now) db.leases h.lease (λ l. refl) lease_there

  -- A heartbeat before the deadline, in a run that is not being cancelled: the lease is good for the
  -- lease time from now on, and the stage and the attempt are running.
  pub beat_in_time :
      is_cancelling (run_of h.stage db) ≡ false
      → now < deadline h.attempt h.stage
      → let after = (beat env executor now h db).1 in
        (get h.lease.id after.leases ≡ some (extended env now h.lease))
        × (get h.stage.id after.stages ≡ some (record h.stage { state = StageState.running }))
        × (get h.attempt.id after.attempts
            ≡ some (record h.attempt { state = AttemptState.running }))
  unfolding beat keep_running
  beat_in_time live early =
      let open' : leb (deadline h.attempt h.stage) now ≡ false = ground arith in
      rw (live, open')
        (
          lease_extended,
          get-update_own h.stage.id (λ s. record s { state = StageState.running }) db.stages h.stage
              (λ s. refl) stage_there,
          get-update_own h.attempt.id (λ a. record a { state = AttemptState.running }) db.attempts
              h.attempt (λ a. refl) attempt_there,
        )

  -- A heartbeat at the deadline or later, in a run that is not being cancelled: the lease is released
  -- with the reason timeout, and the stage waits for its next attempt or has failed.
  pub beat_late :
      is_cancelling (run_of h.stage db) ≡ false
      → deadline h.attempt h.stage ≤ now
      → let after = (beat env executor now h db).1 in
        (get h.lease.id after.leases ≡ some (released now "timeout" h.lease))
        × (get h.stage.id after.stages
            ≡ some (after_loss now "timeout" (attempt_count h.stage.id db) h.stage))
  unfolding beat time_out
  beat_late live late =
      let over : leb (deadline h.attempt h.stage) now ≡ true = ground arith in
      rw (live, over)
        (
          rw (leases-expire_attempt h.lease h.attempt h.stage now "timeout" db) (
              get-update_own h.lease.id (released now "timeout") db.leases h.lease (λ l. refl)
                lease_there),
          stage-expire_attempt h.lease h.attempt h.stage now "timeout" db stage_there live,
        )

  -- A heartbeat in a run that is being cancelled extends the lease, so that the executor can
  -- acknowledge, and leaves the stages and the attempts as they are.
  pub beat_cancelling :
      is_cancelling (run_of h.stage db) ≡ true
      → let after = (beat env executor now h db).1 in
        (get h.lease.id after.leases ≡ some (extended env now h.lease))
        × (after.stages ≡ db.stages)
        × (after.attempts ≡ db.attempts)
  unfolding beat
  beat_cancelling c = rw c (lease_extended, refl, refl)

module _ (env : Env) (executor : Executor) (now : ℕ) (h : Holding) (db : Db) (rq : Request)
    (stage_there : get h.stage.id db.stages ≡ some h.stage)
    (lease_there : get h.lease.id db.leases ≡ some h.lease)
    (attempt_there : get h.attempt.id db.attempts ≡ some h.attempt)
    (own : mismatched executor h ≡ false) (unreleased : h.lease.released_at ≡ none)
    (known : token_hash env rq.lease_token ≡ h.lease.token_hash) where
  abbrev beaten : Db
  beaten = (beat env executor now h db).1

  -- the lease that was extended, whatever the states of its stage and its attempt are
  passes-extended :
      (stage : AnalysisStage) (attempt : AnalysisAttempt) (after : Db)
      → get h.stage.id after.stages ≡ some stage
      → get h.attempt.id after.attempts ≡ some attempt
      → get h.lease.id after.leases ≡ some (extended env now h.lease)
      → mismatched executor
          (record { stage = stage; attempt = attempt; lease = extended env now h.lease })
        ≡ false
      → passes (validate_lease env executor rq h.stage.id h.lease.id h.attempt.id false after)
        ≡ ltb rq.checked_at (now + seconds env.settings.lease_ttl_seconds)
  passes-extended stage attempt after s a l same =
      lease_passes env executor rq h.stage.id h.lease.id h.attempt.id after
        (record { stage = stage; attempt = attempt; lease = extended env now h.lease }) s a l same
        unreleased known

  -- How long the lease passes after a heartbeat, for each of its cases: a request of the executor with
  -- the token of the lease passes the check exactly if the heartbeat came before the deadline of the
  -- attempt or in a run that is being cancelled, and the lease time since the heartbeat is not over.
  pub beat_lem :
      passes (validate_lease env executor rq h.stage.id h.lease.id h.attempt.id false beaten)
      ≡ (is_cancelling (run_of h.stage db) || ltb now (deadline h.attempt h.stage))
        && ltb rq.checked_at (now + seconds env.settings.lease_ttl_seconds)
  unfolding mismatched
  beat_lem = elim (Bool-cases (is_cancelling (run_of h.stage db))) [
    | inl c ↦
        let (lease, stages, attempts) =
          beat_cancelling env executor now h db stage_there lease_there attempt_there c in
        rw c (
          passes-extended h.stage h.attempt beaten
            (ap (λ xs. get h.stage.id xs) stages ∙ stage_there)
            (ap (λ xs. get h.attempt.id xs) attempts ∙ attempt_there) lease own)
    | inr live ↦ elim (Bool-cases (ltb now (deadline h.attempt h.stage))) [
      | inl e ↦
          let (lease, stage, attempt) =
            beat_in_time env executor now h db stage_there lease_there attempt_there live
              (ground (arith, e)) in
          rw (live, e)
            (passes-extended (record h.stage { state = StageState.running })
              (record h.attempt { state = AttemptState.running }) beaten stage attempt lease own)
      | inr e ↦
          let (lease, stage) =
            beat_late env executor now h db stage_there lease_there attempt_there live
              (ground (arith, e)) in
          rw (live, e)
            (lease_refused env executor rq h.stage.id h.lease.id h.attempt.id beaten
              (released now "timeout" h.lease) lease refl)
    ]
  ]

-- A stage that has a native task: the same task again is answered as recovered, with the database
-- as it is, and any other is refused with the status 409.
pub native_task_again :
    (env : Env) (executor : Executor) (now stage_id : ℕ) (b : NativeTaskRequest)
    (task : BackendTask) (db : Db)
    → scalar (λ t. t.stage_id == stage_id) db.tasks ≡ some task
    → native_task_body env executor now stage_id b db ≡ (
        if str_eq task.native_task_id b.native_task_id && str_eq task.task_type b.task_type
        then ok (task_answer env task.id true, db)
        else http 409 "stage already has another native task")
unfolding native_task_body record_task
native_task_again env executor now stage_id b task db e =
    rw e (elim (Bool-cases (str_eq task.native_task_id b.native_task_id)) [
      | inl s ↦ elim (Bool-cases (str_eq task.task_type b.task_type)) [
        | inl t ↦ rw (s, t) refl
        | inr t ↦ rw (s, t) refl
      ]
      | inr s ↦ rw s refl
    ])
