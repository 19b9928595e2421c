-- ===== src/Protocol/History.antt =====
-- The invariant of the protocol along a history of calls.
use e_rakshak_umat.Prelude.{ℕ, List, [], ◌∷◌}
use e_rakshak_umat.Models.Rows.{Executor, stage_entity}
use e_rakshak_umat.Environment.{Env}
use e_rakshak_umat.Database.{Db, Result, settle}
use e_rakshak_umat.Database.Rules.{Ensures, Ensures-settle}
use e_rakshak_umat.Executors.Request.{Request}
use e_rakshak_umat.Executors.Heartbeat.{heartbeat, native_task}
use e_rakshak_umat.Executors.Completion.{complete_stage, fail_stage, cancellation_ack}
use e_rakshak_umat.Executors.Sessions.Windows.{windows_session_ready, windows_session_poll}
use e_rakshak_umat.Executors.Sessions.Android.{
  android_session_ready, android_session_poll, android_session_complete_command,
}
use e_rakshak_umat.Executors.Custody.{GrantsAttempts}
use e_rakshak_umat.Executors.Custody.Claim.{Invariant-claim_stage, Invariant-expire_leases}
use e_rakshak_umat.Executors.Custody.Invariant.{Invariant, Kept}
use e_rakshak_umat.Executors.Custody.Routes.{Invariant-mutation}
use e_rakshak_umat.Executors.Custody.Routes.Stages.{Good-beat, Good-complete_body}
use e_rakshak_umat.Executors.Custody.Routes.Failures.{
  Good-fail_body, Good-ack_body, Good-native_task_body,
}
use e_rakshak_umat.Executors.Custody.Routes.Sessions.{
  Good-windows_ready, Good-windows_poll, Good-android_ready, Good-android_poll,
  Good-android_complete_command,
}
use e_rakshak_umat.Protocol.{StageCall, Call, stage_step, step, after_calls}
use e_rakshak_umat.Protocol.Executors.{
  Invariant-register_executor, Invariant-publish_capabilities, Invariant-claim_operation,
  Invariant-complete_operation,
}
use e_rakshak_umat.Protocol.Users.{Invariant-confirm_run, Invariant-cancel_run, Invariant-retry_run}

module _ (env : Env) (grants : GrantsAttempts env) where
  Invariant-settle :
      {A : Type 0} (r : Result (A × Db)) (db : Db)
      → Invariant env db
      → Ensures (Kept env) r
      → Invariant env (settle r db)
  Invariant-settle r db i h = Ensures-settle (Invariant env) r db i h

  Invariant-stage_step :
      (executor : Executor) (rq : Request) (stage_id : ℕ) (call : StageCall) (db : Db)
      → Invariant env db
      → Invariant env (stage_step env executor rq stage_id call db)
  unfolding stage_step heartbeat native_task complete_stage fail_stage cancellation_ack
      windows_session_ready windows_session_poll android_session_ready android_session_poll
      android_session_complete_command
  Invariant-stage_step executor rq stage_id (StageCall.beat b) db i = Invariant-settle _ db i (
      Invariant-mutation env executor rq stage_id b.lease_id b.attempt_id _ _ db
        (λ h requests db g beside. Good-beat env executor requests rq.now h db g beside) i)
  Invariant-stage_step executor rq stage_id (StageCall.record_native_task b) db i =
      Invariant-settle _ db i (
        Invariant-mutation env executor rq stage_id b.lease_id b.attempt_id _ _ db
          (λ h requests db g beside.
            Good-native_task_body env executor requests rq.now h stage_id b db g.custody beside)
          i)
  Invariant-stage_step executor rq stage_id (StageCall.complete b) db i = Invariant-settle _ db i (
      Invariant-mutation env executor rq stage_id b.lease_id b.attempt_id _ _ db
        (λ h requests db g beside.
          Good-complete_body env grants executor requests rq.now h b.outcome db g beside)
        i)
  Invariant-stage_step executor rq stage_id (StageCall.fail b) db i = Invariant-settle _ db i (
      Invariant-mutation env executor rq stage_id b.lease_id b.attempt_id _ _ db
        (λ h requests db g beside. Good-fail_body env executor requests rq.now h b db g beside) i)
  Invariant-stage_step executor rq stage_id (StageCall.acknowledge b) db i =
      Invariant-settle _ db i (
        Invariant-mutation env executor rq stage_id b.lease_id b.attempt_id _ _ db
          (λ h requests db g beside. Good-ack_body env executor requests rq.now h db g beside) i)
  Invariant-stage_step executor rq stage_id (StageCall.windows_ready b) db i =
      Invariant-settle _ db i (
        Invariant-mutation env executor rq stage_id b.lease_id b.attempt_id _ _ db
          (λ h requests db g beside.
            Good-windows_ready env executor requests rq.now h db g.custody beside b)
          i)
  Invariant-stage_step executor rq stage_id (StageCall.windows_poll b) db i =
      Invariant-settle _ db i (
        Invariant-mutation env executor rq stage_id b.lease_id b.attempt_id _ _ db
          (λ h requests db g beside.
            Good-windows_poll env executor requests rq.now h db g.custody beside)
          i)
  Invariant-stage_step executor rq stage_id (StageCall.android_ready b) db i =
      Invariant-settle _ db i (
        Invariant-mutation env executor rq stage_id b.lease_id b.attempt_id _ _ db
          (λ h requests db g beside.
            Good-android_ready env executor requests rq.now h db g.custody beside b)
          i)
  Invariant-stage_step executor rq stage_id (StageCall.android_poll b) db i =
      Invariant-settle _ db i (
        Invariant-mutation env executor rq stage_id b.lease_id b.attempt_id _ _ db
          (λ h requests db g beside.
            Good-android_poll env executor requests rq.now h db g.custody beside)
          i)
  Invariant-stage_step executor rq stage_id (StageCall.android_complete_command b) db i =
      Invariant-settle _ db i (
        Invariant-mutation env executor rq stage_id b.lease_id b.attempt_id _ _ db
          (λ h requests db g beside.
            Good-android_complete_command env executor requests rq.now h db g.custody beside b)
          i)

  Invariant-step : (c : Call) (db : Db) → Invariant env db → Invariant env (step env c db)
  unfolding step
  Invariant-step (Call.register now credential body) db i =
      Invariant-settle _ db i (Invariant-register_executor env now credential body db i)
  Invariant-step (Call.publish_snapshot executor now body) db i =
      Invariant-settle _ db i (Invariant-publish_capabilities env now executor body db i)
  Invariant-step (Call.claim_operation executor now token) db i =
      Invariant-settle _ db i (Invariant-claim_operation env now executor token db i)
  Invariant-step (Call.complete_operation executor rq operation_id b) db i =
      Invariant-settle _ db i (Invariant-complete_operation env executor rq b operation_id db i)
  Invariant-step (Call.claim executor body draw) db i =
      Invariant-settle _ db i (Invariant-claim_stage env executor draw body db i)
  Invariant-step (Call.on_stage executor rq stage_id call) db i =
      Invariant-stage_step executor rq stage_id call db i
  Invariant-step (Call.expire now) db i = Invariant-expire_leases env now db i
  Invariant-step (Call.confirm p now run_id) db i =
      Invariant-settle _ db i (Invariant-confirm_run env p now grants run_id db i)
  Invariant-step (Call.cancel p now run_id) db i =
      Invariant-settle _ db i (Invariant-cancel_run env p now run_id db i)
  Invariant-step (Call.retry p now run_id reason) db i =
      Invariant-settle _ db i (Invariant-retry_run env p now grants run_id reason db i)

  pub Invariant-after_calls :
      (cs : List Call) (db : Db) → Invariant env db → Invariant env (after_calls env cs db)
  unfolding after_calls
  Invariant-after_calls [] db i = i
  Invariant-after_calls (c ∷ cs) db i =
      Invariant-after_calls cs (step env c db) (Invariant-step c db i)
