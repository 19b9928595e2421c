-- ===== src/Executors/Custody/Routes/Sessions.antt =====
-- What the bodies of the session routes keep: they write none of the tables that custody is about.
use e_rakshak_umat.Prelude.{
  ℕ, ◌≡◌, refl, Bool, not, ◌||◌, Option, none, some, List, ◌==◌, str_eq, ltb,
}
use e_rakshak_umat.Prelude.Tables.{scalar}
use e_rakshak_umat.Json.{Json, num, obj}
use e_rakshak_umat.Models.Rows.{Executor, ExecutorRequest}
use e_rakshak_umat.Models.Sessions.{
  WindowsDynamicSession, AndroidDynamicSession, AndroidSessionCommand,
}
use e_rakshak_umat.Environment.{Env}
use e_rakshak_umat.Database.{Db}
use e_rakshak_umat.Database.Rules.{branch, Ensures, Ensures-found, Ensures-test}
use e_rakshak_umat.Audit.{append_audit}
use e_rakshak_umat.Audit.Chain.{Linked-next_event}
use e_rakshak_umat.Executors.Request.{Holding}
use e_rakshak_umat.Executors.Sessions.Windows
use e_rakshak_umat.Executors.Sessions.Android
use e_rakshak_umat.Executors.Custody.{Custody}
use e_rakshak_umat.Executors.Custody.Invariant.{Beside, Good, Custody-next_id}

module _ (env : Env) (executor : Executor) (requests : List ExecutorRequest) (now : ℕ) (h : Holding)
    (db : Db) (c : Custody db) (b : Beside env requests db) where
  stored_windows :
      (body : Windows.WindowsSessionReadyRequest) (run_id : ℕ) (o : Option WindowsDynamicSession)
      → Custody (Windows.store_session h executor body run_id now o db).1
        × Beside env requests (Windows.store_session h executor body run_id now o db).1
  unfolding Windows.store_session
  stored_windows body run_id none = (Custody-next_id db c, b)
  stored_windows body run_id (some s) = (c, b)

  pub Good-windows_ready :
      (body : Windows.WindowsSessionReadyRequest)
      → Ensures (Good env requests) (Windows.ready_body env executor now body h db)
  unfolding Windows.ready_body append_audit
  Good-windows_ready body = Ensures-found (Good env requests) _ _ _ _ _ λ run _.
      Ensures-test (Good env requests) (not (Windows.is_manual run)) _ _ db _ λ _.
        Ensures-found (Good env requests) _ _ _ _ _ λ task _.
          Ensures-test (Good env requests)
            (not (str_eq task.task_type "cape")
              || not (str_eq task.native_task_id (env.str_value (num body.cape_task_id))))
            _ _ db _
            λ _.
              let s =
                stored_windows body run.id (scalar (Windows.of_run run.id) db.windows_sessions) in
              record { holds = (s.0, (s.1.0, Linked-next_event env now _ _ s.1.1), refl) }

  pub Good-windows_poll : Ensures (Good env requests) (Windows.poll_body now h db)
  unfolding Windows.poll_body
  Good-windows_poll = record {
    holds = touched (scalar (Windows.of_run h.stage.analysis_run_id) db.windows_sessions);
  }
    where
      touched :
          (o : Option WindowsDynamicSession)
          → Custody (Windows.touch o (Windows.wants_finalize now o) now db)
            × Beside env requests (Windows.touch o (Windows.wants_finalize now o) now db)
            × (Bool.true ≡ Bool.true)
      touched none = (c, b, refl)
      touched (some s) = (c, b, refl)

  stored_android :
      (body : Android.AndroidSessionReadyRequest) (run_id : ℕ) (o : Option AndroidDynamicSession)
      → Custody (Android.store_session h executor body run_id now o db).1
        × Beside env requests (Android.store_session h executor body run_id now o db).1
  unfolding Android.store_session
  stored_android body run_id none = (Custody-next_id db c, b)
  stored_android body run_id (some s) = (c, b)

  pub Good-android_ready :
      (body : Android.AndroidSessionReadyRequest)
      → Ensures (Good env requests) (Android.ready_body env executor now body h db)
  unfolding Android.ready_body append_audit
  Good-android_ready body = Ensures-found (Good env requests) _ _ _ _ _ λ run _.
      Ensures-test (Good env requests) (not (Android.is_interactive run)) _ _ db _ λ _.
        let s = stored_android body run.id (scalar (Android.of_run run.id) db.android_sessions) in
        record { holds = (s.0, (s.1.0, Linked-next_event env now _ _ s.1.1), refl) }

  handed :
      (s : AndroidDynamicSession) (o : Option AndroidSessionCommand)
      → let r = Android.hand_command env now s o db in Good env requests r.0 r.1
  unfolding Android.hand_command Android.poll_answer
  handed s none = (c, b, refl)
  handed s (some command) = (c, b, refl)

  pub Good-android_poll : Ensures (Good env requests) (Android.poll_body env now h db)
  unfolding Android.poll_body Android.poll_session Android.poll_answer
  Good-android_poll = Ensures-found (Good env requests) _ _ _ _ _ λ session _. record {
    holds =
        branch (λ (r : Json × Db). Good env requests r.0 r.1) (Android.is_over now session) _ _
          (λ _. (c, b, refl)) (λ _. handed session (Android.next_command session db));
  }

  pub Good-android_complete_command :
      (body : Android.AndroidCommandCompleteRequest)
      → Ensures (Good env requests) (Android.complete_command_body env now body h db)
  unfolding Android.complete_command_body
  Good-android_complete_command body = Ensures-found (Good env requests) _ _ _ _ _ λ command _.
      Ensures-found (Good env requests) _ _ _ _ _ λ session _.
        Ensures-test (Good env requests)
          (not (command.session_id == session.id) || not (str_eq command.state "running")) _ _ db _
          λ _.
            Ensures-test (Good env requests)
              (ltb Android.max_result_bytes (env.byte_length (env.json_dumps (obj body.result)))) _
              _ db _ λ _. record { holds = (c, b, refl) }
