-- ===== src/Executors/Laws/Session.antt =====
-- The interactive sessions: the window of a Windows session, and what an Android executor is told.
use e_rakshak_umat.Prelude.{ℕ, ◌+◌, ◌≤◌, ◌≡◌, refl, true, false, some, arith}
use e_rakshak_umat.Prelude.Tables.{get}
use e_rakshak_umat.Prelude.Tables.Laws.{get-update_own}
use e_rakshak_umat.Json.{null}
use e_rakshak_umat.Models.Rows.{Executor}
use e_rakshak_umat.Models.Sessions.{
  WindowsDynamicSession, AndroidDynamicSession, AndroidSessionCommand, windows_session_entity,
  android_session_entity, command_entity,
}
use e_rakshak_umat.Environment.{Env, seconds}
use e_rakshak_umat.Database.{Db}
use e_rakshak_umat.Executors.Request.{Holding}
use e_rakshak_umat.Executors.Sessions.Windows
use e_rakshak_umat.Executors.Sessions.Android

-- A Windows session that is registered again keeps its row; with the same CAPE task the new end of
-- the window is no later than the old one, and never later than the proposed one.
pub window_not_extended :
    (h : Holding) (executor : Executor) (b : Windows.WindowsSessionReadyRequest) (run_id now : ℕ)
    (session : WindowsDynamicSession) (db : Db)
    → get session.id db.windows_sessions ≡ some session
    → session.cape_task_id ≡ b.cape_task_id
    → (s : WindowsDynamicSession) × (get session.id
          (Windows.store_session h executor b run_id now (some session) db).1.windows_sessions
        ≡ some s)
      × (s.expires_at ≤ session.expires_at)
      × (s.expires_at ≤ now + seconds b.duration_seconds)
unfolding Windows.store_session
window_not_extended h executor b run_id now session db there same =
    let f =
      Windows.session_values h executor b now
        (Windows.window_end (some session) b.cape_task_id (now + seconds b.duration_seconds)) in
    (
      f session,
      get-update_own session.id f db.windows_sessions session (λ s. refl) there,
      ground (arith, same),
      ground (arith, same),
    )

module _ (env : Env) (now : ℕ) (session : AndroidDynamicSession) (db : Db)
    (there : get session.id db.android_sessions ≡ some session) where
  -- A poll of an Android session that is over is told to finalize, and the session is finalizing.
  pub poll_session_over :
      Android.is_over now session ≡ true
      → let r = Android.poll_session env now session db in
        (r.0 ≡ Android.poll_answer env session true null)
        × (get session.id r.1.android_sessions
            ≡ some (record session { last_seen_at = now; state = "finalizing" }))
  unfolding Android.poll_session
  poll_session_over over = rw over (
    refl,
    get-update_own session.id (λ x. record x { last_seen_at = now; state = "finalizing" })
        db.android_sessions session (λ s. refl) there,
  )

  -- A poll of one that is not over is given its first queued command, which is then running, and is
  -- told to finalize exactly if that is the command.
  pub poll_session_command :
      (c : AndroidSessionCommand)
      → Android.is_over now session ≡ false
      → Android.next_command session db ≡ some c
      → get c.id db.commands ≡ some c
      → let r = Android.poll_session env now session db in
        (r.0 ≡ Android.poll_answer env session (Android.is_finalize c) (Android.command_json env c))
        × (get c.id r.1.commands ≡ some (record c { state = "running"; claimed_at = some now }))
  unfolding Android.poll_session Android.hand_command
  poll_session_command c open' next command_there =
      rw (open', next)
        (
          refl,
          get-update_own c.id (λ x. record x { state = "running"; claimed_at = some now })
              db.commands c (λ x. refl) command_there,
        )
