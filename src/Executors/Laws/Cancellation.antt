-- ===== src/Executors/Laws/Cancellation.antt =====
-- The end of a cancelled run: by its executors (expire_attempt and cancellation_ack of
-- src/umat/api/executor_routes.py) or by its user (cancel_run of src/umat/api/case_routes.py).
use e_rakshak_umat.Prelude.{
  ℕ, ◌≡◌, ◌≢◌, refl, inl, inr, ◌&&◌, some, List, ◌==◌, ==_iff, Bool-cases, arith,
}
use e_rakshak_umat.Prelude.Tables.{get, count, update}
use e_rakshak_umat.Prelude.Tables.Laws.{get-update_own, count-update_where_none}
use e_rakshak_umat.Models.{StageState, RunStatus, RunResult, terminal}
use e_rakshak_umat.Models.Rows.{AnalysisRun, run_entity}
use e_rakshak_umat.Database.{Db}
use e_rakshak_umat.Executors.Workflow.{finish_cancellation, other_stage, is_held, is_pending}
use e_rakshak_umat.Runs.{stop, held_by_run, pending_of_run}

abbrev pub cancelled_run : AnalysisRun → AnalysisRun
cancelled_run r = record r { status = terminal; result = some RunResult.cancelled }

cancelled_after :
    (run : AnalysisRun) (runs : List AnalysisRun)
    → get run.id runs ≡ some run
    → get run.id (update run.id cancelled_run runs) ≡ some (cancelled_run run)
cancelled_after run runs there = get-update_own run.id cancelled_run runs run (λ r. refl) there

module _ (run : AnalysisRun) (db : Db) (there : get run.id db.runs ≡ some run) where
  -- When a cancelled attempt of a run is over: if no other stage of the run is leased or running, the
  -- run is terminal with the result cancelled, and no other stage of it is waiting or queued;
  -- otherwise nothing changes.
  pub finish_cancellation_lem :
      (stage_id : ℕ)
      → let others = count (λ s. other_stage run.id stage_id s && is_held s.state) db.stages in
        let after = finish_cancellation run.id stage_id db in
        (others ≡ 0
          → (get run.id after.runs ≡ some (cancelled_run run))
            × (count (λ s. other_stage run.id stage_id s && is_pending s.state) after.stages ≡ 0))
        × (others ≢ 0 → after ≡ db)
  unfolding finish_cancellation
  finish_cancellation_lem stage_id = (
    λ e. rw e (
      cancelled_after run db.runs there,
      count-update_where_none (λ s. other_stage run.id stage_id s && is_pending s.state)
          (λ s. record s { state = StageState.cancelled }) db.stages (λ s. ground arith),
    ),
    λ busy.
        elim (Bool-cases
          (count (λ s. other_stage run.id stage_id s && is_held s.state) db.stages == 0)) [
            | inl e ↦ absurd (busy ((==_iff _ 0).0 e))
            | inr e ↦ rw e refl
          ],
  )

  -- When a user cancels a run: if none of its stages is leased or running, the run is terminal with
  -- the result cancelled and none of its stages is waiting or queued; otherwise the run is
  -- cancelling and its stages are as they were.
  pub stop_lem :
      let held = count (held_by_run run.id) db.stages in
      let after = stop run.id db in
      (held ≡ 0
        → (get run.id after.runs ≡ some (cancelled_run run))
          × (count (pending_of_run run.id) after.stages ≡ 0))
      × (held ≢ 0
          → (get run.id after.runs ≡ some (record run { status = RunStatus.cancelling }))
            × (after.stages ≡ db.stages))
  unfolding stop
  stop_lem = (
    λ e. rw e (
      cancelled_after run db.runs there,
      count-update_where_none (pending_of_run run.id)
          (λ s. record s { state = StageState.cancelled }) db.stages (λ s. ground arith),
    ),
    λ busy. elim (Bool-cases (count (held_by_run run.id) db.stages == 0)) [
      | inl e ↦ absurd (busy ((==_iff _ 0).0 e))
      | inr e ↦ rw e (
        get-update_own run.id (λ r. record r { status = RunStatus.cancelling }) db.runs run
            (λ r. refl) there,
        refl,
      )
    ],
  )
