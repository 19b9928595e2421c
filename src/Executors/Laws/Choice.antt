-- ===== src/Executors/Laws/Choice.antt =====
-- Which stage claim_stage of src/umat/api/executor_routes.py leases, and what the lease is.
use e_rakshak_umat.Prelude.{
  ℕ, ◌+◌, ltb, ap, suc, ◌≡◌, refl, String, true, false, Option, none, some, List, contains, arith,
}
use e_rakshak_umat.Prelude.Tables.{get, count, first, All, Keyed}
use e_rakshak_umat.Prelude.Tables.Queries.{IsOrder, Least, first-Least}
use e_rakshak_umat.Prelude.Tables.Laws.{first-get, get-update, get-update_own, get_above}
use e_rakshak_umat.Models.{StageState, RunStatus, stage_type_value}
use e_rakshak_umat.Models.Rows.{
  AnalysisRun, AnalysisStage, AnalysisAttempt, Submission, Executor, stage_entity, attempt_entity,
  lease_entity, run_entity, submission_entity,
}
use e_rakshak_umat.Environment.{Env, seconds, token_hash}
use e_rakshak_umat.Database.{Db}
use e_rakshak_umat.Database.Rules.{Ensures, Ensures-found}
use e_rakshak_umat.Audit.{append_audit}
use e_rakshak_umat.Executors.Workflow.{run_of, attempts_of, attempt_count}
use e_rakshak_umat.Executors.Request.{Request, mismatched, validate_lease}
use e_rakshak_umat.Executors.Laws.Lifetime.{passes, lease_passes}
use e_rakshak_umat.Executors.Claim.{
  Draw, ClaimResponse, is_claimable, claimable, claimed_before, due, run_fits, new_attempt,
  new_lease, grant, lease_stage, leased_stage,
}

claim_order : IsOrder claimed_before
claim_order = record {
  irreflexive = λ a. ground arith;
  asymmetric = λ a b h. ground arith;
  transitive = λ a b c h k. ground arith;
}

-- What claim_stage may lease: a queued stage of an allowed type whose backoff is over, of a run on
-- a platform that the executor serves.
pub record MayLease (allowed platforms : List String) (now : ℕ) (db : Db) (s : AnalysisStage)
    : Type 0 where
  pub queued : s.state ≡ StageState.queued
  pub of_type : contains (stage_type_value s.stage_type) allowed ≡ true
  pub is_due : due now s.next_attempt_at ≡ true
  pub on_platform : run_fits platforms (run_of s db) ≡ true

module _ (allowed platforms : List String) (now : ℕ) (db : Db) where
  least :
      (o : Option AnalysisStage)
      → first claimed_before (is_claimable allowed platforms now db) db.stages ≡ o
      → Least claimed_before (is_claimable allowed platforms now db) claim_order o db.stages
  least o e =
      rw⁻¹ e
        (first-Least claimed_before (is_claimable allowed platforms now db) claim_order db.stages)

  -- The stage that is picked is a row of the table that may be leased, and no stage that may be
  -- leased has a higher priority, or the same priority and an earlier creation.
  pub claimable-MayLease :
      (s : AnalysisStage)
      → Keyed db.next_id db.stages
      → claimable allowed platforms now db ≡ some s
      → (get s.id db.stages ≡ some s)
        × MayLease allowed platforms now db s
        × All
            (λ x. is_claimable allowed platforms now db x ≡ true → claimed_before x s ≡ false)
            db.stages
  unfolding claimable is_claimable
  claimable-MayLease s k e =
      let (found, passes, old) =
        first-get claimed_before (is_claimable allowed platforms now db) db.next_id db.stages s k
          e in
      (
        found,
        record {
          queued = ground arith;
          of_type = ground arith;
          is_due = ground arith;
          on_platform = ground arith;
        },
        least _ e,
      )

  -- If nothing is picked then no stage may be leased.
  pub claimable-none :
      claimable allowed platforms now db ≡ none
      → All (λ x. is_claimable allowed platforms now db x ≡ false) db.stages
  unfolding claimable
  claimable-none e = least _ e

-- what the answer of a lease names, and what it is good for
abbrev pub Leased : Env → Executor → Draw → AnalysisStage → Db → Option ClaimResponse → Db → Type 0
Leased env executor draw stage db none after = ⊥
Leased env executor draw stage db (some r) after =
    (r.stage_id ≡ stage.id)
    × (r.lease_expires_at ≡ draw.now + seconds env.settings.lease_ttl_seconds)
    × (r.timeout_seconds ≡ stage.timeout_seconds)
    × ((rq : Request)
        → rq.lease_token ≡ r.lease_token
        → passes (validate_lease env executor rq r.stage_id r.lease_id r.attempt_id false after)
          ≡ ltb rq.checked_at r.lease_expires_at)
    × (get r.attempt_id db.attempts ≡ none)
    × (get r.lease_id db.leases ≡ none)
    × ((attempt : AnalysisAttempt) × (get r.attempt_id after.attempts ≡ some attempt)
        × (attempt.attempt_number ≡ suc (count (attempts_of stage.id) db.attempts)))
    × (count (attempts_of stage.id) after.attempts ≡ suc (count (attempts_of stage.id) db.attempts))
    × (get r.stage_id after.stages
        ≡ some (record stage {
          state = StageState.leased;
          failure_code = none;
          failure_detail = none;
          next_attempt_at = none;
        }))
    × ((run : AnalysisRun) (submission : Submission)
        → run_of stage db ≡ some run
        → get run.submission_id db.submissions ≡ some submission
        → (r.sample_sha256 ≡ submission.sample_sha256)
          × (run_of stage after ≡ some (record run { status = RunStatus.running })))

passes-new_lease :
    (env : Env) (executor : Executor) (draw : Draw) (stage : AnalysisStage) (rq : Request)
    (number attempt_id lease_id : ℕ) (after : Db)
    → get stage.id after.stages ≡ some (leased_stage stage)
    → get attempt_id after.attempts ≡ some (new_attempt executor stage attempt_id number draw.now)
    → get lease_id after.leases ≡ some (new_lease env executor stage lease_id attempt_id draw)
    → rq.lease_token ≡ draw.token
    → passes (validate_lease env executor rq stage.id lease_id attempt_id false after)
      ≡ ltb rq.checked_at (draw.now + seconds env.settings.lease_ttl_seconds)
unfolding new_attempt new_lease mismatched
passes-new_lease env executor draw stage rq number attempt_id lease_id after s a l token =
    lease_passes env executor rq stage.id lease_id attempt_id after
      (record {
        stage = leased_stage stage;
        attempt = new_attempt executor stage attempt_id number draw.now;
        lease = new_lease env executor stage lease_id attempt_id draw;
      })
      s a l (ground arith) refl (ap (token_hash env) token)

-- A claim that leases a stage answers with a lease and an attempt that are new. Until the time of the
-- answer, which is the lease time from now, and not after it, every request of the executor with the
-- token of the answer passes the check of the lease, on the database that the claim leaves. The
-- attempt is numbered after those that the stage had. The stage has one attempt more, is leased, and
-- has no failure and no backoff left; the sample named is that of the run's submission; and whatever the status of its run was, the run is running.
pub lease_stage-grants :
    (env : Env) (executor : Executor) (draw : Draw) (stage : AnalysisStage) (db : Db)
    → get stage.id db.stages ≡ some stage
    → Keyed db.next_id db.attempts
    → Keyed db.next_id db.leases
    → Ensures (Leased env executor draw stage db) (lease_stage env executor draw stage db)
unfolding lease_stage append_audit grant get new_attempt new_lease attempt_count count
lease_stage-grants env executor draw stage db there attempts leases =
    Ensures-found (Leased env executor draw stage db) _ _ _ _ _ λ run e.
      Ensures-found (Leased env executor draw stage db) _ _ _ _ _ λ submission own. record {
        holds = (
          refl,
          refl,
          refl,
          (λ rq token.
              passes-new_lease env executor draw stage rq (attempt_count stage.id db) db.next_id
                (suc db.next_id) _
                (get-update_own stage.id leased_stage db.stages stage (λ x. refl) there)
                (ground arith) (ground arith) token),
          get_above db.next_id db.next_id db.attempts attempts (omega arith),
          get_above db.next_id (suc db.next_id) db.leases leases (omega arith),
          (
            new_attempt executor stage db.next_id (attempt_count stage.id db) draw.now,
            ground arith,
            omega arith,
          ),
          ground arith,
          get-update_own stage.id leased_stage db.stages stage (λ x. refl) there,
          λ run' submission' e' own'. (
            ground (arith, e, e', own, own'),
            rw
                (get-update run.id stage.analysis_run_id
                  (λ r. record r { status = RunStatus.running }) db.runs (λ r. refl))
                (rw e' (ground (arith, e, e'))),
          ),
        );
      }
