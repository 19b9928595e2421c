-- ===== src/Tests/Stages.antt =====
-- Stages, runs and leases of the small database.
use e_rakshak_umat.Prelude.{
  ℕ, ◌≡◌, refl, inr, String, true, false, ◌&&◌, none, some, List, [], ◌∷◌, contains, arith, ◌||◌,
  ltb, ◌+◌,
}
use e_rakshak_umat.Prelude.Tables.{get, scalar, count, first, All}
use e_rakshak_umat.Json.{end}
use e_rakshak_umat.Models.{
  StageState, RunStatus, StageType, c2_analysis, platform_adaptation, c2_adaptation,
  case_aggregation, AccessTier,
}
use e_rakshak_umat.Models.Rows.{
  AnalysisStage, Artifact, BackendTask, run_entity, stage_entity, attempt_entity, lease_entity,
  case_entity, submission_entity,
}
use e_rakshak_umat.Database.{Db}
use e_rakshak_umat.Database.Rules.{Ensures}
use e_rakshak_umat.Executors.Workflow.{
  attempt_count, advance_workflow, run_of, finish_cancellation, other_stage, is_held,
}
use e_rakshak_umat.Executors.Expiry.{deadline, expire_attempt, expire_leases}
use e_rakshak_umat.Executors.Heartbeat.{beat, is_cancelling, NativeTaskRequest}
use e_rakshak_umat.Executors.Claim.{Draw, claimable, is_claimable, claimed_before, lease_stage}
use e_rakshak_umat.Executors.Claim.Inputs.{collect_inputs}
use e_rakshak_umat.Executors.Laws.Choice.{MayLease, claimable-MayLease, Leased, lease_stage-grants}
use e_rakshak_umat.Executors.Laws.Inputs.{IsInput, collect_inputs-IsInput}
use e_rakshak_umat.Executors.Laws.Release.{Released, expire_leases-Released}
use e_rakshak_umat.Executors.Laws.Retry.{after_loss, stage-expire_attempt}
use e_rakshak_umat.Executors.Laws.Beat.{beat_lem}
use e_rakshak_umat.Executors.Laws.Lifetime.{passes}
use e_rakshak_umat.Environment.{seconds, token_hash}
use e_rakshak_umat.Executors.Laws.Pipeline.{
  has_stage, has_completed, OncePerType, advance_workflow-OncePerType, aggregation_iff,
}
use e_rakshak_umat.Executors.Request.{Holding, mismatched, validate_lease}
use e_rakshak_umat.Tests.Fixtures.{
  runtime, windows_run, analysis, worker, queued_db, leased, attempt, lease, leased_db, request,
}

abbrev allowed : List String
allowed = "platform_analysis" ∷ []

abbrev platforms : List String
platforms = "windows" ∷ []

claimable_example :
    (get 2 queued_db.stages ≡ some analysis)
    × MayLease allowed platforms 1 queued_db analysis
    × All
        (λ x.
          is_claimable allowed platforms 1 queued_db x ≡ true → claimed_before x analysis ≡ false)
        queued_db.stages
unfolding claimable is_claimable first get contains
claimable_example = claimable-MayLease allowed platforms 1 queued_db analysis (omega arith, tt) refl

abbrev draw : Draw
draw = record { expired_at = 0; now = 1; token = "token" }

lease_stage_example :
    Ensures
      (Leased runtime worker draw analysis queued_db)
      (lease_stage runtime worker draw analysis queued_db)
unfolding get
lease_stage_example = lease_stage-grants runtime worker draw analysis queued_db refl tt tt

-- the command-and-control analysis of a run whose analysis has left a capture
abbrev c2_stage : AnalysisStage
c2_stage = record analysis { id = 9; stage_type = c2_analysis }

abbrev capture : Artifact
capture = record {
  id = 50;
  analysis_run_id = 1;
  stage_id = some 2;
  attempt_id = none;
  kind = "pcap";
  sha256 = "capture";
  size_bytes = 10;
  media_type = "application/octet-stream";
  object_key = "capture";
  access_tier = AccessTier.analyst;
  bundle_id = none;
  created_at = 0;
}

abbrev captured_db : Db
captured_db = record queued_db {
  stages = c2_stage ∷ record analysis { state = StageState.completed } ∷ [];
  artifacts = capture ∷ [];
}

collect_inputs_example :
    All
      (IsInput c2_stage windows_run captured_db)
      (collect_inputs runtime c2_stage windows_run captured_db)
collect_inputs_example = collect_inputs-IsInput runtime c2_stage windows_run captured_db

-- the first of three attempts is lost
expire_attempt_example :
    get 2 (expire_attempt lease attempt leased 100 "lease_expired" leased_db).stages
    ≡ some (after_loss 100 "lease_expired" (attempt_count 2 leased_db) leased)
unfolding get
expire_attempt_example =
    stage-expire_attempt lease attempt leased 100 "lease_expired" leased_db refl refl

abbrev holding : Holding
holding = record { stage = leased; attempt = attempt; lease = lease }

beat_lem_example :
    passes (
      validate_lease runtime worker request 2 11 10 false
        ((beat runtime worker 5 holding leased_db).1))
    ≡ (is_cancelling (run_of leased leased_db) || ltb 5 (deadline attempt leased))
      && ltb request.checked_at (5 + seconds runtime.settings.lease_ttl_seconds)
unfolding get mismatched token_hash
beat_lem_example = beat_lem runtime worker 5 holding leased_db request refl refl refl refl refl refl

abbrev cancelling_db : Db
cancelling_db = record leased_db {
  runs = record windows_run { status = RunStatus.cancelling } ∷ [];
}

abbrev task : BackendTask
task = record {
  id = 40;
  stage_id = 2;
  attempt_id = 10;
  executor_id = 3;
  task_type = "cape";
  native_task_id = "1";
  recovery_metadata = end;
  created_at = 0;
}

abbrev task_db : Db
task_db = record leased_db { tasks = task ∷ [] }

abbrev asked : NativeTaskRequest
asked = record {
  lease_id = 11;
  attempt_id = 10;
  task_type = "cape";
  native_task_id = "2";
  recovery_metadata = end;
}

abbrev done : StageType → ℕ → AnalysisStage
done t id = record analysis { id = id; stage_type = t; state = StageState.completed }

abbrev adapted_db : Db
adapted_db = record queued_db { stages = done c2_adaptation 8 ∷ done platform_adaptation 7 ∷ [] }

once_adapted : OncePerType 1 adapted_db
unfolding count
once_adapted t = ground arith

aggregation_example :
    has_stage 1 case_aggregation
      (advance_workflow runtime 5 windows_run (done c2_adaptation 8) adapted_db)
    ≡ has_completed 1 platform_adaptation adapted_db && has_completed 1 c2_adaptation adapted_db
unfolding scalar
aggregation_example =
    aggregation_iff runtime 5 windows_run (done c2_adaptation 8) adapted_db refl (inr refl) refl
      once_adapted

advance_workflow-OncePerType_example :
    OncePerType 1 (advance_workflow runtime 5 windows_run (done c2_adaptation 8) adapted_db)
advance_workflow-OncePerType_example =
    advance_workflow-OncePerType runtime 5 windows_run 1 (done c2_adaptation 8) adapted_db
      once_adapted

abbrev advanced : Db
advanced = advance_workflow runtime 5 windows_run analysis queued_db

abbrev finished : Db
finished = finish_cancellation 1 2 cancelling_db

abbrev others : ℕ
others = count (λ s. other_stage 1 2 s && is_held s.state) cancelling_db.stages

expire_leases-Released_example :
    Released runtime 70000000 lease (expire_leases runtime 70000000 leased_db).0
unfolding get count
expire_leases-Released_example =
    expire_leases-Released runtime 70000000 lease leased_db (omega arith, tt) (omega arith) refl
      refl (omega arith) refl refl
