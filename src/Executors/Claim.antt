-- ===== src/Executors/Claim.antt =====
-- claim_stage of src/umat/api/executor_routes.py: whether the executor fits (Claim/Fit.antt), which
-- stage it gets, the attempt and the lease that it is given, and the response.
pub mod Fit
pub mod Inputs
use e_rakshak_umat.Prelude.{
  ℕ, suc, ◌+◌, String, Bool, true, false, not, ◌&&◌, ◌||◌, Option, none, some, List, [], ◌∷◌, leb,
  ltb, ◌==◌, str_eq, contains, if◌then◌else◌,
}
use e_rakshak_umat.Prelude.Tables.{get, first, count}
use e_rakshak_umat.Json.{Json, Fields, fields, string, bool, assign, end}
use e_rakshak_umat.Models.{
  StageType, StageState, AttemptState, RunStatus, platform_analysis, stage_type_value,
  platform_value, type_eq, state_eq,
}
use e_rakshak_umat.Models.Rows.{
  AnalysisRun, AnalysisStage, AnalysisAttempt, ExecutorLease, Executor, BackendTask, Submission,
  BackendCapabilitySnapshot, run_entity, submission_entity, stage_entity,
}
use e_rakshak_umat.Environment.{Env, seconds, token_hash, ◌<>◌}
use e_rakshak_umat.Database.{Db, Action, pure, raise_if, require, gets, write, new_id, ◌>>=◌, ◌>>◌}
use e_rakshak_umat.Audit.{append_audit}
use e_rakshak_umat.Executors.Workflow.{set_stage, set_run, run_of, attempt_count}
use e_rakshak_umat.Executors.Expiry.{expire_leases}
use Fit.{ClaimRequest, allowed_types, is_unreadable, compatible, fits}
use Inputs.{ClaimArtifact, stage_path, collect_inputs}

-- The instants at which the handler reads the clock, and the token that it draws.
pub record Draw : Type 0 where
  pub expired_at : ℕ
  pub now : ℕ
  pub token : String

pub record ClaimResponse : Type 0 where
  pub stage_id : ℕ
  pub attempt_id : ℕ
  pub analysis_run_id : ℕ
  pub stage_type : String
  pub platform : String
  pub sample_sha256 : String
  pub lease_id : ℕ
  pub lease_token : String
  pub lease_expires_at : ℕ
  pub timeout_seconds : ℕ
  pub input_artifacts : List ClaimArtifact
  pub sample_download_path : Option String
  pub execution_configuration : Fields
  pub recovered_native_task : Option BackendTask

-- priority DESC, created_at
abbrev pub claimed_before : AnalysisStage → AnalysisStage → Bool
claimed_before a b =
    ltb b.priority a.priority || a.priority == b.priority && ltb a.created_at b.created_at

abbrev pub due : ℕ → Option ℕ → Bool
due now none = true
due now (some t) = leb t now

abbrev pub run_fits : List String → Option AnalysisRun → Bool
run_fits platforms none = false
run_fits [] (some run) = true
run_fits (p ∷ ps) (some run) = contains (platform_value run.platform) (p ∷ ps)

unfoldable pub is_claimable : List String → List String → ℕ → Db → AnalysisStage → Bool
is_claimable allowed platforms now db s =
    state_eq s.state StageState.queued
    && (contains (stage_type_value s.stage_type) allowed
        && (due now s.next_attempt_at && run_fits platforms (run_of s db)))

unfoldable pub claimable : List String → List String → ℕ → Db → Option AnalysisStage
unfolding is_claimable
claimable allowed platforms now db =
    first claimed_before (is_claimable allowed platforms now db) db.stages

unfoldable pub new_attempt : Executor → AnalysisStage → ℕ → ℕ → ℕ → AnalysisAttempt
new_attempt executor stage id made now = record {
  id = id;
  stage_id = stage.id;
  executor_id = executor.id;
  attempt_number = made + 1;
  state = AttemptState.leased;
  error_code = none;
  error_detail = none;
  started_at = now;
  ended_at = none;
}

unfoldable pub new_lease : Env → Executor → AnalysisStage → ℕ → ℕ → Draw → ExecutorLease
new_lease env executor stage id attempt_id draw = record {
  id = id;
  stage_id = stage.id;
  attempt_id = attempt_id;
  executor_id = executor.id;
  token_hash = token_hash env draw.token;
  expires_at = draw.now + seconds env.settings.lease_ttl_seconds;
  last_heartbeat_at = draw.now;
  released_at = none;
  release_reason = none;
}

-- the stage is leased with no failure and no backoff left on it
abbrev pub leased_stage : AnalysisStage → AnalysisStage
leased_stage s = record s {
  state = StageState.leased;
  failure_code = none;
  failure_detail = none;
  next_attempt_at = none;
}

-- the rows of a grant: an attempt, a lease, and the stage
unfoldable pub grant : Env → Executor → AnalysisStage → Draw → Db → Db
grant env executor stage draw db =
    let attempt_id = db.next_id in
    let lease_id = suc attempt_id in
    set_stage stage.id leased_stage (record db {
      attempts =
          new_attempt executor stage attempt_id (attempt_count stage.id db) draw.now ∷ db.attempts;
      leases = new_lease env executor stage lease_id attempt_id draw ∷ db.leases;
      next_id = suc lease_id;
    })

abbrev snapshot_of : ℕ → List (ℕ × Fields) → Fields
snapshot_of run_id [] = end
snapshot_of run_id ((i, f) ∷ r) = if i == run_id then f else snapshot_of run_id r

unfoldable pub execution_configuration : AnalysisRun → Db → Fields
execution_configuration run db = assign "windows_interactive" (bool run.windows_interactive) (
    assign "android_interactive" (bool run.android_interactive) (
      assign "c2_analysis_enabled" (bool run.c2_analysis_enabled)
        (assign "network_mode" (string run.network_mode) (snapshot_of run.id db.configurations))))

unfoldable pub claim_response :
    Env → AnalysisStage → AnalysisRun → Submission → Draw → ℕ → Db → ClaimResponse
claim_response env stage run submission draw attempt_id db = record {
  stage_id = stage.id;
  attempt_id = attempt_id;
  analysis_run_id = run.id;
  stage_type = stage_type_value stage.stage_type;
  platform = platform_value run.platform;
  sample_sha256 = submission.sample_sha256;
  lease_id = suc attempt_id;
  lease_token = draw.token;
  lease_expires_at = draw.now + seconds env.settings.lease_ttl_seconds;
  timeout_seconds = stage.timeout_seconds;
  input_artifacts = collect_inputs env stage run db;
  sample_download_path =
      if type_eq stage.stage_type platform_analysis
      then some (stage_path env stage <> "/sample")
      else none;
  execution_configuration = execution_configuration run db;
  recovered_native_task =
      first (λ a b. ltb a.created_at b.created_at) (λ t. t.stage_id == stage.id) db.tasks;
}

-- The stage is leased to the executor and its run is running.
unfoldable pub lease_stage : Env → Executor → Draw → AnalysisStage → Action (Option ClaimResponse)
unfolding claim_response execution_configuration
lease_stage env executor draw stage = do
  attempt_id ← gets (λ db. db.next_id)
  write (grant env executor stage draw)
  run ← require (run_of stage) 409 "stage has no analysis run"
  write (set_run run.id (λ r. record r { status = RunStatus.running }))
  submission ← require (λ db. get run.submission_id db.submissions) 409 "run has no submission"
  append_audit env draw.now (record {
    actor_type = "executor";
    actor_id = some (env.str_uuid executor.id);
    action = "stage.leased";
    target_type = "analysis_stage";
    target_id = some (env.str_uuid stage.id);
    payload = fields (
        ("attempt_id", string (env.str_uuid attempt_id))
        ∷ ("expires_at", string (env.isoformat (draw.now + seconds env.settings.lease_ttl_seconds)))
        ∷ []);
  })
  gets (λ db. some (claim_response env stage run submission draw attempt_id db))

abbrev pub pick : Env → Executor → Draw → Option AnalysisStage → Action (Option ClaimResponse)
pick env executor draw none = pure none
pick env executor draw (some stage) = lease_stage env executor draw stage

unfoldable pub latest_snapshot : ℕ → Db → Option BackendCapabilitySnapshot
latest_snapshot executor_id db =
    first (λ a b. ltb b.captured_at a.captured_at) (λ s. s.executor_id == executor_id) db.snapshots

abbrev pub offer :
    Env
    → Executor
    → ClaimRequest
    → Draw
    → Option BackendCapabilitySnapshot
    → Action (Option ClaimResponse)
offer env executor body draw none = pure none
offer env executor body draw (some snapshot) = do
  raise_if (is_unreadable snapshot.capabilities) 500 "Internal Server Error"
  let allowed = allowed_types executor body
  let platforms = compatible env body snapshot.capabilities
  let granted = (do
    stage ← gets (claimable allowed platforms draw.now)
    pick env executor draw stage)
  if fits env executor body snapshot.capabilities then granted else pure none

abbrev pub is_empty : List String → Bool
is_empty [] = true
is_empty (_ ∷ _) = false

unfoldable pub claim_stage : Env → Executor → ClaimRequest → Draw → Action (Option ClaimResponse)
unfolding latest_snapshot
claim_stage env executor body draw = do
  raise_if (is_empty (allowed_types executor body)) 403
      "no requested stage type is in executor scope"
  write (λ db. (expire_leases env draw.expired_at db).0)
  snapshot ← gets (latest_snapshot executor.id)
  offer env executor body draw snapshot
