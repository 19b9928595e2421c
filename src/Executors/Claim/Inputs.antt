-- ===== src/Executors/Claim/Inputs.antt =====
-- The artifacts of earlier stages that claim_stage of src/umat/api/executor_routes.py hands to an
-- executor.
use e_rakshak_umat.Prelude.{
  ℕ, String, Bool, true, false, not, ◌&&◌, Option, none, some, List, [], ◌∷◌, ltb, ◌==◌, contains,
}
use e_rakshak_umat.Prelude.Tables.{get, select, order_by}
use e_rakshak_umat.Models.{
  StageType, StageState, c2_analysis, platform_adaptation, c2_adaptation, stage_type_value,
}
use e_rakshak_umat.Models.Rows.{AnalysisRun, AnalysisStage, Artifact, stage_entity}
use e_rakshak_umat.Environment.{Env, ◌<>◌}
use e_rakshak_umat.Database.{Db}

pub record ClaimArtifact : Type 0 where
  pub artifact_id : ℕ
  pub kind : String
  pub sha256 : String
  pub size_bytes : ℕ
  pub media_type : String
  pub source_stage_type : String
  pub download_path : String

-- the kinds that a stage of the type may read; none: every kind
unfoldable pub allowed_input_kinds : StageType → Option (List String)
allowed_input_kinds c2_analysis = some (
    "pcap" ∷ "platform_manifest" ∷ "access_events" ∷ "etw_events" ∷ "static_prior"
    ∷ "network_activity" ∷ [])
allowed_input_kinds platform_adaptation = some ("windows_bundle" ∷ "android_bundle" ∷ [])
allowed_input_kinds c2_adaptation = some ("c2_bundle" ∷ [])
allowed_input_kinds _ = none

abbrev pub kind_allowed : Option (List String) → String → Bool
kind_allowed none kind = true
kind_allowed (some kinds) kind = contains kind kinds

abbrev pub is_finished : StageState → Bool
is_finished StageState.completed = true
is_finished StageState.partial = true
is_finished _ = false

-- the stage that an artifact comes from
abbrev pub source_of : Db → Option ℕ → Option AnalysisStage
source_of db none = none
source_of db (some i) = get i db.stages

abbrev pub finished_source : Option AnalysisStage → ℕ → Bool
finished_source none stage_id = false
finished_source (some source) stage_id = not (source.id == stage_id) && is_finished source.state

unfoldable pub is_input : AnalysisStage → AnalysisRun → Db → Artifact → Bool
is_input stage run db a =
    a.analysis_run_id == run.id
    && (finished_source (source_of db a.stage_id) stage.id
        && kind_allowed (allowed_input_kinds stage.stage_type) a.kind)

abbrev source_type : Option AnalysisStage → String
source_type none = ""
source_type (some s) = stage_type_value s.stage_type

abbrev pub stage_path : Env → AnalysisStage → String
stage_path env stage = "/api/internal/v1/stages/" <> env.str_uuid stage.id

abbrev claim_artifact : Env → AnalysisStage → Db → Artifact → ClaimArtifact
claim_artifact env stage db a = record {
  artifact_id = a.id;
  kind = a.kind;
  sha256 = a.sha256;
  size_bytes = a.size_bytes;
  media_type = a.media_type;
  source_stage_type = source_type (source_of db a.stage_id);
  download_path = stage_path env stage <> "/inputs/" <> env.str_uuid a.id;
}

unfoldable pub as_claimed : Env → AnalysisStage → Db → List Artifact → List ClaimArtifact
as_claimed env stage db [] = []
as_claimed env stage db (a ∷ as') = claim_artifact env stage db a ∷ as_claimed env stage db as'

unfoldable pub collect_inputs : Env → AnalysisStage → AnalysisRun → Db → List ClaimArtifact
unfolding as_claimed
collect_inputs env stage run db =
    as_claimed env stage db (
      order_by (λ a b. ltb a.created_at b.created_at) (select (is_input stage run db) db.artifacts))
