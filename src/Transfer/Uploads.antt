-- ===== src/Transfer/Uploads.antt =====
-- upload_artifact of src/umat/api/executor_routes.py.
use e_rakshak_umat.Prelude.{
  ℕ, suc, String, ◌&&◌, Option, none, some, List, [], ◌∷◌, str_eq, if◌then◌else◌,
}
use e_rakshak_umat.Prelude.Tables.{get}
use e_rakshak_umat.Json.{Json, dict, fields, string, num, null, truthy}
use e_rakshak_umat.Models.{AccessTier}
use e_rakshak_umat.Models.Rows.{
  AnalysisRun, AnalysisStage, Executor, Artifact, stage_entity, run_entity, submission_entity,
  request_entity,
}
use e_rakshak_umat.Environment.{Env}
use e_rakshak_umat.Database.{Db, ok, err}
use e_rakshak_umat.Storage.{
  StoreError, upload_too_large, digest_mismatch, StoredObject, Stored, ok, err, Chunk,
  accept_upload,
}
use e_rakshak_umat.Executors.Request.{Request}
use e_rakshak_umat.Executors.Request.Replay.{Mutation, verify_stage_mutation}
use e_rakshak_umat.Executors.Expiry.{log}
use e_rakshak_umat.Transfer.{
  Files, Reply, raised, crashed, json, stop, reason, store_response, executor_entry,
  artifact_entity,
}

pub record ArtifactEnvelope : Type 0 where
  pub lease_id : ℕ
  pub attempt_id : ℕ
  pub kind : String
  pub sha256 : String
  pub size_bytes : ℕ
  pub media_type : String
  pub access_tier : String
  pub bundle_id : Option ℕ

abbrev uuid_json : Env → Option ℕ → Json
uuid_json env none = null
uuid_json env (some i) = string (env.str_uuid i)

pub envelope_json : Env → ArtifactEnvelope → Json
envelope_json env e = dict (
    ("lease_id", string (env.str_uuid e.lease_id))
    ∷ ("attempt_id", string (env.str_uuid e.attempt_id))
    ∷ ("kind", string e.kind)
    ∷ ("sha256", string e.sha256)
    ∷ ("size_bytes", num e.size_bytes)
    ∷ ("media_type", string e.media_type)
    ∷ ("access_tier", string e.access_tier)
    ∷ ("bundle_id", uuid_json env e.bundle_id)
    ∷ [])

-- AccessTier(value), which may raise ValueError
unfoldable pub access_tier_of : String → Option AccessTier
access_tier_of t =
    if str_eq t "officer"
    then some AccessTier.officer
    else if str_eq t "analyst"
    then some AccessTier.analyst
    else if str_eq t "administrator"
    then some AccessTier.administrator
    else none

abbrev pub new_artifact :
    ArtifactEnvelope → AnalysisStage → StoredObject → AccessTier → ℕ → ℕ → Artifact
new_artifact e stage stored tier now id = record {
  id = id;
  analysis_run_id = stage.analysis_run_id;
  stage_id = some stage.id;
  attempt_id = some e.attempt_id;
  kind = e.kind;
  sha256 = e.sha256;
  size_bytes = e.size_bytes;
  media_type = e.media_type;
  object_key = stored.object_key;
  access_tier = tier;
  bundle_id = e.bundle_id;
  created_at = now;
}

abbrev run_json : Env → Option AnalysisRun → Json
run_json env none = null
run_json env (some run) = string (env.str_uuid run.id)

-- the row, its event and the response
abbrev pub registered :
    Env → Executor → Request → Mutation → ArtifactEnvelope → StoredObject → AccessTier → Db → Db
registered env executor rq m e stored tier db =
    store_response m (dict (("artifact_id", string (env.str_uuid db.next_id)) ∷ [])) (
      log env rq.now
        (executor_entry env executor "artifact.registered" "artifact" (env.str_uuid db.next_id) (
          fields (
            ("run_id", run_json env (get m.held.stage.analysis_run_id db.runs))
            ∷ ("sha256", string e.sha256)
            ∷ ("kind", string e.kind)
            ∷ [])))
        (record db {
          artifacts = new_artifact e m.held.stage stored tier rq.now db.next_id ∷ db.artifacts;
          next_id = suc db.next_id;
        }))

abbrev rejected : Env → Executor → Request → Mutation → StoreError → Db → Files → Files × Reply
rejected env executor rq m e db files = (
  record files {
    db =
        log env rq.now
          (executor_entry env executor "artifact.rejected" "analysis_stage"
            (env.str_uuid m.held.stage.id) (fields (("reason", string (reason e)) ∷ [])))
          db;
  },
  raised 422 (reason e),
)

abbrev pub register_as :
    Env
    → Executor
    → Request
    → Mutation
    → ArtifactEnvelope
    → StoredObject
    → Db
    → Files
    → Option AccessTier
    → Files × Reply
register_as env executor rq m e stored db files none = (files, crashed)
register_as env executor rq m e stored db files (some tier) = (
  record files { db = registered env executor rq m e stored tier db },
  json (dict (("artifact_id", string (env.str_uuid db.next_id)) ∷ [])),
)

-- the part after the store has answered; `files` has the store that it left
abbrev pub register :
    Env
    → Executor
    → Request
    → Mutation
    → ArtifactEnvelope
    → Db
    → Files
    → Stored StoredObject
    → Files × Reply
register env executor rq m e db files (err upload_too_large) =
    rejected env executor rq m upload_too_large db files
register env executor rq m e db files (err digest_mismatch) =
    rejected env executor rq m digest_mismatch db files
register env executor rq m e db files (err _) = (files, crashed)
register env executor rq m e db files (ok stored) =
    register_as env executor rq m e stored db files (access_tier_of e.access_tier)

-- the upload itself: its limit, its chunks and the name that is drawn
pub record Upload : Type 0 where
  pub uuid : String
  pub max_bytes : ℕ
  pub chunks : List Chunk

abbrev pub receive_artifact :
    Env → Executor → Request → Mutation → ArtifactEnvelope → Upload → Db → Files → Files × Reply
receive_artifact env executor rq m e u db files =
    let (store, result) =
      accept_upload env u.uuid u.max_bytes u.chunks e.sha256 e.size_bytes files.store in
    register env executor rq m e db (record files { store = store }) result

abbrev pub answer_upload :
    Env
    → Executor
    → Request
    → Mutation
    → ArtifactEnvelope
    → Upload
    → Db
    → Files
    → Option Json
    → Files × Reply
answer_upload env executor rq m e u db files (some response) =
    if m.signed.replay && truthy (some response)
    then (files, json response)
    else receive_artifact env executor rq m e u db files
answer_upload env executor rq m e u db files none = receive_artifact env executor rq m e u db files

unfoldable pub upload_artifact :
    Env → Executor → Request → ℕ → Option ArtifactEnvelope → Upload → Files → Files × Reply
unfolding envelope_json
upload_artifact env executor rq stage_id none u files =
    (files, raised 422 "invalid artifact envelope")
upload_artifact env executor rq stage_id (some e) u files =
    elim (verify_stage_mutation env executor rq stage_id e.lease_id e.attempt_id
      (envelope_json env e) files.db) [
        | err x ↦ (files, stop x)
        | ok (m, db) ↦ answer_upload env executor rq m e u db files m.signed.request.response_json
      ]
