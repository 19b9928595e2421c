-- ===== src/Transfer.antt =====
-- The transfer of samples and artifacts between executors and the store: download_stage_sample,
-- download_stage_input and upload_artifact of src/umat/api/executor_routes.py. These routes commit
-- before they raise, and they change the store outside the transaction, so a route gives what it
-- leaves beside its reply.
pub mod Downloads
pub mod Uploads
pub mod Backed
pub mod Sent
use e_rakshak_umat.Prelude.{
  ℕ, suc, String, Bool, true, false, not, ◌&&◌, ◌||◌, Option, none, some, List, [], ◌∷◌, ◌==◌,
  str_eq, if◌then◌else◌,
}
use e_rakshak_umat.Prelude.Tables.{Entity, get, scalar, update}
use e_rakshak_umat.Json.{Json, Fields, dict, fields, string, bool, num, null, truthy, end}
use e_rakshak_umat.Models.{AccessTier, platform_analysis, type_eq}
use e_rakshak_umat.Models.Rows.{
  Submission, AnalysisRun, AnalysisStage, Executor, ExecutorRequest, Artifact, stage_entity,
  run_entity, submission_entity, request_entity,
}
use e_rakshak_umat.Environment.{Env, ◌<>◌}
use e_rakshak_umat.Database.{Db, HttpException, ok, err}
use e_rakshak_umat.Audit.{Entry}
use e_rakshak_umat.Storage.{
  LocalArtifactStore, StoreError, upload_too_large, digest_mismatch, StoredObject, Stored, ok, err,
  Chunk, accept_upload, verify,
}
use e_rakshak_umat.Storage.Paths.{FilePath}
use e_rakshak_umat.Executors.Request.{Request, Holding}
use e_rakshak_umat.Executors.Request.Replay.{Mutation, verify_stage_mutation}
use e_rakshak_umat.Executors.Expiry.{log}
use e_rakshak_umat.Executors.Claim.Inputs.{is_finished, source_of}

pub record Sample : Type 0 where
  pub sha256 : String
  pub object_key : String

instance abbrev pub artifact_entity : Entity Artifact
artifact_entity = record { key = λ a. a.id }

-- what the routes work on: the database with its table of samples, and the store
pub record Files : Type 0 where
  pub db : Db
  pub samples : List Sample
  pub store : LocalArtifactStore

-- an HTTPException, an exception that nothing catches, a file, or a body
pub data Reply : Type 0 where
  raised : ℕ → String → Reply
  crashed : Reply
  file : FilePath → String → Reply
  json : Json → Reply

abbrev pub stop : HttpException → Reply
stop e = raised e.status_code e.detail

-- what a client is told of the store's exceptions; the two mismatches of `upload_artifact` have one
-- text here
abbrev pub reason : StoreError → String
reason upload_too_large = "upload exceeds the limit"
reason _ = "artifact content does not match signed envelope"

-- record.response_json = response
abbrev pub store_response : Mutation → Json → Db → Db
store_response m response db = record db {
  requests =
      update m.signed.request.id (λ r. record r { response_json = some response }) db.requests;
}

abbrev pub system_entry : String → String → String → Entry
system_entry action target_type target_id = record {
  actor_type = "system";
  actor_id = none;
  action = action;
  target_type = target_type;
  target_id = some target_id;
  payload = end;
}

abbrev pub executor_entry : Env → Executor → String → String → String → Fields → Entry
executor_entry env executor action target_type target_id payload = record {
  actor_type = "executor";
  actor_id = some (env.str_uuid executor.id);
  action = action;
  target_type = target_type;
  target_id = some target_id;
  payload = payload;
}

-- A file that verified is sent; a replay, which commits nothing, leaves the database as it was.
abbrev pub send :
    Env
    → Request
    → Mutation
    → Json
    → Entry
    → Entry
    → String
    → String
    → Db
    → Files
    → Stored FilePath
    → Files × Reply
send env rq m response sent corrupted name failure db files (ok path) = (
  if m.signed.replay
      then files
      else record files { db = log env rq.now sent (store_response m response db) },
  file path name,
)
send env rq m response sent corrupted name failure db files (err digest_mismatch) =
    (record files { db = log env rq.now corrupted db }, raised 409 failure)
send env rq m response sent corrupted name failure db files (err e) = (files, crashed)
