-- ===== src/Tests/Transfers.antt =====
-- Samples and artifacts on their way between an executor and the store.
use e_rakshak_umat.Prelude.{String, ◌≡◌, refl, none, some, [], ◌∷◌, arith, from_char, up_to_char}
use e_rakshak_umat.Prelude.Tables.{get, scalar}
use e_rakshak_umat.Models.{StageState, officer}
use e_rakshak_umat.Models.Rows.{
  Submission, Artifact, AnalysisStage, stage_entity, run_entity, submission_entity, attempt_entity,
  lease_entity,
}
use e_rakshak_umat.Environment.{Env, token_hash, ◌<>◌}
use e_rakshak_umat.Database.{found, lifted}
use e_rakshak_umat.Executors.Request.{
  verify_executor_signature, signature_message, in_window, verified, same_key, same_nonce,
  signed_request, answer_key, record_request, validate_lease, mismatched, lapsed,
}
use e_rakshak_umat.Executors.Request.Replay.{verify_stage_mutation}
use e_rakshak_umat.Storage.{
  LocalArtifactStore, bytes, object_at, object_key, resolve, verify, destination,
}
use e_rakshak_umat.Storage.Digests.{IsDigest}
use e_rakshak_umat.Storage.Paths.{FilePath, locate, parts, walk, enter, same, is_parent}
use e_rakshak_umat.Transfer.{Files, file, artifact_entity}
use e_rakshak_umat.Transfer.Uploads.{ArtifactEnvelope, Upload, upload_artifact}
use e_rakshak_umat.Transfer.Downloads.{
  find_sample, find_input, download_stage_sample, download_stage_input,
}
use e_rakshak_umat.Transfer.Backed.{Backed, upload_artifact-Backed}
use e_rakshak_umat.Transfer.Sent.{
  SampleSent, download_stage_sample-SampleSent, download_stage_input-backed,
}
use e_rakshak_umat.Tests.Fixtures.{runtime, worker, analysis, leased, lease, leased_db, request}

abbrev hashing : Env
hashing = record runtime { sha256 = λ s. "abc"; byte_length = λ s. 4 }

abbrev object_place : FilePath
object_place = "c" ∷ "ab" ∷ "sha256" ∷ "objects" ∷ "artifacts" ∷ "srv" ∷ []

abbrev store : LocalArtifactStore
store = record {
  artifact_root = "artifacts" ∷ "srv" ∷ [];
  quarantine = [];
  objects = record { path = object_place; content = "data" } ∷ [];
}

abbrev submission : Submission
submission = record {
  id = 5;
  case_id = 4;
  uploader_user_id = 1;
  sample_sha256 = "abc";
  original_filename = "a.exe";
}

abbrev report : Artifact
report = record {
  id = 9;
  analysis_run_id = 1;
  stage_id = some 8;
  attempt_id = none;
  kind = "report";
  sha256 = "abc";
  size_bytes = 4;
  media_type = "text/plain";
  object_key = "objects/sha256/ab/c";
  access_tier = officer;
  bundle_id = none;
  created_at = 0;
}

abbrev earlier : AnalysisStage
earlier = record analysis { id = 8; state = StageState.completed }

abbrev files : Files
files = record {
  db = record leased_db {
    stages = leased ∷ earlier ∷ [];
    leases = record lease { token_hash = "abc" } ∷ [];
    submissions = submission ∷ [];
    artifacts = report ∷ [];
  };
  samples = record { sha256 = "abc"; object_key = "objects/sha256/ab/c" } ∷ [];
  store = store;
}

hashing-IsDigest : (text : String) → IsDigest (hashing.sha256 text)
unfolding from_char
hashing-IsDigest text = record { plain = omega arith; long = λ e. cc }

abbrev envelope : ArtifactEnvelope
envelope = record {
  lease_id = 11;
  attempt_id = 10;
  kind = "report";
  sha256 = "abc";
  size_bytes = 4;
  media_type = "text/plain";
  access_tier = "officer";
  bundle_id = none;
}

abbrev sending : Upload
sending = record { uuid = "1"; max_bytes = 10; chunks = bytes "data" ∷ [] }

abbrev empty : Files
empty = record files {
  db = record leased_db { leases = record lease { token_hash = "abc" } ∷ []; artifacts = [] };
  store = record store { objects = [] };
}

upload_artifact-Backed_example :
    Backed hashing (upload_artifact hashing worker request 2 (some envelope) sending empty).0
unfolding object_at
upload_artifact-Backed_example =
    upload_artifact-Backed hashing hashing-IsDigest worker request 2 (some envelope) sending empty
      ((λ p c there. cc), tt)

download_stage_sample-SampleSent_example :
    SampleSent hashing worker request 2 11 10 files object_place
unfolding download_stage_sample verify_stage_mutation signed_request verify_executor_signature
    signature_message in_window verified same_key same_nonce answer_key record_request lifted
    validate_lease mismatched lapsed token_hash get scalar found find_sample verify resolve
    object_at locate parts walk enter same is_parent
download_stage_sample-SampleSent_example =
    download_stage_sample-SampleSent hashing worker request files 2 11 10 object_place "sample-abc"
      refl

download_stage_input-backed_example :
    (download_stage_input hashing worker request 2 9 11 10 files).1
    ≡ file (destination "abc" store) ("input-" <> "id")
unfolding verify_stage_mutation signed_request verify_executor_signature signature_message in_window
    verified same_key same_nonce answer_key record_request lifted validate_lease mismatched lapsed
    token_hash get scalar found find_input object_at object_key locate parts walk enter same
    up_to_char from_char
download_stage_input-backed_example =
    download_stage_input-backed hashing worker request files hashing-IsDigest 2 9 11 10 _ _ report
      refl refl refl ("data", refl, refl, refl)
