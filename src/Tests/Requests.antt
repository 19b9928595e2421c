-- ===== src/Tests/Requests.antt =====
-- Requests on the small database.
use e_rakshak_umat.Prelude.{◌≡◌, refl, false, none, some, [], ◌∷◌}
use e_rakshak_umat.Prelude.Tables.{get, scalar}
use e_rakshak_umat.Json.{Json, dict, string, null, end}
use e_rakshak_umat.Models.Rows.{
  ExecutorRequest, ExecutorEnrollmentToken, stage_entity, attempt_entity, lease_entity,
}
use e_rakshak_umat.Environment.{token_hash}
use e_rakshak_umat.Database.{Db, ok, http, found}
use e_rakshak_umat.Database.Rules.{Ensures}
use e_rakshak_umat.Executors.Request.{
  Request, Holding, verify_executor_signature, signature_message, in_window, verified, same_key,
  validate_lease, mismatched, lapsed,
}
use e_rakshak_umat.Executors.Request.Replay.{mutation}
use e_rakshak_umat.Executors.Registration.{RegisterExecutorRequest, register_executor}
use e_rakshak_umat.Executors.Laws.Replay.{mutation_repeated}
use e_rakshak_umat.Executors.Laws.Access.{
  IsSigned, Checked, verify_executor_signature-IsSigned, validate_lease-IsChecked,
}
use e_rakshak_umat.Executors.Laws.Enrollment.{Refused, register_executor_once}
use e_rakshak_umat.Tests.Fixtures.{runtime, worker, leased, attempt, lease, leased_db, request}

abbrev reply : Json
reply = dict (("state", string "completed") ∷ [])

abbrev stored : ExecutorRequest
stored = record {
  id = 20;
  executor_id = 3;
  idempotency_key = "key";
  nonce = "nonce";
  request_hash = "{}";
  response_json = some reply;
}

abbrev repeated_db : Db
repeated_db = record leased_db { requests = stored ∷ [] }

abbrev conflicting_db : Db
conflicting_db = record leased_db { requests = record stored { request_hash = "other" } ∷ [] }

abbrev holding : Holding
holding = record { stage = leased; attempt = attempt; lease = lease }

-- a request with a key that is not stored
abbrev fresh : Request
fresh = record request { idempotency_key = "fresh" }

mutation_repeated_example :
    mutation runtime worker request 2 11 10 null (λ h db. http 500 "not run") repeated_db
    ≡ ok (reply, repeated_db)
unfolding verify_executor_signature signature_message in_window verified same_key scalar
    validate_lease mismatched lapsed token_hash get found
mutation_repeated_example =
    mutation_repeated runtime worker request 2 11 10 null (λ h db. http 500 "not run") repeated_db
      stored reply holding refl refl refl refl refl

signature_example : IsSigned runtime worker request null "{}"
unfolding verify_executor_signature signature_message in_window verified
signature_example = verify_executor_signature-IsSigned runtime worker request null "{}" refl

validate_lease_example :
    Ensures
      (Checked runtime worker request 2 11 10 false)
      (validate_lease runtime worker request 2 11 10 false leased_db)
validate_lease_example = validate_lease-IsChecked runtime worker request 2 11 10 false leased_db

abbrev enrollment : ExecutorEnrollmentToken
enrollment = record {
  id = 30;
  token_hash = "enroll";
  executor_type = "windows";
  scopes = "platform_analysis" ∷ [];
  expires_at = 100;
  used_at = none;
}

abbrev enrolling : RegisterExecutorRequest
enrolling = record {
  enrollment_token = "enroll";
  name = "worker";
  public_key = "key";
  metadata = end;
}

abbrev enrollment_db : Db
enrollment_db = record leased_db { enrollments = enrollment ∷ [] }

register_executor_once_example :
    Ensures
      (Refused runtime 7 "second" enrolling)
      (register_executor runtime 5 "first" enrolling enrollment_db)
register_executor_once_example =
    register_executor_once runtime 5 7 "first" "second" enrolling enrolling enrollment_db refl
