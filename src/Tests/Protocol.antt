-- ===== src/Tests/Protocol.antt =====
-- A history of calls on the small database: a claim, a heartbeat, a cancellation and an expiry.
use e_rakshak_umat.Prelude.{some, ◌+◌, ◌≤◌, ◌≡◌, refl, none, contains, List, [], ◌∷◌}
use e_rakshak_umat.Prelude.Tables.{
  get, count, scalar, update, first, select, take, order_by, insert_by,
}
use e_rakshak_umat.Models.Rows.{ExecutorRequest, stage_entity, attempt_entity, lease_entity}
use e_rakshak_umat.Database.{Db, ok, http, found, lifted}
use e_rakshak_umat.Audit.{verify_audit_chain, append_audit}
use e_rakshak_umat.Executors.Workflow.{attempts_of}
use e_rakshak_umat.Executors.Custody.{active_leases, capacity, owed, allowance}
use e_rakshak_umat.Executors.Claim.{
  claim_stage, latest_snapshot, claimable, is_claimable, lease_stage, grant, new_lease, new_attempt,
}
use e_rakshak_umat.Executors.Claim.Fit.{
  allowed_types, fits, is_unreadable, compatible, advertised, meets_all, meets,
}
use e_rakshak_umat.Executors.Expiry.{expire_leases, expire_each, outstanding}
use e_rakshak_umat.Json.{Json, dict, string, null, lookup}
use e_rakshak_umat.Environment.{token_hash}
use e_rakshak_umat.Executors.Request.{
  verify_executor_signature, signature_message, in_window, verified, same_key, same_nonce,
  signed_request, answer_key, record_request, validate_lease, mismatched, lapsed,
}
use e_rakshak_umat.Executors.Request.Replay.{mutation, verify_stage_mutation, answer, respond}
use e_rakshak_umat.Executors.Heartbeat.{heartbeat, beat, keep_running}
use e_rakshak_umat.Protocol.{Call, StageCall, stage_step, step, after_calls}
use e_rakshak_umat.Protocol.Laws.{one_lease, bounded_attempts, audit_intact, mutation_answered}
use e_rakshak_umat.Tests.Fixtures.{
  runtime, worker, queued_db, request, GrantsAttempts-runtime, Invariant-queued_db,
}

abbrev claim_call : Call
claim_call =
    Call.claim worker (record { stage_types = "platform_analysis" ∷ []; platforms = [] })
      (record { expired_at = 0; now = 1; token = "token" })

abbrev calls : List Call
calls =
    claim_call
    ∷ Call.on_stage worker request 2
        (StageCall.beat (record { lease_id = 11; attempt_id = 10; state = "running" }))
    ∷ Call.cancel (record { user_id = 7; roles = [] }) 5 1
    ∷ Call.expire 900000000
    ∷ []

abbrev last : Db
last = after_calls runtime calls queued_db

one_lease_example : active_leases 2 last.leases ≤ capacity (get 2 last.stages)
one_lease_example = one_lease runtime GrantsAttempts-runtime calls queued_db Invariant-queued_db 2

bounded_attempts_example :
    count (attempts_of 2) last.attempts + owed (get 2 last.stages) ≤ allowance (get 2 last.stages)
bounded_attempts_example =
    bounded_attempts runtime GrantsAttempts-runtime calls queued_db Invariant-queued_db 2

audit_intact_example : verify_audit_chain runtime last ≡ none
audit_intact_example =
    audit_intact runtime GrantsAttempts-runtime calls queued_db Invariant-queued_db

-- the claim and a heartbeat, with the request that the heartbeat has stored and the lease
abbrev beat_call : Call
beat_call =
    Call.on_stage worker request 2
      (StageCall.beat (record { lease_id = 11; attempt_id = 10; state = "running" }))

abbrev beaten : Db
beaten = after_calls runtime (claim_call ∷ beat_call ∷ []) queued_db

abbrev reply : Json
reply = dict (("lease_expires_at", string "1970-01-01") ∷ ("stop_requested", null) ∷ [])

abbrev stored : ExecutorRequest
stored = record {
  id = 12;
  executor_id = 3;
  idempotency_key = "key";
  nonce = "nonce";
  request_hash = "{}";
  response_json = some reply;
}

mutation_answered_example :
    (response : Json) × (stored.response_json ≡ some response)
    × (mutation runtime worker request 2 11 10 null (λ h db. http 500 "not run") beaten
        ≡ ok (response, beaten))
unfolding after_calls step stage_step claim_stage allowed_types latest_snapshot fits compatible
    advertised is_unreadable claimable is_claimable first select contains expire_leases expire_each
    outstanding take order_by lease_stage grant get found new_lease count lookup append_audit
    meets_all meets insert_by heartbeat beat keep_running verify_stage_mutation signed_request
    answer_key record_request answer respond lifted scalar same_key same_nonce update
    verify_executor_signature signature_message in_window verified validate_lease mismatched lapsed
    token_hash new_attempt mutation
mutation_answered_example =
    mutation_answered runtime GrantsAttempts-runtime (claim_call ∷ beat_call ∷ []) queued_db
      Invariant-queued_db worker request 2 11 10 null (λ h db. http 500 "not run") stored _ refl
      refl refl

-- after the claim alone the stage has its one lease
claimed : active_leases 2 (after_calls runtime (claim_call ∷ []) queued_db).leases ≡ 1
unfolding after_calls step claim_stage allowed_types latest_snapshot fits compatible advertised
    is_unreadable claimable is_claimable first select contains expire_leases expire_each outstanding
    take order_by lease_stage grant get found new_lease count lookup append_audit meets_all meets
    insert_by
claimed = refl
