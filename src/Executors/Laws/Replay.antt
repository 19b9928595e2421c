-- ===== src/Executors/Laws/Replay.antt =====
-- Requests that come again: signed_request of src/umat/api/executor_routes.py and the frame of the
-- routes on a stage.
use e_rakshak_umat.Prelude.{
  ℕ, ◌≡◌, refl, String, true, false, Option, none, some, str_eq, eq_iff, is_some, arith,
}
use e_rakshak_umat.Prelude.Tables.{scalar}
use e_rakshak_umat.Json.{Json, truthy}
use e_rakshak_umat.Models.Rows.{Executor, ExecutorRequest}
use e_rakshak_umat.Environment.{Env}
use e_rakshak_umat.Database.{Db, ok, http, Action, lifted}
use e_rakshak_umat.Executors.Request.{
  Request, Signed, Holding, verify_executor_signature, same_key, same_nonce, answer_key,
  signed_request, validate_lease,
}
use e_rakshak_umat.Executors.Request.Replay.{verify_stage_mutation, answer, mutation}

module _ (env : Env) (executor : Executor) (rq : Request) (stage_id lease_id attempt_id : ℕ)
    (body : Json) (run : Holding → Action Json) (db : Db) where
  stored_answer :
      (signed : Signed) (response : Json) (m : Action Json) (o : Option Json)
      → o ≡ some response
      → truthy (some response) ≡ true
      → answer signed (truthy o) o m db ≡ ok (response, db)
  unfolding answer
  stored_answer signed response m none e t = ground arith
  stored_answer signed response m (some r) e t = ground (arith, e, t)

  -- A request whose key is stored with the same digest and an answer, and whose signature and lease
  -- pass, is given the stored answer; the body does not run and the database stays as it is.
  pub mutation_repeated :
      (stored : ExecutorRequest) (response : Json) (h : Holding)
      → verify_executor_signature env executor rq body ≡ ok stored.request_hash
      → scalar (same_key executor rq) db.requests ≡ some stored
      → stored.response_json ≡ some response
      → truthy (some response) ≡ true
      → validate_lease env executor rq stage_id lease_id attempt_id true db ≡ ok (h, db)
      → mutation env executor rq stage_id lease_id attempt_id body run db ≡ ok (response, db)
  unfolding mutation verify_stage_mutation signed_request answer_key lifted answer
  mutation_repeated stored response h v k r t l =
      rw (v, k, (eq_iff stored.request_hash stored.request_hash).1 refl, l)
        (stored_answer _ response _ stored.response_json r t)

  -- A request whose key is stored with another digest is refused with the status 409.
  pub mutation_conflict :
      (stored : ExecutorRequest) (digest : String)
      → verify_executor_signature env executor rq body ≡ ok digest
      → scalar (same_key executor rq) db.requests ≡ some stored
      → str_eq stored.request_hash digest ≡ false
      → mutation env executor rq stage_id lease_id attempt_id body run db
        ≡ http 409 "idempotency key reused with different request"
  unfolding mutation verify_stage_mutation signed_request answer_key lifted
  mutation_conflict stored digest v k d = rw (v, k, d) refl

  -- A request with a new key and a nonce that the executor has used is refused with the status 409.
  pub mutation_nonce :
      (digest : String)
      → verify_executor_signature env executor rq body ≡ ok digest
      → scalar (same_key executor rq) db.requests ≡ none
      → is_some (scalar (same_nonce executor rq) db.requests) ≡ true
      → mutation env executor rq stage_id lease_id attempt_id body run db
        ≡ http 409 "executor nonce already used"
  unfolding mutation verify_stage_mutation signed_request answer_key lifted
  mutation_nonce digest v k d = rw (v, k, d) refl
