-- ===== src/Executors/Request/Replay.antt =====
-- verify_stage_mutation of src/umat/api/executor_routes.py, and the frame that every route on a
-- stage has: a replayed request is answered with the stored response, any other runs its body,
-- stores the response and commits.
use e_rakshak_umat.Prelude.{ℕ, Bool, true, ◌&&◌, Option, some}
use e_rakshak_umat.Prelude.Tables.{update}
use e_rakshak_umat.Json.{Json, truthy}
use e_rakshak_umat.Models.Rows.{Executor, request_entity}
use e_rakshak_umat.Environment.{Env}
use e_rakshak_umat.Database.{Action, pure, write, ◌>>=◌, ◌>>◌}
use e_rakshak_umat.Executors.Request.{Request, Signed, Holding, signed_request, validate_lease}

pub record Mutation : Type 0 where
  pub held : Holding
  pub signed : Signed

unfoldable pub verify_stage_mutation : Env → Executor → Request → ℕ → ℕ → ℕ → Json → Action Mutation
verify_stage_mutation env executor rq stage_id lease_id attempt_id body = do
  signed ← signed_request env executor rq body
  held ← validate_lease env executor rq stage_id lease_id attempt_id signed.replay
  pure (record { held = held; signed = signed })

-- record.response_json = response; await db.commit(); return response
unfoldable pub respond : Signed → Json → Action Json
respond signed response = do
  write (λ db. record db {
    requests =
        update signed.request.id (λ r. record r { response_json = some response }) db.requests;
  })
  pure response

-- if replay and record.response_json: return record.response_json
unfoldable pub answer : Signed → Bool → Option Json → Action Json → Action Json
answer signed true (some response) body = pure response
answer signed _ _ body = do response ← body; respond signed response

unfoldable pub mutation :
    Env → Executor → Request → ℕ → ℕ → ℕ → Json → (Holding → Action Json) → Action Json
unfolding answer
mutation env executor rq stage_id lease_id attempt_id body run = do
  m ← verify_stage_mutation env executor rq stage_id lease_id attempt_id body
  answer m.signed (m.signed.replay && truthy m.signed.request.response_json)
      m.signed.request.response_json (run m.held)
