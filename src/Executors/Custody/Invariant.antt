-- ===== src/Executors/Custody/Invariant.antt =====
-- The invariant of the protocol, what the body of a route counts on, and what it promises.
use e_rakshak_umat.Prelude.{ℕ, suc, ◌≡◌, Bool, true, some, List, [], ◌∷◌, ◌==◌, arith}
use e_rakshak_umat.Prelude.Tables.{get, scalar, update, All, Keyed-mono}
use e_rakshak_umat.Json.{Json, truthy}
use e_rakshak_umat.Models.Rows.{
  Executor, ExecutorRequest, stage_entity, attempt_entity, lease_entity, request_entity,
}
use e_rakshak_umat.Environment.{Env}
use e_rakshak_umat.Database.{Db}
use e_rakshak_umat.Database.Rules.{branch}
use e_rakshak_umat.Audit.{zero_hash}
use e_rakshak_umat.Audit.Chain.{Linked}
use e_rakshak_umat.Executors.Request.{Holding}
use e_rakshak_umat.Executors.Custody.{Custody}
use e_rakshak_umat.Executors.Custody.Steps.{Held}
use e_rakshak_umat.Executors.Custody.Frame.{Framed}

abbrev pub IsAnswered : ExecutorRequest → Type 0
IsAnswered r = truthy r.response_json ≡ true

-- The invariant of the protocol: custody, an answer stored with every request, and an audit log
-- that is a chain.
pub record Invariant (env : Env) (db : Db) : Type 0 where
  pub custody : Custody db
  pub answered : All IsAnswered db.requests
  pub chained : Linked env zero_hash db.audit

-- What the body of a route counts on: the rows of its stage and of its unreleased lease.
pub record Granted (executor : Executor) (h : Holding) (db : Db) : Type 0 where
  pub custody : Custody db
  pub stage : get h.stage.id db.stages ≡ some h.stage
  pub attempt : get h.attempt.id db.attempts ≡ some h.attempt
  pub held : Held h.stage.id h.lease db.leases

-- what a body writes, besides what custody is about
abbrev pub Beside : Env → List ExecutorRequest → Db → Type 0
Beside env requests db = (db.requests ≡ requests) × Linked env zero_hash db.audit

pub framed-Beside : (env : Env) (requests : List ExecutorRequest) → Framed (Beside env requests)
framed-Beside env requests = record {
  stages = λ x db h. h;
  runs = λ x db h. h;
  attempts = λ x db h. h;
  windows = λ x db h. h;
  android = λ x db h. h;
  next_id = λ x db h. h;
}

-- What a body promises: custody, the requests untouched, the chain, and an answer that is not empty.
abbrev pub Good : Env → List ExecutorRequest → Json → Db → Type 0
Good env requests response db =
    Custody db × Beside env requests db × (truthy (some response) ≡ true)

abbrev pub Kept {ℓ} : {A : Type ℓ} → Env → A → Db → Type 0
Kept env _ db = Invariant env db

-- custody does not read the generator of keys but as a bound
pub Custody-next_id : (db : Db) → Custody db → Custody (record db { next_id = suc db.next_id })
Custody-next_id db c = record {
  keyed = Keyed-mono db.next_id _ db.stages (omega arith) c.keyed;
  keyed_leases = Keyed-mono db.next_id _ db.leases (omega arith) c.keyed_leases;
  exclusive = c.exclusive;
  budget = c.budget;
}

-- a request that was stored before has its answer
pub scalar-All :
    (p : ExecutorRequest → Bool) (rs : List ExecutorRequest) (r : ExecutorRequest)
    → All IsAnswered rs
    → scalar p rs ≡ some r
    → IsAnswered r
unfolding scalar
scalar-All p [] r a e = ground arith
scalar-All p (x ∷ xs) r a e = ground (arith, a.0, scalar-All p xs r a.1)

-- the row of a request with its answer, among answered ones
pub IsAnswered-after :
    (i : ℕ) (response : Json) (rs : List ExecutorRequest)
    → truthy (some response) ≡ true
    → All IsAnswered rs
    → All IsAnswered (update i (λ r. record r { response_json = some response }) rs)
unfolding update
IsAnswered-after i response [] t a = tt
IsAnswered-after i response (x ∷ xs) t a =
    (branch IsAnswered (x.id == i) _ _ (λ _. t) (λ _. a.0), IsAnswered-after i response xs t a.1)
