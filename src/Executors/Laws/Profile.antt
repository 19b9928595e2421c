-- ===== src/Executors/Laws/Profile.antt =====
-- The operations on Windows profiles: who may finish one, and what then becomes of the profile.
use e_rakshak_umat.Prelude.{ℕ, ◌≡◌, refl, Bool, true, false, not, Option, none, some, ==_iff, arith}
use e_rakshak_umat.Prelude.Tables.{get, count}
use e_rakshak_umat.Prelude.Tables.Laws.{get-update_own, count-update_where_none}
use e_rakshak_umat.Json.{Json}
use e_rakshak_umat.Models.{WindowsProfileOperationType, create, delete}
use e_rakshak_umat.Models.Rows.{Executor}
use e_rakshak_umat.Models.Sessions.{
  WindowsVmProfile, WindowsProfileOperation, profile_entity, operation_entity,
}
use e_rakshak_umat.Environment.{Env}
use e_rakshak_umat.Database.{Db}
use e_rakshak_umat.Database.Rules.{Ensures, Ensures-found, Ensures-test}
use e_rakshak_umat.Audit.{append_audit}
use e_rakshak_umat.Executors.Request.{Request}
use e_rakshak_umat.Executors.Profiles.{
  WindowsProfileOperationCompleteRequest, owned_by, holds_operation, finished_operation,
  finished_profile, finish_operation, reclaim, is_expired, requeue,
}

owner_of : (executor : Executor) (o : Option ℕ) → owned_by executor o ≡ true → o ≡ some executor.id
owner_of executor none h = ground arith
owner_of executor (some i) h = ground (arith, (==_iff i executor.id).0 h)

profile_kept :
    (b : WindowsProfileOperationCompleteRequest) (t : WindowsProfileOperationType)
    (p : WindowsVmProfile)
    → (finished_profile b t p).id ≡ p.id
unfolding finished_profile
profile_kept b create p = kept b.success
  where
    kept : (s : Bool) → (finished_profile (record b { success = s }) create p).id ≡ p.id
    kept true = refl
    kept false = refl
profile_kept b delete p = kept b.success
  where
    kept : (s : Bool) → (finished_profile (record b { success = s }) delete p).id ≡ p.id
    kept true = refl
    kept false = refl

abbrev pub Finished :
    Env → Executor → Request → WindowsProfileOperationCompleteRequest → Db → Json → Db → Type 0
Finished env executor rq b db answer after =
    (o : WindowsProfileOperation) × (p : WindowsVmProfile) × (get b.operation_id db.operations
      ≡ some o)
    × (get o.profile_id db.profiles ≡ some p)
    × (o.executor_id ≡ some executor.id)
    × (holds_operation env rq o ≡ true)
    × (get b.operation_id after.operations ≡ some (finished_operation b rq.now o))
    × (get o.profile_id after.profiles ≡ some (finished_profile b o.operation_type p))

-- An operation that is finished was leased by the executor, with the token of the request and the
-- lease not over; the operation then has its outcome, and its profile what the outcome makes of it.
pub finish_operation_lem :
    (env : Env) (executor : Executor) (rq : Request) (b : WindowsProfileOperationCompleteRequest)
    (db : Db)
    → Ensures (Finished env executor rq b db) (finish_operation env executor rq b db)
unfolding finish_operation append_audit
finish_operation_lem env executor rq b db =
    Ensures-found (Finished env executor rq b db) _ _ _ _ _ λ o there.
      Ensures-test (Finished env executor rq b db) (not (owned_by executor o.executor_id)) _ _ db _
        λ owned.
          Ensures-test (Finished env executor rq b db) (not (holds_operation env rq o)) _ _ db _
            λ held. Ensures-found (Finished env executor rq b db) _ _ _ _ _ λ p profile_there.
              record {
                holds = (
                  o,
                  p,
                  there,
                  profile_there,
                  owner_of executor o.executor_id (ground (arith, owned)),
                  ground (arith, held),
                  get-update_own b.operation_id (finished_operation b rq.now) db.operations o
                      (λ x. refl) there,
                  get-update_own o.profile_id (finished_profile b o.operation_type) db.profiles p
                      (profile_kept b o.operation_type) profile_there,
                );
              }

-- After the expired leases of operations are taken back, no operation is leased past its time.
pub reclaim_lem : (now : ℕ) (db : Db) → count (is_expired now) (reclaim now db).operations ≡ 0
reclaim_lem now db = count-update_where_none (is_expired now) requeue db.operations (λ o. refl)
