-- ===== src/Protocol/Executors.antt =====
-- The invariant of the protocol under the routes that are on no stage: register_executor,
-- publish_capabilities and the two routes on Windows profile operations of
-- src/umat/api/executor_routes.py.
use e_rakshak_umat.Prelude.{
  ℕ, suc, refl, String, not, ◌||◌, Option, none, some, List, ◌==◌, str_eq, leb, contains, is_some,
}
use e_rakshak_umat.Models.Rows.{Executor, ExecutorRequest}
use e_rakshak_umat.Models.Sessions.{WindowsProfileOperation}
use e_rakshak_umat.Environment.{Env}
use e_rakshak_umat.Database.{Db}
use e_rakshak_umat.Database.Rules.{
  Ensures, Ensures-after, Ensures-found, Ensures-lifted, Ensures-test, Ensures-ok,
}
use e_rakshak_umat.Audit.{append_audit}
use e_rakshak_umat.Audit.Chain.{Linked-next_event}
use e_rakshak_umat.Executors.Request.{Request}
use e_rakshak_umat.Executors.Registration.{
  RegisterExecutorRequest, register_executor, enroll, key_of, CapabilityRequest,
  publish_capabilities, publish, unscoped,
}
use e_rakshak_umat.Executors.Profiles.{
  claim_windows_profile_operation, lease_operation, reclaim, next_operation,
  WindowsProfileOperationCompleteRequest, complete_windows_profile_operation, finish_operation,
  owned_by, holds_operation,
}
use e_rakshak_umat.Executors.Custody.{Custody}
use e_rakshak_umat.Executors.Custody.Invariant.{Invariant, Beside, Good, Kept, Custody-next_id}
use e_rakshak_umat.Executors.Custody.Routes.{Ready, Ready-signed_request, Invariant-answer}

module _ (env : Env) (now : ℕ) where
  pub Invariant-register_executor :
      (credential : String) (body : RegisterExecutorRequest) (db : Db)
      → Invariant env db
      → Ensures (Kept env) (register_executor env now credential body db)
  unfolding register_executor enroll append_audit
  Invariant-register_executor credential body db i = Ensures-found (Kept env) _ _ _ _ _ λ e _.
      Ensures-test (Kept env) (is_some e.used_at || leb e.expires_at now) _ _ db _ λ _.
        Ensures-lifted (Kept env) (key_of env (env.b64decode body.public_key)) db _ λ key _.
          let once : Db = record db { next_id = suc db.next_id } in
          record {
            holds = record {
              custody = Custody-next_id once (Custody-next_id db i.custody);
              answered = i.answered;
              chained = Linked-next_event env now _ db.audit i.chained;
            };
          }

  pub Invariant-publish_capabilities :
      (executor : Executor) (body : CapabilityRequest) (db : Db)
      → Invariant env db
      → Ensures (Kept env) (publish_capabilities env executor now body db)
  unfolding publish_capabilities publish append_audit
  Invariant-publish_capabilities executor body db i =
      Ensures-test (Kept env) (unscoped executor body) _ _ db _ λ _. record {
        holds = record {
          custody = Custody-next_id db i.custody;
          answered = i.answered;
          chained = Linked-next_event env now _ db.audit i.chained;
        };
      }

  module _ (executor : Executor) (token : String) where
    Invariant-lease_operation :
        (o : Option WindowsProfileOperation) (db : Db)
        → Invariant env db
        → Ensures (Kept env) (lease_operation env executor now token o db)
    unfolding lease_operation append_audit
    Invariant-lease_operation none db i = Ensures-ok (Kept env) none db i
    Invariant-lease_operation (some o) db i = Ensures-found (Kept env) _ _ _ _ _ λ profile _.
        record {
          holds = record {
            custody = i.custody;
            answered = i.answered;
            chained = Linked-next_event env now _ db.audit i.chained;
          };
        }

    pub Invariant-claim_operation :
        (db : Db)
        → Invariant env db
        → Ensures (Kept env) (claim_windows_profile_operation env executor now token db)
    unfolding claim_windows_profile_operation
    Invariant-claim_operation db i =
        Ensures-test (Kept env)
          (not (str_eq executor.executor_type "windows")
            || not (contains "platform_analysis" executor.supported_stage_types))
          _ _ db _
          λ _.
            Invariant-lease_operation (next_operation (reclaim now db)) (reclaim now db)
              (record { custody = i.custody; answered = i.answered; chained = i.chained })

module _ (env : Env) (executor : Executor) (rq : Request)
    (b : WindowsProfileOperationCompleteRequest) where
  Good-finish_operation :
      (requests : List ExecutorRequest) (db : Db)
      → Custody db
      → Beside env requests db
      → Ensures (Good env requests) (finish_operation env executor rq b db)
  unfolding finish_operation append_audit
  Good-finish_operation requests db c beside = Ensures-found (Good env requests) _ _ _ _ _ λ o _.
      Ensures-test (Good env requests) (not (owned_by executor o.executor_id)) _ _ db _ λ _.
        Ensures-test (Good env requests) (not (holds_operation env rq o)) _ _ db _ λ _.
          Ensures-found (Good env requests) _ _ _ _ _ λ profile _. record {
            holds = (c, (beside.0, Linked-next_event env rq.now _ db.audit beside.1), refl);
          }

  pub Invariant-complete_operation :
      (operation_id : ℕ) (db : Db)
      → Invariant env db
      → Ensures (Kept env) (complete_windows_profile_operation env executor rq operation_id b db)
  unfolding complete_windows_profile_operation
  Invariant-complete_operation operation_id db i =
      Ensures-test (Kept env) (not (b.operation_id == operation_id)) _ _ db _ λ _.
        Ensures-after (Kept env) (Ready env) _ _ (Ready-signed_request env executor rq _ db i)
          λ signed db' r.
            Invariant-answer env executor rq signed (finish_operation env executor rq b) db' r
              r.stored (λ requests _ beside. Good-finish_operation requests db' r.custody beside)
