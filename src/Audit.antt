-- ===== src/Audit.antt =====
-- src/umat/audit/chain.py: the audit log as a hash chain.
pub mod Chain
use e_rakshak_umat.Prelude.{
  ℕ, suc, String, Bool, not, ◌||◌, Option, none, some, List, [], ◌∷◌, ◌++◌, str_eq, if◌then◌else◌,
}
use e_rakshak_umat.Json.{Json, Fields, dict, obj, string, optional, fields}
use e_rakshak_umat.Models.Rows.{AuditEvent}
use e_rakshak_umat.Environment.{Env, ◌<>◌}
use e_rakshak_umat.Database.{Db, Action, write}

abbrev pub zero_hash : String
zero_hash = "0000000000000000000000000000000000000000000000000000000000000000"

unfoldable pub calculate_event_hash : Env → String → Json → String
calculate_event_hash env previous_hash fields =
    env.sha256 (previous_hash <> env.canonical_json fields)

-- the dict that is hashed
unfoldable pub event_fields : Env → AuditEvent → Json
event_fields env e = dict (
    ("actor_type", string e.actor_type)
    ∷ ("actor_id", optional e.actor_id)
    ∷ ("action", string e.action)
    ∷ ("target_type", string e.target_type)
    ∷ ("target_id", optional e.target_id)
    ∷ ("payload", obj e.payload)
    ∷ ("created_at", string (env.isoformat e.created_at))
    ∷ [])

-- the keyword arguments of `append_audit`
pub record Entry : Type 0 where
  pub actor_type : String
  pub actor_id : Option String
  pub action : String
  pub target_type : String
  pub target_id : Option String
  pub payload : Fields

-- ORDER BY sequence DESC LIMIT 1
unfoldable pub newest : List AuditEvent → Option AuditEvent
newest [] = none
newest (e ∷ es) = elim (newest es) [ none ↦ some e | some last ↦ some last ]

abbrev hash_of : Option AuditEvent → String
hash_of none = zero_hash
hash_of (some e) = e.event_hash

abbrev sequence_after : Option AuditEvent → ℕ
sequence_after none = 1
sequence_after (some e) = suc e.sequence

abbrev sealed : Env → AuditEvent → AuditEvent
sealed env e = record e {
  event_hash = calculate_event_hash env e.previous_hash (event_fields env e);
}

-- the event that follows a log
unfoldable pub next_event : Env → ℕ → Entry → List AuditEvent → AuditEvent
next_event env created_at entry log = sealed env (record {
  sequence = sequence_after (newest log);
  actor_type = entry.actor_type;
  actor_id = entry.actor_id;
  action = entry.action;
  target_type = entry.target_type;
  target_id = entry.target_id;
  payload = entry.payload;
  previous_hash = hash_of (newest log);
  event_hash = "";
  created_at = created_at;
})

unfoldable pub append_audit : Env → ℕ → Entry → Action (Unit {0})
append_audit env created_at entry =
    write (λ db. record db { audit = db.audit ++ next_event env created_at entry db.audit ∷ [] })

-- an event that does not carry on from `previous_hash`
unfoldable pub is_broken : Env → String → AuditEvent → Bool
is_broken env previous_hash e =
    not (str_eq e.previous_hash previous_hash)
    || not (str_eq e.event_hash (calculate_event_hash env previous_hash (event_fields env e)))

-- the loop: none if the chain holds, else the sequence number of the first broken event
unfoldable pub verify_from : Env → String → List AuditEvent → Option ℕ
verify_from env previous_hash [] = none
verify_from env previous_hash (e ∷ es) =
    let rest = verify_from env e.event_hash es in
    if is_broken env previous_hash e then some e.sequence else rest

unfoldable pub verify_audit_chain : Env → Db → Option ℕ
verify_audit_chain env db = verify_from env zero_hash db.audit
