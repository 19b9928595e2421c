-- ===== src/Audit/Chain.antt =====
-- The chain of src/umat/audit/chain.py: what the loop of verify_audit_chain accepts, that
-- append_audit keeps it, and what it finds of a log that was changed.
use e_rakshak_umat.Prelude.{
  ℕ, String, ◌≡◌, ◌≢◌, ◌↔◌, refl, sym, inl, inr, true, false, none, some, List, [], ◌∷◌, ◌++◌,
  str_eq, eq_iff, Bool-cases, arith, ◌∙◌,
}
use e_rakshak_umat.Models.Rows.{AuditEvent}
use e_rakshak_umat.Environment.{Env}
use e_rakshak_umat.Database.{Db}
use e_rakshak_umat.Audit.{
  Entry, calculate_event_hash, event_fields, newest, hash_of, zero_hash, next_event, is_broken,
  verify_from, verify_audit_chain,
}

-- The log is a chain that starts from the hash `h`: each event holds the hash of the one before it
-- and the hash of its own fields after that.
abbrev pub Linked : Env → String → List AuditEvent → Type 0
Linked env h [] = Unit {0}
Linked env h (e ∷ es) =
    (e.previous_hash ≡ h)
    × (e.event_hash ≡ calculate_event_hash env h (event_fields env e))
    × Linked env e.event_hash es

-- the hash that the next event has to hold
abbrev pub last_hash : String → List AuditEvent → String
last_hash h [] = h
last_hash h (e ∷ es) = last_hash e.event_hash es

str_eq_refl : (s : String) → str_eq s s ≡ true
str_eq_refl s = (eq_iff s s).1 refl

sound_event :
    (env : Env) (h : String) (e : AuditEvent)
    → is_broken env h e ≡ false
    → (e.previous_hash ≡ h) × (e.event_hash ≡ calculate_event_hash env h (event_fields env e))
unfolding is_broken
sound_event env h e b =
    ((eq_iff e.previous_hash h).0 (ground arith), (eq_iff e.event_hash _).0 (ground arith))

intact_event :
    (env : Env) (h : String) (e : AuditEvent)
    → e.previous_hash ≡ h
    → e.event_hash ≡ calculate_event_hash env h (event_fields env e)
    → is_broken env h e ≡ false
unfolding is_broken
intact_event env h e p q =
    let same = (eq_iff e.previous_hash h).1 p in
    let hashed = (eq_iff e.event_hash (calculate_event_hash env h (event_fields env e))).1 q in
    ground arith

Linked-of :
    (env : Env) (h : String) (log : List AuditEvent)
    → verify_from env h log ≡ none
    → Linked env h log
unfolding verify_from
Linked-of env h [] v = tt
Linked-of env h (e ∷ es) v = elim (Bool-cases (is_broken env h e)) [
  | inl broken ↦ ground arith
  | inr fine ↦
      let (p, q) = sound_event env h e fine in (p, q, Linked-of env e.event_hash es (ground arith))
]

of-Linked :
    (env : Env) (h : String) (log : List AuditEvent)
    → Linked env h log
    → verify_from env h log ≡ none
unfolding verify_from
of-Linked env h [] l = refl
of-Linked env h (e ∷ es) l = rw (intact_event env h e l.0 l.1) (of-Linked env e.event_hash es l.2)

-- The check of the audit log answers that nothing is broken exactly if the log is a chain from the
-- zero hash.
pub verify_audit_chain_iff :
    (env : Env) (db : Db) → (verify_audit_chain env db ≡ none) ↔ Linked env zero_hash db.audit
unfolding verify_audit_chain
verify_audit_chain_iff env db = (Linked-of env zero_hash db.audit, of-Linked env zero_hash db.audit)

Linked-append :
    (env : Env) (h : String) (log : List AuditEvent) (e : AuditEvent)
    → Linked env h log
    → is_broken env (last_hash h log) e ≡ false
    → Linked env h (log ++ e ∷ [])
Linked-append env h [] e l b = let (p, q) = sound_event env h e b in (p, q, tt)
Linked-append env h (x ∷ xs) e l b = (l.0, l.1, Linked-append env x.event_hash xs e l.2 b)

newest_hash :
    (h : String) (e : AuditEvent) (log : List AuditEvent)
    → last_hash h (e ∷ log) ≡ hash_of (newest (e ∷ log))
unfolding newest
newest_hash h e [] = refl
newest_hash h e (x ∷ xs) = ground (arith, newest_hash e.event_hash x xs)

last_hash-newest : (log : List AuditEvent) → last_hash zero_hash log ≡ hash_of (newest log)
unfolding newest
last_hash-newest [] = refl
last_hash-newest (e ∷ es) = newest_hash zero_hash e es

-- An event appended to a log that is a chain leaves it a chain.
pub Linked-next_event :
    (env : Env) (now : ℕ) (entry : Entry) (log : List AuditEvent)
    → Linked env zero_hash log
    → Linked env zero_hash (log ++ next_event env now entry log ∷ [])
unfolding next_event calculate_event_hash event_fields
Linked-next_event env now entry log l = Linked-append env zero_hash log _ l (
    intact_event env (last_hash zero_hash log) (next_event env now entry log)
      (sym (last_hash-newest log)) (rw (last_hash-newest log) refl))

broken_hash :
    (env : Env) (h : String) (e : AuditEvent)
    → e.event_hash ≢ calculate_event_hash env h (event_fields env e)
    → is_broken env h e ≡ true
unfolding is_broken
broken_hash env h e differs =
    elim (Bool-cases (str_eq e.event_hash (calculate_event_hash env h (event_fields env e)))) [
      | inl same ↦ absurd (differs ((eq_iff e.event_hash _).0 same))
      | inr other ↦ ground arith
    ]

broken_link :
    (env : Env) (h : String) (e : AuditEvent) → e.previous_hash ≢ h → is_broken env h e ≡ true
unfolding is_broken
broken_link env h e differs = elim (Bool-cases (str_eq e.previous_hash h)) [
  | inl same ↦ absurd (differs ((eq_iff e.previous_hash h).0 same))
  | inr other ↦ ground arith
]

-- the loop stops at the first broken event
stops_at :
    (env : Env) (h : String) (before rest : List AuditEvent) (e : AuditEvent)
    → Linked env h before
    → is_broken env (last_hash h before) e ≡ true
    → verify_from env h (before ++ e ∷ rest) ≡ some e.sequence
unfolding verify_from
stops_at env h [] rest e l b = ground arith
stops_at env h (x ∷ xs) rest e l b =
    rw (intact_event env h x l.0 l.1) (stops_at env x.event_hash xs rest e l.2 b)

Linked-before :
    (env : Env) (h : String) (before rest : List AuditEvent)
    → Linked env h (before ++ rest)
    → Linked env h before
Linked-before env h [] rest l = tt
Linked-before env h (x ∷ xs) rest l = (l.0, l.1, Linked-before env x.event_hash xs rest l.2)

Linked-rest :
    (env : Env) (h : String) (before rest : List AuditEvent)
    → Linked env h (before ++ rest)
    → Linked env (last_hash h before) rest
Linked-rest env h [] rest l = l
Linked-rest env h (x ∷ xs) rest l = Linked-rest env x.event_hash xs rest l.2

-- In a log that verifies, an event is replaced by another. If the hash that the replacement holds
-- is not the hash of its own fields after the event before it, the check stops at the replacement.
pub tampered_fields :
    (env : Env) (before rest : List AuditEvent) (e forged : AuditEvent)
    → verify_from env zero_hash (before ++ e ∷ rest) ≡ none
    → forged.event_hash
      ≢ calculate_event_hash env (last_hash zero_hash before) (event_fields env forged)
    → verify_from env zero_hash (before ++ forged ∷ rest) ≡ some forged.sequence
tampered_fields env before rest e forged v differs =
    stops_at env zero_hash before rest forged
      (Linked-before env zero_hash before (e ∷ rest) (Linked-of env zero_hash _ v))
      (broken_hash env (last_hash zero_hash before) forged differs)

-- If the replacement is sealed anew, with a hash other than the one replaced, the check stops at
-- the event that follows.
pub tampered_seal :
    (env : Env) (before rest : List AuditEvent) (e forged next : AuditEvent)
    → verify_from env zero_hash (before ++ e ∷ next ∷ rest) ≡ none
    → forged.previous_hash ≡ last_hash zero_hash before
    → forged.event_hash
      ≡ calculate_event_hash env (last_hash zero_hash before) (event_fields env forged)
    → forged.event_hash ≢ e.event_hash
    → verify_from env zero_hash (before ++ forged ∷ next ∷ rest) ≡ some next.sequence
unfolding verify_from
tampered_seal env before rest e forged next v p q differs =
    tail (before) zero_hash (Linked-before env zero_hash before (e ∷ next ∷ rest) whole)
      (intact_event env (last_hash zero_hash before) forged p q)
  where
    whole : Linked env zero_hash (before ++ e ∷ next ∷ rest)
    whole = Linked-of env zero_hash _ v

    next_of : next.previous_hash ≡ e.event_hash
    next_of = (Linked-rest env zero_hash before (e ∷ next ∷ rest) whole).2.0

    unlinked : is_broken env forged.event_hash next ≡ true
    unlinked = broken_link env forged.event_hash next (λ same. differs (sym same ∙ next_of))

    tail :
        (xs : List AuditEvent) (h : String)
        → Linked env h xs
        → is_broken env (last_hash h xs) forged ≡ false
        → verify_from env h (xs ++ forged ∷ next ∷ rest) ≡ some next.sequence
    tail [] h l intact = rw (intact, unlinked) refl
    tail (x ∷ xs) h l intact = rw (intact_event env h x l.0 l.1) (tail xs x.event_hash l.2 intact)
