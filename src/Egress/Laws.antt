-- ===== src/Egress/Laws.antt =====
-- The answers of the broker and what they leave on the host.
use e_rakshak_umat.Prelude.{
  ℕ, ◌+◌, ◌<◌, ◌≡◌, ◌⊎◌, refl, ap, ◌∙◌, inl, inr, Bool, true, false, not, Option, none, some, List,
  [], ◌∷◌, ==_iff, ltb, arith, Bool-cases, if◌then◌else◌,
}
use mathlib.Core.Path.{subst}
use e_rakshak_umat.Database.Rules.{branch}
use e_rakshak_umat.Egress.{
  EgressManager, ActiveLease, LeaseRequest, Conditions, Outcome, ok, err, run_id, element,
  element_of, find, pop, assign, shut, revoke_unlocked, authorized, start_capture, after_revoke,
  acquire, active, all_ready, count_bytes, counted, over_ceiling, refresh, heartbeat, close_each,
  close, runs_of, no_packets,
}
use e_rakshak_umat.Egress.Firewall.{
  Element, Host, same_element, same_number, has, in_network, authorize_lease, deauthorize_lease,
  stop_capture,
}
use e_rakshak_umat.Egress.Cover.{
  Unique, Unique-assign, find-pop_self, find-assign_self, find-run, has-drop_self, nothing_left,
}
use e_rakshak_umat.Egress.History.{close_each-IsGuarded}
use e_rakshak_umat.Egress.Invariant.{
  IsGuarded, same_element_iff, same_number_iff, capture_of, find-revoke_unlocked,
  authorize_lease-sources, authorize_lease-captures,
}

-- The run has no lease, its guest is not let through and its capture does not run.
pub record IsWithdrawn (run : ℕ) (l : ActiveLease) (m : EgressManager) : Type 0 where
  pub no_lease : find run m.leases ≡ none
  pub shut_out : has same_element (element_of l) m.host.sources ≡ false
  pub stopped : has same_number l.capture m.host.captures ≡ false

IsWithdrawn-shut :
    (run : ℕ) (l : ActiveLease) (m : EgressManager)
    → Unique m.leases
    → IsWithdrawn run l
        (record m { leases = pop run m.leases; host = shut l.request l.capture m.host })
unfolding stop_capture deauthorize_lease
IsWithdrawn-shut run l m u = record {
  no_lease = find-pop_self run m.leases u;
  shut_out = has-drop_self same_element same_element_iff element_of (element_of l) m.host.sources;
  stopped = has-drop_self same_number same_number_iff capture_of l.capture m.host.captures;
}

-- A revocation withdraws the lease whether or not the capture can be kept, and it answers with the
-- capture exactly if that holds a complete packet.
pub revoke_withdraws :
    (c : Conditions) (run : ℕ) (l : ActiveLease) (m : EgressManager)
    → Unique m.leases
    → find run m.leases ≡ some l
    → IsWithdrawn run l (revoke_unlocked c run m).0
      × ((revoke_unlocked c run m).1
          ≡ (if c.has_packets run then ok (some run) else err no_packets))
unfolding revoke_unlocked
revoke_withdraws c run l m u f =
    rw (f, revoke_unlocked)
      (elim (Bool-cases (c.has_packets run)) [
        | inl e ↦ rw e (IsWithdrawn-shut run l m u, refl)
        | inr e ↦ rw e (IsWithdrawn-shut run l m u, refl)
      ])

over_ceiling-kept : (x : EgressManager × Outcome (Option ℕ)) → (over_ceiling x).0 ≡ x.0
over_ceiling-kept (m, ok kept) = refl
over_ceiling-kept (m, err e) = refl

abbrev pub failed : Outcome (Unit {0}) → Bool
failed (ok _) = false
failed (err _) = true

over_ceiling-failed : (x : EgressManager × Outcome (Option ℕ)) → failed (over_ceiling x).1 ≡ true
over_ceiling-failed (m, ok kept) = refl
over_ceiling-failed (m, err e) = refl

abbrev Fails : ℕ → ActiveLease → EgressManager × Outcome (Unit {0}) → Type 0
Fails run l x = IsWithdrawn run l x.0 × (failed x.1 ≡ true)

refresh_over :
    (c : Conditions) (l : ActiveLease) (m : EgressManager)
    → Unique m.leases
    → find (run_id l) m.leases ≡ some l
    → m.max_bytes < l.bytes_transferred
    → Fails (run_id l) l (refresh c l m)
unfolding refresh
refresh_over c l m u f over =
    let above : ltb m.max_bytes l.bytes_transferred ≡ true = ground arith in
    rw (above, refresh)
      (rw (over_ceiling-kept (revoke_unlocked c (run_id l) m)) (
        (revoke_withdraws c (run_id l) l m u f).0,
        over_ceiling-failed (revoke_unlocked c (run_id l) m),
      ))

counted_over :
    (c : Conditions) (n : ℕ) (l : ActiveLease) (m : EgressManager) (counter : Option ℕ)
    → Unique m.leases
    → find (run_id l) m.leases ≡ some l
    → counter ≡ some n
    → m.max_bytes < l.bytes_transferred + n
    → Fails (run_id l) l (counted c l counter m)
counted_over c n l m none u f read over = cc
counted_over c n l m (some k) u f read over =
    let done : Fails (run_id l) (count_bytes k l) (counted c l (some k) m) =
      refresh_over c (count_bytes k l) (record m { leases = assign (count_bytes k l) m.leases })
        (Unique-assign (count_bytes k l) m.leases u) (find-assign_self (count_bytes k l) m.leases)
        (ground (arith, read)) in
    (
      record { no_lease = done.0.no_lease; shut_out = done.0.shut_out; stopped = done.0.stopped },
      done.1,
    )

heartbeat_over :
    (c : Conditions) (n : ℕ) (l : ActiveLease) (m : EgressManager)
    → Unique m.leases
    → find (run_id l) m.leases ≡ some l
    → has same_number l.capture m.host.captures ≡ true
    → c.element_bytes ≡ some n
    → m.max_bytes < l.bytes_transferred + n
    → Fails (run_id l) l (heartbeat c (run_id l) m)
unfolding heartbeat
heartbeat_over c n l m u f alive read over =
    rw (f, heartbeat) (rw alive (counted_over c n l m c.element_bytes u f read over))

-- A heartbeat that finds the bytes of the run above the ceiling of the broker fails and withdraws
-- the lease.
pub heartbeat_over_ceiling :
    (c : Conditions) (run n : ℕ) (l : ActiveLease) (m : EgressManager)
    → Unique m.leases
    → find run m.leases ≡ some l
    → has same_number l.capture m.host.captures ≡ true
    → c.element_bytes ≡ some n
    → m.max_bytes < l.bytes_transferred + n
    → IsWithdrawn run l (heartbeat c run m).0 × (failed (heartbeat c run m).1 ≡ true)
heartbeat_over_ceiling c run n l m u f alive read over =
    let own : run_id l ≡ run = find-run run l m.leases f in
    let here : find (run_id l) m.leases ≡ some l = ap (λ x. find x m.leases) own ∙ f in
    subst (λ r. Fails r l (heartbeat c r m)) own (heartbeat_over c n l m u here alive read over)

-- the lease of an accepted request, on the host
abbrev pub Admitted :
    Conditions → LeaseRequest → EgressManager → EgressManager × Outcome (Unit {0}) → Type 0
Admitted c r before (m, ok _) =
    (find r.analysis_run_id m.leases ≡ some (active r c.pid))
    × (has same_element (element r) m.host.sources ≡ true)
    × (has same_number c.pid m.host.captures ≡ true)
Admitted c r before (m, err _) = (m ≡ before) ⊎ (find r.analysis_run_id m.leases ≡ none)

authorized-Admitted :
    (c : Conditions) (r : LeaseRequest) (before m : EgressManager) (h : Host) (added : Bool)
    → find r.analysis_run_id m.leases ≡ none
    → h.sources ≡ (if added then element r ∷ m.host.sources else m.host.sources)
    → h.captures ≡ c.pid ∷ m.host.captures
    → Admitted c r before (authorized c r m (h, added))
unfolding has
authorized-Admitted c r before m h true free s k = (
  find-assign_self (active r c.pid) m.leases,
  rw s (rw ((same_element_iff (element r) (element r)).1 refl) refl),
  rw k (rw ((same_number_iff c.pid c.pid).1 refl) refl),
)
authorized-Admitted c r before m h false free s k = inr free

after_revoke-Admitted :
    (c : Conditions) (r : LeaseRequest) (before : EgressManager)
    (x : EgressManager × Outcome (Option ℕ))
    → find r.analysis_run_id x.0.leases ≡ none
    → Admitted c r before (after_revoke c r x)
unfolding start_capture
after_revoke-Admitted c r before (m, err e) free = inr free
after_revoke-Admitted c r before (m, ok kept) free =
    let started : Host = record m.host { captures = c.pid ∷ m.host.captures } in
    let opened : Host × Bool = authorize_lease c.additions (element r) started in
    branch (Admitted c r before) c.writer_ready _ _
      (λ _.
        authorized-Admitted c r before m opened.0 opened.1 free
          (authorize_lease-sources c.additions (element r) started)
          (authorize_lease-captures c.additions (element r) started))
      (λ _. inr free)

-- On every answer of the host: an accepted request has its lease, its guest is let through and its
-- capture runs; a refused one leaves the broker as it was, or the run without any lease.
pub acquire-Admitted :
    (c : Conditions) (r : LeaseRequest) (m : EgressManager)
    → Unique m.leases
    → Admitted c r m (acquire c r m)
unfolding acquire
acquire-Admitted c r m u =
    branch (Admitted c r m) (not (all_ready c.checks)) _ _ (λ _. inl refl)
      (λ _.
        branch (Admitted c r m) (not (in_network r.platform r.guest_ip)) _ _ (λ _. inl refl)
          (λ _.
            branch (Admitted c r m) (not c.interface_present) _ _ (λ _. inl refl)
              (λ _.
                after_revoke-Admitted c r m (revoke_unlocked c r.analysis_run_id m)
                  (find-revoke_unlocked c r.analysis_run_id m u))))

abbrev pub AllKept : Conditions → List ActiveLease → Type 0
AllKept c [] = Unit {0}
AllKept c (l ∷ ls) = (c.has_packets (run_id l) ≡ true) × AllKept c ls

abbrev pub holding : List ActiveLease → EgressManager → EgressManager
holding ls m = record m { leases = ls }

abbrev pub withdrawn : ActiveLease → List ActiveLease → EgressManager → EgressManager
withdrawn l ls m = record m { leases = ls; host = shut l.request l.capture m.host }

first_found :
    (l : ActiveLease) (ls : List ActiveLease)
    → (find (run_id l) (l ∷ ls) ≡ some l) × (pop (run_id l) (l ∷ ls) ≡ ls)
unfolding find pop
first_found l ls = ground (arith, ==_iff (run_id l) (run_id l))

pub revoke-first :
    (c : Conditions) (l : ActiveLease) (ls : List ActiveLease) (m : EgressManager) (kept : Bool)
    → c.has_packets (run_id l) ≡ kept
    → revoke_unlocked c (run_id l) (holding (l ∷ ls) m)
      ≡ (withdrawn l ls m, if kept then ok (some (run_id l)) else err no_packets)
unfolding revoke_unlocked
revoke-first c l ls m kept e =
    rw ((first_found l ls).0, revoke_unlocked) (rw ((first_found l ls).1) (rw e (ground (arith))))

-- The end of the broker takes back every lease if all captures hold a complete packet.
close_each-all :
    (c : Conditions) (ls : List ActiveLease) (m : EgressManager)
    → AllKept c ls
    → ((close_each c (runs_of ls) (holding ls m)).1 ≡ ok tt)
      × ((close_each c (runs_of ls) (holding ls m)).0.leases ≡ [])
unfolding close_each
close_each-all c [] m k = (refl, refl)
close_each-all c (l ∷ ls) m k =
    rw (revoke-first c l ls m true k.0, close_each) (close_each-all c ls (withdrawn l ls m) k.1)

-- The end of the broker succeeds if every capture holds a complete packet: then no lease is left, no
-- guest is let through and no capture runs.
pub close_withdraws_all :
    (c : Conditions) (m : EgressManager)
    → IsGuarded m
    → AllKept c m.leases
    → ((close c m).1 ≡ ok tt)
      × ((close c m).0.leases ≡ [])
      × ((e : Element) → has same_element e (close c m).0.host.sources ≡ false)
      × ((pid : ℕ) → has same_number pid (close c m).0.host.captures ≡ false)
unfolding close
close_withdraws_all c m g k =
    let done : ((close_each c (runs_of m.leases) m).1 ≡ ok tt)
        × ((close_each c (runs_of m.leases) m).0.leases ≡ []) =
      close_each-all c m.leases m k in
    let kept : IsGuarded (close_each c (runs_of m.leases) m).0 =
      close_each-IsGuarded c (runs_of m.leases) m g in
    (
      done.0,
      done.1,
      λ e. nothing_left same_element same_element_iff element_of e _ _ done.1 kept.sources,
      λ pid. nothing_left same_number same_number_iff capture_of pid _ _ done.1 kept.captures,
    )
