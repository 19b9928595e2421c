-- ===== src/Egress/History.antt =====
-- Heartbeats, the end of the broker, and histories of calls with what the host does between them.
use e_rakshak_umat.Prelude.{
  ℕ, ◌≡◌, refl, ap, ◌∙◌, inl, inr, Bool, true, false, not, Option, none, some, List, [], ◌∷◌, ltb,
  Option-cases, if◌then◌else◌,
}
use e_rakshak_umat.Database.Rules.{branch}
use e_rakshak_umat.Egress.{
  EgressManager, ActiveLease, LeaseRequest, Conditions, Outcome, ok, err, run_id, element,
  element_of, find, assign, revoke_unlocked, acquire, count_bytes, counted, refreshed, over_ceiling,
  refresh, heartbeat, then_close, close_each, close, runs_of,
}
use e_rakshak_umat.Egress.Firewall.{
  Element, Host, same_element, same_number, has, drop, authorize_lease, deauthorize_lease,
  stop_capture,
}
use e_rakshak_umat.Egress.Cover.{
  Unique-pop, Unique-assign, find-assign_self, find-run, All-pop, All-assign, All-find,
  Guarded-drop, Guarded-pop, Guarded-recount, Guarded-again,
}
use e_rakshak_umat.Egress.Invariant.{
  IsGuarded, InSubnet, capture_of, same_element_iff, same_number_iff, authorize_lease-sources,
  authorize_lease-captures, revoke_unlocked-IsGuarded, acquire-IsGuarded,
}

refreshed-IsGuarded :
    (l : ActiveLease) (m : EgressManager) (h : Host) (added : Bool)
    → find (run_id l) m.leases ≡ some l
    → h.sources ≡ (
        if added
        then element_of l ∷ drop same_element (element_of l) m.host.sources
        else drop same_element (element_of l) m.host.sources)
    → h.captures ≡ m.host.captures
    → IsGuarded m
    → IsGuarded (refreshed l m (h, added)).0
unfolding stop_capture deauthorize_lease
refreshed-IsGuarded l m h true f s k g = record {
  unique = g.unique;
  sources = rw s (
      Guarded-again same_element same_element_iff element_of (run_id l) l _ m.leases f (
        Guarded-drop same_element same_element_iff element_of (element_of l) m.host.sources m.leases
          g.sources));
  captures = rw k g.captures;
  subnet = g.subnet;
}
refreshed-IsGuarded l m h false f s k g = record {
  unique = Unique-pop (run_id l) m.leases g.unique;
  sources = rw s (
      Guarded-pop same_element same_element_iff element_of (run_id l) l _ m.leases f (
        Guarded-drop same_element same_element_iff element_of (element_of l) m.host.sources m.leases
          g.sources));
  captures = rw k (
      Guarded-pop same_number same_number_iff capture_of (run_id l) l m.host.captures m.leases f
        g.captures);
  subnet = All-pop InSubnet (run_id l) m.leases g.subnet;
}

over_ceiling-IsGuarded :
    (x : EgressManager × Outcome (Option ℕ)) → IsGuarded x.0 → IsGuarded (over_ceiling x).0
over_ceiling-IsGuarded (m, ok kept) g = g
over_ceiling-IsGuarded (m, err e) g = g

refresh-IsGuarded :
    (c : Conditions) (l : ActiveLease) (m : EgressManager)
    → find (run_id l) m.leases ≡ some l
    → IsGuarded m
    → IsGuarded (refresh c l m).0
unfolding refresh deauthorize_lease
refresh-IsGuarded c l m f g =
    let closed : Host = deauthorize_lease (element_of l) m.host in
    let opened : Host × Bool = authorize_lease c.additions (element_of l) closed in
    branch (λ (x : EgressManager × Outcome (Unit {0})). IsGuarded x.0)
      (ltb m.max_bytes l.bytes_transferred) _ _
      (λ _.
        over_ceiling-IsGuarded (revoke_unlocked c (run_id l) m)
          (revoke_unlocked-IsGuarded c (run_id l) m g))
      (λ _.
        refreshed-IsGuarded l m opened.0 opened.1 f
          (authorize_lease-sources c.additions (element_of l) closed)
          (authorize_lease-captures c.additions (element_of l) closed) g)

IsGuarded-recount :
    (m : EgressManager) (new old : ActiveLease)
    → find (run_id new) m.leases ≡ some old
    → new.request ≡ old.request
    → new.capture ≡ old.capture
    → IsGuarded m
    → IsGuarded (record m { leases = assign new m.leases })
IsGuarded-recount m new old f r k g = record {
  unique = Unique-assign new m.leases g.unique;
  sources =
      Guarded-recount same_element same_element_iff element_of new old m.host.sources m.leases f
        (ap element r) g.sources;
  captures =
      Guarded-recount same_number same_number_iff capture_of new old m.host.captures m.leases f k
        g.captures;
  subnet =
      All-assign InSubnet new m.leases
        (rw r (All-find InSubnet (run_id new) old m.leases f g.subnet)) g.subnet;
}

counted-IsGuarded :
    (c : Conditions) (run : ℕ) (l : ActiveLease) (counter : Option ℕ) (m : EgressManager)
    → find run m.leases ≡ some l
    → IsGuarded m
    → IsGuarded (counted c l counter m).0
counted-IsGuarded c run l none m f g = g
counted-IsGuarded c run l (some n) m f g =
    let here : find (run_id l) m.leases ≡ some l =
      ap (λ x. find x m.leases) (find-run run l m.leases f) ∙ f in
    refresh-IsGuarded c (count_bytes n l) _ (find-assign_self (count_bytes n l) m.leases)
      (IsGuarded-recount m (count_bytes n l) l here refl refl g)

pub heartbeat-IsGuarded :
    (c : Conditions) (run : ℕ) (m : EgressManager) → IsGuarded m → IsGuarded (heartbeat c run m).0
unfolding heartbeat
heartbeat-IsGuarded c run m g = elim (Option-cases (find run m.leases)) [
  | inl e ↦ rw (e, heartbeat) g
  | inr (l, e) ↦
      rw (e, heartbeat)
        (branch (λ (x : EgressManager × Outcome (Unit {0})). IsGuarded x.0)
          (not (has same_number l.capture m.host.captures)) _ _ (λ _. g)
          (λ _. counted-IsGuarded c run l c.element_bytes m e g))
]

then_close-IsGuarded :
    (rest : EgressManager → EgressManager × Outcome (Unit {0}))
    → ((m : EgressManager) → IsGuarded m → IsGuarded (rest m).0)
    → (x : EgressManager × Outcome (Option ℕ)) → IsGuarded x.0
    → IsGuarded (then_close rest x).0
then_close-IsGuarded rest h (m, ok kept) g = h m g
then_close-IsGuarded rest h (m, err e) g = g

pub close_each-IsGuarded :
    (c : Conditions) (runs : List ℕ) (m : EgressManager)
    → IsGuarded m
    → IsGuarded (close_each c runs m).0
unfolding close_each
close_each-IsGuarded c [] m g = g
close_each-IsGuarded c (run ∷ runs) m g =
    then_close-IsGuarded (close_each c runs) (close_each-IsGuarded c runs) (revoke_unlocked c run m)
      (revoke_unlocked-IsGuarded c run m g)

-- A call of a client, or what happens on the host by itself: an element runs out of time, or a
-- capture ends.
pub data Event : Type 0 where
  acquires : Conditions → LeaseRequest → Event
  beats revokes : Conditions → ℕ → Event
  closes : Conditions → Event
  source_expires : Element → Event
  scoped_expires capture_ends : ℕ → Event

unfoldable pub happen : Event → EgressManager → EgressManager
happen (acquires c r) m = (acquire c r m).0
happen (beats c run) m = (heartbeat c run m).0
happen (revokes c run) m = (revoke_unlocked c run m).0
happen (closes c) m = (close c m).0
happen (source_expires e) m = record m {
  host = record m.host { sources = drop same_element e m.host.sources };
}
happen (scoped_expires ip) m = record m {
  host = record m.host { scoped = drop same_number ip m.host.scoped };
}
happen (capture_ends pid) m = record m { host = stop_capture pid m.host }

unfoldable pub happen_all : List Event → EgressManager → EgressManager
happen_all [] m = m
happen_all (e ∷ es) m = happen_all es (happen e m)

happen-IsGuarded : (e : Event) (m : EgressManager) → IsGuarded m → IsGuarded (happen e m)
unfolding happen close stop_capture
happen-IsGuarded (acquires c r) m g = acquire-IsGuarded c r m g
happen-IsGuarded (beats c run) m g = heartbeat-IsGuarded c run m g
happen-IsGuarded (revokes c run) m g = revoke_unlocked-IsGuarded c run m g
happen-IsGuarded (closes c) m g = close_each-IsGuarded c (runs_of m.leases) m g
happen-IsGuarded (source_expires e) m g = record {
  unique = g.unique;
  sources =
      Guarded-drop same_element same_element_iff element_of e m.host.sources m.leases g.sources;
  captures = g.captures;
  subnet = g.subnet;
}
happen-IsGuarded (scoped_expires ip) m g = record {
  unique = g.unique;
  sources = g.sources;
  captures = g.captures;
  subnet = g.subnet;
}
happen-IsGuarded (capture_ends pid) m g = record {
  unique = g.unique;
  sources = g.sources;
  captures =
      Guarded-drop same_number same_number_iff capture_of pid m.host.captures m.leases g.captures;
  subnet = g.subnet;
}

-- In every history of acquisitions, heartbeats, revocations and ends of the broker, on every answer
-- of the host and with elements and captures that end by themselves: each guest that the firewall
-- lets through has a lease, each running capture belongs to a lease, a run has at most one lease, and
-- the guest of each lease stands in the controlled network of its platform.
pub happen_all-IsGuarded :
    (es : List Event) (m : EgressManager) → IsGuarded m → IsGuarded (happen_all es m)
unfolding happen_all
happen_all-IsGuarded [] m g = g
happen_all-IsGuarded (e ∷ es) m g = happen_all-IsGuarded es (happen e m) (happen-IsGuarded e m g)
