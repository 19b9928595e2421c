-- ===== src/Egress/Invariant.antt =====
-- What holds between the broker's leases and its host, and every call and every event keeps.
use e_rakshak_umat.Prelude.{
  ℕ, ◌≡◌, ◌↔◌, refl, inl, inr, Bool, true, false, not, Option, none, some, List, ◌∷◌, ==_iff, arith,
  Option-cases, if◌then◌else◌,
}
use e_rakshak_umat.Prelude.Tables.{All}
use e_rakshak_umat.Models.{Platform, windows, android, platform_eq}
use e_rakshak_umat.Database.Rules.{branch}
use e_rakshak_umat.Egress.{
  EgressManager, ActiveLease, LeaseRequest, Conditions, Outcome, ok, err, element, element_of, find,
  pop, shut, revoke_unlocked, authorized, start_capture, after_revoke, acquire, active, all_ready,
}
use e_rakshak_umat.Egress.Firewall.{
  Element, Host, Additions, same_element, same_number, in_network, authorize_lease,
  deauthorize_lease, stop_capture,
}
use e_rakshak_umat.Egress.Cover.{
  Unique, Unique-pop, Unique-assign, find-pop_self, All-pop, All-assign, Guarded, Guarded-drop,
  Guarded-pop, Guarded-assign, Guarded-undone,
}

same_platform : (a b : Platform) → (platform_eq a b ≡ true) ↔ (a ≡ b)
same_platform windows windows = (λ _. refl, λ _. refl)
same_platform windows android = ground arith
same_platform android windows = ground arith
same_platform android android = (λ _. refl, λ _. refl)

pub same_element_iff : (a b : Element) → (same_element a b ≡ true) ↔ (a ≡ b)
unfolding same_element
same_element_iff a b =
    ground (arith, same_platform a.platform b.platform, ==_iff a.guest_ip b.guest_ip)

pub same_number_iff : (a b : ℕ) → (same_number a b ≡ true) ↔ (a ≡ b)
same_number_iff a b = ==_iff a b

abbrev pub capture_of : ActiveLease → ℕ
capture_of l = l.capture

abbrev pub InSubnet : ActiveLease → Type 0
InSubnet l = in_network l.request.platform l.request.guest_ip ≡ true

abbrev SourcesGuarded : List Element → List ActiveLease → Type 0
SourcesGuarded = Guarded same_element same_element_iff element_of

abbrev CapturesGuarded : List ℕ → List ActiveLease → Type 0
CapturesGuarded = Guarded same_number same_number_iff capture_of

-- Every guest that the firewall lets through has a lease, every running capture has one, a run has
-- one lease at most, and every guest of a lease stands in the controlled network of its platform.
pub record IsGuarded (m : EgressManager) : Type 0 where
  pub unique : Unique m.leases
  pub sources : SourcesGuarded m.host.sources m.leases
  pub captures : CapturesGuarded m.host.captures m.leases
  pub subnet : All InSubnet m.leases

IsGuarded-withdrawn :
    (m : EgressManager) (run : ℕ) (l : ActiveLease)
    → find run m.leases ≡ some l
    → IsGuarded m
    → IsGuarded (record m { leases = pop run m.leases; host = shut l.request l.capture m.host })
unfolding stop_capture deauthorize_lease
IsGuarded-withdrawn m run l f g = record {
  unique = Unique-pop run m.leases g.unique;
  sources =
      Guarded-pop same_element same_element_iff element_of run l m.host.sources m.leases f
        g.sources;
  captures =
      Guarded-pop same_number same_number_iff capture_of run l m.host.captures m.leases f
        g.captures;
  subnet = All-pop InSubnet run m.leases g.subnet;
}

pub revoke_unlocked-IsGuarded :
    (c : Conditions) (run : ℕ) (m : EgressManager)
    → IsGuarded m
    → IsGuarded (revoke_unlocked c run m).0
unfolding revoke_unlocked
revoke_unlocked-IsGuarded c run m g = elim (Option-cases (find run m.leases)) [
  | inl e ↦ rw (e, revoke_unlocked) g
  | inr (l, e) ↦
      rw (e, revoke_unlocked)
        (branch (λ (r : EgressManager × Outcome (Option ℕ)). IsGuarded r.0) (c.has_packets run) _ _
          (λ _. IsGuarded-withdrawn m run l e g) (λ _. IsGuarded-withdrawn m run l e g))
]

-- the sources after `authorize_lease`
pub authorize_lease-sources :
    (a : Additions) (e : Element) (h : Host)
    → (authorize_lease a e h).0.sources
      ≡ (if (authorize_lease a e h).1 then e ∷ h.sources else h.sources)
unfolding authorize_lease
authorize_lease-sources a e h = ground arith

pub authorize_lease-captures :
    (a : Additions) (e : Element) (h : Host) → (authorize_lease a e h).0.captures ≡ h.captures
unfolding authorize_lease
authorize_lease-captures a e h = ground arith

authorized-IsGuarded :
    (c : Conditions) (r : LeaseRequest) (m : EgressManager) (h : Host) (added : Bool)
    → find r.analysis_run_id m.leases ≡ none
    → in_network r.platform r.guest_ip ≡ true
    → h.sources ≡ (if added then element r ∷ m.host.sources else m.host.sources)
    → h.captures ≡ c.pid ∷ m.host.captures
    → IsGuarded m
    → IsGuarded (authorized c r m (h, added)).0
unfolding stop_capture deauthorize_lease
authorized-IsGuarded c r m h true free net s k g = record {
  unique = Unique-assign (active r c.pid) m.leases g.unique;
  sources = rw s (
      Guarded-assign same_element same_element_iff element_of (active r c.pid) m.host.sources
        m.leases free g.sources);
  captures = rw k (
      Guarded-assign same_number same_number_iff capture_of (active r c.pid) m.host.captures
        m.leases free g.captures);
  subnet = All-assign InSubnet (active r c.pid) m.leases net g.subnet;
}
authorized-IsGuarded c r m h false free net s k g = record {
  unique = g.unique;
  sources = rw s (
      Guarded-drop same_element same_element_iff element_of (element r) m.host.sources m.leases
        g.sources);
  captures = rw k (
      Guarded-undone same_number same_number_iff capture_of c.pid m.host.captures m.leases
        g.captures);
  subnet = g.subnet;
}

start_capture-IsGuarded :
    (c : Conditions) (r : LeaseRequest) (m : EgressManager)
    → find r.analysis_run_id m.leases ≡ none
    → in_network r.platform r.guest_ip ≡ true
    → IsGuarded m
    → IsGuarded (start_capture c r m).0
unfolding start_capture stop_capture
start_capture-IsGuarded c r m free net g =
    let started : Host = record m.host { captures = c.pid ∷ m.host.captures } in
    let opened : Host × Bool = authorize_lease c.additions (element r) started in
    branch (λ (x : EgressManager × Outcome (Unit {0})). IsGuarded x.0) c.writer_ready _ _
      (λ _.
        authorized-IsGuarded c r m opened.0 opened.1 free net
          (authorize_lease-sources c.additions (element r) started)
          (authorize_lease-captures c.additions (element r) started) g)
      (λ _. record {
        unique = g.unique;
        sources = g.sources;
        captures =
            Guarded-undone same_number same_number_iff capture_of c.pid m.host.captures m.leases
              g.captures;
        subnet = g.subnet;
      })

-- After a revocation the run has no lease.
pub find-revoke_unlocked :
    (c : Conditions) (run : ℕ) (m : EgressManager)
    → Unique m.leases
    → find run (revoke_unlocked c run m).0.leases ≡ none
unfolding revoke_unlocked
find-revoke_unlocked c run m u = ground (arith, find-pop_self run m.leases u)

after_revoke-IsGuarded :
    (c : Conditions) (r : LeaseRequest) (x : EgressManager × Outcome (Option ℕ))
    → find r.analysis_run_id x.0.leases ≡ none
    → in_network r.platform r.guest_ip ≡ true
    → IsGuarded x.0
    → IsGuarded (after_revoke c r x).0
after_revoke-IsGuarded c r (m, ok kept) free net g = start_capture-IsGuarded c r m free net g
after_revoke-IsGuarded c r (m, err e) free net g = g

pub acquire-IsGuarded :
    (c : Conditions) (r : LeaseRequest) (m : EgressManager)
    → IsGuarded m
    → IsGuarded (acquire c r m).0
unfolding acquire
acquire-IsGuarded c r m g =
    let kept = λ (x : EgressManager × Outcome (Unit {0})). IsGuarded x.0 in
    branch kept (not (all_ready c.checks)) _ _ (λ _. g)
      (λ _.
        branch kept (not (in_network r.platform r.guest_ip)) _ _ (λ _. g)
          (λ net.
            branch kept (not c.interface_present) _ _ (λ _. g)
              (λ _.
                after_revoke-IsGuarded c r (revoke_unlocked c r.analysis_run_id m)
                  (find-revoke_unlocked c r.analysis_run_id m g.unique) (ground arith)
                  (revoke_unlocked-IsGuarded c r.analysis_run_id m g))))
