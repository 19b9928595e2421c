-- ===== src/Egress.antt =====
-- The broker of controlled egress: a run gets a lease for its guest, which opens the firewall for it
-- while a capture of its traffic runs; src/umat/egress/manager.py. What the host answers to a call is
-- the argument `Conditions`; the methods hold one lock, so calls follow one another.
pub mod Firewall
pub mod Capture
pub mod Cover
pub mod Invariant
pub mod History
pub mod Laws
pub mod Closing
use e_rakshak_umat.Prelude.{
  ℕ, ◌+◌, String, Bool, true, false, not, ◌&&◌, ◌||◌, Option, none, some, List, [], ◌∷◌, ◌==◌, ltb,
  if◌then◌else◌,
}
use e_rakshak_umat.Models.{Platform}
use Firewall.{
  Element, Host, Additions, has, same_number, in_network, authorize_lease, deauthorize_lease,
  stop_capture,
}

pub record LeaseRequest : Type 0 where
  pub analysis_run_id : ℕ
  pub platform : Platform
  pub guest_ip : ℕ
  pub ttl_seconds : ℕ

pub record ActiveLease : Type 0 where
  pub request : LeaseRequest
  pub capture : ℕ
  pub bytes_transferred : ℕ

-- the values of `leases` in the order of insertion, by the run of their request
pub record EgressManager : Type 0 where
  pub leases : List ActiveLease
  pub max_bytes : ℕ
  pub host : Host

pub record Conditions : Type 0 where
  pub checks : List (String × Bool)  -- readiness
  pub interface_present : Bool
  pub pid : ℕ  -- of the new capture
  pub writer_ready : Bool  -- wait_for_pcap_writer returns
  pub additions : Additions
  pub element_bytes : Option ℕ  -- none: the counter cannot be read
  pub has_packets : ℕ → Bool  -- pcap_has_complete_packet, by the run of the capture

pub data EgressError : Type 0 where
  not_ready outside_subnet interface_missing writer_failed nft_failed : EgressError
  not_active counter_unreadable ceiling_exceeded no_packets : EgressError

pub data Outcome {ℓ} (A : Type ℓ) : Type ℓ where
  ok : A → Outcome A
  err : EgressError → Outcome A

abbrev pub run_id : ActiveLease → ℕ
run_id l = l.request.analysis_run_id

abbrev pub element : LeaseRequest → Element
element r = record { platform = r.platform; guest_ip = r.guest_ip }

abbrev pub element_of : ActiveLease → Element
element_of l = element l.request

-- self._leases.get, pop and assignment
unfoldable pub find : ℕ → List ActiveLease → Option ActiveLease
find run [] = none
find run (l ∷ ls) = if run_id l == run then some l else find run ls

unfoldable pub pop : ℕ → List ActiveLease → List ActiveLease
pop run [] = []
pop run (l ∷ ls) = let rest = pop run ls in if run_id l == run then ls else l ∷ rest

unfoldable pub assign : ActiveLease → List ActiveLease → List ActiveLease
assign new [] = new ∷ []
assign new (l ∷ ls) =
    let rest = assign new ls in if run_id l == run_id new then new ∷ ls else l ∷ rest

unfoldable pub all_ready : List (String × Bool) → Bool
all_ready [] = true
all_ready ((name, value) ∷ checks) = value && all_ready checks

abbrev pub on_host : (Host → Host) → EgressManager → EgressManager
on_host f m = record m { host = f m.host }

-- the authorization of a request is taken back and its capture stopped
abbrev pub shut : LeaseRequest → ℕ → Host → Host
shut r pid h = stop_capture pid (deauthorize_lease (element r) h)

abbrev finalize : Conditions → ℕ → EgressManager → EgressManager × Outcome (Option ℕ)
finalize c run m = if c.has_packets run then (m, ok (some run)) else (m, err no_packets)

-- The answer is the run whose capture is kept.
unfoldable pub revoke_unlocked : Conditions → ℕ → EgressManager → EgressManager × Outcome (Option ℕ)
revoke_unlocked c run m = elim (find run m.leases) [
  | none ↦ (m, ok none)
  | some l ↦
      finalize c run
        (record m { leases = pop run m.leases; host = shut l.request l.capture m.host })
]

abbrev pub revoke : Conditions → ℕ → EgressManager → EgressManager × Outcome (Option ℕ)
revoke = revoke_unlocked

abbrev pub active : LeaseRequest → ℕ → ActiveLease
active r pid = record { request = r; capture = pid; bytes_transferred = 0 }

abbrev pub authorized :
    Conditions → LeaseRequest → EgressManager → Host × Bool → EgressManager × Outcome (Unit {0})
authorized c r m (h, true) =
    (record m { host = h; leases = assign (active r c.pid) m.leases }, ok tt)
authorized c r m (h, false) = (record m { host = shut r c.pid h }, err nft_failed)

-- the capture starts, and the guest is let through when it writes
unfoldable pub start_capture :
    Conditions → LeaseRequest → EgressManager → EgressManager × Outcome (Unit {0})
start_capture c r m =
    let started : Host = record m.host { captures = c.pid ∷ m.host.captures } in
    if c.writer_ready
    then authorized c r m (authorize_lease c.additions (element r) started)
    else (record m { host = stop_capture c.pid started }, err writer_failed)

abbrev pub after_revoke :
    Conditions
    → LeaseRequest
    → EgressManager × Outcome (Option ℕ)
    → EgressManager × Outcome (Unit {0})
after_revoke c r (m, ok kept) = start_capture c r m
after_revoke c r (m, err e) = (m, err e)

unfoldable pub acquire :
    Conditions → LeaseRequest → EgressManager → EgressManager × Outcome (Unit {0})
acquire c r m =
    if not (all_ready c.checks)
    then (m, err not_ready)
    else if not (in_network r.platform r.guest_ip)
    then (m, err outside_subnet)
    else if not c.interface_present
    then (m, err interface_missing)
    else after_revoke c r (revoke_unlocked c r.analysis_run_id m)

abbrev pub count_bytes : ℕ → ActiveLease → ActiveLease
count_bytes n l = record l { bytes_transferred = l.bytes_transferred + n }

abbrev pub refreshed :
    ActiveLease → EgressManager → Host × Bool → EgressManager × Outcome (Unit {0})
refreshed l m (h, true) = (record m { host = h }, ok tt)
refreshed l m (h, false) = (
  record m { host = shut l.request l.capture h; leases = pop (run_id l) m.leases },
  err nft_failed,
)

abbrev pub over_ceiling : EgressManager × Outcome (Option ℕ) → EgressManager × Outcome (Unit {0})
over_ceiling (m, ok kept) = (m, err ceiling_exceeded)
over_ceiling (m, err e) = (m, err e)

unfoldable pub refresh :
    Conditions → ActiveLease → EgressManager → EgressManager × Outcome (Unit {0})
refresh c l m =
    if ltb m.max_bytes l.bytes_transferred
    then over_ceiling (revoke_unlocked c (run_id l) m)
    else refreshed l m
        (authorize_lease c.additions (element_of l) (deauthorize_lease (element_of l) m.host))

abbrev pub counted :
    Conditions → ActiveLease → Option ℕ → EgressManager → EgressManager × Outcome (Unit {0})
counted c l none m = (m, err counter_unreadable)
counted c l (some n) m =
    refresh c (count_bytes n l) (record m { leases = assign (count_bytes n l) m.leases })

unfoldable pub heartbeat : Conditions → ℕ → EgressManager → EgressManager × Outcome (Unit {0})
heartbeat c run m = elim (find run m.leases) [
  | none ↦ (m, err not_active)
  | some l ↦
      if not (has same_number l.capture m.host.captures)
      then (m, err not_active)
      else counted c l c.element_bytes m
]

-- The loop ends at the first lease whose capture is refused.
abbrev pub then_close :
    (EgressManager → EgressManager × Outcome (Unit {0}))
    → EgressManager × Outcome (Option ℕ)
    → EgressManager × Outcome (Unit {0})
then_close rest (m, ok kept) = rest m
then_close rest (m, err e) = (m, err e)

unfoldable pub close_each : Conditions → List ℕ → EgressManager → EgressManager × Outcome (Unit {0})
close_each c [] m = (m, ok tt)
close_each c (run ∷ runs) m = then_close (close_each c runs) (revoke_unlocked c run m)

abbrev pub runs_of : List ActiveLease → List ℕ
runs_of [] = []
runs_of (l ∷ ls) = run_id l ∷ runs_of ls

unfoldable pub close : Conditions → EgressManager → EgressManager × Outcome (Unit {0})
close c m = close_each c (runs_of m.leases) m
