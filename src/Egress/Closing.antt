-- ===== src/Egress/Closing.antt =====
-- Where the end of the broker stops.
use e_rakshak_umat.Prelude.{ℕ, ◌≡◌, refl, true, false, not, ◌&&◌, List, [], ◌∷◌, ◌++◌, arith}
use e_rakshak_umat.Egress.{
  EgressManager, ActiveLease, Conditions, Outcome, err, run_id, element_of, close_each, close,
  runs_of, no_packets,
}
use e_rakshak_umat.Egress.Firewall.{
  Element, same_element, same_number, has, deauthorize_lease, stop_capture,
}
use e_rakshak_umat.Egress.Cover.{covered, has-drop_lem}
use e_rakshak_umat.Egress.Invariant.{same_element_iff, same_number_iff, capture_of}
use e_rakshak_umat.Egress.Laws.{AllKept, holding, withdrawn, revoke-first}

-- The end failed, its leases from `rest` on stay, and of the guests let through and of the captures
-- it took back those of the leases in `gone`, and no other.
pub record Stopped (gone rest : List ActiveLease) (before : EgressManager)
    (after : EgressManager × Outcome (Unit {0})) : Type 0 where
  pub fails : after.1 ≡ err no_packets
  pub leases : after.0.leases ≡ rest
  pub sources :
      (e : Element)
      → has same_element e after.0.host.sources
        ≡ has same_element e before.host.sources
          && not (covered same_element same_element_iff element_of e gone)
  pub captures :
      (pid : ℕ)
      → has same_number pid after.0.host.captures
        ≡ has same_number pid before.host.captures
          && not (covered same_number same_number_iff capture_of pid gone)

close_each-Stopped :
    (c : Conditions) (done : List ActiveLease) (l : ActiveLease) (rest : List ActiveLease)
    (m : EgressManager)
    → AllKept c done
    → c.has_packets (run_id l) ≡ false
    → Stopped
        (done ++ l ∷ [])
        rest
        m
        (close_each c (runs_of (done ++ l ∷ rest)) (holding (done ++ l ∷ rest) m))
unfolding close_each covered stop_capture deauthorize_lease
close_each-Stopped c [] l rest m kept lost =
    rw (revoke-first c l rest m false lost, close_each)
      (record {
        fails = refl;
        leases = refl;
        sources = λ e. ground (
          arith,
          has-drop_lem same_element same_element_iff element_of e (element_of l) m.host.sources,
        );
        captures = λ pid. ground (
          arith,
          has-drop_lem same_number same_number_iff capture_of pid l.capture m.host.captures,
        );
      })
close_each-Stopped c (x ∷ done) l rest m kept lost =
    let later = close_each-Stopped c done l rest (withdrawn x (done ++ l ∷ rest) m) kept.1 lost in
    rw (revoke-first c x (done ++ l ∷ rest) m true kept.0, close_each)
      (record {
        fails = later.fails;
        leases = later.leases;
        sources = λ e. ground (
          arith,
          later.sources e,
          has-drop_lem same_element same_element_iff element_of e (element_of x) m.host.sources,
        );
        captures = λ pid. ground (
          arith,
          later.captures pid,
          has-drop_lem same_number same_number_iff capture_of pid x.capture m.host.captures,
        );
      })

-- The end of the broker stops at the first of its leases whose capture holds no complete packet: it
-- fails, the leases after that one stay, and it takes back the guests and the captures of the leases
-- up to that one and no other, so a guest of a later lease that was let through, and that no earlier
-- lease has, is still let through, and a later capture still runs.
pub close_stops :
    (c : Conditions) (done : List ActiveLease) (l : ActiveLease) (rest : List ActiveLease)
    (m : EgressManager)
    → AllKept c done
    → c.has_packets (run_id l) ≡ false
    → Stopped (done ++ l ∷ []) rest m (close c (holding (done ++ l ∷ rest) m))
unfolding close
close_stops c done l rest m kept lost = close_each-Stopped c done l rest m kept lost
