-- ===== src/Tests/Stores.antt =====
-- The store of samples and artifacts, and the egress broker.
use e_rakshak_umat.Prelude.{
  ℕ, ◌≡◌, refl, true, false, some, [], ◌∷◌, map, arith, from_char, not, ◌==◌, ◌+◌,
}
use e_rakshak_umat.Environment.{Env}
use e_rakshak_umat.Models.{windows}
use e_rakshak_umat.Storage.{LocalArtifactStore, bytes, broken, accept_upload, object_at, upload_at}
use e_rakshak_umat.Storage.Integrity.{upload, export, start, perform_all, Keeps, perform_all-Keeps}
use e_rakshak_umat.Storage.Roundtrip.{Verified, total, digest_of, accept_upload-Verified}
use e_rakshak_umat.Storage.Contents.{Traces, contents, answers, perform_all-Traces}
use e_rakshak_umat.Egress.{
  EgressManager, LeaseRequest, ActiveLease, Conditions, acquire, all_ready, start_capture, assign,
  close, revoke_unlocked, find, ok,
}
use e_rakshak_umat.Egress.Firewall.{
  Element, has, same_element, same_number, in_network, authorize_lease,
}
use e_rakshak_umat.Egress.Invariant.{IsGuarded}
use e_rakshak_umat.Egress.History.{
  acquires, beats, capture_ends, closes, happen, happen_all, happen_all-IsGuarded,
}
use e_rakshak_umat.Egress.Laws.{
  IsWithdrawn, revoke_withdraws, Admitted, acquire-Admitted, close_withdraws_all, holding,
}
use e_rakshak_umat.Egress.Closing.{Stopped, close_stops}
use e_rakshak_umat.Tests.Fixtures.{runtime}

abbrev hashing : Env
hashing = record runtime { sha256 = λ s. "abc"; byte_length = λ s. 4 }

abbrev empty_store : LocalArtifactStore
empty_store = record { artifact_root = "artifacts" ∷ "srv" ∷ []; quarantine = []; objects = [] }

perform_all-Keeps_example : Keeps hashing empty_store (
    perform_all hashing
      (upload "1" 10 (bytes "data" ∷ []) "abc" 4
        ∷ export "text" "abc" 4
        ∷ upload "2" 10 (broken ∷ []) "abc" 4
        ∷ start
        ∷ [])
      empty_store)
unfolding object_at
perform_all-Keeps_example = perform_all-Keeps hashing _ empty_store (λ p content there. cc)

accept_upload-Verified_example : Verified hashing ("da" ∷ "ta" ∷ []) empty_store (
    accept_upload hashing "1" 10
      (map bytes ("da" ∷ "ta" ∷ []))
      (digest_of hashing ("da" ∷ "ta" ∷ []))
      (total hashing ("da" ∷ "ta" ∷ []))
      empty_store)
unfolding object_at upload_at from_char
accept_upload-Verified_example =
    accept_upload-Verified hashing "1" 10 ("da" ∷ "ta" ∷ []) empty_store
      (λ text. record { plain = omega arith; long = λ e. cc }) (λ p content there. cc) refl
      (omega arith) (omega arith)

abbrev guest : LeaseRequest
guest = record { analysis_run_id = 1; platform = windows; guest_ip = 172097538; ttl_seconds = 90 }

abbrev fair : Conditions
fair = record {
  checks = ("nft", true) ∷ [];
  interface_present = true;
  pid = 7;
  writer_ready = true;
  additions = record { scoped_added = true; source_added = true };
  element_bytes = some 500;
  has_packets = λ run. true;
}

abbrev idle : EgressManager
idle = record {
  leases = [];
  max_bytes = 100;
  host = record { sources = []; scoped = []; captures = [] };
}

idle-IsGuarded : IsGuarded idle
unfolding has
idle-IsGuarded = record { unique = tt; sources = λ k h. cc; captures = λ k h. cc; subnet = tt }

happen_all-IsGuarded_example :
    IsGuarded
      (happen_all (acquires fair guest ∷ capture_ends 7 ∷ beats fair 1 ∷ closes fair ∷ []) idle)
happen_all-IsGuarded_example = happen_all-IsGuarded _ idle idle-IsGuarded

abbrev lease : ActiveLease
lease = record { request = guest; capture = 7; bytes_transferred = 0 }

abbrev open_manager : EgressManager
open_manager = record idle {
  leases = lease ∷ [];
  host = record {
    sources = record { platform = windows; guest_ip = 172097538 } ∷ [];
    scoped = [];
    captures = 7 ∷ [];
  };
}

acquired : acquire fair guest idle ≡ (open_manager, ok tt)
unfolding acquire all_ready in_network revoke_unlocked start_capture authorize_lease assign find
acquired = refl

revoke_withdraws_example :
    IsWithdrawn 1 lease (revoke_unlocked fair 1 open_manager).0
    × ((revoke_unlocked fair 1 open_manager).1 ≡ ok (some 1))
unfolding find
revoke_withdraws_example = revoke_withdraws fair 1 lease open_manager (refl, tt) refl

acquire-Admitted_example : Admitted fair guest idle (acquire fair guest idle)
acquire-Admitted_example = acquire-Admitted fair guest idle tt

-- three guests that are let through, the second of which has sent nothing
abbrev guest_at : ℕ → ℕ → ActiveLease
guest_at run offset = record {
  request = record guest { analysis_run_id = run; guest_ip = 172097538 + offset };
  capture = 7 + offset;
  bytes_transferred = 0;
}

abbrev busy_manager : EgressManager
busy_manager = record idle {
  host = record {
    sources =
        record { platform = windows; guest_ip = 172097538 }
        ∷ record { platform = windows; guest_ip = 172097539 }
        ∷ record { platform = windows; guest_ip = 172097540 }
        ∷ [];
    scoped = [];
    captures = 7 ∷ 8 ∷ 9 ∷ [];
  };
}

abbrev silent_second : Conditions
silent_second = record fair { has_packets = λ run. not (run == 2) }

close_stops_example :
    Stopped
      (guest_at 1 0 ∷ guest_at 2 1 ∷ [])
      (guest_at 3 2 ∷ [])
      busy_manager
      (close silent_second (holding (guest_at 1 0 ∷ guest_at 2 1 ∷ guest_at 3 2 ∷ []) busy_manager))
close_stops_example =
    close_stops silent_second (guest_at 1 0 ∷ []) (guest_at 2 1) (guest_at 3 2 ∷ []) busy_manager
      (refl, tt) refl

open-IsGuarded : IsGuarded open_manager
unfolding happen_all acquire all_ready in_network revoke_unlocked start_capture authorize_lease
    assign find happen
open-IsGuarded = happen_all-IsGuarded (acquires fair guest ∷ []) idle idle-IsGuarded

close_withdraws_all_example :
    ((close fair open_manager).1 ≡ ok tt)
    × ((close fair open_manager).0.leases ≡ [])
    × ((e : Element) → has same_element e (close fair open_manager).0.host.sources ≡ false)
    × ((pid : ℕ) → has same_number pid (close fair open_manager).0.host.captures ≡ false)
close_withdraws_all_example = close_withdraws_all fair open_manager open-IsGuarded (refl, tt)

perform_all-Traces_example :
    Traces hashing
      (contents empty_store)
      (answers hashing
        (upload "1" 10 (bytes "data" ∷ []) "abc" 4 ∷ export "text" "abc" 5 ∷ start ∷ [])
        empty_store)
      (contents (
        perform_all hashing
          (upload "1" 10 (bytes "data" ∷ []) "abc" 4 ∷ export "text" "abc" 5 ∷ start ∷ [])
          empty_store))
unfolding object_at from_char
perform_all-Traces_example =
    perform_all-Traces hashing (λ text. record { plain = omega arith; long = λ e. cc }) _
      empty_store (λ p content there. cc)
