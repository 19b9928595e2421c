-- ===== src/Egress/Firewall.antt =====
-- What the egress broker drives on its host: the sets of the firewall and the captures.
-- src/umat/egress/manager.py. The commands of nft and tcpdump are called by the source only: an added
-- element is in its set, a deleted one is not, and a stopped capture does not run.
use e_rakshak_umat.Prelude.{
  ℕ, ◌+◌, ◌*◌, Bool, true, false, ◌&&◌, List, [], ◌∷◌, ◌==◌, if◌then◌else◌,
}
use Prim.Native.Nat.{◌/◌}
use e_rakshak_umat.Models.{Platform, windows, android, platform_eq}

-- an address in one of the two sets of sources
pub record Element : Type 0 where
  pub platform : Platform
  pub guest_ip : ℕ

unfoldable pub same_element : Element → Element → Bool
same_element a b = platform_eq a.platform b.platform && a.guest_ip == b.guest_ip

-- Members of a set. A deletion takes every copy.
module _ {K : Type 0} (same : K → K → Bool) where
  unfoldable pub has : K → List K → Bool
  has k [] = false
  has k (j ∷ js) = if same j k then true else has k js

  unfoldable pub drop : K → List K → List K
  drop k [] = []
  drop k (j ∷ js) = let rest = drop k js in if same j k then rest else j ∷ rest

pub record Host : Type 0 where
  pub sources : List Element  -- windows_egress_v4 and android_egress_v4
  pub scoped : List ℕ  -- android_scoped_tcp_v4: the guests that may reach the one endpoint
  pub captures : List ℕ  -- the running tcpdump processes

abbrev pub same_number : ℕ → ℕ → Bool
same_number a b = a == b

-- 10.66.0.0/24 and 10.68.0.0/24, an address as its number
abbrev windows_network : ℕ
windows_network = (10 * 256 + 66) * 256

abbrev android_network : ℕ
android_network = (10 * 256 + 68) * 256

unfoldable pub in_network : Platform → ℕ → Bool
in_network windows ip = ip / 256 == windows_network
in_network android ip = ip / 256 == android_network

-- what the calls of `_nft` answer: each addition may fail
pub record Additions : Type 0 where
  pub scoped_added : Bool
  pub source_added : Bool

abbrev add_scoped : ℕ → Host → Host
add_scoped ip h = record h { scoped = ip ∷ h.scoped }

abbrev add_source : Element → Host → Host
add_source e h = record h { sources = e ∷ h.sources }

unfoldable pub authorize_source : Additions → Element → Host → Host × Bool
authorize_source a e h = if a.source_added then (add_source e h, true) else (h, false)

-- the destination before the source; true: both additions succeeded
unfoldable pub authorize_lease : Additions → Element → Host → Host × Bool
unfolding authorize_source
authorize_lease a e h =
    if platform_eq e.platform android
    then (if a.scoped_added then authorize_source a e (add_scoped e.guest_ip h) else (h, false))
    else authorize_source a e h

unfoldable pub deauthorize_lease : Element → Host → Host
deauthorize_lease e h = record h {
  sources = drop same_element e h.sources;
  scoped =
      if platform_eq e.platform android then drop same_number e.guest_ip h.scoped else h.scoped;
}

unfoldable pub stop_capture : ℕ → Host → Host
stop_capture pid h = record h { captures = drop same_number pid h.captures }
