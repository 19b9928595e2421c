-- ===== src/Egress/Capture.antt =====
-- The files that tcpdump writes, and the wait for their header; src/umat/capture.py. A file is its
-- bytes, none where reading it raises OSError.
pub mod Laws
use Prim.Native.Nat.{◌*◌}
use e_rakshak_umat.Prelude.{
  ℕ, zero, suc, ◌+◌, Bool, true, false, ◌&&◌, ◌||◌, Option, none, some, List, [], ◌∷◌, ◌==◌, ltb,
  leb, if◌then◌else◌,
}

abbrev pub length : List ℕ → ℕ
length [] = 0
length (b ∷ bs) = suc (length bs)

abbrev pub take : ℕ → List ℕ → List ℕ
take zero bs = []
take (suc n) [] = []
take (suc n) (b ∷ bs) = b ∷ take n bs

abbrev pub drop : ℕ → List ℕ → List ℕ
drop zero bs = bs
drop (suc n) [] = []
drop (suc n) (b ∷ bs) = drop n bs

unfoldable pub same_bytes : List ℕ → List ℕ → Bool
same_bytes [] [] = true
same_bytes (a ∷ as_) (b ∷ bs) = a == b && same_bytes as_ bs
same_bytes _ _ = false

unfoldable pub is_one_of : List ℕ → List (List ℕ) → Bool
is_one_of bs [] = false
is_one_of bs (m ∷ ms) = same_bytes bs m || is_one_of bs ms

abbrev pub little_magics : List (List ℕ)
little_magics = (0xd4 ∷ 0xc3 ∷ 0xb2 ∷ 0xa1 ∷ []) ∷ (0x4d ∷ 0x3c ∷ 0xb2 ∷ 0xa1 ∷ []) ∷ []

abbrev pub big_magics : List (List ℕ)
big_magics = (0xa1 ∷ 0xb2 ∷ 0xc3 ∷ 0xd4 ∷ []) ∷ (0xa1 ∷ 0xb2 ∷ 0x3c ∷ 0x4d ∷ []) ∷ []

abbrev pub next_generation : List (List ℕ)
next_generation = (0x0a ∷ 0x0d ∷ 0x0d ∷ 0x0a ∷ []) ∷ []

abbrev pub global_header_bytes : ℕ
global_header_bytes = 24

unfoldable pub pcap_header_ready : Option (List ℕ) → Bool
pcap_header_ready none = false
pcap_header_ready (some bs) =
    if ltb (length bs) global_header_bytes
    then false
    else is_one_of (take 4 bs) big_magics
      || (is_one_of (take 4 bs) little_magics || is_one_of (take 4 bs) next_generation)

-- int.from_bytes
unfoldable pub from_little : List ℕ → ℕ
from_little [] = 0
from_little (b ∷ bs) = b + 256 * from_little bs

unfoldable pub from_big : ℕ → List ℕ → ℕ
from_big acc [] = acc
from_big acc (b ∷ bs) = from_big (256 * acc + b) bs

-- the length of the first record, none for a file that is no classic capture
unfoldable pub included_length : List ℕ → Option ℕ
included_length bs =
    if is_one_of (take 4 bs) little_magics
    then some (from_little (take 4 (drop 32 bs)))
    else if is_one_of (take 4 bs) big_magics
    then some (from_big 0 (take 4 (drop 32 bs)))
    else none

abbrev pub is_whole : ℕ → Option ℕ → Bool
is_whole size none = false
is_whole size (some n) = ltb 0 n && leb (global_header_bytes + 16 + n) size

unfoldable pub pcap_has_complete_packet : Option (List ℕ) → Bool
pcap_has_complete_packet none = false
pcap_has_complete_packet (some bs) =
    if ltb (length bs) (global_header_bytes + 16)
    then false
    else is_whole (length bs) (included_length bs)

-- one turn of the wait: the clock in milliseconds, what `process.poll` returns, and the file
pub record Turn : Type 0 where
  pub clock : ℕ
  pub return_code : Option ℕ
  pub file : Option (List ℕ)

pub data Waited : Type 0 where
  writing exited late : Waited

-- wait_for_pcap_writer; none: the fuel ran out
unfoldable pub wait_for_pcap_writer : ℕ → ℕ → ℕ → (ℕ → Turn) → Option Waited
wait_for_pcap_writer zero deadline i turns = none
wait_for_pcap_writer (suc fuel) deadline i turns =
    let rest = wait_for_pcap_writer fuel deadline (i + 1) turns in
    if ltb (turns i).clock deadline
    then (elim (turns i).return_code [
      | some code ↦ some exited
      | none ↦ if pcap_header_ready (turns i).file then some writing else rest
    ])
    else some late
