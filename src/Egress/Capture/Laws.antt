-- ===== src/Egress/Capture/Laws.antt =====
-- What the tests on captures tell of the file, and that the wait ends.
use mathlib.Core.Path.{subst}
use e_rakshak_umat.Prelude.{
  ◌==◌, ==_iff, false, ℕ, zero, suc, ◌+◌, ◌*◌, ◌^◌, ◌≤◌, ◌<◌, ◌≡◌, refl, ap, ◌∙◌, inl, inr, true,
  ◌&&◌, Option, none, some, List, [], ◌∷◌, ◌++◌, ltb, leb, arith, Bool-cases, Option-cases,
}
use Prim.Native.Nat.{◌/◌, ◌%◌}
use native.Mathlib.Nat.{zero-add, suc-add}
use e_rakshak_umat.Egress.Capture.{
  length, take, drop, same_bytes, is_one_of, pcap_header_ready, from_little, from_big,
  included_length, pcap_has_complete_packet, Turn, Waited, writing, exited, late,
  wait_for_pcap_writer,
}

-- the two byte orders of a capture
pub data Order : Type 0 where
  little big : Order

abbrev pub magic : Order → List ℕ
magic little = 0xd4 ∷ 0xc3 ∷ 0xb2 ∷ 0xa1 ∷ []
magic big = 0xa1 ∷ 0xb2 ∷ 0xc3 ∷ 0xd4 ∷ []

-- a length as four bytes
abbrev pub word : Order → ℕ → List ℕ
word little n = (n % 256) ∷ ((n / 256) % 256) ∷ ((n / 65536) % 256) ∷ (n / 16777216) ∷ []
word big n = (n / 16777216) ∷ ((n / 65536) % 256) ∷ ((n / 256) % 256) ∷ (n % 256) ∷ []

-- a capture: the magic number, the rest of the header, and a record of a time stamp, the included
-- and the original length, and what is written of its packet
abbrev pub capture_file : Order → List ℕ → List ℕ → ℕ → List ℕ → List ℕ → List ℕ
capture_file o header stamp n original written =
    magic o ++ (header ++ (stamp ++ (word o n ++ (original ++ written))))

length-append : (xs ys : List ℕ) → length (xs ++ ys) ≡ length xs + length ys
length-append [] ys = omega arith
length-append (x ∷ xs) ys = omega (arith, length-append xs ys)

drop-append : (n : ℕ) (xs ys : List ℕ) → length xs ≡ n → drop n (xs ++ ys) ≡ ys
drop-append zero [] ys h = refl
drop-append zero (x ∷ xs) ys h = absurd (omega arith)
drop-append (suc n) [] ys h = absurd (omega arith)
drop-append (suc n) (x ∷ xs) ys h = drop-append n xs ys (omega arith)

word-length : (o : Order) (n : ℕ) (rest : List ℕ) → take 4 (word o n ++ rest) ≡ word o n
word-length little n rest = refl
word-length big n rest = refl

from_little-word : (n : ℕ) → n < 2 ^ 32 → from_little (word little n) ≡ n
unfolding from_little
from_little-word n h = omega arith

from_big-word : (n : ℕ) → n < 2 ^ 32 → from_big 0 (word big n) ≡ n
unfolding from_big
from_big-word n h = omega arith

drop-skip : (a b : ℕ) (xs ys : List ℕ) → length xs ≡ a → drop (a + b) (xs ++ ys) ≡ drop b ys
drop-skip zero b [] ys h = rw zero-add refl
drop-skip zero b (x ∷ xs) ys h = absurd (omega arith)
drop-skip (suc a) b [] ys h = absurd (omega arith)
drop-skip (suc a) b (x ∷ xs) ys h = rw suc-add (drop-skip a b xs ys (omega arith))

module _ (o : Order) (header stamp original written : List ℕ) (n : ℕ)
    (header_whole : length header ≡ 20) (stamp_whole : length stamp ≡ 8)
    (original_whole : length original ≡ 4) (small : n < 2 ^ 32) where
  at_length :
      (p : Order)
      → drop 32 (magic p ++ (header ++ (stamp ++ (word p n ++ (original ++ written)))))
        ≡ word p n ++ (original ++ written)
  at_length little =
      drop-skip 20 8 header (stamp ++ (word little n ++ (original ++ written))) header_whole
      ∙ drop-append 8 stamp (word little n ++ (original ++ written)) stamp_whole
  at_length big =
      drop-skip 20 8 header (stamp ++ (word big n ++ (original ++ written))) header_whole
      ∙ drop-append 8 stamp (word big n ++ (original ++ written)) stamp_whole

  length-file :
      (p : Order) → length (capture_file p header stamp n original written) ≡ 40 + length written
  length-file little = omega (
    arith,
    length-append header (stamp ++ (word little n ++ (original ++ written))),
    length-append stamp (word little n ++ (original ++ written)),
    length-append original written,
  )
  length-file big = omega (
    arith,
    length-append header (stamp ++ (word big n ++ (original ++ written))),
    length-append stamp (word big n ++ (original ++ written)),
    length-append original written,
  )

  included-file :
      (p : Order) → included_length (capture_file p header stamp n original written) ≡ some n
  unfolding included_length is_one_of same_bytes
  included-file little =
      ap some (ap from_little (ap (take 4) (at_length little)) ∙ from_little-word n small)
  included-file big =
      ap some (ap (from_big 0) (ap (take 4) (at_length big)) ∙ from_big-word n small)

  -- The first record of a capture counts as complete exactly if its packet is not empty and all the
  -- bytes that its length announces are written, in either byte order.
  pub capture_complete :
      pcap_has_complete_packet (some (capture_file o header stamp n original written))
      ≡ ltb 0 n && leb n (length written)
  unfolding pcap_has_complete_packet
  capture_complete = rw (included-file o, length-file o, pcap_has_complete_packet) (ground arith)

-- The sleep of a turn takes at least its 50 milliseconds.
abbrev pub Sleeps : (ℕ → Turn) → Type 0
Sleeps turns = (i : ℕ) → (turns i).clock + 50 ≤ (turns (i + 1)).clock

-- a turn in time that saw a running writer and no header yet
abbrev pub Waits : ℕ → Turn → Type 0
Waits deadline t =
    (t.clock < deadline) × (t.return_code ≡ none) × (pcap_header_ready t.file ≡ false)

-- what the turn that ends the wait saw
abbrev pub Shows : ℕ → Turn → Waited → Type 0
Shows deadline t writing =
    (t.clock < deadline) × (t.return_code ≡ none) × (pcap_header_ready t.file ≡ true)
Shows deadline t exited = (t.clock < deadline) × (code : ℕ) × (t.return_code ≡ some code)
Shows deadline t late = deadline ≤ t.clock

-- The wait ends at the turn `last`, after turns that all waited.
abbrev pub Ends : ℕ → ℕ → ℕ → (ℕ → Turn) → Option Waited → Type 0
Ends first most deadline turns r =
    (w : Waited) × (last : ℕ) × (r ≡ some w)
    × (last ≤ most)
    × ((j : ℕ) → first ≤ j → j < last → Waits deadline (turns j))
    × Shows deadline (turns last) w

Ends-earlier :
    (i most deadline : ℕ) (turns : ℕ → Turn) (r : Option Waited)
    → Waits deadline (turns i)
    → Ends (i + 1) most deadline turns r
    → Ends i most deadline turns r
Ends-earlier i most deadline turns r waits (w, last, e, below, before, shows) =
    (w, last, e, below, earlier, shows)
  where
    earlier : (j : ℕ) → i ≤ j → j < last → Waits deadline (turns j)
    earlier j low high = elim (Bool-cases (i == j)) [
      | inl k ↦ subst (λ x. Waits deadline (turns x)) ((==_iff i j).0 k) waits
      | inr k ↦ before j (ground (arith, k)) high
    ]

-- With fuel for the time that is left the wait ends.
wait-Ends :
    (fuel deadline i : ℕ) (turns : ℕ → Turn)
    → Sleeps turns
    → deadline ≤ (turns i).clock + 50 * fuel
    → Ends i (i + fuel) deadline turns (wait_for_pcap_writer (suc fuel) deadline i turns)
unfolding wait_for_pcap_writer
wait-Ends zero deadline i turns sleeps left =
    (late, i, ground arith, omega arith, (λ j low high. absurd (omega arith)), omega arith)
wait-Ends (suc fuel) deadline i turns sleeps left =
    elim (Bool-cases (ltb (turns i).clock deadline)) [
      | inr e ↦ (
        late,
        i,
        rw (e, wait_for_pcap_writer) refl,
        omega arith,
        (λ j low high. absurd (omega arith)),
        ground (arith, e),
      )
      | inl e ↦
          let early : (turns i).clock < deadline = ground (arith, e) in
          elim (Option-cases (turns i).return_code) [
            | inr (code, c) ↦ (
              exited,
              i,
              rw (e, wait_for_pcap_writer) (rw c refl),
              omega arith,
              (λ j low high. absurd (omega arith)),
              (early, code, c),
            )
            | inl c ↦ elim (Bool-cases (pcap_header_ready (turns i).file)) [
              | inl r ↦ (
                writing,
                i,
                rw (e, wait_for_pcap_writer) (rw c (rw r refl)),
                omega arith,
                (λ j low high. absurd (omega arith)),
                (early, c, r),
              )
              | inr r ↦
                  let (w, last, found, below, before, shows) =
                    wait-Ends fuel deadline (i + 1) turns sleeps (omega (arith, sleeps i)) in
                  Ends-earlier i (i + suc fuel) deadline turns _ (early, c, r)
                    (
                      w,
                      last,
                      rw (e, wait_for_pcap_writer) (rw c (rw r found)),
                      omega (arith, below),
                      before,
                      shows,
                    )
            ]
          ]
    ]

-- The wait for a capture, which has five seconds and sleeps at least fifty milliseconds in a turn,
-- ends by its turn 100, on every clock and host, and at the first turn that decides: every turn
-- before it was in time and saw a running writer without a header in its file. The wait returns if
-- that turn is in time and sees a running writer and a header, reports an exit if it is in time and
-- the process has a return code, and is late only if it finds the deadline over.
pub wait_for_pcap_writer-Ends :
    (start : ℕ) (turns : ℕ → Turn)
    → Sleeps turns
    → start ≤ (turns 0).clock
    → Ends 0 100 (start + 5000) turns (wait_for_pcap_writer 101 (start + 5000) 0 turns)
wait_for_pcap_writer-Ends start turns sleeps begun =
    wait-Ends 100 (start + 5000) 0 turns sleeps (omega arith)
