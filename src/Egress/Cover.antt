-- ===== src/Egress/Cover.antt =====
-- A set of the host whose members each belong to a lease, under the changes of the set and of the
-- leases.
use e_rakshak_umat.Prelude.{
  ℕ, ◌≡◌, ◌↔◌, refl, ◌∙◌, inl, inr, Bool, true, false, not, ◌&&◌, ◌||◌, none, some, List, [], ◌∷◌,
  ◌==◌, arith, Bool-cases,
}
use mathlib.Core.Path.{subst}
use e_rakshak_umat.Prelude.Tables.{All}
use e_rakshak_umat.Egress.{ActiveLease, run_id, find, pop, assign}
use e_rakshak_umat.Egress.Firewall.{has, drop}

-- the runs of the leases are different
abbrev pub Unique : List ActiveLease → Type 0
Unique [] = Unit {0}
Unique (l ∷ ls) = (find (run_id l) ls ≡ none) × Unique ls

find-other :
    (run : ℕ) (l : ActiveLease) (ls : List ActiveLease)
    → find run (l ∷ ls) ≡ none
    → find run ls ≡ none
unfolding find
find-other run l ls h = ground arith

find-pop :
    (run other : ℕ) (ls : List ActiveLease) → find other ls ≡ none → find other (pop run ls) ≡ none
unfolding find pop
find-pop run other [] h = refl
find-pop run other (l ∷ ls) h = ground (arith, find-pop run other ls)

pub find-pop_self : (run : ℕ) (ls : List ActiveLease) → Unique ls → find run (pop run ls) ≡ none
unfolding find pop
find-pop_self run [] u = refl
find-pop_self run (l ∷ ls) u = ground (arith, find-pop_self run ls u.1)

pub Unique-pop : (run : ℕ) (ls : List ActiveLease) → Unique ls → Unique (pop run ls)
unfolding find pop
Unique-pop run [] u = u
Unique-pop run (l ∷ ls) u = elim (Bool-cases (run_id l == run)) [
  | inl e ↦ rw e u.1
  | inr e ↦ rw e (find-pop run (run_id l) ls u.0, Unique-pop run ls u.1)
]

find-assign :
    (new : ActiveLease) (run : ℕ) (ls : List ActiveLease)
    → find run ls ≡ none
    → (run_id new == run) ≡ false
    → find run (assign new ls) ≡ none
unfolding find assign
find-assign new run [] h e = ground arith
find-assign new run (l ∷ ls) h e = ground (arith, find-assign new run ls)

pub Unique-assign : (new : ActiveLease) (ls : List ActiveLease) → Unique ls → Unique (assign new ls)
unfolding find assign
Unique-assign new [] u = (refl, tt)
Unique-assign new (l ∷ ls) u = elim (Bool-cases (run_id l == run_id new)) [
  | inl e ↦ rw e (ground (arith, u.0, e), u.1)
  | inr e ↦ rw e (find-assign new (run_id l) ls u.0 (ground arith), Unique-assign new ls u.1)
]

pub find-assign_self :
    (new : ActiveLease) (ls : List ActiveLease) → find (run_id new) (assign new ls) ≡ some new
unfolding find assign
find-assign_self new [] = ground arith
find-assign_self new (l ∷ ls) = ground (arith, find-assign_self new ls)

pub find-run :
    (run : ℕ) (l : ActiveLease) (ls : List ActiveLease) → find run ls ≡ some l → run_id l ≡ run
unfolding find
find-run run l [] h = cc
find-run run l (m ∷ ls) h = ground (arith, find-run run l ls)

-- what holds for every lease
module _ (P : ActiveLease → Type 0) where
  pub All-pop : (run : ℕ) (ls : List ActiveLease) → All P ls → All P (pop run ls)
  unfolding pop
  All-pop run [] h = h
  All-pop run (l ∷ ls) h = elim (Bool-cases (run_id l == run)) [
    | inl e ↦ rw e h.1
    | inr e ↦ rw e (h.0, All-pop run ls h.1)
  ]

  pub All-assign :
      (new : ActiveLease) (ls : List ActiveLease) → P new → All P ls → All P (assign new ls)
  unfolding assign
  All-assign new [] p h = (p, tt)
  All-assign new (l ∷ ls) p h = elim (Bool-cases (run_id l == run_id new)) [
    | inl e ↦ rw e (p, h.1)
    | inr e ↦ rw e (h.0, All-assign new ls p h.1)
  ]

  pub All-find :
      (run : ℕ) (l : ActiveLease) (ls : List ActiveLease) → find run ls ≡ some l → All P ls → P l
  unfolding find
  All-find run l [] f h = cc
  All-find run l (m ∷ ls) f h = elim (Bool-cases (run_id m == run)) [
    | inl e ↦ subst P (ground (arith, f, e)) h.0
    | inr e ↦ All-find run l ls (ground (arith, f, e)) h.1
  ]

module _ {K : Type 0} (same : K → K → Bool) (same_iff : (a b : K) → (same a b ≡ true) ↔ (a ≡ b))
    (key : ActiveLease → K) where
  -- some lease has the key
  unfoldable pub covered : K → List ActiveLease → Bool
  covered k [] = false
  covered k (l ∷ ls) = same (key l) k || covered k ls

  abbrev pub Guarded : List K → List ActiveLease → Type 0
  Guarded s ls = (k : K) → has same k s ≡ true → covered k ls ≡ true

  has-drop :
      (k j : K) (s : List K)
      → has same k (drop same j s) ≡ true
      → (has same k s ≡ true) × (same k j ≡ false)
  unfolding has drop
  has-drop k j [] h = cc
  has-drop k j (i ∷ s) h = ground (arith, has-drop k j s, same_iff i k, same_iff i j, same_iff k j)

  pub has-drop_self : (k : K) (s : List K) → has same k (drop same k s) ≡ false
  unfolding has drop
  has-drop_self k [] = refl
  has-drop_self k (i ∷ s) = ground (arith, has-drop_self k s)

  -- what a deletion leaves
  pub has-drop_lem :
      (k j : K) (s : List K) → has same k (drop same j s) ≡ has same k s && not (same j k)
  unfolding has drop
  has-drop_lem k j [] = refl
  has-drop_lem k j (i ∷ s) =
      ground (arith, has-drop_lem k j s, same_iff i k, same_iff i j, same_iff j k)

  pub Guarded-drop :
      (j : K) (s : List K) (ls : List ActiveLease) → Guarded s ls → Guarded (drop same j s) ls
  Guarded-drop j s ls g k h = g k (has-drop k j s h).0

  covered-pop :
      (k : K) (run : ℕ) (l : ActiveLease) (ls : List ActiveLease)
      → find run ls ≡ some l
      → same k (key l) ≡ false
      → covered k ls ≡ true
      → covered k (pop run ls) ≡ true
  unfolding covered find pop
  covered-pop k run l [] f e h = cc
  covered-pop k run l (m ∷ ls) f e h =
      ground (arith, covered-pop k run l ls, same_iff (key m) k, same_iff k (key l))

  -- A lease goes with its member.
  pub Guarded-pop :
      (run : ℕ) (l : ActiveLease) (s : List K) (ls : List ActiveLease)
      → find run ls ≡ some l
      → Guarded s ls
      → Guarded (drop same (key l) s) (pop run ls)
  Guarded-pop run l s ls f g k h =
      let left = has-drop k (key l) s h in covered-pop k run l ls f left.1 (g k left.0)

  covered-assign_new :
      (k : K) (new : ActiveLease) (ls : List ActiveLease)
      → find (run_id new) ls ≡ none
      → covered k (assign new ls) ≡ same (key new) k || covered k ls
  unfolding covered find assign
  covered-assign_new k new [] f = refl
  covered-assign_new k new (l ∷ ls) f = ground (arith, covered-assign_new k new ls)

  -- A lease comes with its member.
  pub Guarded-assign :
      (new : ActiveLease) (s : List K) (ls : List ActiveLease)
      → find (run_id new) ls ≡ none
      → Guarded s ls
      → Guarded (key new ∷ s) (assign new ls)
  unfolding has
  Guarded-assign new s ls f g k h = ground (arith, covered-assign_new k new ls, g k)

  covered-recount :
      (k : K) (new old : ActiveLease) (ls : List ActiveLease)
      → find (run_id new) ls ≡ some old
      → key new ≡ key old
      → covered k (assign new ls) ≡ covered k ls
  unfolding covered find assign
  covered-recount k new old [] f e = cc
  covered-recount k new old (l ∷ ls) f e = ground (arith, covered-recount k new old ls, e)

  -- A lease is counted up in its place.
  pub Guarded-recount :
      (new old : ActiveLease) (s : List K) (ls : List ActiveLease)
      → find (run_id new) ls ≡ some old
      → key new ≡ key old
      → Guarded s ls
      → Guarded s (assign new ls)
  Guarded-recount new old s ls f e g k h = covered-recount k new old ls f e ∙ g k h

  pub covered-find :
      (run : ℕ) (l : ActiveLease) (ls : List ActiveLease)
      → find run ls ≡ some l
      → covered (key l) ls ≡ true
  unfolding covered find
  covered-find run l [] f = cc
  covered-find run l (m ∷ ls) f = ground (arith, covered-find run l ls, same_iff (key m) (key l))

  -- A member of a lease that is there is added again.
  pub Guarded-again :
      (run : ℕ) (l : ActiveLease) (s : List K) (ls : List ActiveLease)
      → find run ls ≡ some l
      → Guarded s ls
      → Guarded (key l ∷ s) ls
  unfolding has
  Guarded-again run l s ls f g k h =
      ground (arith, covered-find run l ls f, same_iff (key l) k, g k)

  -- A member that was added is taken away before a lease has it.
  pub Guarded-undone :
      (j : K) (s : List K) (ls : List ActiveLease) → Guarded s ls → Guarded (drop same j (j ∷ s)) ls
  unfolding has drop
  Guarded-undone j s ls g k h = ground (arith, (same_iff j j).1 refl, has-drop k j s, g k)

  -- Without a lease the set is empty.
  pub nothing_left :
      (k : K) (s : List K) (ls : List ActiveLease) → ls ≡ [] → Guarded s ls → has same k s ≡ false
  unfolding covered
  nothing_left k s [] e g = elim (Bool-cases (has same k s)) [
    | inl h ↦ let covers : covered k [] ≡ true = g k h in cc
    | inr h ↦ h
  ]
  nothing_left k s (l ∷ ls) e g = cc
