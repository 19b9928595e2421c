-- ===== src/Prelude/Tables/Members.antt =====
-- The rows of a query: every row that passes is among them.
use Prim.Native.Nat.{ℕ, zero, suc, ◌≤◌}
use mathlib.Core.Path.{◌≡◌, refl}
use mathlib.Core.Logic.{◌⊎◌, inl, inr}
use mathlib.Core.Bool.{Bool, true}
use mathlib.Core.Option.{some}
use mathlib.Core.List.{List, [], ◌∷◌}
use native.Mathlib.Omega.{arith}
use e_rakshak_umat.Prelude.Tests.{◌==◌, Bool-cases}
use e_rakshak_umat.Prelude.Tables.{Entity, get, select, count, insert_by, order_by, take}

module _ {A : Type 0} where
  abbrev pub Among : A → List A → Type 0
  Among x [] = ⊥
  Among x (y ∷ ys) = (y ≡ x) ⊎ Among x ys

  abbrev pub size : List A → ℕ
  size [] = 0
  size (x ∷ xs) = suc (size xs)

  Among-insert_by :
      (before : A → A → Bool) (x y : A) (ys : List A)
      → (y ≡ x) ⊎ Among x ys
      → Among x (insert_by before y ys)
  unfolding insert_by
  Among-insert_by before x y [] h = h
  Among-insert_by before x y (z ∷ zs) h = elim (Bool-cases (before z y)) [
    | inl e ↦ rw e (elim h [
      | inl hit ↦ inr (Among-insert_by before x y zs (inl hit))
      | inr (inl hit) ↦ inl hit
      | inr (inr rest) ↦ inr (Among-insert_by before x y zs (inr rest))
    ])
    | inr e ↦ rw e h
  ]

  pub Among-order_by :
      (before : A → A → Bool) (x : A) (xs : List A) → Among x xs → Among x (order_by before xs)
  unfolding order_by
  Among-order_by before x [] h = h
  Among-order_by before x (y ∷ ys) (inl hit) =
      Among-insert_by before x y (order_by before ys) (inl hit)
  Among-order_by before x (y ∷ ys) (inr rest) =
      Among-insert_by before x y (order_by before ys) (inr (Among-order_by before x ys rest))

  size-insert_by :
      (before : A → A → Bool) (x : A) (xs : List A) → size (insert_by before x xs) ≡ suc (size xs)
  unfolding insert_by
  size-insert_by before x [] = refl
  size-insert_by before x (y ∷ ys) = ground (arith, size-insert_by before x ys)

  pub size-order_by : (before : A → A → Bool) (xs : List A) → size (order_by before xs) ≡ size xs
  unfolding order_by
  size-order_by before [] = refl
  size-order_by before (x ∷ xs) =
      omega (arith, size-insert_by before x (order_by before xs), size-order_by before xs)

  pub size-select : (p : A → Bool) (xs : List A) → size (select p xs) ≡ count p xs
  unfolding select count
  size-select p [] = refl
  size-select p (x ∷ xs) = ground (arith, size-select p xs)

  pub Among-take : (n : ℕ) (x : A) (xs : List A) → size xs ≤ n → Among x xs → Among x (take n xs)
  unfolding take
  Among-take zero x [] h m = m
  Among-take zero x (y ∷ ys) h m = ground arith
  Among-take (suc n) x [] h m = m
  Among-take (suc n) x (y ∷ ys) h (inl hit) = inl hit
  Among-take (suc n) x (y ∷ ys) h (inr rest) = inr (Among-take n x ys (omega arith) rest)

module _ {A : Type 0} ⦃e : Entity A⦄ where
  -- a row that is found and passes is selected
  pub Among-select :
      (p : A → Bool) (i : ℕ) (xs : List A) (x : A)
      → get i xs ≡ some x
      → p x ≡ true
      → Among x (select p xs)
  unfolding get select
  Among-select p i [] x g t = ground arith
  Among-select p i (y ∷ ys) x g t = elim (Bool-cases (e.key y == i)) [
    | inl hit ↦ let same : y ≡ x = ground (arith, g, hit) in rw (same, t) (inl refl)
    | inr miss ↦
        let rest = Among-select p i ys x (ground (arith, g, miss)) t in
        elim (Bool-cases (p y)) [ inl f ↦ rw f (inr rest) | inr f ↦ rw f rest ]
  ]
