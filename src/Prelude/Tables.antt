-- ===== src/Prelude/Tables.antt =====
-- A table of the database as a list of rows, the newest row first, and the statements that the
-- code sends to it: lookup by primary key, update, insert, count, and a query for one row in an
-- order. Their laws are in Prelude/Tables/Laws.antt.
pub mod Laws
pub mod Queries
pub mod Members
use Prim.Native.Nat.{ℕ, zero, suc, ◌+◌, ◌≤◌, ◌<◌}
use mathlib.Core.Path.{◌≡◌, refl, ap}
use mathlib.Core.Logic.{◌≢◌, inl, inr}
use mathlib.Core.Bool.{Bool, true, false}
use mathlib.Core.Option
use mathlib.Core.Option.{Option, none, some}
use mathlib.Core.List.{List, [], ◌∷◌}
use native.Mathlib.Omega.{arith}
use e_rakshak_umat.Prelude.Tests.{◌==◌, if◌then◌else◌, Bool-cases}

-- a row type with its primary key
pub record Entity (A : Type 0) : Type 0 where
  pub key : A → ℕ

module _ {A : Type 0} where
  -- WHERE
  unfoldable pub select : (A → Bool) → List A → List A
  select p [] = []
  select p (x ∷ xs) = let rest = select p xs in if p x then x ∷ rest else rest

  -- SELECT count(*) … WHERE
  unfoldable pub count : (A → Bool) → List A → ℕ
  count p [] = 0
  count p (x ∷ xs) = let rest = count p xs in if p x then suc rest else rest

  -- UPDATE … WHERE
  unfoldable pub update_where : (A → Bool) → (A → A) → List A → List A
  update_where p f [] = []
  update_where p f (x ∷ xs) = (if p x then f x else x) ∷ update_where p f xs

  -- ORDER BY … LIMIT 1: the first row, of those that pass, that no other row comes before
  abbrev pub sooner : (A → A → Bool) → A → Option A → Option A
  sooner before x none = some x
  sooner before x (some y) = if before y x then some y else some x

  unfoldable pub first : (A → A → Bool) → (A → Bool) → List A → Option A
  first before p [] = none
  first before p (x ∷ xs) =
      let rest = first before p xs in if p x then sooner before x rest else rest

  -- db.scalar(select(Model).where(…)): the row that passes
  unfoldable pub scalar : (A → Bool) → List A → Option A
  scalar p [] = none
  scalar p (x ∷ xs) = if p x then some x else scalar p xs

  -- ORDER BY: a stable insertion sort
  unfoldable pub insert_by : (A → A → Bool) → A → List A → List A
  insert_by before x [] = x ∷ []
  insert_by before x (y ∷ ys) =
      let rest = insert_by before x ys in if before y x then y ∷ rest else x ∷ y ∷ ys

  unfoldable pub order_by : (A → A → Bool) → List A → List A
  unfolding insert_by
  order_by before [] = []
  order_by before (x ∷ xs) = insert_by before x (order_by before xs)

  -- LIMIT
  unfoldable pub take : ℕ → List A → List A
  take zero xs = []
  take (suc n) [] = []
  take (suc n) (x ∷ xs) = x ∷ take n xs

module _ {A : Type 0} ⦃e : Entity A⦄ where
  -- db.get(Model, id)
  unfoldable pub get : ℕ → List A → Option A
  get i [] = none
  get i (x ∷ xs) = if e.key x == i then some x else get i xs

  -- the row with the key `i` is assigned to
  unfoldable pub update : ℕ → (A → A) → List A → List A
  update i f [] = []
  update i f (x ∷ xs) = (if e.key x == i then f x else x) ∷ update i f xs

  -- Keys fall along the table and stay below `n`.
  abbrev pub Keyed : ℕ → List A → Type 0
  Keyed n [] = Unit {0}
  Keyed n (x ∷ xs) = (e.key x < n) × Keyed (e.key x) xs

  pub Keyed-mono : (m n : ℕ) (xs : List A) → m ≤ n → Keyed m xs → Keyed n xs
  Keyed-mono m n [] h k = tt
  Keyed-mono m n (x ∷ xs) h k = (omega arith, k.1)

  -- the rows have different keys
  abbrev pub Apart : ℕ → List A → Type 0
  Apart i [] = Unit {0}
  Apart i (x ∷ xs) = (e.key x ≢ i) × Apart i xs

  abbrev pub Distinct : List A → Type 0
  Distinct [] = Unit {0}
  Distinct (x ∷ xs) = Apart (e.key x) xs × Distinct xs

module _ {A : Type 0} where
  abbrev pub All : (A → Type 0) → List A → Type 0
  All P [] = Unit {0}
  All P (x ∷ xs) = P x × All P xs
