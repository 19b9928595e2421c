-- ===== src/Prelude/Tables/Queries.antt =====
-- What a query returns: rows of the table, each once.
use Prim.Native.Nat.{ℕ, zero, suc, ◌≤◌}
use mathlib.Core.Path.{◌≡◌, sym}
use mathlib.Core.Logic.{◌≢◌, inl, inr}
use mathlib.Core.Bool.{Bool, true, false}
use mathlib.Core.Option.{Option, none, some}
use mathlib.Core.List.{List, [], ◌∷◌}
use native.Mathlib.Omega.{arith}
use e_rakshak_umat.Prelude.Tests.{◌==◌, ==_iff, Bool-cases}
use e_rakshak_umat.Prelude.Tables.{
  Entity, get, select, first, sooner, insert_by, order_by, take, All, Apart, Distinct, Keyed,
}

module _ {A : Type 0} (P : A → Type 0) where
  pub All-insert_by :
      (before : A → A → Bool) (x : A) (xs : List A) → P x → All P xs → All P (insert_by before x xs)
  unfolding insert_by
  All-insert_by before x [] h hs = (h, tt)
  All-insert_by before x (y ∷ ys) h hs = elim (Bool-cases (before y x)) [
    | inl e ↦ rw e (hs.0, All-insert_by before x ys h hs.1)
    | inr e ↦ rw e (h, hs)
  ]

  pub All-order_by : (before : A → A → Bool) (xs : List A) → All P xs → All P (order_by before xs)
  unfolding order_by
  All-order_by before [] h = tt
  All-order_by before (x ∷ xs) h =
      All-insert_by before x (order_by before xs) h.0 (All-order_by before xs h.1)

  pub All-take : (n : ℕ) (xs : List A) → All P xs → All P (take n xs)
  unfolding take
  All-take zero xs h = tt
  All-take (suc n) [] h = tt
  All-take (suc n) (x ∷ xs) h = (h.0, All-take n xs h.1)

  -- of the rows that are selected, what holds of the rows that pass
  pub All-select :
      (p : A → Bool) (xs : List A) → All (λ x. p x ≡ true → P x) xs → All P (select p xs)
  unfolding select
  All-select p [] h = tt
  All-select p (x ∷ xs) h = elim (Bool-cases (p x)) [
    | inl e ↦ rw e (h.0 e, All-select p xs h.1)
    | inr e ↦ rw e (All-select p xs h.1)
  ]

module _ {A : Type 0} {P Q : A → Type 0} where
  pub All-map : (xs : List A) → ((x : A) → P x → Q x) → All P xs → All Q xs
  All-map [] f h = tt
  All-map (x ∷ xs) f h = (f x h.0, All-map xs f h.1)

module _ {A : Type 0} ⦃e : Entity A⦄ where
  Apart-of_All : (i : ℕ) (xs : List A) → All (λ x. e.key x ≢ i) xs → Apart i xs
  Apart-of_All i [] h = tt
  Apart-of_All i (x ∷ xs) h = (h.0, Apart-of_All i xs h.1)

  All_of_Apart : (i : ℕ) (xs : List A) → Apart i xs → All (λ x. e.key x ≢ i) xs
  All_of_Apart i [] h = tt
  All_of_Apart i (x ∷ xs) h = (h.0, All_of_Apart i xs h.1)

  Distinct-insert_by :
      (before : A → A → Bool) (x : A) (xs : List A)
      → Apart (e.key x) xs
      → Distinct xs
      → Distinct (insert_by before x xs)
  unfolding insert_by
  Distinct-insert_by before x [] a d = (tt, tt)
  Distinct-insert_by before x (y ∷ ys) a d = elim (Bool-cases (before y x)) [
    | inl t ↦ rw t (
      Apart-of_All (e.key y) (insert_by before x ys) (
          All-insert_by (λ z. e.key z ≢ e.key y) before x ys (λ p. a.0 (sym p))
            (All_of_Apart (e.key y) ys d.0)),
      Distinct-insert_by before x ys a.1 d.1,
    )
    | inr t ↦ rw t (a, d)
  ]

  pub Distinct-order_by :
      (before : A → A → Bool) (xs : List A) → Distinct xs → Distinct (order_by before xs)
  unfolding order_by
  Distinct-order_by before [] d = tt
  Distinct-order_by before (x ∷ xs) d =
      Distinct-insert_by before x (order_by before xs)
        (Apart-of_All (e.key x) (order_by before xs)
          (All-order_by (λ z. e.key z ≢ e.key x) before xs (All_of_Apart (e.key x) xs d.0)))
        (Distinct-order_by before xs d.1)

  pub Distinct-take : (n : ℕ) (xs : List A) → Distinct xs → Distinct (take n xs)
  unfolding take
  Distinct-take zero xs d = tt
  Distinct-take (suc n) [] d = tt
  Distinct-take (suc n) (x ∷ xs) d = (
    Apart-of_All (e.key x) (take n xs)
        (All-take (λ z. e.key z ≢ e.key x) n xs (All_of_Apart (e.key x) xs d.0)),
    Distinct-take n xs d.1,
  )

  pub Distinct-select : (p : A → Bool) (xs : List A) → Distinct xs → Distinct (select p xs)
  unfolding select
  Distinct-select p [] d = tt
  Distinct-select p (x ∷ xs) d = elim (Bool-cases (p x)) [
    | inl t ↦ rw t (
      Apart-of_All (e.key x) (select p xs) (
          All-select (λ z. e.key z ≢ e.key x) p xs
            (All-map xs (λ z h _. h) (All_of_Apart (e.key x) xs d.0))),
      Distinct-select p xs d.1,
    )
    | inr t ↦ rw t (Distinct-select p xs d.1)
  ]

  Below-Apart : (n i : ℕ) (xs : List A) → Keyed n xs → n ≤ i → Apart i xs
  Below-Apart n i [] k h = tt
  Below-Apart n i (x ∷ xs) k h =
      (λ p. absurd (omega arith), Below-Apart (e.key x) i xs k.1 (omega arith))

  pub Distinct-of_Keyed : (n : ℕ) (xs : List A) → Keyed n xs → Distinct xs
  Distinct-of_Keyed n [] k = tt
  Distinct-of_Keyed n (x ∷ xs) k =
      (Below-Apart (e.key x) (e.key x) xs k.1 (omega arith), Distinct-of_Keyed (e.key x) xs k.1)

  get_tail :
      (x : A) (n : ℕ) (ys xs : List A)
      → Keyed (e.key x) xs
      → All (λ y. get (e.key y) xs ≡ some y) ys
      → All (λ y. e.key y ≢ e.key x) ys
      → All (λ y. get (e.key y) (x ∷ xs) ≡ some y) ys
  unfolding get
  get_tail x n [] xs k h a = tt
  get_tail x n (y ∷ ys) xs k h a = (
    elim (Bool-cases (e.key x == e.key y)) [
      | inl t ↦ absurd (a.0 (omega (arith, (==_iff (e.key x) (e.key y)).0 t)))
      | inr t ↦ rw t h.0
    ],
    get_tail x n ys xs k h.1 a.1,
  )

  -- each row is the row of its key
  pub All_of_Keyed : (n : ℕ) (xs : List A) → Keyed n xs → All (λ x. get (e.key x) xs ≡ some x) xs
  unfolding get
  All_of_Keyed n [] k = tt
  All_of_Keyed n (x ∷ xs) k = (
    ground arith,
    get_tail x n xs xs k.1 (All_of_Keyed (e.key x) xs k.1)
        (All_of_Apart (e.key x) xs (Below-Apart (e.key x) (e.key x) xs k.1 (omega arith))),
  )

-- an order of rows in which no row is before itself, and a row between two is not skipped
pub record IsOrder {A : Type 0} (before : A → A → Bool) : Type 0 where
  pub irreflexive : (a : A) → before a a ≡ false
  pub asymmetric : (a b : A) → before a b ≡ true → before b a ≡ false
  pub transitive : (a b c : A) → before a b ≡ false → before b c ≡ false → before a c ≡ false

module _ {A : Type 0} (before : A → A → Bool) (p : A → Bool) (order : IsOrder before) where
  -- no row that passes comes before the answer of the query; none passes if there is no answer
  abbrev pub Least : Option A → List A → Type 0
  Least none xs = All (λ x. p x ≡ false) xs
  Least (some s) xs = All (λ x. p x ≡ true → before x s ≡ false) xs

  Least-sooner :
      (x : A) (xs : List A) (o : Option A)
      → p x ≡ true
      → Least o xs
      → Least (sooner before x o) (x ∷ xs)
  Least-sooner x xs none t h =
      (λ _. order.irreflexive x, All-map xs (λ y f g. ground (arith, f, g)) h)
  Least-sooner x xs (some y) t h = elim (Bool-cases (before y x)) [
    | inl e ↦ rw e (λ _. order.asymmetric y x e, h)
    | inr e ↦
        rw e (λ _. order.irreflexive x, All-map xs (λ z f g. order.transitive z y x (f g) e) h)
  ]

  pub first-Least : (xs : List A) → Least (first before p xs) xs
  unfolding first
  first-Least [] = tt
  first-Least (x ∷ xs) = elim (Bool-cases (p x)) [
    | inl t ↦ rw t (Least-sooner x xs (first before p xs) t (first-Least xs))
    | inr f ↦ rw f (passed_over (first before p xs) f (first-Least xs))
  ]
    where
      passed_over : (o : Option A) → p x ≡ false → Least o xs → Least o (x ∷ xs)
      passed_over none f h = (f, h)
      passed_over (some s) f h = (λ t. ground (arith, t, f), h)
