-- ===== src/Prelude/Tables/Laws.antt =====
-- How the statements on a table show in its lookups and its counts.
use Prim.Native.Nat.{ℕ, ◌≤◌, ◌<◌}
use mathlib.Core.Path.{◌≡◌, refl}
use mathlib.Core.Logic.{inl, inr}
use mathlib.Core.Bool.{Bool, true, false}
use mathlib.Core.Option.{Option, none, some}
use mathlib.Core.List.{List, [], ◌∷◌}
use native.Mathlib.Omega.{arith}
use e_rakshak_umat.Prelude.Tests.{◌==◌, if◌then◌else◌, Bool-cases}
use e_rakshak_umat.Prelude.Tables.{Entity, count, first, get, update, update_where, Keyed}

module _ {A : Type 0} where
  -- an update of the rows that pass, seen at one row
  abbrev pub touched : (A → Bool) → (A → A) → Option A → Option A
  touched p f none = none
  touched p f (some x) = some (if p x then f x else x)

  pub count-update_where_le :
      (q p : A → Bool) (f : A → A) (xs : List A)
      → ((x : A) → q x ≡ false → q (f x) ≡ false)
      → count q (update_where p f xs) ≤ count q xs
  unfolding count update_where
  count-update_where_le q p f [] h = omega arith
  count-update_where_le q p f (x ∷ xs) h = ground (arith, h x, count-update_where_le q p f xs h)

  -- the rows that pass are rewritten so that they pass no longer
  pub count-update_where_none :
      (p : A → Bool) (f : A → A) (xs : List A)
      → ((x : A) → p (f x) ≡ false)
      → count p (update_where p f xs) ≡ 0
  unfolding count update_where
  count-update_where_none p f [] h = refl
  count-update_where_none p f (x ∷ xs) h = ground (arith, h x, count-update_where_none p f xs h)

module _ {A : Type 0} ⦃e : Entity A⦄ where
  abbrev pub KeepsKey : (A → A) → Type 0
  KeepsKey f = (x : A) → e.key (f x) ≡ e.key x

  pub get_above : (n i : ℕ) (xs : List A) → Keyed n xs → n ≤ i → get i xs ≡ none
  unfolding get
  get_above n i [] k h = refl
  get_above n i (x ∷ xs) k h = ground (arith, get_above (e.key x) i xs k.1)

  pub Keyed-update :
      (n i : ℕ) (f : A → A) (xs : List A) → KeepsKey f → Keyed n xs → Keyed n (update i f xs)
  unfolding update
  Keyed-update n i f [] h k = tt
  Keyed-update n i f (x ∷ xs) h k = elim (Bool-cases (e.key x == i)) [
    | inl hit ↦ rw hit (rw (h x) (k.0, Keyed-update (e.key x) i f xs h k.1))
    | inr miss ↦ rw miss (k.0, Keyed-update (e.key x) i f xs h k.1)
  ]

  pub Keyed-update_where :
      (n : ℕ) (p : A → Bool) (f : A → A) (xs : List A)
      → KeepsKey f
      → Keyed n xs
      → Keyed n (update_where p f xs)
  unfolding update_where
  Keyed-update_where n p f [] h k = tt
  Keyed-update_where n p f (x ∷ xs) h k = elim (Bool-cases (p x)) [
    | inl hit ↦ rw hit (rw (h x) (k.0, Keyed-update_where (e.key x) p f xs h k.1))
    | inr miss ↦ rw miss (k.0, Keyed-update_where (e.key x) p f xs h k.1)
  ]

  pub get-update :
      (i j : ℕ) (f : A → A) (xs : List A)
      → KeepsKey f
      → get j (update i f xs) ≡ touched (λ x. e.key x == i) f (get j xs)
  unfolding get update
  get-update i j f [] h = refl
  get-update i j f (x ∷ xs) h = ground (arith, h x, get-update i j f xs h)

  pub get-update_where :
      (p : A → Bool) (j : ℕ) (f : A → A) (xs : List A)
      → KeepsKey f
      → get j (update_where p f xs) ≡ touched p f (get j xs)
  unfolding get update_where
  get-update_where p j f [] h = refl
  get-update_where p j f (x ∷ xs) h = ground (arith, h x, get-update_where p j f xs h)

  pub get_key : (i : ℕ) (xs : List A) (x : A) → get i xs ≡ some x → e.key x ≡ i
  unfolding get
  get_key i [] x h = ground arith
  get_key i (y ∷ ys) x h = ground (arith, get_key i ys x)

  -- a row that is found is found by its own key
  pub get_own : (i : ℕ) (xs : List A) (x : A) → get i xs ≡ some x → get (e.key x) xs ≡ some x
  get_own i xs x h = rw (get_key i xs x h) h

  -- a row that is found, after a write of it
  pub get-update_own :
      (i : ℕ) (f : A → A) (xs : List A) (x : A)
      → KeepsKey f
      → get i xs ≡ some x
      → get i (update (e.key x) f xs) ≡ some (f x)
  get-update_own i f xs x k h = rw (get-update (e.key x) i f xs k) (rw h (ground arith))

  pub count-update_same :
      (q : A → Bool) (i : ℕ) (f : A → A) (xs : List A)
      → ((x : A) → q (f x) ≡ q x)
      → count q (update i f xs) ≡ count q xs
  unfolding count update
  count-update_same q i f [] h = refl
  count-update_same q i f (x ∷ xs) h = ground (arith, h x, count-update_same q i f xs h)

  pub count-update_le :
      (q : A → Bool) (i : ℕ) (f : A → A) (xs : List A)
      → ((x : A) → q x ≡ false → q (f x) ≡ false)
      → count q (update i f xs) ≤ count q xs
  unfolding count update
  count-update_le q i f [] h = omega arith
  count-update_le q i f (x ∷ xs) h = ground (arith, h x, count-update_le q i f xs h)

  -- a row that passed and no longer does
  pub count-update_lt :
      (q : A → Bool) (i : ℕ) (f : A → A) (xs : List A) (x : A)
      → ((y : A) → q (f y) ≡ false)
      → get i xs ≡ some x
      → q x ≡ true
      → count q (update i f xs) < count q xs
  unfolding count update get
  count-update_lt q i f [] x h g t = ground arith
  count-update_lt q i f (y ∷ ys) x h g t =
      ground (arith, h y, count-update_lt q i f ys x h, count-update_le q i f ys (λ z _. h z))

  -- The row that a query picks passes, and is the row of its key.
  pub first-get :
      (before : A → A → Bool) (p : A → Bool) (n : ℕ) (xs : List A) (x : A)
      → Keyed n xs
      → first before p xs ≡ some x
      → (get (e.key x) xs ≡ some x) × (p x ≡ true) × (e.key x < n)
  unfolding first get
  first-get before p n [] x k h = ground arith
  first-get before p n (y ∷ ys) x k h = ground (arith, first-get before p (e.key y) ys x k.1)
