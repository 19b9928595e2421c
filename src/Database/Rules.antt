-- ===== src/Database/Rules.antt =====
-- What an action promises of a result that it returns, with the rule for a sequence.
use e_rakshak_umat.Prelude.{
  ℕ, String, ◌≡◌, refl, Bool, true, false, Option, none, some, if◌then◌else◌,
}
use e_rakshak_umat.Database.{Db, Result, ok, err, Action, raise_if, after, found, lifted, settle}

-- `P` of what is returned; nothing is asked of an action that raises
abbrev pub Returned {ℓ} : {A : Type ℓ} → (A → Db → Type 0) → Result (A × Db) → Type 0
Returned P (ok (a, db)) = P a db
Returned P (err e) = Unit

pub record Ensures {ℓ} {A : Type ℓ} (P : A → Db → Type 0) (r : Result (A × Db)) : Type 0 where
  pub holds : Returned P r

module _ {ℓ κ} {A : Type ℓ} {B : Type κ} where
  pub Ensures-after :
      (P : B → Db → Type 0) (Q : A → Db → Type 0) (r : Result (A × Db)) (f : A → Action B)
      → Ensures Q r
      → ((a : A) (db : Db) → Q a db → Ensures P (f a db))
      → Ensures P (after r f)
  Ensures-after P Q (ok (a, db)) f h next = next a db h.holds
  Ensures-after P Q (err e) f h next = record { holds = tt }

  -- a row that has to be there
  pub Ensures-found :
      (P : B → Db → Type 0) (o : Option A) (status : ℕ) (text : String) (db : Db) (f : A → Action B)
      → ((a : A) → o ≡ some a → Ensures P (f a db))
      → Ensures P (after (found o status text db) f)
  unfolding found
  Ensures-found P none status text db f h = record { holds = tt }
  Ensures-found P (some a) status text db f h = h a refl

  -- a check that has to succeed
  pub Ensures-lifted :
      (P : B → Db → Type 0) (r : Result A) (db : Db) (f : A → Action B)
      → ((a : A) → r ≡ ok a → Ensures P (f a db))
      → Ensures P (after (lifted r db) f)
  unfolding lifted
  Ensures-lifted P (ok a) db f h = h a refl
  Ensures-lifted P (err e) db f h = record { holds = tt }

module _ {ℓ} {B : Type ℓ} where
  -- a test that has to fail
  pub Ensures-test :
      (P : B → Db → Type 0) (test : Bool) (status : ℕ) (text : String) (db : Db)
      (f : Unit {0} → Action B)
      → (test ≡ false → Ensures P (f tt db))
      → Ensures P (after (raise_if test status text db) f)
  Ensures-test P true status text db f h = record { holds = tt }
  Ensures-test P false status text db f h = h refl

module _ {ℓ} {A : Type ℓ} where
  pub Ensures-ok : (P : A → Db → Type 0) (a : A) (db : Db) → P a db → Ensures P (ok (a, db))
  Ensures-ok P a db h = record { holds = h }

  -- a request that raises leaves what it found
  pub Ensures-settle :
      (P : Db → Type 0) (r : Result (A × Db)) (db : Db)
      → P db
      → Ensures (λ _ db'. P db') r
      → P (settle r db)
  Ensures-settle P (ok (a, db')) db before h = h.holds
  Ensures-settle P (err e) db before h = before

-- both branches of a test
pub branch {ℓ κ} :
    {A : Type ℓ} (P : A → Type κ) (test : Bool) (x y : A)
    → (test ≡ true → P x)
    → (test ≡ false → P y)
    → P (if test then x else y)
branch P true x y hx hy = hx refl
branch P false x y hx hy = hy refl
