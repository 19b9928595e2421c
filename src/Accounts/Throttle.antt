-- ===== src/Accounts/Throttle.antt =====
-- How many failed logins there can be.
use e_rakshak_umat.Prelude.{
  ℕ, ◌+◌, ◌≤◌, ◌<◌, ◌≡◌, refl, inl, inr, ◌⊎◌, String, Bool, true, not, ◌&&◌, ◌||◌, Option, none,
  some, List, [], ◌∷◌, leb, str_eq, eq_iff, arith, Bool-cases,
}
use e_rakshak_umat.Prelude.Tables.{count}
use e_rakshak_umat.Environment.{Env, seconds}
use e_rakshak_umat.Database.{Result}
use e_rakshak_umat.Database.Rules.{branch}
use e_rakshak_umat.Accounts.{
  Accounts, User, Logins, LoginCall, LoginAttempt, SessionResponse, is_recent_failure,
  recent_failures, find_user, is_valid, try_password, login,
}

-- a failed attempt that `mine` claims, within the window that ends at `t`
abbrev pub is_failure_at : (LoginAttempt → Bool) → ℕ → ℕ → LoginAttempt → Bool
is_failure_at mine window t x =
    not x.succeeded && (mine x && (leb x.attempted_at t && leb t (x.attempted_at + seconds window)))

-- whose attempts count: those of a username, or those of an address
abbrev pub of_user : String → LoginAttempt → Bool
of_user username x = str_eq x.username username

abbrev pub of_address : String → LoginAttempt → Bool
of_address ip x = str_eq x.ip_address ip

-- Every failure had fewer failures before it than the limit.
abbrev Throttled : Logins → List LoginAttempt → Type 0
Throttled l [] = Unit {0}
Throttled l (x ∷ xs) =
    ((x.succeeded ≡ true)
      ⊎ (count (is_recent_failure l x.username x.ip_address x.attempted_at) xs
          < l.login_max_attempts))
    × Throttled l xs

count-le :
    {A : Type 0} (p q : A → Bool) (xs : List A)
    → ((x : A) → p x ≡ true → q x ≡ true)
    → count p xs ≤ count q xs
unfolding count
count-le p q [] h = omega arith
count-le p q (x ∷ xs) h = elim (Bool-cases (p x)) [
  | inl e ↦ rw (e, h x e) (omega (arith, count-le p q xs h))
  | inr e ↦ rw e (elim (Bool-cases (q x)) [
    | inl f ↦ rw f (omega (arith, count-le p q xs h))
    | inr f ↦ rw f (count-le p q xs h)
  ])
]

-- The failures that the limit counts when `x` is tried.
abbrev Counts : Logins → (LoginAttempt → Bool) → Type 0
Counts l mine =
    (x y : LoginAttempt)
    → mine x ≡ true
    → mine y ≡ true
    → str_eq y.username x.username || str_eq y.ip_address x.ip_address ≡ true

window-le :
    (l : Logins) (mine : LoginAttempt → Bool) (t : ℕ) (x : LoginAttempt) (xs : List LoginAttempt)
    → Counts l mine
    → is_failure_at mine l.login_window_seconds t x ≡ true
    → count (is_failure_at mine l.login_window_seconds t) xs
      ≤ count (is_recent_failure l x.username x.ip_address x.attempted_at) xs
window-le l mine t x xs counts here =
    count-le _ _ xs λ y there. ground (arith, counts x y, here, there)

failures-le :
    (l : Logins) (mine : LoginAttempt → Bool) (t : ℕ) (xs : List LoginAttempt)
    → Counts l mine
    → Throttled l xs
    → count (is_failure_at mine l.login_window_seconds t) xs ≤ l.login_max_attempts
unfolding count
failures-le l mine t [] counts h = omega arith
failures-le l mine t (x ∷ xs) counts h =
    elim (Bool-cases (is_failure_at mine l.login_window_seconds t x)) [
      | inr e ↦ rw e (failures-le l mine t xs counts h.1)
      | inl e ↦ rw e (ground (arith, h.0, e, window-le l mine t x xs counts e))
    ]

try_password-Throttled :
    (env : Env) (l : Logins) (c : LoginCall) (u : Option User) (a : Accounts)
    → recent_failures l c a < l.login_max_attempts
    → Throttled l a.attempts
    → Throttled l (try_password env l c u a).0.attempts
unfolding recent_failures
try_password-Throttled env l c none a few h = (inr few, h)
try_password-Throttled env l c (some u) a few h =
    branch (λ (r : Accounts × Result SessionResponse). Throttled l r.0.attempts)
      (is_valid l c.password (some u)) _ _ (λ _. (inl refl, h)) (λ _. (inr few, h))

login-Throttled :
    (env : Env) (l : Logins) (c : LoginCall) (a : Accounts)
    → Throttled l a.attempts
    → Throttled l (login env l c a).0.attempts
unfolding login
login-Throttled env l c a h =
    branch (λ (r : Accounts × Result SessionResponse). Throttled l r.0.attempts)
      (leb l.login_max_attempts (recent_failures l c a)) _ _ (λ _. h)
      (λ e.
        try_password-Throttled env l c (find_user (l.normalize_username c.username) a) a
          (ground (arith, e)) h)

unfoldable pub login_all : Env → Logins → List LoginCall → Accounts → Accounts
login_all env l [] a = a
login_all env l (c ∷ cs) a = login_all env l cs (login env l c a).0

login_all-Throttled :
    (env : Env) (l : Logins) (cs : List LoginCall) (a : Accounts)
    → Throttled l a.attempts
    → Throttled l (login_all env l cs a).attempts
unfolding login_all
login_all-Throttled env l [] a h = h
login_all-Throttled env l (c ∷ cs) a h =
    login_all-Throttled env l cs (login env l c a).0 (login-Throttled env l c a h)

of_user-Counts : (l : Logins) (username : String) → Counts l (of_user username)
of_user-Counts l username x y h k = ground (
  arith,
  h,
  k,
  eq_iff x.username username,
  eq_iff y.username username,
  eq_iff y.username x.username,
)

of_address-Counts : (l : Logins) (ip : String) → Counts l (of_address ip)
of_address-Counts l ip x y h k =
    ground (
      arith,
      h,
      k,
      eq_iff x.ip_address ip,
      eq_iff y.ip_address ip,
      eq_iff y.ip_address x.ip_address,
    )

-- After any sequence of logins, from accounts without attempts, whatever the clock of each call: in
-- every window of the length that is set, one username has at most as many failed attempts as the
-- limit, and so has one address.
pub failures_bounded :
    (env : Env) (l : Logins) (cs : List LoginCall) (a : Accounts) (username ip : String) (t : ℕ)
    → a.attempts ≡ []
    → (count
          (is_failure_at (of_user username) l.login_window_seconds t)
          (login_all env l cs a).attempts
        ≤ l.login_max_attempts)
      × (count
            (is_failure_at (of_address ip) l.login_window_seconds t)
            (login_all env l cs a).attempts
          ≤ l.login_max_attempts)
failures_bounded env l cs a username ip t none_yet =
    let start : Throttled l a.attempts = rw none_yet tt in
    let kept : Throttled l (login_all env l cs a).attempts = login_all-Throttled env l cs a start in
    (
      failures-le l (of_user username) t _ (of_user-Counts l username) kept,
      failures-le l (of_address ip) t _ (of_address-Counts l ip) kept,
    )
