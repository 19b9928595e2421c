-- ===== src/Accounts/Laws.antt =====
-- How long a session lives.
use e_rakshak_umat.Prelude.{
  ℕ, ◌+◌, ◌<◌, ◌≡◌, ◌≢◌, refl, sym, ap, ◌∙◌, inl, inr, String, Bool, true, false, ◌||◌, Option,
  none, some, List, [], ◌∷◌, ◌==◌, ==_iff, leb, ltb, str_eq, eq_iff, is_some, arith, Bool-cases,
  if◌then◌else◌,
}
use e_rakshak_umat.Prelude.Tables.{get, scalar, update}
use e_rakshak_umat.Environment.{Env, seconds, token_hash}
use e_rakshak_umat.Database.{Result, ok, err, http}
use e_rakshak_umat.Accounts.{
  Accounts, User, Session, Logins, LoginCall, WebRequest, Principal, recent_failures, find_user,
  is_valid, new_session, login, live, identify, presented, is_safe, seen, session_of, principal_of,
  current_principal, revoked, logout, user_entity, session_entity,
}

-- the user of a request, none where it is refused
abbrev pub user_of : Result (Principal × Accounts) → Option ℕ
user_of (ok (p, a)) = some p.user.id
user_of (err e) = none

text_ne : (s t : String) → s ≢ t → str_eq s t ≡ false
text_ne s t h = ground (arith, eq_iff s t)

text_eq : (s : String) → str_eq s s ≡ true
text_eq s = (eq_iff s s).1 refl

live-lifetime :
    (s : Session) (u : User) (a : Accounts) (now : ℕ)
    → s.revoked_at ≡ none
    → get s.user_id a.users ≡ some u
    → u.enabled ≡ true
    → live now (some s) a ≡ (if ltb now s.expires_at then some (s, u) else none)
live-lifetime s u a now fresh there enabled = elim (Bool-cases (leb s.expires_at now)) [
  | inl e ↦
      let over : ltb now s.expires_at ≡ false = ground arith in
      let dead : is_some s.revoked_at || leb s.expires_at now ≡ true = ground (arith, fresh, e) in
      rw dead (rw over refl)
  | inr e ↦
      let left : ltb now s.expires_at ≡ true = ground arith in
      let alive : is_some s.revoked_at || leb s.expires_at now ≡ false = ground (arith, fresh, e) in
      rw alive (rw left (rw there (rw enabled refl)))
]

identify-user :
    (env : Env) (r : WebRequest) (s : Session) (u : User) (a : Accounts)
    → presented env r.x_csrf_token s ≡ true
    → user_of (identify env r (some (s, u)) a) ≡ some u.id
identify-user env r s u a shown =
    rw shown (elim (Bool-cases (is_safe r.method)) [ inl e ↦ rw e refl | inr e ↦ rw e refl ])

module _ (env : Env) (l : Logins) (c : LoginCall) (u : User) (a : Accounts)
    (few : recent_failures l c a < l.login_max_attempts)
    (known : find_user (l.normalize_username c.username) a ≡ some u)
    (valid : is_valid l c.password (some u) ≡ true) where
  opened : (login env l c a).0.sessions ≡ new_session env l c u a.next_id ∷ a.sessions
  unfolding login
  opened =
      let below : leb l.login_max_attempts (recent_failures l c a) ≡ false = ground arith in
      rw (below, login) (rw known (rw valid refl))

  same_users : (login env l c a).0.users ≡ a.users
  unfolding login
  same_users =
      let below : leb l.login_max_attempts (recent_failures l c a) ≡ false = ground arith in
      rw (below, login) (rw known (rw valid refl))

  own_session :
      session_of env c.session_token (login env l c a).0 ≡ some (new_session env l c u a.next_id)
  unfolding scalar
  own_session = rw opened (rw (text_eq (token_hash env c.session_token)) refl)

  -- After a login the cookie and the token against forgery that it gave out, sent with any method,
  -- stand for the user until the lifetime of the session is over, and never after that.
  pub session_lifetime :
      (r : WebRequest)
      → get u.id a.users ≡ some u
      → c.session_token ≢ ""
      → c.csrf_token ≢ ""
      → r.umat_session ≡ some c.session_token
      → r.x_csrf_token ≡ some c.csrf_token
      → user_of (current_principal env r (login env l c a).0)
        ≡ (if ltb r.now (c.now + seconds l.session_ttl_seconds) then some u.id else none)
  unfolding current_principal
  session_lifetime r there token csrf cookie header =
      let after : Accounts = (login env l c a).0 in
      let new : Session = new_session env l c u a.next_id in
      let alive : live r.now (some new) after
          ≡ (if ltb r.now new.expires_at then some (new, u) else none) =
        live-lifetime new u after r.now refl (rw same_users there) (ground (arith, valid)) in
      let shown : presented env r.x_csrf_token new ≡ true =
        rw header
          (rw (text_ne c.csrf_token "" csrf) (rw (text_eq (token_hash env c.csrf_token)) refl)) in
      rw (cookie, current_principal)
        (rw (text_ne c.session_token "" token) (
          rw own_session (
            rw alive (elim (Bool-cases (ltb r.now new.expires_at)) [
              | inl e ↦ rw e (identify-user env r new u after shown)
              | inr e ↦ rw e refl
            ]))))

scalar-update :
    (p : Session → Bool) (f : Session → Session) (s : Session) (xs : List Session)
    → ((x : Session) → p (f x) ≡ p x)
    → scalar p xs ≡ some s
    → scalar p (update s.id f xs) ≡ some (f s)
unfolding scalar update
scalar-update p f s [] keeps h = cc
scalar-update p f s (x ∷ xs) keeps h = elim (Bool-cases (p x)) [
  | inl e ↦
      let same : x ≡ s = ground (arith, h, e) in
      rw same (rw ((==_iff s.id s.id).1 refl) (rw (keeps s ∙ ap p (sym same) ∙ e) refl))
  | inr e ↦
      let later : scalar p xs ≡ some s = ground (arith, h, e) in
      let rest = scalar-update p f s xs keeps later in
      elim (Bool-cases (x.id == s.id)) [
        | inl k ↦ rw k (rw (keeps x ∙ e) rest)
        | inr k ↦ rw k (rw e rest)
      ]
]

live-some :
    (now : ℕ) (o : Option Session) (a : Accounts) (s : Session) (u : User)
    → live now o a ≡ some (s, u)
    → o ≡ some s
live-some now none a s u h = cc
live-some now (some x) a s u h = ground (arith, h)

identify-some :
    (env : Env) (r : WebRequest) (o : Option (Session × User)) (a : Accounts) (p : Principal)
    (after : Accounts)
    → identify env r o a ≡ ok (p, after)
    → (s : Session) × (u : User) × (o ≡ some (s, u))
      × (p.session ≡ seen r.now s)
      × (after.sessions ≡ update s.id (seen r.now) a.sessions)
identify-some env r none a p after h = cc
identify-some env r (some (s, u)) a p after h = (s, u, refl, ground (arith, h), ground (arith, h))

-- the session that a request was answered for
principal-some :
    (env : Env) (r : WebRequest) (token : String) (a : Accounts) (p : Principal) (after : Accounts)
    → principal_of env r (some token) a ≡ ok (p, after)
    → (s : Session) × (session_of env token a ≡ some s)
      × (p.session ≡ seen r.now s)
      × (after.sessions ≡ update s.id (seen r.now) a.sessions)
principal-some env r token a p after h = elim (Bool-cases (str_eq token "")) [
  | inl e ↦
      let refused : ◌≡◌ {A = Result (Principal × Accounts)} (http 401 "authentication required")
          (ok (p, after)) =
        rw e at h in
      cc
  | inr e ↦
      let answered : identify env r (live r.now (session_of env token a) a) a ≡ ok (p, after) =
        rw e at h in
      let (s, u, was, kept, moved) =
        identify-some env r (live r.now (session_of env token a) a) a p after answered in
      (s, live-some r.now (session_of env token a) a s u was, kept, moved)
]

revoked-found :
    (hash : String) (s : Session) (id seen_at now : ℕ) (xs ys : List Session)
    → id ≡ s.id
    → ys ≡ update s.id (seen seen_at) xs
    → scalar (λ x. str_eq x.token_hash hash) xs ≡ some s
    → scalar (λ x. str_eq x.token_hash hash) (update id (revoked now) ys)
      ≡ some (revoked now (seen seen_at s))
revoked-found hash s id seen_at now xs ys same moved there =
    rw (same, moved)
      (scalar-update _ (revoked now) (seen seen_at s) (update s.id (seen seen_at) xs) (λ x. refl)
        (scalar-update _ (seen seen_at) s xs (λ x. refl) there))

gone :
    (env : Env) (again : WebRequest) (token : String) (s : Session) (a : Accounts)
    → session_of env token a ≡ some s
    → is_some s.revoked_at ≡ true
    → user_of (principal_of env again (some token) a) ≡ none
gone env again token s a there over = elim (Bool-cases (str_eq token "")) [
  | inl e ↦ rw e refl
  | inr e ↦ rw e (rw there (rw over refl))
]

-- A logout ends the session for good: a later request with its cookie is refused, whatever its clock,
-- its method and its header.
pub logout_ends :
    (env : Env) (r again : WebRequest) (token : String) (now : ℕ) (a after : Accounts)
    (p : Principal)
    → r.umat_session ≡ some token
    → again.umat_session ≡ some token
    → current_principal env r a ≡ ok (p, after)
    → user_of (current_principal env again (logout env now p after)) ≡ none
unfolding current_principal logout
logout_ends env r again token now a after p cookie same answered =
    let own : principal_of env r (some token) a ≡ ok (p, after) =
      ap (λ o. principal_of env r o a) (sym cookie) ∙ answered in
    let (s, there, kept, moved) = principal-some env r token a p after own in
    rw same (
      gone env again token (revoked now (seen r.now s)) (logout env now p after)
        (revoked-found (token_hash env token) s p.session.id r.now now a.sessions after.sessions
          (ap (λ (x : Session). x.id) kept) moved there)
        refl)
