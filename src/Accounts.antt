-- ===== src/Accounts.antt =====
-- Users, their logins and their sessions: src/umat/auth/dependencies.py and
-- src/umat/api/auth_routes.py. Every branch of the routes commits, so a call returns the tables that
-- it leaves.
pub mod Throttle
pub mod Laws
use e_rakshak_umat.Prelude.{
  ℕ, suc, ◌+◌, String, Bool, true, false, not, ◌&&◌, ◌||◌, Option, none, some, List, [], ◌∷◌, ◌++◌,
  ◌==◌, leb, ltb, str_eq, contains, is_some, if◌then◌else◌,
}
use e_rakshak_umat.Prelude.Tables.{Entity, count, get, scalar, update}
use e_rakshak_umat.Json.{Fields, fields, string, end}
use e_rakshak_umat.Models.Rows.{AuditEvent}
use e_rakshak_umat.Environment.{Env, token_hash, seconds}
use e_rakshak_umat.Database.{Result, ok, err, http}
use e_rakshak_umat.Audit.{Entry, next_event}

pub record User : Type 0 where
  pub id : ℕ
  pub username : String
  pub password_hash : String
  pub enabled : Bool
  pub roles : List String

pub record Session : Type 0 where
  pub id : ℕ
  pub user_id : ℕ
  pub token_hash : String
  pub csrf_hash : String
  pub expires_at : ℕ
  pub revoked_at : Option ℕ
  pub last_seen_at : ℕ

pub record LoginAttempt : Type 0 where
  pub username : String
  pub ip_address : String
  pub succeeded : Bool
  pub attempted_at : ℕ

instance abbrev pub user_entity : Entity User
user_entity = record { key = λ u. u.id }

instance abbrev pub session_entity : Entity Session
session_entity = record { key = λ s. s.id }

pub record Accounts : Type 0 where
  pub users : List User
  pub sessions : List Session
  pub attempts : List LoginAttempt
  pub audit : List AuditEvent
  pub next_id : ℕ

-- login_window_seconds, login_max_attempts and session_ttl_seconds of the settings, and what the
-- routes take from outside: the text functions of `normalize_username` and the password hasher
pub record Logins : Type 0 where
  pub login_window_seconds : ℕ
  pub login_max_attempts : ℕ
  pub session_ttl_seconds : ℕ
  pub normalize_username : String → String
  pub verify_password : String → String → Bool

-- a request of `login`, its clock and the two tokens that are drawn
pub record LoginCall : Type 0 where
  pub username : String
  pub password : String
  pub ip : String
  pub now : ℕ
  pub session_token : String
  pub csrf_token : String

-- the answer of `login`; its two cookies hold the two tokens of the call
pub record SessionResponse : Type 0 where
  pub user_id : ℕ
  pub username : String
  pub roles : List String
  pub expires_at : ℕ
  pub csrf_token : String

abbrev pub log : Env → ℕ → Entry → Accounts → Accounts
log env now entry a = record a { audit = a.audit ++ next_event env now entry a.audit ∷ [] }

abbrev auth_entry : String → Option String → String → String → String → Fields → Entry
auth_entry actor_type actor_id action target_type target_id payload = record {
  actor_type = actor_type;
  actor_id = actor_id;
  action = action;
  target_type = target_type;
  target_id = some target_id;
  payload = payload;
}

abbrev anonymous_entry : String → String → String → Entry
anonymous_entry action username ip =
    auth_entry "anonymous" none action "user" username (fields (("ip", string ip) ∷ []))

-- a failure that counts against the username or the address; `attempted_at >= now - window`
abbrev pub is_recent_failure : Logins → String → String → ℕ → LoginAttempt → Bool
is_recent_failure l username ip now a =
    not a.succeeded
    && (leb now (a.attempted_at + seconds l.login_window_seconds)
        && (str_eq a.username username || str_eq a.ip_address ip))

unfoldable pub recent_failures : Logins → LoginCall → Accounts → ℕ
recent_failures l c a =
    count (is_recent_failure l (l.normalize_username c.username) c.ip c.now) a.attempts

unfoldable pub find_user : String → Accounts → Option User
find_user username a = scalar (λ u. str_eq u.username username) a.users

abbrev pub is_valid : Logins → String → Option User → Bool
is_valid l password none = false
is_valid l password (some u) = u.enabled && l.verify_password u.password_hash password

abbrev pub new_session : Env → Logins → LoginCall → User → ℕ → Session
new_session env l c u id = record {
  id = id;
  user_id = u.id;
  token_hash = token_hash env c.session_token;
  csrf_hash = token_hash env c.csrf_token;
  expires_at = c.now + seconds l.session_ttl_seconds;
  revoked_at = none;
  last_seen_at = c.now;
}

abbrev attempt_of : Logins → LoginCall → Bool → LoginAttempt
attempt_of l c valid = record {
  username = l.normalize_username c.username;
  ip_address = c.ip;
  succeeded = valid;
  attempted_at = c.now;
}

abbrev pub note_attempt : Logins → LoginCall → Bool → Accounts → Accounts
note_attempt l c valid a = record a { attempts = attempt_of l c valid ∷ a.attempts }

-- The session row, its audit event and the response; the text of the session's key is read before the
-- row has one.
abbrev pub open_session :
    Env → Logins → LoginCall → User → Accounts → Accounts × Result SessionResponse
open_session env l c u a = (
  log env c.now
      (auth_entry "user" (some (env.str_uuid u.id)) "auth.succeeded" "session" "None"
        (fields (("ip", string c.ip) ∷ [])))
      (record a {
        sessions = new_session env l c u a.next_id ∷ a.sessions;
        next_id = suc a.next_id;
      }),
  ok (record {
    user_id = u.id;
    username = u.username;
    roles = u.roles;
    expires_at = c.now + seconds l.session_ttl_seconds;
    csrf_token = c.csrf_token;
  }),
)

abbrev refused : Env → Logins → LoginCall → Accounts → Accounts × Result SessionResponse
refused env l c a = (
  log env c.now (anonymous_entry "auth.failed" (l.normalize_username c.username) c.ip) a,
  http 401 "invalid username or password",
)

abbrev pub try_password :
    Env → Logins → LoginCall → Option User → Accounts → Accounts × Result SessionResponse
try_password env l c none a = refused env l c (note_attempt l c false a)
try_password env l c (some u) a =
    if is_valid l c.password (some u)
    then open_session env l c u (note_attempt l c true a)
    else refused env l c (note_attempt l c false a)

unfoldable pub login : Env → Logins → LoginCall → Accounts → Accounts × Result SessionResponse
login env l c a =
    if leb l.login_max_attempts (recent_failures l c a)
    then (
      log env c.now (anonymous_entry "auth.throttled" (l.normalize_username c.username) c.ip) a,
      http 429 "login temporarily throttled",
    )
    else try_password env l c (find_user (l.normalize_username c.username) a) a

pub record Principal : Type 0 where
  pub user : User
  pub session : Session
  pub roles : List String

-- a request with its session cookie and its header for the token against forgery
pub record WebRequest : Type 0 where
  pub method : String
  pub umat_session : Option String
  pub x_csrf_token : Option String
  pub now : ℕ

-- the session and its user, if the session is live
abbrev pub live : ℕ → Option Session → Accounts → Option (Session × User)
live now none a = none
live now (some s) a =
    if is_some s.revoked_at || leb s.expires_at now then none else elim (get s.user_id a.users) [
      | none ↦ none
      | some u ↦ if u.enabled then some (s, u) else none
    ]

abbrev pub presented : Env → Option String → Session → Bool
presented env none s = false
presented env (some t) s = not (str_eq t "") && str_eq (token_hash env t) s.csrf_hash

abbrev pub is_safe : String → Bool
is_safe method = contains method ("GET" ∷ "HEAD" ∷ "OPTIONS" ∷ [])

abbrev pub seen : ℕ → Session → Session
seen now s = record s { last_seen_at = now }

abbrev pub identify :
    Env → WebRequest → Option (Session × User) → Accounts → Result (Principal × Accounts)
identify env r none a = http 401 "session expired or revoked"
identify env r (some (s, u)) a =
    if not (is_safe r.method) && not (presented env r.x_csrf_token s)
    then http 403 "invalid CSRF token"
    else ok (
      record { user = u; session = seen r.now s; roles = u.roles },
      record a { sessions = update s.id (seen r.now) a.sessions },
    )

abbrev pub session_of : Env → String → Accounts → Option Session
session_of env token a = scalar (λ s. str_eq s.token_hash (token_hash env token)) a.sessions

abbrev pub principal_of :
    Env → WebRequest → Option String → Accounts → Result (Principal × Accounts)
principal_of env r none a = http 401 "authentication required"
principal_of env r (some token) a =
    if str_eq token ""
    then http 401 "authentication required"
    else identify env r (live r.now (session_of env token a) a) a

unfoldable pub current_principal : Env → WebRequest → Accounts → Result (Principal × Accounts)
current_principal env r a = principal_of env r r.umat_session a

abbrev pub meets : List String → List String → Bool
meets [] required = false
meets (role ∷ roles) required = contains role required || meets roles required

unfoldable pub require_roles : List String → Principal → Result Principal
require_roles required p =
    if not (meets p.roles required) then http 403 "insufficient role" else ok p

abbrev pub revoked : ℕ → Session → Session
revoked now s = record s { revoked_at = some now }

unfoldable pub logout : Env → ℕ → Principal → Accounts → Accounts
logout env now p a =
    log env now
      (auth_entry "user" (some (env.str_uuid p.user.id)) "auth.logout" "session"
        (env.str_uuid p.session.id) end)
      (record a { sessions = update p.session.id (revoked now) a.sessions })
