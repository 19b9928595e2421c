-- ===== src/Tests/Logins.antt =====
-- Logins of one user, and her session.
use e_rakshak_umat.Prelude.{
  ◌≢◌, eq_iff, arith, false, String, contains, ◌+◌, ◌<◌, ◌≤◌, ◌≡◌, refl, true, none, some, [], ◌∷◌,
  str_eq, ltb, if◌then◌else◌, arith,
}
use e_rakshak_umat.Prelude.Tables.{count, scalar, get, update}
use e_rakshak_umat.Environment.{seconds, token_hash}
use e_rakshak_umat.Tests.Fixtures.{runtime}
use e_rakshak_umat.Accounts.{
  Accounts, User, Session, Logins, LoginCall, WebRequest, Principal, login, current_principal,
  logout, recent_failures, find_user, seen,
}
use e_rakshak_umat.Accounts.Throttle.{
  is_failure_at, of_user, of_address, login_all, failures_bounded,
}
use e_rakshak_umat.Accounts.Laws.{user_of, session_lifetime, logout_ends}

abbrev asha : User
asha = record {
  id = 3;
  username = "asha";
  password_hash = "secret";
  enabled = true;
  roles = "analyst" ∷ [];
}

abbrev accounts : Accounts
accounts = record { users = asha ∷ []; sessions = []; attempts = []; audit = []; next_id = 7 }

abbrev logins : Logins
logins = record {
  login_window_seconds = 300;
  login_max_attempts = 2;
  session_ttl_seconds = 600;
  normalize_username = λ s. s;
  verify_password = str_eq;
}

abbrev right : LoginCall
right = record {
  username = "asha";
  password = "secret";
  ip = "10.0.0.9";
  now = 1000;
  session_token = "token";
  csrf_token = "csrf";
}

abbrev wrong : LoginCall
wrong = record right { password = "guess" }

abbrev request : WebRequest
request = record {
  method = "POST";
  umat_session = some "token";
  x_csrf_token = some "csrf";
  now = 2000;
}

failures_bounded_example :
    (count
        (is_failure_at (of_user "asha") 300 1000)
        (login_all runtime logins (wrong ∷ wrong ∷ wrong ∷ right ∷ []) accounts).attempts
      ≤ 2)
    × (count
          (is_failure_at (of_address "10.0.0.9") 300 1000)
          (login_all runtime logins (wrong ∷ wrong ∷ wrong ∷ right ∷ []) accounts).attempts
        ≤ 2)
failures_bounded_example =
    failures_bounded runtime logins (wrong ∷ wrong ∷ wrong ∷ right ∷ []) accounts "asha" "10.0.0.9"
      1000 refl

differs : (s t : String) → str_eq s t ≡ false → s ≢ t
differs s t h = ground (arith, h, eq_iff s t)

few : recent_failures logins right accounts < 2
unfolding recent_failures count
few = omega arith

session_lifetime_example :
    user_of (current_principal runtime request (login runtime logins right accounts).0)
    ≡ (if ltb 2000 (1000 + seconds 600) then some 3 else none)
unfolding find_user scalar get
session_lifetime_example =
    session_lifetime runtime logins right asha accounts few refl refl request refl
      (differs "token" "" refl) (differs "csrf" "" refl) refl refl

abbrev session : Session
session = record {
  id = 7;
  user_id = 3;
  token_hash = "token";
  csrf_hash = "csrf";
  expires_at = 5000;
  revoked_at = none;
  last_seen_at = 1000;
}

abbrev open_accounts : Accounts
open_accounts = record accounts { sessions = session ∷ [] }

abbrev seen_accounts : Accounts
seen_accounts = record accounts { sessions = seen 2000 session ∷ [] }

abbrev principal : Principal
principal = record { user = asha; session = seen 2000 session; roles = "analyst" ∷ [] }

logout_ends_example :
    user_of (current_principal runtime request (logout runtime 2100 principal seen_accounts)) ≡ none
unfolding current_principal scalar get update token_hash contains
logout_ends_example =
    logout_ends runtime request request "token" 2100 open_accounts seen_accounts principal refl refl
      refl
