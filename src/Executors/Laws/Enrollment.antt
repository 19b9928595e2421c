-- ===== src/Executors/Laws/Enrollment.antt =====
-- The enrollment of an executor: register_executor of src/umat/api/executor_routes.py.
use e_rakshak_umat.Prelude.{
  ℕ, ◌≡◌, refl, String, true, ◌||◌, some, List, [], ◌∷◌, leb, str_eq, is_some, arith,
}
use e_rakshak_umat.Prelude.Tables.{scalar, update}
use e_rakshak_umat.Models.Rows.{ExecutorEnrollmentToken, enrollment_entity}
use e_rakshak_umat.Environment.{Env, token_hash}
use e_rakshak_umat.Database.{Db, http, found}
use e_rakshak_umat.Database.Rules.{Ensures, Ensures-found, Ensures-test, Ensures-lifted}
use e_rakshak_umat.Audit.{append_audit}
use e_rakshak_umat.Executors.Registration.{
  RegisterExecutorRequest, RegisterExecutorResponse, register_executor, enroll, key_of,
}

abbrev used : ℕ → ExecutorEnrollmentToken → ExecutorEnrollmentToken
used now e = record e { used_at = some now }

scalar-update :
    (digest : String) (now : ℕ) (xs : List ExecutorEnrollmentToken) (e : ExecutorEnrollmentToken)
    → scalar (λ x. str_eq x.token_hash digest) xs ≡ some e
    → scalar (λ x. str_eq x.token_hash digest) (update e.id (used now) xs) ≡ some (used now e)
unfolding scalar update
scalar-update digest now [] e h = ground arith
scalar-update digest now (x ∷ xs) e h = ground (arith, scalar-update digest now xs e)

refused :
    (env : Env) (now : ℕ) (credential : String) (body : RegisterExecutorRequest)
    (e : ExecutorEnrollmentToken) (db : Db)
    → scalar (λ x. str_eq x.token_hash (token_hash env body.enrollment_token)) db.enrollments
      ≡ some e
    → is_some e.used_at ≡ true
    → register_executor env now credential body db ≡ http 401 "invalid or expired enrollment token"
unfolding register_executor found
refused env now credential body e db h u = rw (h, u) refl

abbrev pub Refused :
    Env → ℕ → String → RegisterExecutorRequest → RegisterExecutorResponse → Db → Type 0
Refused env later other again response db =
    register_executor env later other again db ≡ http 401 "invalid or expired enrollment token"

-- An enrollment token enrolls one executor: after a registration that returns, any other with the
-- same token, at any time, is refused with the status 401.
pub register_executor_once :
    (env : Env) (now later : ℕ) (credential other : String) (body again : RegisterExecutorRequest)
    (db : Db)
    → again.enrollment_token ≡ body.enrollment_token
    → Ensures (Refused env later other again) (register_executor env now credential body db)
unfolding register_executor enroll append_audit
register_executor_once env now later credential other body again db same =
    Ensures-found (Refused env later other again) _ _ _ _ _ λ e there.
      Ensures-test (Refused env later other again) (is_some e.used_at || leb e.expires_at now) _ _
        db _
        λ _.
          Ensures-lifted (Refused env later other again)
            (key_of env (env.b64decode body.public_key)) db _
            λ key _. record {
              holds =
                  refused env later other again (used now e) _
                    (rw same (
                      scalar-update (token_hash env body.enrollment_token) now db.enrollments e
                        there))
                    refl;
            }
