-- ===== src/Database.antt =====
-- The database that the handlers share, and a handler as an action on it. A handler runs in one
-- transaction of src/umat/db/session.py: what it raises before `db.commit()` undoes its writes,
-- so an action returns the new database only beside a result.
pub mod Rules
use e_rakshak_umat.Prelude.{ℕ, suc, String, Bool, Option, none, some, List, if◌then◌else◌}
use e_rakshak_umat.Json.{Fields}
use e_rakshak_umat.Models.Rows.{
  Case, CaseReportSnapshot, Submission, AnalysisRun, AnalysisStage, Executor, ExecutorCredential,
  ExecutorRequest, ExecutorEnrollmentToken, AnalysisAttempt, ExecutorLease, BackendTask,
  BackendCapabilitySnapshot, Artifact, AuditEvent,
}
use e_rakshak_umat.Models.Sessions.{
  WindowsVmProfile, WindowsProfileOperation, AndroidDynamicSession, AndroidSessionCommand,
  WindowsDynamicSession,
}

-- `next_id` stands for the generator of primary keys: a new row takes it and leaves it greater.
pub record Db : Type 0 where
  pub cases : List Case
  pub submissions : List Submission
  pub runs : List AnalysisRun
  pub stages : List AnalysisStage
  pub executors : List Executor
  pub credentials : List ExecutorCredential
  pub requests : List ExecutorRequest
  pub enrollments : List ExecutorEnrollmentToken
  pub attempts : List AnalysisAttempt
  pub leases : List ExecutorLease
  pub tasks : List BackendTask
  pub snapshots : List BackendCapabilitySnapshot
  pub artifacts : List Artifact
  pub windows_sessions : List WindowsDynamicSession
  pub android_sessions : List AndroidDynamicSession
  pub commands : List AndroidSessionCommand
  pub profiles : List WindowsVmProfile
  pub operations : List WindowsProfileOperation
  pub reports : List CaseReportSnapshot
  pub configurations : List (ℕ × Fields)  -- profile snapshots by run
  pub audit : List AuditEvent  -- in the order of `sequence`
  pub next_id : ℕ

-- fastapi.HTTPException
pub record HttpException : Type 0 where
  pub status_code : ℕ
  pub detail : String

pub data Result {ℓ} (A : Type ℓ) : Type ℓ where
  ok : A → Result A
  err : HttpException → Result A

abbrev pub Action {ℓ} : Type ℓ → Type ℓ
Action A = Db → Result (A × Db)

abbrev pub http {ℓ} : {A : Type ℓ} → ℕ → String → Result A
http status text = err (record { status_code = status; detail = text })

abbrev pub pure {ℓ} : {A : Type ℓ} → A → Action A
pure a db = ok (a, db)

abbrev pub raise {ℓ} : {A : Type ℓ} → ℕ → String → Action A
raise status text db = http status text

abbrev pub gets {ℓ} : {A : Type ℓ} → (Db → A) → Action A
gets f db = ok (f db, db)

abbrev pub write : (Db → Db) → Action (Unit {0})
write f db = ok (tt, f db)

-- if test: raise HTTPException(status, text)
abbrev pub raise_if : Bool → ℕ → String → Action (Unit {0})
raise_if test status text db = if test then http status text else ok (tt, db)

-- if not value: raise HTTPException(status, text)
unfoldable pub found {ℓ} : {A : Type ℓ} → Option A → ℕ → String → Db → Result (A × Db)
found none status text db = http status text
found (some a) status text db = ok (a, db)

abbrev pub require {ℓ} : {A : Type ℓ} → (Db → Option A) → ℕ → String → Action A
require f status text db = found (f db) status text db

-- a pure check that may raise
unfoldable pub lifted {ℓ} : {A : Type ℓ} → Result A → Db → Result (A × Db)
lifted (ok a) db = ok (a, db)
lifted (err e) db = err e

abbrev pub lift {ℓ} : {A : Type ℓ} → Result A → Action A
lift r db = lifted r db

abbrev pub after {ℓ κ} :
    {A : Type ℓ} {B : Type κ} → Result (A × Db) → (A → Action B) → Result (B × Db)
after (ok (a, db)) f = f a db
after (err e) f = err e

infixl 5 ◌>>=◌ ◌>>◌
abbrev pub ◌>>=◌ {ℓ κ} : {A : Type ℓ} {B : Type κ} → Action A → (A → Action B) → Action B
◌>>=◌ m f db = after (m db) f

abbrev pub ◌>>◌ {ℓ} : {B : Type ℓ} → Action (Unit {0}) → Action B → Action B
m >> k = m >>= λ _. k

-- a primary key for a new row
abbrev pub new_id : Action ℕ
new_id db = ok (db.next_id, record db { next_id = suc db.next_id })

-- The database after a request: its writes if it returned, and nothing of them if it raised.
abbrev pub settle {ℓ} : {A : Type ℓ} → Result (A × Db) → Db → Db
settle (ok (a, db')) db = db'
settle (err e) db = db

abbrev pub commit {ℓ} : {A : Type ℓ} → Action A → Db → Db
commit m db = settle (m db) db
