-- ===== src/Executors/Custody.antt =====
-- What the executor protocol keeps of the tables of stages, leases and attempts: a stage has an
-- unreleased lease only while it is leased or running, and then one; and it never has more attempts
-- than `max_attempts`, with one to spare while it is queued.
pub mod Idle
pub mod Steps
pub mod Expiry
pub mod Leases
pub mod Claim
pub mod Workflow
pub mod Frame
pub mod Invariant
pub mod Routes
use e_rakshak_umat.Prelude.{
  ℕ, zero, suc, ◌+◌, ◌≤◌, ◌<◌, ◌≡◌, Bool, true, false, ◌&&◌, Option, none, some, List, ◌==◌,
  is_none, arith, if◌then◌else◌,
}
use e_rakshak_umat.Prelude.Tables.{get, count, Keyed}
use e_rakshak_umat.Models.{StageState}
use e_rakshak_umat.Models.Rows.{
  AnalysisStage, AnalysisAttempt, ExecutorLease, stage_entity, lease_entity,
}
use e_rakshak_umat.Environment.{Env, policy_for_stage}
use e_rakshak_umat.Models.{StageType}
use e_rakshak_umat.Database.{Db}
use e_rakshak_umat.Executors.Workflow.{is_held, is_pending, attempts_of}

abbrev pub holds : ℕ → ExecutorLease → Bool
holds stage_id l = l.stage_id == stage_id && is_none l.released_at

-- the unreleased leases of a stage
abbrev pub active_leases : ℕ → List ExecutorLease → ℕ
active_leases stage_id leases = count (holds stage_id) leases

abbrev pub capacity : Option AnalysisStage → ℕ
capacity none = 0
capacity (some s) = if is_held s.state then 1 else 0

-- the attempt that a pending stage is still owed
abbrev pub owed : Option AnalysisStage → ℕ
owed none = 0
owed (some s) = if is_pending s.state then 1 else 0

abbrev pub allowance : Option AnalysisStage → ℕ
allowance none = 0
allowance (some s) = s.max_attempts

pub record InCustody (stages : List AnalysisStage) (leases : List ExecutorLease)
    (attempts : List AnalysisAttempt) (next_id : ℕ) : Type 0 where
  pub keyed : Keyed next_id stages
  pub keyed_leases : Keyed next_id leases
  pub exclusive : (i : ℕ) → active_leases i leases ≤ capacity (get i stages)
  pub budget :
      (i : ℕ) → count (attempts_of i) attempts + owed (get i stages) ≤ allowance (get i stages)

abbrev pub Custody : Db → Type 0
Custody db = InCustody db.stages db.leases db.attempts db.next_id

-- The stage `i` has no unreleased lease; its limit of attempts and those it had are given.
pub record IdleIn (i limit made : ℕ) (stages : List AnalysisStage) (leases : List ExecutorLease)
    (attempts : List AnalysisAttempt) (next_id : ℕ) : Type 0 where
  pub custody : InCustody stages leases attempts next_id
  pub idle : active_leases i leases ≡ 0
  pub limit_of : (s : AnalysisStage) → get i stages ≡ some s → s.max_attempts ≡ limit
  pub made_of : count (attempts_of i) attempts ≡ made

abbrev pub Idle : ℕ → ℕ → ℕ → Db → Type 0
Idle i limit made db = IdleIn i limit made db.stages db.leases db.attempts db.next_id

-- the settings grant every stage an attempt
abbrev pub GrantsAttempts : Env → Type 0
GrantsAttempts env = (t : StageType) → 1 ≤ (policy_for_stage env.settings t).0
