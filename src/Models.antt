-- ===== src/Models.antt =====
-- The enumerations of src/umat/db/models.py. The rows of the tables are in Models/Rows.antt, the
-- rows of the dynamic sessions in Models/Sessions.antt.
pub mod Rows
pub mod Sessions
use e_rakshak_umat.Prelude.{ℕ, String, Bool, Option, none, some, str_eq, ◌==◌, if◌then◌else◌}

pub data Platform : Type 0 where
  windows android : Platform

pub data RunStatus : Type 0 where
  awaiting_confirmation queued running cancelling terminal : RunStatus

pub data RunResult : Type 0 where
  completed partial inconclusive failed cancelled unsupported : RunResult

pub data StageType : Type 0 where
  platform_analysis c2_analysis platform_adaptation c2_adaptation case_aggregation : StageType
  report_generation : StageType

pub data StageState : Type 0 where
  waiting queued leased running completed partial failed cancelled unsupported : StageState

pub data AttemptState : Type 0 where
  leased running completed failed cancelled expired : AttemptState

pub data AccessTier : Type 0 where
  officer analyst administrator : AccessTier

pub data ExecutorStatus : Type 0 where
  pending active disabled : ExecutorStatus

pub data WindowsProfileState : Type 0 where
  provisioning active retired deleting deleted error : WindowsProfileState

pub data WindowsProfileOperationType : Type 0 where
  create delete : WindowsProfileOperationType

pub data WindowsProfileOperationState : Type 0 where
  queued leased completed failed : WindowsProfileOperationState

pub data Verdict : Type 0 where
  malicious suspicious no_malicious_activity_observed inconclusive failed : Verdict

-- the `value` of each member
abbrev pub platform_value : Platform → String
platform_value windows = "windows"
platform_value android = "android"

abbrev pub run_status_value : RunStatus → String
run_status_value awaiting_confirmation = "awaiting_confirmation"
run_status_value queued = "queued"
run_status_value running = "running"
run_status_value cancelling = "cancelling"
run_status_value terminal = "terminal"

abbrev pub run_result_value : RunResult → String
run_result_value completed = "completed"
run_result_value partial = "partial"
run_result_value inconclusive = "inconclusive"
run_result_value failed = "failed"
run_result_value cancelled = "cancelled"
run_result_value unsupported = "unsupported"

abbrev pub stage_type_value : StageType → String
stage_type_value platform_analysis = "platform_analysis"
stage_type_value c2_analysis = "c2_analysis"
stage_type_value platform_adaptation = "platform_adaptation"
stage_type_value c2_adaptation = "c2_adaptation"
stage_type_value case_aggregation = "case_aggregation"
stage_type_value report_generation = "report_generation"

abbrev pub stage_state_value : StageState → String
stage_state_value waiting = "waiting"
stage_state_value queued = "queued"
stage_state_value leased = "leased"
stage_state_value running = "running"
stage_state_value completed = "completed"
stage_state_value partial = "partial"
stage_state_value failed = "failed"
stage_state_value cancelled = "cancelled"
stage_state_value unsupported = "unsupported"

-- `StageState(text)`, none where it raises ValueError
unfoldable pub stage_state_of : String → Option StageState
stage_state_of s =
    if str_eq s "waiting"
    then some waiting
    else if str_eq s "queued"
    then some queued
    else if str_eq s "leased"
    then some leased
    else if str_eq s "running"
    then some running
    else if str_eq s "completed"
    then some completed
    else if str_eq s "partial"
    then some partial
    else if str_eq s "failed"
    then some failed
    else if str_eq s "cancelled"
    then some cancelled
    else if str_eq s "unsupported"
    then some unsupported
    else none

-- `==` of members, by their positions
abbrev type_index : StageType → ℕ
type_index platform_analysis = 0
type_index c2_analysis = 1
type_index platform_adaptation = 2
type_index c2_adaptation = 3
type_index case_aggregation = 4
type_index report_generation = 5

abbrev pub type_eq : StageType → StageType → Bool
type_eq a b = type_index a == type_index b

abbrev state_index : StageState → ℕ
state_index waiting = 0
state_index queued = 1
state_index leased = 2
state_index running = 3
state_index completed = 4
state_index partial = 5
state_index failed = 6
state_index cancelled = 7
state_index unsupported = 8

abbrev pub state_eq : StageState → StageState → Bool
state_eq a b = state_index a == state_index b

abbrev status_index : RunStatus → ℕ
status_index awaiting_confirmation = 0
status_index queued = 1
status_index running = 2
status_index cancelling = 3
status_index terminal = 4

abbrev pub status_eq : RunStatus → RunStatus → Bool
status_eq a b = status_index a == status_index b

abbrev platform_index : Platform → ℕ
platform_index windows = 0
platform_index android = 1

abbrev pub platform_eq : Platform → Platform → Bool
platform_eq a b = platform_index a == platform_index b
