-- ===== src/Run/Kinds.antt =====
-- tf-block-runner/tfrun: executionstatus.go, behavior.go, datatype.go, stepids.go.
pub mod Laws
mod Tests
use building_block_runner.Prelude.{
  String, Bool, true, false, Option, none, some, List, [], ◌∷◌, str_eq, if◌then◌else◌,
}

pub data ExecutionStatus : Type 0 where
  pending in_progress succeeded failed aborted : ExecutionStatus

-- status == SUCCEEDED || status == FAILED || status == ABORTED
abbrev pub is_terminal_state : ExecutionStatus → Bool
is_terminal_state pending = false
is_terminal_state in_progress = false
is_terminal_state succeeded = true
is_terminal_state failed = true
is_terminal_state aborted = true

unfoldable pub status_str : ExecutionStatus → String
status_str pending = "PENDING"
status_str in_progress = "IN_PROGRESS"
status_str succeeded = "SUCCEEDED"
status_str failed = "FAILED"
status_str aborted = "ABORTED"

-- `UNKNOWN_BEHAVIOR` only accompanies an error, so `determine_behavior` returns `none` for it.
pub data Behavior : Type 0 where
  apply detect destroy : Behavior

unfoldable pub behavior_str : Behavior → String
behavior_str apply = "APPLY"
behavior_str detect = "DETECT"
behavior_str destroy = "DESTROY"

abbrev pub behaviors : List Behavior
behaviors = apply ∷ detect ∷ destroy ∷ []

find_behavior : String → List Behavior → Option Behavior
find_behavior s [] = none
find_behavior s (b ∷ bs) = if str_eq (behavior_str b) s then some b else find_behavior s bs

unfoldable pub determine_behavior : String → Option Behavior
unfolding find_behavior behavior_str
determine_behavior s = find_behavior s behaviors

-- `DataType` is a string in the source; every value but these is `other`.
pub data DataType : Type 0 where
  string integer boolean code single_select multi_select file legacy_list : DataType
  other : String → DataType

-- The names of a run's steps.
abbrev pub step_trigger : String
step_trigger = "trigger"

abbrev pub step_sources : String
step_sources = "sources"

abbrev pub step_input : String
step_input = "input"

abbrev pub step_init_tf : String
step_init_tf = "init_tf"

abbrev pub step_pre_run_script : String
step_pre_run_script = "pre_run_script"

abbrev pub step_execute_tf : String
step_execute_tf = "execute_tf"

abbrev pub step_output : String
step_output = "output"
