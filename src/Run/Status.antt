-- ===== src/Run/Status.antt =====
-- tf-block-runner/tfrun/runstatus.go. A step is a value here: the run owns its steps, and what it
-- publishes is a `clone`, so no step is shared.
pub mod Laws
mod Tests
use building_block_runner.Prelude.{
  ℕ, suc, String, Bool, Option, none, some, List, [], ◌∷◌, leb, length, get_elem?, modify, map,
  if◌then◌else◌,
}
use building_block_runner.Prelude.Int.{ℤ, pos, negsuc, ◌<ℤ◌, ◌≤ℤ◌, inc}
use building_block_runner.Run.Kinds.{ExecutionStatus, failed, DataType}

-- A value of a run input or an output, as the JSON decoder leaves it in an `any`.
mutual
  pub data Json : Type 0 where
    null : Json
    flag : Bool → Json
    number : String → Json
    text : String → Json
    array : Items → Json
    object : Fields → Json

  pub data Items : Type 0 where
    end : Items
    item : Json → Items → Items

  pub data Fields : Type 0 where
    close : Fields
    field : String → Json → Fields → Fields

pub record TfOutput : Type 0 where
  pub value : Json
  pub data_type : DataType
  pub sensitive : Bool

pub record StepStatus : Type 0 where
  pub name : String
  pub display_name : String
  pub status : ExecutionStatus
  pub outputs : List (String × TfOutput)
  pub user_message : Option String
  pub system_message : Option String
  pub log_start_idx : ℕ

pub record RunStatus : Type 0 where
  pub run_id : String
  pub status : ExecutionStatus
  pub steps : List StepStatus
  pub current_step_index : ℤ
  pub summary : Option String
  pub changes_detected : Option Bool

abbrev at_index : ℤ → List StepStatus → Option StepStatus
at_index (pos i) steps = get_elem? steps i
at_index (negsuc i) steps = none

-- `nil` where the index is out of range.
abbrev pub current_step_status : RunStatus → Option StepStatus
current_step_status r = at_index r.current_step_index r.steps

abbrev modify_at : ℤ → (StepStatus → StepStatus) → List StepStatus → List StepStatus
modify_at (pos i) f steps = modify i f steps
modify_at (negsuc i) f steps = steps

-- A write through the pointer that `currentStepStatus` returns; nothing where that is nil.
abbrev pub update_current : (StepStatus → StepStatus) → RunStatus → RunStatus
update_current f r = record r { steps = modify_at r.current_step_index f r.steps }

pub data StepError : Type 0 where
  no_steps step_idx_too_high : StepError

-- The error, if any, and the status after.
unfoldable pub first_step : RunStatus → RunStatus × Option StepError
first_step r =
    if leb (length r.steps) 0
    then (r, some no_steps)
    else (record r { current_step_index = pos 0 }, none)

unfoldable pub next_step : RunStatus → RunStatus × Option StepError
next_step r =
    if inc r.current_step_index <ℤ pos (length r.steps)
    then (record r { current_step_index = inc r.current_step_index }, none)
    else (r, some step_idx_too_high)

abbrev pub earlier_failure : String
earlier_failure = "Aborted due to failure in an earlier step"

-- One round of the loop over the steps.
abbrev fail_step : ℤ → ℕ → StepStatus → StepStatus
fail_step current idx s =
    let s' = if current ≤ℤ pos idx then record s { status = failed } else s in
    if current <ℤ pos idx then record s' { system_message = some earlier_failure } else s'

fail_steps_from : ℤ → ℕ → List StepStatus → List StepStatus
fail_steps_from current idx [] = []
fail_steps_from current idx (s ∷ r) = fail_step current idx s ∷ fail_steps_from current (suc idx) r

unfoldable pub fail_run_and_not_finished_steps : RunStatus → RunStatus
unfolding fail_steps_from
fail_run_and_not_finished_steps r = record r {
  steps = fail_steps_from r.current_step_index 0 r.steps;
  status = failed;
}

-- A copy of every step and of its outputs map.
abbrev clone_step : StepStatus → StepStatus
clone_step s = record {
  name = s.name;
  display_name = s.display_name;
  status = s.status;
  outputs = s.outputs;
  user_message = s.user_message;
  system_message = s.system_message;
  log_start_idx = s.log_start_idx;
}

unfoldable pub clone : RunStatus → RunStatus
clone r = record r { steps = map clone_step r.steps }

abbrev pub statuses : List StepStatus → List ExecutionStatus
statuses = map λ s. s.status
