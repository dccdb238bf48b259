-- ===== src/TfCmd/Progress.antt =====
-- The step keeping of tfcmd.go: `fail`, `startRun`, `advanceStep`, `completeRun` and their parts.
-- What goes to the operator's local log only is left out.
pub mod Stages
pub mod Moves
pub mod Avoids
pub mod Endings
use building_block_runner.Prelude.{
  ℕ, String, len, Bool, Option, none, some, ◌<>◌, has_prefix, if◌then◌else◌,
}
use building_block_runner.Run.Kinds.{ExecutionStatus, in_progress, succeeded}
use building_block_runner.Run.Status.{
  StepStatus, RunStatus, current_step_status, update_current, fail_run_and_not_finished_steps,
}
use building_block_runner.Run.Status
use building_block_runner.TfCmd.Outside.{Error, err, ContextError, deadline_exceeded, canceled}
use building_block_runner.TfCmd.Exec.{
  Cmd, Exec, publish_status, set_current_step_message, write_log, modify_state, catch,
}
use building_block_runner.TfCmd.Params.{GenericTfCmd}

-- A raw exit code is replaced by a hint to the step's log.
abbrev user_facing : String → String
user_facing msg =
    if has_prefix msg "exit status "
    then "command failed (" <> msg <> ") — check the step logs above for error details."
    else msg

abbrev print_line : String → Cmd → Cmd
print_line text = write_log (text <> "\n")

abbrev context_text : String → ContextError → String
context_text timeout deadline_exceeded =
    "execution step stopped, because it exceeded the configured timeout of " <> timeout
    <> " minutes"
context_text timeout (canceled cause) = "execution step cancelled: " <> cause

-- The text that becomes the step's message, and the state with the texts logged.
report_context : String → Option ContextError → String → Cmd → String × Cmd
report_context timeout none msg s = (msg, s)
report_context timeout (some e) msg s =
    (context_text timeout e, print_line (context_text timeout e) s)

fail_message : GenericTfCmd → Error → Option String → Option StepStatus → Cmd → Option String × Cmd
unfolding report_context
fail_message c e override none s = (none, s)
fail_message c e override (some step) s =
    let s' = print_line (user_facing e) s in
    let (text, s'') =
      report_context c.tf_command_timeout_mins (c.outside.context_error s'.events) (user_facing e)
        s' in
    (elim override [ none ↦ some text | some m ↦ some m ], s'')

-- GenericTfCmd.failWithUserMsg
unfoldable pub fail_with_user_msg : GenericTfCmd → Error → Option String → Cmd → Cmd
unfolding fail_message fail_run_and_not_finished_steps
fail_with_user_msg c e override s =
    let s' = record s { run_status = fail_run_and_not_finished_steps s.run_status } in
    let (user_msg, s'') = fail_message c e override (current_step_status s'.run_status) s' in
    publish_status (set_current_step_message user_msg s'')

abbrev pub first_step : Cmd → Cmd
first_step s = record s { run_status = (Status.first_step s.run_status).0 }

abbrev set_step_status : ExecutionStatus → StepStatus → StepStatus
set_step_status e s = record s { status = e }

-- GenericTfCmd.setCurrentStepStatus
abbrev set_current_step_status : ExecutionStatus → Cmd → Cmd
set_current_step_status e s = record s {
  run_status = update_current (set_step_status e) s.run_status;
}

abbrev begin_step : ℕ → StepStatus → StepStatus
begin_step at s = record s { status = in_progress; log_start_idx = at }

abbrev enter_step : RunStatus × Option Status.StepError → Cmd → Cmd
enter_step (r, none) s = record s { run_status = update_current (begin_step (len s.log)) r }
enter_step (r, some e) s = record s { run_status = r }

-- GenericTfCmd.nextStep
unfoldable pub next_step : Bool → Cmd → Cmd
next_step async_run s =
    let s' = set_current_step_status succeeded s in
    if async_run then s else enter_step (Status.next_step s'.run_status) s'

-- GenericTfCmd.setRunStatus
abbrev pub set_run_status : ExecutionStatus → Cmd → Cmd
set_run_status e s = record s { run_status = record s.run_status { status = e } }

-- GenericTfCmd.startRun
unfoldable pub start_run : Exec (Unit {0})
start_run = modify_state λ s. publish_status (set_run_status in_progress (first_step s))

-- GenericTfCmd.advanceStep
unfoldable pub advance_step : GenericTfCmd → Option String → Exec (Unit {0})
unfolding next_step
advance_step c user_message =
    modify_state
      λ s. publish_status (next_step c.async_run (set_current_step_message user_message s))

-- GenericTfCmd.completeRun
unfoldable pub complete_run : Option String → Exec (Unit {0})
complete_run user_message = modify_state λ s. publish_status (
    set_run_status succeeded
      (set_current_step_status succeeded (set_current_step_message user_message s)))

-- `tfcmd.failWithUserMsg(err, msg); return`
unfoldable pub fail_and_return_msg : {A : Type 0} → GenericTfCmd → Error → Option String → Exec A
fail_and_return_msg c e msg s = (err e, fail_with_user_msg c e msg s)

-- `if err != nil { tfcmd.fail(err); return }`: the rest of the body is skipped.
abbrev pub fail_and_return : {A : Type 0} → GenericTfCmd → Error → Exec A
fail_and_return c e = fail_and_return_msg c e none

abbrev pub or_fail : {A : Type 0} → GenericTfCmd → Exec A → Exec A
or_fail c m = catch m (fail_and_return c)
