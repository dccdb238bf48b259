-- ===== src/TfCmd/Execute.antt =====
-- tfapply.go, tfplan.go and tfdestroy.go: the steps of each command, and `execute`. The three share
-- everything up to the pre-run script, word for word but for one hint.
mod Steps
mod Outputs
pub mod AtStage
pub mod Prepared
pub mod Avoids
pub mod Uploaded
pub mod Outcome
mod Tests
unfoldable pub use Steps.*
unfoldable pub use Outputs.*
use building_block_runner.Prelude.{
  String, Bool, true, false, Option, none, some, List, [], ◌∷◌, ◌<>◌, str_eq, is_empty, insert,
  if◌then◌else◌,
}
use building_block_runner.Prelude.Int.{pos}
use building_block_runner.Run.Kinds.{
  pending, DataType, string, integer, boolean, code, Behavior, apply, detect, destroy, step_trigger,
  step_sources, step_input, step_init_tf, step_pre_run_script, step_execute_tf, step_output,
}
use building_block_runner.Run.Status.{Json, text, TfOutput, StepStatus, update_current}
use building_block_runner.TfCmd.Outside.{
  Error, OutputMeta, get_tf, set_env, apply_fresh, apply_plan, tf_plan, tf_destroy, tf_output,
  open_plan_file, download_artifact, close_plan_file, read_plan_file, upload_artifact,
}
use building_block_runner.TfCmd.Exec.{
  Cmd, Exec, ◌>>=◌, ◌>>◌, pure, raise, catch, ask, modify_state, println_to_update_logs,
}
use building_block_runner.TfCmd.Params.{GenericTfCmd}
use building_block_runner.TfCmd.Progress.{
  fail_and_return_msg, or_fail, start_run, advance_step, complete_run,
}
use building_block_runner.TfCmd.Source.{create_fresh_command_wd}
use building_block_runner.TfCmd.Init.{init}
use building_block_runner.TfCmd.Workspace.{use_workspace_if_needed, delete_workspace_if_needed}
use building_block_runner.TfCmd.Env.{Environment, build_tf_env}
use building_block_runner.TfCmd.Inputs.{save_input_files}
use building_block_runner.TfCmd.Script.{run_pre_run_script}
use building_block_runner.TfCmd.Vars.{vars}

-- GenericTfCmd.assignOutput
unfoldable pub assign_output : Cmd → Cmd
assign_output s = record s { writes_report = true }

-- The pre-run script's message replaces the error text of the step.
unfoldable pub unless_failed : GenericTfCmd → Option String → Option Error → Exec (Option String)
unless_failed c msg none = pure msg
unless_failed c msg (some e) = fail_and_return_msg c e msg

unfoldable pub pre_run : GenericTfCmd → Environment → Exec (Option String)
unfolding unless_failed
pre_run c tf_env = do r ← run_pre_run_script c tf_env; unless_failed c r.0 r.1

abbrev hint_init_failed : String
hint_init_failed = "Check provider and / or backend config"

init_with_hint : GenericTfCmd → Exec (Unit {0})
init_with_hint c = catch (init c) (λ e. do println_to_update_logs hint_init_failed; raise e)

-- What the three commands share. `hinted` is false for `apply`.
unfoldable pub prepare_run : GenericTfCmd → Bool → Exec (Unit {0})
unfolding init_with_hint
prepare_run c hinted = do
  start_run
  or_fail c (create_fresh_command_wd c)
  or_fail c (ask (get_tf c.tf_version) (λ h. c.outside.tf_binary h c.tf_version))
  tf_env ← or_fail c (build_tf_env c)
  or_fail c (ask (set_env tf_env) (λ h. c.outside.tf_set_env h tf_env))
  modify_state assign_output
  advance_step c none
  or_fail c (save_input_files c)
  or_fail c (vars c)
  advance_step c none
  or_fail c (if hinted then init_with_hint c else init c)
  or_fail c (use_workspace_if_needed c)
  advance_step c none
  pre_run_user_msg ← pre_run c tf_env
  advance_step c pre_run_user_msg

-- An error of `m` is returned under a text that quotes it.
unfoldable pub wrap : {A : Type 0} → (Error → String) → Exec A → Exec A
wrap f m = catch m (λ e. raise (f e))

abbrev dry_run_again : String
dry_run_again =
    ". The dry-run that produced this plan must be re-run before the change can be applied"

abbrev plan_invalid : String
plan_invalid =
    ". The previewed plan is no longer valid — the underlying state, configuration, or providers changed since the dry-run. Please re-run the dry-run to produce and approve a fresh plan"

close_then_raise : GenericTfCmd → String → Error → Exec (Unit {0})
close_then_raise c file e = do
  catch (ask (close_plan_file file) (λ h. c.outside.close_file h file)) (λ e'. pure tt)
  raise
      ("failed to download the previewed terraform plan for this approval: " <> e <> dry_run_again)

-- TfApplyCommand.applyPredecessorPlan
unfoldable pub apply_predecessor_plan : GenericTfCmd → Exec (Unit {0})
unfolding wrap close_then_raise
apply_predecessor_plan c = do
  println_to_update_logs
      "Using the provided plan artifact from the dry-run; applying it verbatim instead of re-planning."
  let file = c.artifact_file_path
  wrap (λ e. "failed to create predecessor plan artifact file " <> file <> ": " <> e)
      (ask (open_plan_file file) (λ h. c.outside.open_for_write h file))
  catch (ask (download_artifact c.artifact_url) (λ h. c.outside.download h c.artifact_url))
      (close_then_raise c file)
  wrap (λ e. "failed to write predecessor plan artifact to " <> file <> ": " <> e)
      (ask (close_plan_file file) (λ h. c.outside.close_file h file))
  wrap (λ e. "applying the previewed terraform plan failed: " <> e <> plan_invalid)
      (ask (apply_plan file) (λ h. c.outside.run_apply_plan h file))

unfoldable pub run_tf_apply : GenericTfCmd → Exec (Unit {0})
run_tf_apply c =
    if is_empty c.artifact_url
    then (do
      println_to_update_logs "No plan artifact linked to this run; running a fresh terraform apply."
      or_fail c (ask apply_fresh c.outside.run_apply))
    else or_fail c (apply_predecessor_plan c)

-- TfApplyCommand.execute
unfoldable pub execute_apply : GenericTfCmd → Exec (Unit {0})
execute_apply c = do
  prepare_run c false
  run_tf_apply c
  advance_step c none
  output ← or_fail c (ask tf_output c.outside.read_output)
  modify_state (collect_output c output)
  complete_run none

abbrev set_changes_detected : Bool → Cmd → Cmd
set_changes_detected changed s = record s {
  run_status = record s.run_status { changes_detected = some changed };
}

unfoldable pub upload_plan : GenericTfCmd → Exec (Unit {0})
unfolding wrap
upload_plan c =
    if is_empty c.artifact_upload_url
    then or_fail c (
        raise
          "no artifact upload URL provided for DETECT run; cannot persist plan for a follow-up APPLY")
    else (do
      plan_data ← or_fail c (
          wrap (λ e. "failed to read plan artifact: " <> e)
            (ask (read_plan_file c.artifact_file_path)
              (λ h. c.outside.read_file h c.artifact_file_path)))
      or_fail c (
          wrap (λ e. "failed to upload artifact: " <> e)
            (ask (upload_artifact c.artifact_upload_url plan_data)
              (λ h. c.outside.upload h c.artifact_upload_url plan_data))))

-- TfPlanCommand.execute
unfoldable pub execute_plan : GenericTfCmd → Exec (Unit {0})
execute_plan c = do
  prepare_run c true
  changed ←
      or_fail c
        (ask (tf_plan c.artifact_file_path) (λ h. c.outside.run_plan h c.artifact_file_path))
  modify_state (set_changes_detected changed)
  upload_plan c
  complete_run none

-- destroyOptions: whether the flag -suppress-forget-errors is passed.
unfoldable pub suppresses_forget_errors : GenericTfCmd → Bool
suppresses_forget_errors c = elim (c.less_than c.tf_version "1.12.0") [
  | none ↦ false
  | some less ↦ if less then false else true
]

-- TfDestroyCommand.execute
unfoldable pub execute_destroy : GenericTfCmd → Exec (Unit {0})
execute_destroy c = do
  prepare_run c true
  if c.async_run then or_fail c (ask apply_fresh c.outside.run_apply) else pure tt
  or_fail c (
      ask (tf_destroy (suppresses_forget_errors c))
        (λ h. c.outside.run_destroy h (suppresses_forget_errors c)))
  advance_step c none
  output ← or_fail c (ask tf_output c.outside.read_output)
  modify_state (collect_output c output)
  delete_workspace_if_needed c
  complete_run none

abbrev pub execute : GenericTfCmd → Behavior → Exec (Unit {0})
execute c apply = execute_apply c
execute c detect = execute_plan c
execute c destroy = execute_destroy c
