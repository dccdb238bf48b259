-- ===== src/TfCmd/Execute/Steps.antt =====
-- tfapply.go, tfplan.go and tfdestroy.go: `initRunSteps`.
use building_block_runner.Prelude.{String, none, List, [], ◌∷◌, if◌then◌else◌}
use building_block_runner.Prelude.Int.{pos}
use building_block_runner.Run.Kinds.{
  pending, Behavior, apply, detect, destroy, step_trigger, step_sources, step_input, step_init_tf,
  step_pre_run_script, step_execute_tf, step_output,
}
use building_block_runner.Run.Status.{StepStatus}
use building_block_runner.TfCmd.Exec.{Cmd}
use building_block_runner.TfCmd.Params.{GenericTfCmd}

abbrev new_step : String → String → StepStatus
new_step name display_name = record {
  name = name;
  display_name = display_name;
  status = pending;
  outputs = [];
  user_message = none;
  system_message = none;
  log_start_idx = 0;
}

abbrev first_steps : List StepStatus → List StepStatus
first_steps rest =
    new_step step_sources "Prepare Run and download Sources"
    ∷ new_step step_input "Initialize Inputs"
    ∷ new_step step_init_tf "Initialize Terraform and select Workspace"
    ∷ new_step step_pre_run_script "Execute Pre-Run Script"
    ∷ rest

abbrev pub trigger_steps : List StepStatus
trigger_steps = new_step step_trigger "Prepare Run" ∷ []

abbrev output_steps : List StepStatus
output_steps = new_step step_output "Collect Outputs and clean up" ∷ []

abbrev pub apply_steps : List StepStatus
apply_steps = first_steps (new_step step_execute_tf "Run Terraform Apply" ∷ output_steps)

abbrev pub plan_steps : List StepStatus
plan_steps = first_steps (new_step step_execute_tf "Run Terraform Plan" ∷ [])

abbrev pub destroy_steps : List StepStatus
destroy_steps = first_steps (new_step step_execute_tf "Run Terraform Destroy" ∷ output_steps)

abbrev pub steps_of : Behavior → List StepStatus
steps_of apply = apply_steps
steps_of detect = plan_steps
steps_of destroy = destroy_steps

-- initRunSteps of the command for a behavior.
unfoldable pub init_run_steps : GenericTfCmd → Behavior → Cmd → Cmd
init_run_steps c b s = record s {
  run_status = record s.run_status {
    steps = if c.async_run then trigger_steps else steps_of b;
    current_step_index = pos 0;
  };
}
