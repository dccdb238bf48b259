-- ===== src/Run/Status/Tests.antt =====
-- A run that fails in its second of three steps.
use building_block_runner.Prelude.{◌≡◌, refl, none, [], ◌∷◌}
use building_block_runner.Prelude.Int.{pos}
use building_block_runner.Run.Kinds.{ExecutionStatus, pending, in_progress, succeeded, failed}
use building_block_runner.Run.Status.{
  RunStatus, StepStatus, statuses, fail_run_and_not_finished_steps,
}
use building_block_runner.Run.Status.Laws.{fail_run_and_not_finished_steps-statuses}

abbrev step : ExecutionStatus → StepStatus
step e = record {
  name = "a";
  display_name = "A";
  status = e;
  outputs = [];
  user_message = none;
  system_message = none;
  log_start_idx = 0;
}

abbrev in_second : RunStatus
in_second = record {
  run_id = "run";
  status = in_progress;
  steps = step succeeded ∷ step in_progress ∷ step pending ∷ [];
  current_step_index = pos 1;
  summary = none;
  changes_detected = none;
}

fail_run_and_not_finished_steps-statuses_example :
    statuses (fail_run_and_not_finished_steps in_second).steps ≡ succeeded ∷ failed ∷ failed ∷ []
fail_run_and_not_finished_steps-statuses_example =
    fail_run_and_not_finished_steps-statuses in_second 1 (in_progress ∷ pending ∷ []) refl refl
