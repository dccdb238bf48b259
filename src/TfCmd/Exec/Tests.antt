-- ===== src/TfCmd/Exec/Tests.antt =====
-- A step that began after one line of the log.
use building_block_runner.Prelude.{true, false, ◌≡◌, refl, none, some, [], ◌∷◌}
use building_block_runner.Prelude.Int.{pos}
use building_block_runner.Run.Kinds.{in_progress}
use building_block_runner.Run.Status.{StepStatus, RunStatus, current_step_status}
use building_block_runner.TfCmd.Exec.{Cmd, set_current_step_message}
use building_block_runner.TfCmd.Exec.Laws.{set_current_step_message-log}

abbrev step : StepStatus
step = record {
  name = "input";
  display_name = "Initialize Inputs";
  status = in_progress;
  outputs = [];
  user_message = none;
  system_message = none;
  log_start_idx = 7;
}

abbrev one_step : RunStatus
one_step = record {
  run_id = "run";
  status = in_progress;
  steps = step ∷ [];
  current_step_index = pos 0;
  summary = none;
  changes_detected = none;
}

abbrev state : Cmd
state = record {
  run_status = one_step;
  report_status = one_step;
  log = "cloned\nwritten\n";
  log_unreadable = λ h. false;
  writes_report = true;
  use_workspaces = true;
  events = [];
}

set_current_step_message-log_example :
    (step' : StepStatus) × (current_step_status
        (set_current_step_message (some "ok") state).run_status
      ≡ some step')
    × (step'.system_message ≡ some "written\n")
    × (step'.user_message ≡ some "ok")
set_current_step_message-log_example =
    set_current_step_message-log (some "ok") state 0 step "cloned\n" "written\n" refl refl refl refl
