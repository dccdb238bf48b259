-- ===== src/TfCmd/Workspace/Tests.antt =====
-- A workspace that is listed and switched to.
use building_block_runner.Prelude.{List, [], ◌∷◌, refl, String, none, false, true}
use building_block_runner.TfCmd.Outside.{ok}
use building_block_runner.TfCmd.Exec.{Cmd}
use building_block_runner.Prelude.Int.{negsuc}
use building_block_runner.Run.Kinds.{in_progress}
use building_block_runner.Run.Status.{RunStatus}
use building_block_runner.TfCmd.Params.{GenericTfCmd}
use building_block_runner.TfCmd.Example.{example, calm}
use building_block_runner.TfCmd.Workspace.{select_workspace}
use building_block_runner.TfCmd.Workspace.Laws.{Selects, after_list, select_workspace-Selects}

abbrev available : List String
available = "default" ∷ "ws-other" ∷ "ws-bb" ∷ "old-bb" ∷ []

abbrev with_workspaces : GenericTfCmd
with_workspaces = record (example "APPLY" "") {
  outside = record calm {
    list_workspaces = λ h. record { written = []; result = ok (available, "default") };
  };
}

abbrev fresh : RunStatus
fresh = record {
  run_id = "run";
  status = in_progress;
  steps = [];
  current_step_index = negsuc 0;
  summary = none;
  changes_detected = none;
}

abbrev at_first : Cmd
at_first = record {
  run_status = fresh;
  report_status = fresh;
  log = "";
  log_unreadable = λ h. false;
  writes_report = true;
  use_workspaces = true;
  events = [];
}

select_workspace-Selects_example :
    Selects with_workspaces available "default"
      (after_list with_workspaces at_first)
      (select_workspace with_workspaces at_first)
select_workspace-Selects_example =
    select_workspace-Selects with_workspaces available "default" at_first refl
