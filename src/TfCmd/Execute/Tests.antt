-- ===== src/TfCmd/Execute/Tests.antt =====
-- The theorems on `execute`, at runs of the example command.
use building_block_runner.Prelude.{refl, false}
use building_block_runner.Run.Kinds.{succeeded, detect}
use building_block_runner.TfCmd.Triple.{Ends, Always}
use building_block_runner.TfCmd.Example.{example, fresh}
use building_block_runner.TfCmd.Progress.Avoids.{Avoids}
use building_block_runner.TfCmd.Progress.Endings.{Ended, FailedAt, all_done}
use building_block_runner.TfCmd.Execute.{execute, execute_apply, execute_plan, init_run_steps}
use building_block_runner.TfCmd.Execute.Avoids.{
  changes, replans, execute_plan-Avoids, execute_apply-Avoids,
}
use building_block_runner.TfCmd.Execute.AtStage.{Unfinished}
use building_block_runner.TfCmd.Execute.Outcome.{execute-Outcome}
use building_block_runner.TfCmd.Execute.Uploaded.{Uploaded, Anything, execute_plan-Uploaded}

execute-Outcome_example :
    Ends
      (Always (Ended succeeded (all_done false 5)))
      (FailedAt false 5)
      Unfinished
      (execute (example "DETECT" "") detect (init_run_steps (example "DETECT" "") detect fresh)).0
      (execute (example "DETECT" "") detect (init_run_steps (example "DETECT" "") detect fresh)).1
execute-Outcome_example = execute-Outcome (example "DETECT" "") detect fresh tt

execute_plan-Avoids_example : Avoids changes (execute_plan (example "DETECT" "") fresh).1
execute_plan-Avoids_example = execute_plan-Avoids (example "DETECT" "") fresh tt

execute_apply-Avoids_example :
    Avoids replans (execute_apply (example "APPLY" "https://plan") fresh).1
execute_apply-Avoids_example = execute_apply-Avoids (example "APPLY" "https://plan") fresh refl tt

execute_plan-Uploaded_example :
    let start = init_run_steps (example "DETECT" "") detect fresh in
    Ends
      (λ _. Uploaded (example "DETECT" ""))
      Anything
      Anything
      (execute_plan (example "DETECT" "") start).0
      (execute_plan (example "DETECT" "") start).1
execute_plan-Uploaded_example = execute_plan-Uploaded (example "DETECT" "") fresh tt
