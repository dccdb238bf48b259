-- ===== src/Worker/Observer/Tests.antt =====
-- Runs of the example command, with an update before its reports.
use building_block_runner.Prelude.{true, false, Option, none, some, List, [], ◌∷◌, refl, map}
use building_block_runner.Run.Kinds.{failed, apply}
use building_block_runner.TfCmd.Outside.{Error}
use building_block_runner.TfCmd.Triple.{Ends}
use building_block_runner.TfCmd.Example.{example}
use building_block_runner.TfCmd.Execute.{init_run_steps, execute}
use building_block_runner.Run.Kinds.{succeeded}
use building_block_runner.Worker.Observer.{
  Signal, report, tick, observe, init_observer, init_run_context_info, work_routine,
}
use building_block_runner.Worker.Observer.Laws.{
  IsOrderly, IsTold, reports_of-map, observe-IsOrderly, final_update-execute, final_update-register,
}

abbrev signals : Option Error → List Signal
signals e = tick false none ∷ map report (work_routine (example "APPLY" "") apply e)

observe-IsOrderly_example :
    IsOrderly true (observe (tick true none ∷ tick true (some "lost") ∷ []) (init_observer "run"))
observe-IsOrderly_example =
    observe-IsOrderly (tick true none ∷ tick true (some "lost") ∷ []) (init_observer "run") false
      (record { ongoing = tt; noted = refl; once = refl })

final_update-execute_example :
    (let start =
        init_run_steps
          (example "APPLY" "")
          apply
          (init_run_context_info (example "APPLY" "").outside "run") in
      Ends
        (λ _ _. IsTold false succeeded "run" (signals none))
        (λ _. IsTold false failed "run" (signals none))
        (λ _. Unit)
        (execute (example "APPLY" "") apply start).0
        (execute (example "APPLY" "") apply start).1)
final_update-execute_example =
    final_update-execute (example "APPLY" "") apply (signals none)
      (reports_of-map (work_routine (example "APPLY" "") apply none))

final_update-register_example : IsTold false failed "run" (signals (some "409"))
final_update-register_example =
    final_update-register (example "APPLY" "") apply "409" (signals (some "409"))
      (reports_of-map (work_routine (example "APPLY" "") apply (some "409")))
