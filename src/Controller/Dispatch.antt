-- ===== src/Controller/Dispatch.antt =====
-- run-controller/controller/dispatcher.go and run-controller/inprocess/dispatcher.go: the two ways to
-- run what was claimed, behind the interface of run-controller/build/dispatcher.go.
use building_block_runner.Prelude.{
  ℕ, String, Option, none, some, ◌||◌, str_eq, lookup, if◌then◌else◌,
}
use building_block_runner.Controller.World.{Error, Answer, answer, refusal, started, History, World}
use building_block_runner.Controller.Config.{JobSpecTemplate, ControllerConfig}
use building_block_runner.Controller.RunDetails.{RunDetails, get_run_info}
use building_block_runner.Controller.Exec.{Exec, raise, note, read}
use building_block_runner.Controller.Cluster.{KubernetesClient, new_kubernetes_client}
use building_block_runner.Controller.Job.{
  DispatchError, no_handler_error, other_error, create_runner_job,
}
use building_block_runner.Controller.Capacity.{count_active_jobs}

-- build.Dispatcher; `Wait` is called at shutdown only.
pub record Dispatcher : Type 0 where
  pub dispatch : RunDetails → String → String → Exec DispatchError (Unit {0})
  pub count_active : Exec Error ℕ

module _ (w : World) where
  -- kubernetesDispatcher.Dispatch
  unfoldable pub create_job_for :
      KubernetesClient
      → RunDetails
      → String
      → String
      → Option JobSpecTemplate
      → Exec DispatchError (Unit {0})
  create_job_for k run run_json_base64 runner_type none = raise (no_handler_error runner_type)
  create_job_for k run run_json_base64 runner_type (some spec) =
      create_runner_job w k (get_run_info run) run_json_base64 runner_type spec

  unfoldable pub kubernetes_dispatch :
      KubernetesClient → RunDetails → String → String → Exec DispatchError (Unit {0})
  unfolding create_job_for
  kubernetes_dispatch k run run_json_base64 runner_type =
      create_job_for k run run_json_base64 runner_type (lookup runner_type k.config.implementations)

  -- NewKubernetesDispatcher
  unfoldable pub new_kubernetes_dispatcher : ControllerConfig → Dispatcher
  unfolding new_kubernetes_client kubernetes_dispatch
  new_kubernetes_dispatcher config =
      let k = new_kubernetes_client config in
      record { dispatch = kubernetes_dispatch k; count_active = count_active_jobs w k }

  -- inprocess.Dispatcher.Dispatch: the run goes on in a goroutine of its own.
  unfoldable pub start_decoded : RunDetails → Answer String → Exec DispatchError (Unit {0})
  start_decoded run (answer run_json) = note (started run.uuid)
  start_decoded run (refusal e) = raise (other_error e)

  unfoldable pub in_process_dispatch : RunDetails → String → String → Exec DispatchError (Unit {0})
  unfolding start_decoded
  in_process_dispatch run run_json_base64 runner_type =
      if str_eq runner_type "TERRAFORM" || str_eq runner_type "MANUAL"
      then start_decoded run (w.decode_base64 run_json_base64)
      else raise (no_handler_error runner_type)

  -- inprocess.Dispatcher: `active` is the counter, which the goroutines decrement when they end.
  unfoldable pub new_in_process_dispatcher : (History → ℕ) → Dispatcher
  unfolding in_process_dispatch
  new_in_process_dispatcher active = record {
    dispatch = in_process_dispatch;
    count_active = read active;
  }
