-- ===== src/Controller/Capacity.antt =====
-- run-controller/controller/kubernetes.go: CountActiveJobs.
use building_block_runner.Prelude.{
  ℕ, suc, Bool, List, [], ◌∷◌, ◌<>◌, ◌&&◌, ◌||◌, str_eq, any, if◌then◌else◌,
}
use building_block_runner.Controller.World.{Error, ListedJob, list_jobs, World}
use building_block_runner.Controller.Exec.{Exec, pure, raise, on_error, call}
use building_block_runner.Controller.Cluster.{KubernetesClient}

module _ (w : World) (k : KubernetesClient) where
  -- isJobFinished
  unfoldable pub is_job_finished : ListedJob → Bool
  is_job_finished job =
      any
        (λ c.
          (str_eq c.condition "Complete" || str_eq c.condition "Failed") && str_eq c.status "True")
        job.conditions

  unfoldable pub count_unfinished : List ListedJob → ℕ
  unfolding is_job_finished
  count_unfinished [] = 0
  count_unfinished (job ∷ jobs) =
      if is_job_finished job then count_unfinished jobs else suc (count_unfinished jobs)

  -- CountActiveJobs
  unfoldable pub count_active_jobs : Exec Error ℕ
  unfolding count_unfinished
  count_active_jobs =
      let selector = "meshcloud.io/runner-id=" <> k.config.uuid in
      on_error
        (call (λ _. list_jobs k.config.namespace selector)
          (λ h. w.jobs_with h k.config.namespace selector))
        (λ e. raise ("failed to list jobs for capacity check: " <> e))
        (λ jobs. pure (count_unfinished jobs))
