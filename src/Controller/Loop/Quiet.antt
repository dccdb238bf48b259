-- ===== src/Controller/Loop/Quiet.antt =====
-- The runs that were claimed, and that both dispatchers claim none.
use building_block_runner.Prelude.{
  ℕ, suc, ◌≤◌, str_eq, ◌||◌, String, true, Option, none, some, ◌∷◌, [], ◌≡◌, refl, arith,
}
use building_block_runner.Controller.World.{
  Answer, answer, refusal, Event, fetch_run, History, World,
}
use building_block_runner.Controller.Config.{ControllerConfig, JobSpecTemplate}
use building_block_runner.Controller.RunDetails.{RunDetails}
use building_block_runner.Controller.Exec.{raise}
use building_block_runner.Controller.Cluster.{KubernetesClient}
use building_block_runner.Controller.Cluster.Known.{Invariant, is_minor}
use building_block_runner.Controller.Job.{no_handler_error}
use building_block_runner.Controller.Job.Sound.{create_runner_job-Keeps}
use building_block_runner.Controller.Capacity.{count_active_jobs}
use building_block_runner.Controller.Dispatch.{
  Dispatcher, create_job_for, kubernetes_dispatch, new_kubernetes_dispatcher, start_decoded,
  in_process_dispatch, new_in_process_dispatcher,
}
use building_block_runner.Controller.Rules.{
  Triple, Always, Triple-pure, Triple-raise, Triple-if, Triple-on_error, Triple-note, Triple-call,
  Triple-read,
}

-- The runs that were claimed.
abbrev pub claims : History → ℕ
claims (fetch_run (some run) ∷ h) = suc (claims h)
claims (_ ∷ h) = claims h
claims [] = 0

abbrev pub AtMost : ℕ → History → Type 0
AtMost n h = claims h ≤ n

-- What the controller relies on in a dispatcher: it claims no runs of its own.
pub record ClaimsNothing (d : Dispatcher) : Type 0 where
  pub by_dispatch :
      (n : ℕ) (run : RunDetails) (run_json runner_type : String)
      → Triple
          (AtMost n)
          (d.dispatch run run_json runner_type)
          (Always (AtMost n))
          (Always (AtMost n))
          (AtMost n)
  pub by_count_active :
      (n : ℕ) → Triple (AtMost n) d.count_active (Always (AtMost n)) (Always (AtMost n)) (AtMost n)

claims-Invariant : (n : ℕ) → Invariant (λ _. Unit) (λ _. Unit) (λ _. true) (AtMost n)
claims-Invariant n = record {
  minor = minor_lem;
  secret = λ s succeeded h small p. p;
  job = λ j succeeded h runs can p. p;
}
  where
    minor_lem : (e : Event) (h : History) → is_minor e ≡ true → AtMost n h → AtMost n (e ∷ h)
    minor_lem (fetch_run run) h minor p = ground arith
    minor_lem _ h minor p = p

module _ (w : World) where
  create_job_for-AtMost :
      (n : ℕ) (k : KubernetesClient) (run : RunDetails) (run_json runner_type : String)
      (spec : Option JobSpecTemplate)
      → Triple
          (AtMost n)
          (create_job_for w k run run_json runner_type spec)
          (Always (AtMost n))
          (Always (AtMost n))
          (AtMost n)
  unfolding create_job_for
  create_job_for-AtMost n k run run_json runner_type none = Triple-raise _ λ h p. p
  create_job_for-AtMost n k run run_json runner_type (some spec) =
      create_runner_job-Keeps w k (claims-Invariant n) _ run_json runner_type spec (λ name it. refl)
        (λ text fits e. tt) (λ token resources. tt)

  pub new_kubernetes_dispatcher-ClaimsNothing :
      (config : ControllerConfig) → ClaimsNothing (new_kubernetes_dispatcher w config)
  unfolding new_kubernetes_dispatcher kubernetes_dispatch count_active_jobs
  new_kubernetes_dispatcher-ClaimsNothing config = record {
    by_dispatch =
        λ n run run_json runner_type. create_job_for-AtMost n _ run run_json runner_type _;
    by_count_active = λ n.
        Triple-on_error _ _ _
          (Triple-call {Q = Always (AtMost n)} {F = Always (AtMost n)} _ _ (λ h a p e. p)
            (λ h e p. p))
          (λ _. Triple-raise _ λ h p. p) (λ _. Triple-pure _ λ h p. p);
  }

  start_decoded-AtMost :
      (n : ℕ) (run : RunDetails) (a : Answer String)
      → Triple (AtMost n) (start_decoded w run a) (Always (AtMost n)) (Always (AtMost n)) (AtMost n)
  unfolding start_decoded
  start_decoded-AtMost n run (answer text) = Triple-note _ λ h p. p
  start_decoded-AtMost n run (refusal e) = Triple-raise _ λ h p. p

  pub new_in_process_dispatcher-ClaimsNothing :
      (active : History → ℕ) → ClaimsNothing (new_in_process_dispatcher w active)
  unfolding new_in_process_dispatcher in_process_dispatch
  new_in_process_dispatcher-ClaimsNothing active = record {
    by_dispatch = λ n run run_json runner_type.
        Triple-if (str_eq runner_type "TERRAFORM" || str_eq runner_type "MANUAL")
          (start_decoded w run (w.decode_base64 run_json)) (raise (no_handler_error runner_type))
          (λ _. start_decoded-AtMost n run _) (λ _. Triple-raise _ λ h p. p);
    by_count_active = λ n. Triple-read _ λ h p. p;
  }
