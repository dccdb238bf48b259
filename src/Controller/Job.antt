-- ===== src/Controller/Job.antt =====
-- run-controller/controller/kubernetes.go: CreateRunnerJob.
pub mod Leftovers
pub mod Provided
pub mod Sound
pub mod Requests
use building_block_runner.Prelude.{
  ℕ, String, len, [], ◌∷◌, ◌<>◌, ◌*◌, ◌/◌, ltb, is_empty, if◌then◌else◌,
}
use building_block_runner.Controller.Config.{JobSpecTemplate}
use building_block_runner.Controller.Subject.{
  RunInfo, render_subject_template, service_account_name_template,
}
use building_block_runner.Controller.Pod.{
  Job, ResourceRequirements, build_tolerations, build_resource_requirements, create_volumes,
  create_volume_mounts, wif_token_volumes, build_env_vars,
}
use building_block_runner.Controller.World.{
  Error, CreatedJob, jobs_created_total, job_creation_errors, get_job, create_job, World,
}
use building_block_runner.Controller.Exec.{
  Exec, ◌>>=◌, ◌>>◌, pure, raise, on_error, unless, value_or_crash, is_answer, call, ask, count,
}
use building_block_runner.Controller.Cluster.{
  KubernetesClient, run_json_secret_name, create_service_account, create_run_json_secret,
  create_wif_token_secret, remove, set_secret_owner_reference,
}

-- The errors that the controller tells apart; any other by its text.
pub data DispatchError : Type 0 where
  no_handler_error : String → DispatchError
  run_too_large_error : String → ℕ → ℕ → DispatchError
  other_error : Error → DispatchError

abbrev pub max_kubernetes_secret_size : ℕ
max_kubernetes_secret_size = 1_048_576

abbrev pub secret_metadata_overhead : ℕ
secret_metadata_overhead = 10_240

abbrev pub effective_max_run_json_size : ℕ
effective_max_run_json_size = 1_038_336

-- estimateRunJsonSize, with `base64.StdEncoding.DecodedLen`; it never fails.
unfoldable pub estimate_run_json_size : String → ℕ
estimate_run_json_size run_json_base64 = len run_json_base64 / 4 * 3

module _ (w : World) (k : KubernetesClient) where
  -- What CreateRunnerJob puts together.
  unfoldable pub runner_job :
      RunInfo → String → JobSpecTemplate → String → String → ResourceRequirements → Job
  runner_job info impl_type spec service_account_name token_secret_name resources =
      let namespace = k.config.namespace in
      let run_json = run_json_secret_name info.uuid in
      let wif = wif_token_volumes k.config namespace token_secret_name in
      record {
        name = "runner-" <> info.uuid;
        namespace = namespace;
        labels =
            ("app.kubernetes.io/name", "runner")
            ∷ ("meshcloud.io/run-id", info.uuid)
            ∷ ("meshcloud.io/runner-id", k.config.uuid)
            ∷ ("meshcloud.io/runner-type", impl_type)
            ∷ [];
        service_account_name = service_account_name;
        image_pull_secrets = k.config.image_pull_secrets;
        tolerations = build_tolerations k.config.tolerations;
        node_selector = k.config.node_selector;
        volumes = create_volumes w.parse_quantity spec run_json wif.0;
        image = spec.image;
        command = spec.command;
        args = spec.args;
        env = build_env_vars k.config spec;
        volume_mounts = create_volume_mounts spec wif.1;
        resources = resources;
      }

  -- A step whose error is counted, given a context and returned.
  unfoldable pub or_give_up : {A : Type 0} → String → Exec Error A → Exec DispatchError A
  or_give_up context m =
      on_error m
        (λ e.
          count (job_creation_errors "job_creation_error") >> raise (other_error (context <> e)))
        pure

  -- The end of CreateRunnerJob, from the creation of the job on.
  unfoldable pub delete_secrets : {E : Type 0} → RunInfo → String → Exec E (Unit {0})
  delete_secrets info token_secret_name =
      remove w k k.config.namespace (run_json_secret_name info.uuid)
      >> (if is_empty token_secret_name
          then pure tt
          else remove w k k.config.namespace token_secret_name)

  unfoldable pub own_secrets : {E : Type 0} → RunInfo → String → CreatedJob → Exec E (Unit {0})
  unfolding set_secret_owner_reference
  own_secrets info token_secret_name job =
      set_secret_owner_reference w k k.config.namespace (run_json_secret_name info.uuid) job
      >> (if is_empty token_secret_name
          then pure tt
          else set_secret_owner_reference w k k.config.namespace token_secret_name job)

  unfoldable pub submit_job : RunInfo → String → Job → Exec DispatchError (Unit {0})
  unfolding delete_secrets own_secrets
  submit_job info token_secret_name job =
      on_error (call (λ a. create_job job (is_answer a)) (λ h. w.new_job h job))
        (λ e.
          count (job_creation_errors "job_creation_error")
          >> (delete_secrets info token_secret_name
              >> raise (other_error ("failed to create job: " <> e))))
        (λ created. own_secrets info token_secret_name created >> count jobs_created_total)

  unfoldable pub prepare_job :
      RunInfo → String → String → JobSpecTemplate → Exec DispatchError (Unit {0})
  unfolding or_give_up create_service_account create_run_json_secret create_wif_token_secret
      runner_job submit_job
  prepare_job info run_json_base64 impl_type spec = do
    let namespace = k.config.namespace
    let account = render_subject_template service_account_name_template info
    or_give_up "failed to create service account: "
        (create_service_account w k namespace account info.uuid)
    or_give_up "failed to create run json secret: " (
        create_run_json_secret w k namespace (run_json_secret_name info.uuid) run_json_base64
          info.uuid)
    token_secret_name ← create_wif_token_secret w k namespace info impl_type
    resources ← value_or_crash (build_resource_requirements w.parse_quantity spec.resources)
    submit_job info token_secret_name
        (runner_job info impl_type spec account token_secret_name resources)

  unfoldable pub place_job :
      RunInfo → String → String → JobSpecTemplate → Exec DispatchError (Unit {0})
  unfolding prepare_job
  place_job info run_json_base64 impl_type spec =
      let size = estimate_run_json_size run_json_base64 in
      if ltb effective_max_run_json_size size
      then count (job_creation_errors "run_too_large")
        >> raise (run_too_large_error info.uuid size effective_max_run_json_size)
      else prepare_job info run_json_base64 impl_type spec

  -- CreateRunnerJob
  unfoldable pub create_runner_job :
      RunInfo → String → String → JobSpecTemplate → Exec DispatchError (Unit {0})
  unfolding place_job
  create_runner_job info run_json_base64 impl_type spec = do
    let job_name = "runner-" <> info.uuid
    exists ←
        ask (get_job k.config.namespace job_name) (λ h. w.has_job h k.config.namespace job_name)
    unless exists (place_job info run_json_base64 impl_type spec)
