-- ===== src/Controller/Job/Sound.antt =====
-- Invariants of CreateRunnerJob.
use building_block_runner.Prelude.{String, Bool, true, false, ◌≡◌, refl, ◌||◌, is_empty, arith, ltb}
use building_block_runner.Controller.Config.{JobSpecTemplate}
use building_block_runner.Controller.Subject.{
  RunInfo, render_subject_template, service_account_name_template,
}
use building_block_runner.Controller.Pod.{Job, ResourceRequirements}
use building_block_runner.Controller.World.{Error, answer, CreatedJob, History, World}
use building_block_runner.Controller.Exec.{Exec, pure}
use building_block_runner.Controller.Cluster.{
  KubernetesClient, run_json_secret_name, remove, set_secret_owner_reference,
}
use building_block_runner.Controller.Cluster.Known.{
  knows_secret, knows_account, CanStart, Invariant, Grows, Both, Keeps, Keeps-note,
}
use building_block_runner.Controller.Cluster.Steps.{
  create_service_account-Known, create_run_json_secret-Known, create_wif_token_secret-Known,
  remove-Known, set_secret_owner_reference-Known,
}
use building_block_runner.Controller.Rules.{
  Triple, Always, Triple-from, Triple-pure, Triple-raise, Triple-value_or_crash, Triple-if,
  Triple-ask, Triple-bind, Triple-on_error, Triple-note, Triple-unless, Triple-call,
}
use building_block_runner.Controller.Job.{
  or_give_up, delete_secrets, own_secrets, submit_job, runner_job, prepare_job, place_job,
  create_runner_job, effective_max_run_json_size, estimate_run_json_size,
}
use building_block_runner.Controller.Job.Provided.{names_secret, create_volumes-AreProvided}

module _ (w : World) (k : KubernetesClient) {Small : String → Type 0} {Runs : Job → Type 0}
    {configured : String → Bool} {P : History → Type 0}
    (invariant : Invariant Small Runs configured P) where
  runner_job-CanStart :
      (info : RunInfo) (impl_type : String) (spec : JobSpecTemplate) (account token : String)
      (resources : ResourceRequirements) (h : History)
      → ((name : String) → names_secret spec.extra_volumes name ≡ true → configured name ≡ true)
      → knows_account account h ≡ true
      → knows_secret (run_json_secret_name info.uuid) h ≡ true
      → (is_empty token || knows_secret token h) ≡ true
      → CanStart configured (runner_job w k info impl_type spec account token resources) h
  unfolding runner_job
  runner_job-CanStart info impl_type spec account token resources h f known_account known_json
        known_token =
      (
        known_account,
        create_volumes-AreProvided configured h w.parse_quantity k.config spec k.config.namespace
            (run_json_secret_name info.uuid) token f known_json known_token,
      )

  abbrev Nothing : History → Type 0
  Nothing h = Unit

  grows-Nothing : Grows Nothing
  grows-Nothing e h m = tt

  delete_secrets-Keeps :
      {E : Type 0} (info : RunInfo) (token : String)
      → Keeps P Nothing (delete_secrets w k {E = E} info token)
  unfolding delete_secrets
  delete_secrets-Keeps info token =
      Triple-bind _ _ (remove-Known w k invariant grows-Nothing _ _) λ _.
        Triple-if (is_empty token) (pure tt) (remove w k k.config.namespace token)
          (λ _. Triple-pure _ λ h both. both) (λ _. remove-Known w k invariant grows-Nothing _ _)

  own_secrets-Keeps :
      {E : Type 0} (info : RunInfo) (token : String) (job : CreatedJob)
      → Keeps P Nothing (own_secrets w k {E = E} info token job)
  unfolding own_secrets
  own_secrets-Keeps info token job =
      Triple-bind _ _ (set_secret_owner_reference-Known w k invariant grows-Nothing _ _ job) λ _.
        Triple-if (is_empty token) (pure tt)
          (set_secret_owner_reference w k k.config.namespace token job)
          (λ _. Triple-pure _ λ h both. both)
          (λ _. set_secret_owner_reference-Known w k invariant grows-Nothing _ _ job)

  submit_job-Keeps :
      (info : RunInfo) (token : String) (job : Job)
      → Runs job
      → Triple
          (λ h. P h × CanStart configured job h)
          (submit_job w k info token job)
          (Always P)
          (Always P)
          P
  unfolding submit_job
  submit_job-Keeps info token job runs =
      Triple-on_error _ _ _
        (Triple-call {Q = Always (Both P Nothing)} {F = Always (Both P Nothing)} _ _
          (λ h a can _. (invariant.job job true h runs can.1 can.0, tt))
          (λ h e can. (invariant.job job false h runs can.1 can.0, tt)))
        (λ e. Triple-bind _ _ (Keeps-note invariant grows-Nothing _ refl) λ _.
          Triple-bind _ _ (delete_secrets-Keeps info token) λ _. Triple-raise _ λ h both. both.0)
        (λ created.
          Triple-bind _ _ (own_secrets-Keeps info token created)
            λ _. Triple-note _ λ h both. invariant.minor _ h refl both.0)

  or_give_up-Keeps :
      {A : Type 0} {R : History → Type 0} (context : String) (m : Exec Error A)
      {Q : A → History → Type 0}
      → Triple R m Q (Always P) P
      → Triple R (or_give_up w k context m) Q (Always P) P
  unfolding or_give_up
  or_give_up-Keeps context m {Q} t =
      Triple-on_error {Q = Q} {R = Q} _ _ _ t
        (λ e.
          Triple-bind _ _ (Triple-note {Q = Always P} _ λ h p. invariant.minor _ h refl p)
            λ _. Triple-raise _ λ h p. p)
        (λ a. Triple-pure {P = Q a} {Q = Q} a λ h q. q)

  prepare_job-Keeps :
      (info : RunInfo) (run_json impl_type : String) (spec : JobSpecTemplate)
      → ((name : String) → names_secret spec.extra_volumes name ≡ true → configured name ≡ true)
      → ((text : String) → w.decode_base64 run_json ≡ answer text → Small text)
      → ((token : String) (resources : ResourceRequirements)
          → Runs (
              runner_job w k info impl_type spec
                (render_subject_template service_account_name_template info)
                token
                resources))
      → Triple P (prepare_job w k info run_json impl_type spec) (Always P) (Always P) P
  unfolding prepare_job
  prepare_job-Keeps info run_json impl_type spec f small runs =
      let account = render_subject_template service_account_name_template info in
      let secret = run_json_secret_name info.uuid in
      let AccountKnown : History → Type 0 = λ h. knows_account account h ≡ true in
      let AllKnown : History → Type 0 =
        λ h. (knows_account account h ≡ true) × (knows_secret secret h ≡ true) in
      let TokenKnown : String → History → Type 0 =
        λ token h. Both P AllKnown h × ((is_empty token || knows_secret token h) ≡ true) in
      Triple-bind _ _
        (or_give_up-Keeps {R = P} _ _ (
          Triple-from {P' = Both P Nothing} (λ h p. (p, tt))
            (create_service_account-Known w k invariant grows-Nothing _ account info.uuid)))
        λ _.
          Triple-bind _ _
            (or_give_up-Keeps _ _ (
              Triple-from {P' = Both P AccountKnown} (λ h known. (known.0.0, known.1))
                (create_run_json_secret-Known w k invariant {M = AccountKnown}
                  (λ e h m. ground (arith, m)) _ secret run_json info.uuid small)))
            λ _.
              Triple-bind _ _
                (Triple-from {P' = Both P AllKnown} (λ h known. (known.0.0, (known.0.1, known.1)))
                  (create_wif_token_secret-Known w k invariant {M = AllKnown}
                    (λ e h m. ground (arith, m.0, m.1)) _ info impl_type))
                λ token.
                  Triple-bind _ _
                    (Triple-value_or_crash {Q = Always (TokenKnown token)} _ (λ a h q. q)
                      (λ h q. q.0.0))
                    λ resources.
                      Triple-from
                        (λ h known. (
                          known.0.0,
                          runner_job-CanStart info impl_type spec account token resources h f
                              known.0.1.0 known.0.1.1 known.1,
                        ))
                        (submit_job-Keeps info token _ (runs token resources))

  pub create_runner_job-Keeps :
      (info : RunInfo) (run_json impl_type : String) (spec : JobSpecTemplate)
      → ((name : String) → names_secret spec.extra_volumes name ≡ true → configured name ≡ true)
      → ((text : String)
          → ltb effective_max_run_json_size (estimate_run_json_size run_json) ≡ false
          → w.decode_base64 run_json ≡ answer text
          → Small text)
      → ((token : String) (resources : ResourceRequirements)
          → Runs (
              runner_job w k info impl_type spec
                (render_subject_template service_account_name_template info)
                token
                resources))
      → Triple P (create_runner_job w k info run_json impl_type spec) (Always P) (Always P) P
  unfolding create_runner_job place_job
  create_runner_job-Keeps info run_json impl_type spec f small runs =
      Triple-bind _ _ (Triple-ask {Q = Always P} _ _ λ h p. invariant.minor _ h refl p) λ exists.
        Triple-unless _ _ (λ _ h p. p)
          λ _.
            Triple-if (ltb effective_max_run_json_size (estimate_run_json_size run_json)) _
              (prepare_job w k info run_json impl_type spec)
              (λ _.
                Triple-bind _ _ (Triple-note {Q = Always P} _ λ h p. invariant.minor _ h refl p)
                  λ _. Triple-raise _ λ h p. p)
              (λ fits.
                prepare_job-Keeps info run_json impl_type spec f (λ text. small text fits) runs)
