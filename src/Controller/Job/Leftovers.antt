-- ===== src/Controller/Job/Leftovers.antt =====
-- A job that could not be created leaves no secret behind.
use building_block_runner.Prelude.{
  String, Bool, true, ◌≡◌, refl, ◌||◌, str_eq, is_empty, arith, subst, ltb,
}
use building_block_runner.Controller.Config.{JobSpecTemplate}
use building_block_runner.Controller.Subject.{RunInfo}
use building_block_runner.Controller.Pod.{Job}
use building_block_runner.Controller.World.{
  CreatedJob, Error, Found, found, not_found, get_failed, History, World,
}
use building_block_runner.Controller.Exec.{Go, failure, Exec, pure}
use building_block_runner.Controller.Cluster.{
  KubernetesClient, run_json_secret_name, remove, set_owner, set_secret_owner_reference,
}
use building_block_runner.Controller.Rules.{
  Triple, Always, Ends, Triple-pure, Triple-raise, Triple-value_or_crash, Triple-if, Triple-ask,
  Triple-bind, Triple-on_error, Triple-note, Triple-unless, Triple-call,
}
use building_block_runner.Controller.Job.{
  DispatchError, or_give_up, delete_secrets, own_secrets, submit_job, prepare_job, place_job,
  estimate_run_json_size, effective_max_run_json_size, create_runner_job,
}
use building_block_runner.Controller.Cluster.Leftovers.{
  is_left, NamesSecrets, Anything, LeftOnlyIf, AfterToken, token_is_named, Steady-call,
  create_service_account-LeftOnlyIf, create_run_json_secret-LeftOnlyIf,
  create_wif_token_secret-AfterToken, remove-LeftOnlyIf,
}

module _ (w : World) (k : KubernetesClient) where
  set_owner-Anything :
      {E : Type 0} {P : History → Type 0} {F : E → History → Type 0} (there : Found)
      (job : CreatedJob)
      → Triple P (set_owner w k {E = E} there job) (Always Anything) F Anything
  unfolding set_owner
  set_owner-Anything (found secret) job =
      Triple-on_error _ _ _
        (Triple-call {Q = Always Anything} {F = Always Anything} _ _ (λ h a p e. tt) (λ h e p. tt))
        (λ _. Triple-pure _ λ h p. tt) (λ _. Triple-pure _ λ h p. tt)
  set_owner-Anything not_found job = Triple-pure _ λ h p. tt
  set_owner-Anything (get_failed e) job = Triple-pure _ λ h p. tt

  set_secret_owner_reference-Anything :
      {E : Type 0} {P : History → Type 0} {F : E → History → Type 0}
      (namespace secret_name : String) (job : CreatedJob)
      → Triple P
          (set_secret_owner_reference w k {E = E} namespace secret_name job)
          (Always Anything)
          F
          Anything
  unfolding set_secret_owner_reference
  set_secret_owner_reference-Anything namespace secret_name job =
      Triple-bind _ _ (Triple-ask {Q = Always Anything} _ _ λ h p. tt)
        λ there. set_owner-Anything there job

  own_secrets-Anything :
      {E : Type 0} {P : History → Type 0} {F : E → History → Type 0} (info : RunInfo)
      (token_secret_name : String) (job : CreatedJob)
      → Triple P (own_secrets w k {E = E} info token_secret_name job) (Always Anything) F Anything
  unfolding own_secrets
  own_secrets-Anything info token_secret_name job =
      Triple-bind _ _ (set_secret_owner_reference-Anything _ _ job) λ _.
        Triple-if (is_empty token_secret_name) (pure tt)
          (set_secret_owner_reference w k k.config.namespace token_secret_name job)
          (λ _. Triple-pure tt λ h p. tt) (λ _. set_secret_owner_reference-Anything _ _ job)

module _ (w : World) (k : KubernetesClient) (name : String) where
  delete_secrets-LeftOnlyIf :
      {E : Type 0} (b : Bool) (info : RunInfo) (token_secret_name : String)
      {F : E → History → Type 0}
      → Triple
          (AfterToken w k name
            (b || str_eq (run_json_secret_name info.uuid) name)
            token_secret_name)
          (delete_secrets w k {E = E} info token_secret_name)
          (Always (LeftOnlyIf w k name b))
          F
          Anything
  unfolding delete_secrets
  delete_secrets-LeftOnlyIf b info token_secret_name =
      let base = b || token_is_named w k name token_secret_name in
      Triple-bind _ _ (remove-LeftOnlyIf w k name _ base _ _ λ before other. ground arith) λ _.
        Triple-if (is_empty token_secret_name) (pure tt)
          (remove w k k.config.namespace token_secret_name)
          (λ no_token. Triple-pure _ λ h left now. ground (arith, left now, no_token))
          (λ token.
            remove-LeftOnlyIf w k name base b k.config.namespace token_secret_name
              λ before other. ground arith)

  submit_job-LeftOnlyIf :
      (b : Bool) (info : RunInfo) (token_secret_name : String) (job : Job)
      → Triple
          (AfterToken w k name
            (b || str_eq (run_json_secret_name info.uuid) name)
            token_secret_name)
          (submit_job w k info token_secret_name job)
          (Always Anything)
          (Always (LeftOnlyIf w k name b))
          Anything
  unfolding submit_job
  submit_job-LeftOnlyIf b info token_secret_name job =
      Triple-on_error _ _ _ (Steady-call w k name _ _ _ λ a h. refl)
        (λ e.
          Triple-bind _ _
            (Triple-note {Q = Always (AfterToken w k name _ token_secret_name)} _ λ h left. left)
            λ _.
              Triple-bind _ _ (delete_secrets-LeftOnlyIf b info token_secret_name)
                λ _. Triple-raise _ λ h left. left)
        (λ created.
          Triple-bind _ _ (own_secrets-Anything w k info token_secret_name created)
            λ _. Triple-note _ λ h q. tt)

  or_give_up-LeftOnlyIf :
      {A : Type 0} (b : Bool) (context : String) (m : Exec Error A) {Q : A → History → Type 0}
      → Triple (LeftOnlyIf w k name b) m Q (Always (LeftOnlyIf w k name b)) Anything
      → Triple
          (LeftOnlyIf w k name b)
          (or_give_up w k context m)
          Q
          (Always (LeftOnlyIf w k name b))
          Anything
  unfolding or_give_up
  or_give_up-LeftOnlyIf b context m {Q} t =
      Triple-on_error {Q = Q} {R = Q} _ _ _ t
        (λ e.
          Triple-bind _ _ (Triple-note {Q = Always (LeftOnlyIf w k name b)} _ λ h left. left)
            λ _. Triple-raise _ λ h left. left)
        (λ a. Triple-pure {P = Q a} {Q = Q} a λ h q. q)

  prepare_job-LeftOnlyIf :
      NamesSecrets w
      → (b : Bool) (info : RunInfo) (run_json impl_type : String) (spec : JobSpecTemplate)
      → Triple
          (LeftOnlyIf w k name b)
          (prepare_job w k info run_json impl_type spec)
          (Always Anything)
          (Always (LeftOnlyIf w k name b))
          Anything
  unfolding prepare_job
  prepare_job-LeftOnlyIf named b info run_json impl_type spec =
      Triple-bind _ _
        (or_give_up-LeftOnlyIf b _ _ (create_service_account-LeftOnlyIf w k name b _ _ _))
        λ _.
          Triple-bind _ _
            (or_give_up-LeftOnlyIf b _ _ (create_run_json_secret-LeftOnlyIf w k name b _ _ _ _))
            λ _.
              Triple-bind _ _ (create_wif_token_secret-AfterToken w k name named _ _ info impl_type)
                λ token_secret_name.
                  Triple-bind _ _
                    (Triple-value_or_crash
                      {Q = Always (
                        AfterToken w k name (b || str_eq (run_json_secret_name info.uuid) name)
                          token_secret_name)}
                      _ (λ a h left. left) (λ h left. tt))
                    λ resources. submit_job-LeftOnlyIf b info token_secret_name _

  create_runner_job-LeftOnlyIf :
      NamesSecrets w
      → (b : Bool) (info : RunInfo) (run_json impl_type : String) (spec : JobSpecTemplate)
      → Triple
          (LeftOnlyIf w k name b)
          (create_runner_job w k info run_json impl_type spec)
          (Always Anything)
          (Always (LeftOnlyIf w k name b))
          Anything
  unfolding create_runner_job place_job
  create_runner_job-LeftOnlyIf named b info run_json impl_type spec =
      Triple-bind _ _ (Triple-ask {Q = Always (LeftOnlyIf w k name b)} _ _ λ h left. left) λ exists.
        Triple-unless _ _ (λ _ h left. tt)
          λ _.
            Triple-if (ltb effective_max_run_json_size (estimate_run_json_size run_json)) _
              (prepare_job w k info run_json impl_type spec)
              (λ _.
                Triple-bind _ _ (Triple-note {Q = Always (LeftOnlyIf w k name b)} _ λ h left. left)
                  λ _. Triple-raise _ λ h left. left)
              (λ _. prepare_job-LeftOnlyIf named b info run_json impl_type spec)

failed_lem :
    {E A : Type 0} (Q : A → History → Type 0) (F : E → History → Type 0) (X : History → Type 0)
    (r : Go E A) (h : History) (e : E)
    → r ≡ failure e
    → Ends Q F X r h
    → F e h
failed_lem Q F X r h e same ends = subst (λ s. Ends Q F X s h) same ends

-- In a cluster that gives each generated secret a name: where creating a run's job fails, every secret
-- that is left after it, that is, created and not asked to be deleted after, was left before it.
pub create_runner_job-is_left :
    (w : World) (k : KubernetesClient) (info : RunInfo) (run_json impl_type : String)
    (spec : JobSpecTemplate) (h : History) (name : String) (e : DispatchError)
    → NamesSecrets w
    → (create_runner_job w k info run_json impl_type spec h).0 ≡ failure e
    → is_left name (create_runner_job w k info run_json impl_type spec h).1 ≡ true
    → is_left name h ≡ true
create_runner_job-is_left w k info run_json impl_type spec h name e named failed =
    failed_lem (Always Anything) (Always (LeftOnlyIf w k name (is_left name h))) Anything _ _ e
      failed
      ((create_runner_job-LeftOnlyIf w k name named (is_left name h) info run_json impl_type
          spec).at
        h λ now. now)
