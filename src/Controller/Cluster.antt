-- ===== src/Controller/Cluster.antt =====
-- run-controller/controller/kubernetes.go: the service account and the secrets of a run, with
-- createWifTokenSecret and createTokenSecret of wiftoken.go.
pub mod Leftovers
pub mod Known
pub mod Steps
use building_block_runner.Prelude.{
  String, Bool, true, false, Option, none, some, List, [], ◌∷◌, ◌<>◌, ◌||◌, str_eq, not,
  if◌then◌else◌,
}
use building_block_runner.Controller.Config.{ControllerConfig, wif_issuer, wif_issuer_keycloak}
use building_block_runner.Controller.Subject.{
  RunInfo, render_subject_template, keycloak_subject_template, wif_token_secret_key,
}
use building_block_runner.Controller.World.{
  Error, Answer, answer, refusal, Secret, ServiceAccount, CreatedJob, Found, found, not_found,
  get_failed, service_accounts_created_total, service_account_creation_errors,
  wif_tokens_issued_total, wif_token_errors, get_account, create_account, get_secret, create_secret,
  generate_secret, update_secret, delete_secret, issue_token, warn_token_missing, World,
}
use building_block_runner.Controller.Exec.{
  Exec, ◌>>=◌, ◌>>◌, pure, raise, on_error, unless, is_answer, call, ask, count,
}

-- `wif_tokens` says whether there is an issuer of tokens.
pub record KubernetesClient : Type 0 where
  pub config : ControllerConfig
  pub wif_tokens : Bool

-- NewKubernetesDispatcher: only the issuer keycloak mints tokens.
unfoldable pub new_kubernetes_client : ControllerConfig → KubernetesClient
new_kubernetes_client config = record {
  config = config;
  wif_tokens = str_eq (wif_issuer config.workload_identity_federation) wif_issuer_keycloak;
}

-- The labels of all that belongs to a run.
abbrev pub run_labels : ControllerConfig → String → List (String × String)
run_labels config run_id =
    ("app.kubernetes.io/name", "runner")
    ∷ ("meshcloud.io/run-id", run_id)
    ∷ ("meshcloud.io/runner-id", config.uuid)
    ∷ []

abbrev pub run_json_secret_name : String → String
run_json_secret_name run_id = "run-json-" <> run_id

module _ (w : World) (k : KubernetesClient) where
  -- createServiceAccount
  unfoldable pub create_account_named : ServiceAccount → Exec Error (Unit {0})
  create_account_named account =
      on_error (call (λ a. create_account account (is_answer a)) (λ h. w.new_account h account))
        (λ e.
          count service_account_creation_errors
          >> raise ("failed to create service account: " <> e))
        (λ _. count service_accounts_created_total)

  unfoldable pub create_service_account : String → String → String → Exec Error (Unit {0})
  unfolding create_account_named
  create_service_account namespace name run_id = do
    exists ← ask (get_account namespace name) (λ h. w.has_account h namespace name)
    unless exists (
        create_account_named
          record { name = name; namespace = namespace; labels = run_labels k.config run_id })

  -- What createRunJsonSecret makes of the answer to its `Get`.
  unfoldable pub unless_found : Secret → Found → Exec Error (Unit {0})
  unless_found secret (found s) = pure tt
  unless_found secret (get_failed e) =
      raise ("failed to check if secret " <> secret.name <> " exists: " <> e)
  unless_found secret not_found =
      on_error (call (λ a. create_secret secret (is_answer a)) (λ h. w.new_secret h secret))
        (λ e. raise ("failed to create secret: " <> e)) pure

  abbrev pub is_found : Found → Bool
  is_found (found s) = true
  is_found _ = false

  abbrev pub run_json_secret : String → String → String → String → Secret
  run_json_secret namespace secret_name run_json run_id = record {
    name = secret_name;
    generate_name = "";
    namespace = namespace;
    labels = run_labels k.config run_id;
    content = ("run.json", run_json) ∷ [];
    owners = [];
  }

  -- createRunJsonSecret
  unfoldable pub decoded_run_json : Answer String → Exec Error String
  decoded_run_json (answer run_json) = pure run_json
  decoded_run_json (refusal e) = raise ("failed to decode run json base64: " <> e)

  unfoldable pub create_run_json_secret : String → String → String → String → Exec Error (Unit {0})
  unfolding decoded_run_json unless_found
  create_run_json_secret namespace secret_name run_json_base64 run_id = do
    run_json ← decoded_run_json (w.decode_base64 run_json_base64)
    there ←
        ask (λ f. get_secret namespace secret_name (is_found f))
          (λ h. w.find_secret h namespace secret_name)
    unless_found (run_json_secret namespace secret_name run_json run_id) there

  abbrev pub name_of : Answer String → Option String
  name_of (answer name) = some name
  name_of (refusal e) = none

  -- createTokenSecret
  unfoldable pub create_token_secret : String → String → String → Exec Error String
  create_token_secret namespace run_id token =
      let secret : Secret = record {
        name = "";
        generate_name = "wif-token-" <> run_id <> "-";
        namespace = namespace;
        labels = run_labels k.config run_id;
        content = (wif_token_secret_key, token) ∷ [];
        owners = [];
      } in
      on_error
        (call (λ a. generate_secret secret (name_of a)) (λ h. w.new_generated_secret h secret))
        (λ e. raise ("failed to create secret: " <> e)) pure

  unfoldable pub mint_token_secret : String → RunInfo → Exec Error String
  unfolding create_token_secret
  mint_token_secret namespace info =
      let subject = render_subject_template keycloak_subject_template info in
      call (λ a. issue_token info.uuid subject) (λ h. w.token_of h info.uuid subject)
      >>= create_token_secret namespace info.uuid

  -- createWifTokenSecret: the name of the token's secret, or the empty text.
  unfoldable pub warn_without_token : {E : Type 0} → RunInfo → Exec E String
  warn_without_token info =
      on_error (call (λ _. warn_token_missing info.uuid) (λ h. w.warning h info.uuid))
        (λ _. pure "") (λ _. pure "")

  unfoldable pub mint_or_warn : {E : Type 0} → String → RunInfo → Exec E String
  unfolding mint_token_secret warn_without_token
  mint_or_warn namespace info =
      on_error (mint_token_secret namespace info)
        (λ e. count wif_token_errors >> warn_without_token info)
        (λ secret_name. count wif_tokens_issued_total >> pure secret_name)

  unfoldable pub create_wif_token_secret : {E : Type 0} → String → RunInfo → String → Exec E String
  unfolding mint_or_warn
  create_wif_token_secret namespace info impl_type =
      if not k.wif_tokens || not (str_eq impl_type "TERRAFORM")
      then pure ""
      else mint_or_warn namespace info

  -- `_ = ….Delete(…)`
  unfoldable pub remove : {E : Type 0} → String → String → Exec E (Unit {0})
  remove namespace name =
      on_error (call (λ _. delete_secret namespace name) (λ h. w.remove_secret h namespace name))
        (λ _. pure tt) pure

  -- setSecretOwnerReference, whose error CreateRunnerJob only logs.
  unfoldable pub set_owner : {E : Type 0} → Found → CreatedJob → Exec E (Unit {0})
  set_owner (found secret) job =
      let owned : Secret = record secret {
        owners = record { name = job.name; uid = job.uid } ∷ [];
      } in
      on_error (call (λ a. update_secret owned (is_answer a)) (λ h. w.change_secret h owned))
        (λ _. pure tt) pure
  set_owner not_found job = pure tt
  set_owner (get_failed e) job = pure tt

  unfoldable pub set_secret_owner_reference :
      {E : Type 0} → String → String → CreatedJob → Exec E (Unit {0})
  unfolding set_owner
  set_secret_owner_reference namespace secret_name job = do
    there ←
        ask (λ f. get_secret namespace secret_name (is_found f))
          (λ h. w.find_secret h namespace secret_name)
    set_owner there job
