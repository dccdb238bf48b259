-- ===== src/Controller/Config/Read.antt =====
-- run-controller/controller/config.go: ReadConfig with the defaults, the environment's overrides and the
-- checks. The file is already parsed, and logging is left out.
pub mod Laws
use Prim.Native.Char.{code}
use Prim.Native.String
use building_block_runner.Prelude.{
  String, Bool, true, false, Option, none, some, List, [], ◌∷◌, ◌<>◌, ◌&&◌, ◌||◌, ◌==◌, not,
  is_empty, str_eq, first_set, if◌then◌else◌,
}
use building_block_runner.Prelude.Int.{ℤ, pos, negsuc, ◌<ℤ◌}
use building_block_runner.Controller.World.{Error, Answer, answer, refusal}
use building_block_runner.Controller.Config.{
  KeycloakWifConfig, WorkloadIdentityFederationConfig, wif_issuer, wif_issuer_kubernetes,
  wif_issuer_keycloak, wif_issuer_off, ApiConfig, JobSpecTemplate, ControllerConfig,
}

-- `strings.TrimSuffix(s, "/")`
unfoldable pub trim_slash : String → String
trim_slash String.[] = ""
trim_slash (String.◌∷◌ c String.[]) = if code c == b'/' then "" else String.◌∷◌ c String.[]
trim_slash (String.◌∷◌ c (String.◌∷◌ d s)) = String.◌∷◌ c (trim_slash (String.◌∷◌ d s))

-- `cmp.Or` of two numbers
abbrev pub or_default : ℤ → ℤ → ℤ
or_default (pos n) d = if n == 0 then d else pos n
or_default (negsuc n) d = negsuc n

-- applyKeycloakWifDefaults
unfoldable pub apply_keycloak_wif_defaults : KeycloakWifConfig → KeycloakWifConfig
unfolding trim_slash
apply_keycloak_wif_defaults c = record c {
  url = trim_slash c.url;
  token_lifetime_minutes = or_default c.token_lifetime_minutes (pos 90);
}

abbrev with_defaults : Option KeycloakWifConfig → Option KeycloakWifConfig
with_defaults none = none
with_defaults (some c) = some (apply_keycloak_wif_defaults c)

-- applyApiKeyEnvOverrides; `get_env` is `os.Getenv`.
unfoldable pub apply_api_key_env_overrides : (String → String) → ApiConfig → ApiConfig
apply_api_key_env_overrides get_env api = record api {
  client_id = first_set (get_env "RUNNER_API_CLIENT_ID") api.client_id;
  client_secret = first_set (get_env "RUNNER_API_CLIENT_SECRET") api.client_secret;
}

-- A check passes with `none`; the first error counts.
infixl 20 ◌then_check◌
abbrev ◌then_check◌ : Option Error → Option Error → Option Error
none then_check second = second
some e then_check second = some e

abbrev required : String → Error → Option Error
required value e = if is_empty value then some e else none

-- What `url.Parse` makes of a text: the scheme and the host, `none` where it fails.
abbrev UrlParser : Type 0
UrlParser = String → Option (String × String)

abbrev is_https : Option (String × String) → Bool
is_https none = false
is_https (some (scheme, host)) = str_eq scheme "https" && not (is_empty host)

-- validateKeycloakWif
unfoldable pub validate_keycloak_wif : UrlParser → KeycloakWifConfig → Option Error
validate_keycloak_wif parse c =
    (if is_https (parse c.url)
      then none
      else some "workloadIdentityFederation.keycloak.url must be an https URL")
    then_check required c.realm "workloadIdentityFederation.keycloak.realm is required"
    then_check (if is_empty c.client_id || is_empty c.client_secret
        then some "workloadIdentityFederation.keycloak.clientId and clientSecret are required"
        else none)
    then_check (if c.token_lifetime_minutes <ℤ pos 0
        then some "workloadIdentityFederation.keycloak.tokenLifetimeMinutes must be positive"
        else none)

-- validateWorkloadIdentityFederation
unfoldable pub validate_workload_identity_federation :
    UrlParser → WorkloadIdentityFederationConfig → Option Error
unfolding validate_keycloak_wif
validate_workload_identity_federation parse c =
    if str_eq (wif_issuer c) wif_issuer_keycloak
    then elim c.keycloak [
      | none ↦ some "workloadIdentityFederation.keycloak is required with issuer keycloak"
      | some keycloak ↦ validate_keycloak_wif parse keycloak
    ]
    else if str_eq (wif_issuer c) wif_issuer_kubernetes || str_eq (wif_issuer c) wif_issuer_off
    then elim c.keycloak [
      | none ↦ none
      | some keycloak ↦ some (
          "workloadIdentityFederation.keycloak is only valid with issuer keycloak, not "
          <> wif_issuer c)
    ]
    else some "workloadIdentityFederation.issuer must be kubernetes, keycloak or off"

-- validateApiAuth
unfoldable pub validate_api_auth : ApiConfig → String → Option Error
validate_api_auth c context =
    if not (is_empty c.client_id) && not (is_empty c.client_secret)
      || not (is_empty c.username) && not (is_empty c.password)
    then none
    else if not (is_empty c.client_id) || not (is_empty c.client_secret)
    then some (
        context
        <> (if is_empty c.client_id
            then ".clientId is required when using API key auth"
            else ".clientSecret is required when using API key auth"))
    else if not (is_empty c.username) || not (is_empty c.password)
    then some (
        context
        <> (if is_empty c.username
            then ".username is required when using Basic auth"
            else ".password is required when using Basic auth"))
    else some (
        context
        <> ": no authentication configured; set either username/password (Basic auth) or clientId/clientSecret (API key auth)")

-- isValidHandlerImplementationType
unfoldable pub is_valid_handler_implementation_type : String → Bool
is_valid_handler_implementation_type t =
    str_eq t "TERRAFORM"
    || str_eq t "GITHUB_WORKFLOW"
    || str_eq t "GITLAB_PIPELINE"
    || str_eq t "AZURE_DEVOPS_PIPELINE"
    || str_eq t "MANUAL"

-- The loop of validateConfig over the implementations.
unfoldable pub validate_implementations : List (String × JobSpecTemplate) → Option Error
unfolding is_valid_handler_implementation_type
validate_implementations [] = none
validate_implementations (entry ∷ rest) =
    (if is_valid_handler_implementation_type entry.0
      then none
      else some (
          "implementations key '" <> entry.0
          <> "' is invalid; valid values are: TERRAFORM, GITHUB_WORKFLOW, GITLAB_PIPELINE, AZURE_DEVOPS_PIPELINE, MANUAL"))
    then_check required entry.1.image ("implementations." <> entry.0 <> ".image is required")
    then_check validate_implementations rest

abbrev at_least_one : List (String × JobSpecTemplate) → Option Error
at_least_one [] =
    some "at least one implementation handler must be configured under 'implementations'"
at_least_one (entry ∷ rest) = none

-- validateConfig
unfoldable pub validate_config : UrlParser → ControllerConfig → Option Error
unfolding validate_api_auth validate_implementations validate_workload_identity_federation
validate_config parse c =
    required c.api.url "api.url is required"
    then_check validate_api_auth c.api "api"
    then_check required c.uuid "uuid is required"
    then_check required c.owned_by_workspace "ownedByWorkspace is required"
    then_check required c.display_name "displayName is required"
    then_check required c.crypto.public_key "crypto.publicKey is required"
    then_check required c.crypto.private_key "crypto.privateKey is required"
    then_check required c.namespace "namespace is required"
    then_check at_least_one c.implementations
    then_check validate_implementations c.implementations
    then_check validate_workload_identity_federation parse c.workload_identity_federation

-- The configuration before the checks.
unfoldable pub complete_config : (String → String) → ControllerConfig → ControllerConfig
unfolding apply_api_key_env_overrides apply_keycloak_wif_defaults
complete_config get_env c = record c {
  max_concurrent_jobs = or_default c.max_concurrent_jobs (pos 20);
  api =
      apply_api_key_env_overrides get_env
        record c.api { url = first_set (get_env "RUNNER_API_URL") c.api.url };
  workload_identity_federation = record c.workload_identity_federation {
    keycloak = with_defaults c.workload_identity_federation.keycloak;
  };
}

-- ReadConfig; an error ends the process.
unfoldable pub if_valid : ControllerConfig → Option Error → Answer ControllerConfig
if_valid c none = answer c
if_valid c (some e) = refusal e

unfoldable pub read_config :
    (String → String) → UrlParser → Answer ControllerConfig → Answer ControllerConfig
unfolding complete_config validate_config if_valid
read_config get_env parse (refusal e) = refusal e
read_config get_env parse (answer c) =
    if_valid (complete_config get_env c) (validate_config parse (complete_config get_env c))
