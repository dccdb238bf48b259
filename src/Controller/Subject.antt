-- ===== src/Controller/Subject.antt =====
-- run-controller/controller/dtos.go: the subject of a run's workload identity, and what is registered
-- with meshStack; `RunInfo` of go-meshapi-client/meshapi/dtos.go.
pub mod Laws
use Prim.Native.String.{String as Text}
use building_block_runner.Prelude.{
  ℕ, zero, suc, String, Bool, Option, none, some, List, [], ◌∷◌, ◌<>◌, is_empty, str_eq, has_prefix,
  if◌then◌else◌,
}
use building_block_runner.Controller.Config.{
  WorkloadIdentityFederationConfig, wif_issuer, keycloak_issuer, wif_issuer_kubernetes,
  wif_issuer_keycloak,
}

pub record RunInfo : Type 0 where
  pub uuid : String
  pub workspace_identifier : String
  pub building_block_definition_uuid : String
  pub building_block_definition_workspace : String

abbrev pub service_account_name_template : String
service_account_name_template =
    "workspace.{{ workspaceIdentifier }}.buildingblockdefinition.{{ buildingBlockDefinitionUuid }}"

abbrev pub keycloak_subject_template : String
keycloak_subject_template = "bbd:{{ workspaceIdentifier }}:{{ buildingBlockDefinitionUuid }}"

abbrev pub workspace_mark : String
workspace_mark = "{{ workspaceIdentifier }}"

abbrev pub definition_mark : String
definition_mark = "{{ buildingBlockDefinitionUuid }}"

-- The characters of the two marks, without their first.
abbrev rest_of_workspace_mark : ℕ
rest_of_workspace_mark = 24

abbrev rest_of_definition_mark : ℕ
rest_of_definition_mark = 32

-- `strings.NewReplacer(…).Replace`, after the first `skip` characters, which a mark took: at each
-- position the first mark that stands there is replaced.
unfoldable pub replace_from : RunInfo → ℕ → String → String
replace_from i skip String.[] = ""
replace_from i (suc skip) (String.◌∷◌ c s) = replace_from i skip s
replace_from i zero (String.◌∷◌ c s) =
    if has_prefix (String.◌∷◌ c s) workspace_mark
    then i.building_block_definition_workspace <> replace_from i rest_of_workspace_mark s
    else if has_prefix (String.◌∷◌ c s) definition_mark
    then i.building_block_definition_uuid <> replace_from i rest_of_definition_mark s
    else String.◌∷◌ c (replace_from i zero s)

-- renderSubjectTemplate
unfoldable pub render_subject_template : String → RunInfo → String
render_subject_template template info = replace_from info zero template

-- GcpWifDTO, AwsWifDTO and AzureWifDTO have the same fields.
pub record CloudWif : Type 0 where
  pub audience : String
  pub token_path : String

pub record WifDto : Type 0 where
  pub issuer : String
  pub subject_template : String
  pub gcp : CloudWif
  pub aws : CloudWif
  pub azure : CloudWif

-- `keycloakwif.Audience`
abbrev pub keycloak_audience : String
keycloak_audience = "external-platform"

abbrev pub wif_token_mount_path : String
wif_token_mount_path = "/var/run/secrets/workload-identity/meshstack"

abbrev pub wif_token_secret_key : String
wif_token_secret_key = "token"

abbrev pub wif_token_path : String
wif_token_path = "/var/run/secrets/workload-identity/meshstack/token"

-- kubernetesWif
unfoldable pub kubernetes_wif : String → String → Option WifDto
kubernetes_wif namespace oidc_issuer =
    if is_empty oidc_issuer
    then none
    else some record {
      issuer = oidc_issuer;
      subject_template =
          "system:serviceaccount:" <> namespace <> ":" <> service_account_name_template;
      gcp = record {
        audience = "gcp-workload-identity-provider:" <> namespace;
        token_path = "/var/run/secrets/workload-identity/gcp/token";
      };
      aws = record {
        audience = "aws-workload-identity-provider:" <> namespace;
        token_path = "/var/run/secrets/workload-identity/aws/token";
      };
      azure = record {
        audience = "api://AzureADTokenExchange";
        token_path = "/var/run/secrets/workload-identity/azure/token";
      };
    }

-- keycloakWif
unfoldable pub keycloak_wif : String → WifDto
keycloak_wif issuer = record {
  issuer = issuer;
  subject_template = keycloak_subject_template;
  gcp = record { audience = keycloak_audience; token_path = wif_token_path };
  aws = record { audience = keycloak_audience; token_path = wif_token_path };
  azure = record { audience = keycloak_audience; token_path = wif_token_path };
}

-- registeredWif. With the issuer keycloak the source reads `config.Keycloak`, which the checks of the
-- configuration have found not to be nil; where it is nil all the same, the process panics.
unfoldable pub registered_wif :
    WorkloadIdentityFederationConfig → String → String → Option (Option WifDto)
registered_wif config namespace discovered_issuer =
    if str_eq (wif_issuer config) wif_issuer_kubernetes
    then some (kubernetes_wif namespace discovered_issuer)
    else if str_eq (wif_issuer config) wif_issuer_keycloak
    then elim config.keycloak [
      | none ↦ none
      | some k ↦ some (some (keycloak_wif (keycloak_issuer k)))
    ]
    else some none
