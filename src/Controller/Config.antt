-- ===== src/Controller/Config.antt =====
-- run-controller/controller/config.go: the configuration, as the file and the environment give it.
pub mod Read
use building_block_runner.Prelude.{
  String, Bool, Option, List, ◌<>◌, ◌&&◌, not, is_empty, first_set, if◌then◌else◌,
}
use building_block_runner.Prelude.Int.{ℤ}

pub record KeycloakWifConfig : Type 0 where
  pub url : String
  pub realm : String
  pub client_id : String
  pub client_secret : String
  pub token_lifetime_minutes : ℤ

-- `issuer` as written in the file, the empty text where it is not; `keycloak` is nil where absent.
pub record WorkloadIdentityFederationConfig : Type 0 where
  pub issuer : String
  pub keycloak : Option KeycloakWifConfig

abbrev pub wif_issuer_kubernetes : String
wif_issuer_kubernetes = "kubernetes"

abbrev pub wif_issuer_keycloak : String
wif_issuer_keycloak = "keycloak"

abbrev pub wif_issuer_off : String
wif_issuer_off = "off"

-- WorkloadIdentityFederationConfig.issuer
unfoldable pub wif_issuer : WorkloadIdentityFederationConfig → String
wif_issuer c = first_set c.issuer wif_issuer_kubernetes

-- KeycloakWifConfig.issuer
unfoldable pub keycloak_issuer : KeycloakWifConfig → String
keycloak_issuer c = c.url <> "/realms/" <> c.realm

pub record ApiConfig : Type 0 where
  pub url : String
  pub username : String
  pub password : String
  pub client_id : String
  pub client_secret : String

pub record CryptoConfig : Type 0 where
  pub public_key : String
  pub private_key : String

pub record TolerationConfig : Type 0 where
  pub key : String
  pub operator : String
  pub value : String
  pub effect : String
  pub toleration_seconds : Option ℤ

pub record ConfigMapVolumeSpec : Type 0 where
  pub name : String

pub record SecretVolumeSpec : Type 0 where
  pub secret_name : String

pub record EmptyDirVolumeSpec : Type 0 where
  pub size_limit : String

pub record ExtraVolume : Type 0 where
  pub name : String
  pub config_map : Option ConfigMapVolumeSpec
  pub secret : Option SecretVolumeSpec
  pub empty_dir : Option EmptyDirVolumeSpec

pub record ExtraVolumeMount : Type 0 where
  pub name : String
  pub mount_path : String
  pub read_only : Bool

pub record ResourceSpec : Type 0 where
  pub cpu : String
  pub memory : String

pub record ResourcesConfig : Type 0 where
  pub requests : ResourceSpec
  pub limits : ResourceSpec

pub record JobSpecTemplate : Type 0 where
  pub image : String
  pub command : List String
  pub args : List String
  pub env : List (String × String)
  pub resources : ResourcesConfig
  pub extra_volumes : List ExtraVolume
  pub extra_volume_mounts : List ExtraVolumeMount

pub record ControllerConfig : Type 0 where
  pub namespace : String
  pub image_pull_secrets : List String
  pub polling_interval_seconds : ℤ
  pub max_concurrent_jobs : ℤ
  pub api : ApiConfig
  pub uuid : String
  pub owned_by_workspace : String
  pub display_name : String
  pub crypto : CryptoConfig
  pub tolerations : List TolerationConfig
  pub node_selector : List (String × String)
  pub implementations : List (String × JobSpecTemplate)
  pub workload_identity_federation : WorkloadIdentityFederationConfig

-- `api_key_auth` holds the login URL, the client's id and its secret.
pub data AuthProvider : Type 0 where
  basic_auth : String → String → AuthProvider
  api_key_auth : String → String → String → AuthProvider

-- ApiConfig.NewAuthProvider
unfoldable pub new_auth_provider : ApiConfig → String → AuthProvider
new_auth_provider c fallback_url =
    if not (is_empty c.client_id) && not (is_empty c.client_secret)
    then api_key_auth (if is_empty c.url then fallback_url else c.url) c.client_id c.client_secret
    else basic_auth c.username c.password
