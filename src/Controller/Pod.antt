-- ===== src/Controller/Pod.antt =====
-- run-controller/controller/kubernetes.go: the job of a run and the parts of its pod. The types are the
-- fields of Kubernetes' types that the code sets.
pub mod Laws
use building_block_runner.Prelude.{
  String, Bool, true, Option, none, some, List, [], ◌∷◌, ◌++◌, ◌<>◌, map, is_empty, first_set,
  str_eq, if◌then◌else◌,
}
use building_block_runner.Prelude.Int.{ℤ}
use building_block_runner.Controller.Config.{
  ControllerConfig, JobSpecTemplate, TolerationConfig, ExtraVolume, ExtraVolumeMount,
  ConfigMapVolumeSpec, SecretVolumeSpec, EmptyDirVolumeSpec, ResourcesConfig, wif_issuer,
  wif_issuer_keycloak, wif_issuer_kubernetes,
}
use building_block_runner.Controller.Subject.{wif_token_mount_path}

pub record Toleration : Type 0 where
  pub key : String
  pub operator : String
  pub value : String
  pub effect : String
  pub toleration_seconds : Option ℤ

-- A quantity by its text.
pub data VolumeSource : Type 0 where
  no_source : VolumeSource
  config_map_source : String → VolumeSource
  secret_source : String → VolumeSource
  empty_dir_source : Option String → VolumeSource
  projected_token : String → ℤ → String → VolumeSource

pub record Volume : Type 0 where
  pub name : String
  pub source : VolumeSource

pub record VolumeMount : Type 0 where
  pub name : String
  pub mount_path : String
  pub read_only : Bool

pub record EnvVar : Type 0 where
  pub name : String
  pub value : String

pub record ResourceRequirements : Type 0 where
  pub requests : List (String × String)
  pub limits : List (String × String)

-- The security context is the same for every job, and so are the restart policy, the pull policy and
-- the flags that turn service links and the default token off.
pub record Job : Type 0 where
  pub name : String
  pub namespace : String
  pub labels : List (String × String)
  pub service_account_name : String
  pub image_pull_secrets : List String
  pub tolerations : List Toleration
  pub node_selector : List (String × String)
  pub volumes : List Volume
  pub image : String
  pub command : List String
  pub args : List String
  pub env : List EnvVar
  pub volume_mounts : List VolumeMount
  pub resources : ResourceRequirements

-- One toleration of buildTolerations
unfoldable pub build_toleration : TolerationConfig → Toleration
build_toleration c = record {
  key = c.key;
  operator = c.operator;
  value = c.value;
  effect = c.effect;
  toleration_seconds = c.toleration_seconds;
}

unfoldable pub build_tolerations : List TolerationConfig → List Toleration
build_tolerations configs = map build_toleration configs

-- The texts of `resource.MustParse`, in the order of the calls; the limit of the CPU only where set.
unfoldable pub requested_quantities : ResourcesConfig → List String
requested_quantities config =
    first_set config.requests.cpu "100m"
    ∷ first_set config.requests.memory "256Mi"
    ∷ first_set config.limits.memory "1Gi"
    ∷ (if is_empty config.limits.cpu then [] else config.limits.cpu ∷ [])

-- `resource.MustParse` of each, `none` where it panics.
unfoldable pub must_parse_all : (String → Option String) → List String → Option (List String)
must_parse_all parse [] = some []
must_parse_all parse (text ∷ rest) = elim (parse text) [
  | none ↦ none
  | some quantity ↦ elim (must_parse_all parse rest) [
    | none ↦ none
    | some quantities ↦ some (quantity ∷ quantities)
  ]
]

abbrev requirements : List String → Option ResourceRequirements
requirements (cpu ∷ memory ∷ memory_limit ∷ cpu_limit ∷ []) = some record {
  requests = ("cpu", cpu) ∷ ("memory", memory) ∷ [];
  limits = ("memory", memory_limit) ∷ ("cpu", cpu_limit) ∷ [];
}
requirements (cpu ∷ memory ∷ memory_limit ∷ []) = some record {
  requests = ("cpu", cpu) ∷ ("memory", memory) ∷ [];
  limits = ("memory", memory_limit) ∷ [];
}
requirements _ = none

-- buildResourceRequirements, `none` where it panics.
unfoldable pub build_resource_requirements :
    (String → Option String) → ResourcesConfig → Option ResourceRequirements
build_resource_requirements parse config =
    elim (must_parse_all parse (requested_quantities config)) [
      | none ↦ none
      | some quantities ↦ requirements quantities
    ]

abbrev size_limit_of : (String → Option String) → EmptyDirVolumeSpec → Option String
size_limit_of parse spec = if is_empty spec.size_limit then none else parse spec.size_limit

-- The first source that is configured.
unfoldable pub volume_source :
    (String → Option String)
    → Option ConfigMapVolumeSpec
    → Option SecretVolumeSpec
    → Option EmptyDirVolumeSpec
    → VolumeSource
volume_source parse (some config_map) secret empty_dir = config_map_source config_map.name
volume_source parse none (some secret) empty_dir = secret_source secret.secret_name
volume_source parse none none (some empty_dir) = empty_dir_source (size_limit_of parse empty_dir)
volume_source parse none none none = no_source

unfoldable pub extra_volume : (String → Option String) → ExtraVolume → Volume
extra_volume parse v = record {
  name = v.name;
  source = volume_source parse v.config_map v.secret v.empty_dir;
}

abbrev pub run_json_volume_name : String
run_json_volume_name = "run-json"

-- createVolumes
unfoldable pub create_volumes :
    (String → Option String) → JobSpecTemplate → String → List Volume → List Volume
create_volumes parse spec run_json_secret_name wif_volumes =
    record { name = run_json_volume_name; source = secret_source run_json_secret_name }
      ∷ wif_volumes
    ++ map (extra_volume parse) spec.extra_volumes

unfoldable pub extra_mount : ExtraVolumeMount → VolumeMount
extra_mount m = record { name = m.name; mount_path = m.mount_path; read_only = m.read_only }

-- createVolumeMounts
unfoldable pub create_volume_mounts : JobSpecTemplate → List VolumeMount → List VolumeMount
create_volume_mounts spec wif_mounts =
    record {
      name = run_json_volume_name;
      mount_path = "/var/run/secrets/meshstack";
      read_only = true;
    }
      ∷ wif_mounts
    ++ map extra_mount spec.extra_volume_mounts

abbrev pub wif_token_volume_name : String
wif_token_volume_name = "meshstack-wif-token"

-- The volume of one cloud's projected token, and its mount; a token lives two hours.
unfoldable pub cloud_volume : String × String → Volume
cloud_volume cloud = record {
  name = "service-account-token-" <> cloud.0;
  source = projected_token cloud.1 (ℤ.pos 7200) "token";
}

unfoldable pub cloud_mount : String × String → VolumeMount
cloud_mount cloud = record {
  name = "service-account-token-" <> cloud.0;
  mount_path = "/var/run/secrets/workload-identity/" <> cloud.0;
  read_only = true;
}

-- Each cloud with the audience of its token.
abbrev pub clouds : String → List (String × String)
clouds namespace =
    ("azure", "api://AzureADTokenExchange")
    ∷ ("gcp", "gcp-workload-identity-provider:" <> namespace)
    ∷ ("aws", "aws-workload-identity-provider:" <> namespace)
    ∷ []

-- The volume of the minted token's secret, with its mount.
unfoldable pub minted_token_volumes : String → List Volume × List VolumeMount
minted_token_volumes token_secret_name = (
  record { name = wif_token_volume_name; source = secret_source token_secret_name } ∷ [],
  record { name = wif_token_volume_name; mount_path = wif_token_mount_path; read_only = true } ∷ [],
)

-- The volumes of the clouds' projected tokens, with their mounts.
unfoldable pub projected_token_volumes : String → List Volume × List VolumeMount
projected_token_volumes namespace =
    (map cloud_volume (clouds namespace), map cloud_mount (clouds namespace))

-- wifTokenVolumes
unfoldable pub wif_token_volumes :
    ControllerConfig → String → String → List Volume × List VolumeMount
wif_token_volumes config namespace token_secret_name =
    if str_eq (wif_issuer config.workload_identity_federation) wif_issuer_keycloak
    then if is_empty token_secret_name then ([], []) else minted_token_volumes token_secret_name
    else if str_eq (wif_issuer config.workload_identity_federation) wif_issuer_kubernetes
    then projected_token_volumes namespace
    else ([], [])

abbrev pub run_json_file_path : String
run_json_file_path = "/var/run/secrets/meshstack/run.json"

unfoldable pub custom_env_var : String × String → EnvVar
custom_env_var entry = record { name = entry.0; value = entry.1 }

-- buildEnvVars
unfoldable pub build_env_vars : ControllerConfig → JobSpecTemplate → List EnvVar
build_env_vars config spec =
    record { name = "RUN_JSON_FILE_PATH"; value = run_json_file_path }
    ∷ record { name = "RUNNER_UUID"; value = config.uuid }
    ∷ record { name = "RUNNER_API_URL"; value = config.api.url }
    ∷ map custom_env_var spec.env
