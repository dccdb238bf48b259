-- ===== src/Controller/Example.antt =====
-- A cluster, a configuration and a run, for the examples.
use building_block_runner.Prelude.{Bool, true, false, none, some, [], ◌∷◌, str_eq, if◌then◌else◌}
use building_block_runner.Prelude.Int.{pos}
use building_block_runner.Controller.Config.{ControllerConfig, JobSpecTemplate}
use building_block_runner.Controller.Subject.{RunInfo}
use building_block_runner.Controller.World.{
  answer, refusal, create_secret, History, World, not_found,
}
use building_block_runner.Controller.RunDetails.{RunDetails}
use building_block_runner.Controller.Cluster.{KubernetesClient}
use building_block_runner.Controller.Decryption.{Codec}
use building_block_runner.Controller.Loop.{RunApi}

-- The jobs can be created or not; the tokens' secrets get a suffix.
abbrev pub cluster : Bool → World
cluster has_room = record {
  has_job = λ h namespace name. false;
  new_job = λ h job.
      if has_room then answer record { name = job.name; uid = "u-1" } else refusal "exceeded quota";
  jobs_with = λ h namespace selector. answer (record { conditions = [] } ∷ []);
  has_account = λ h namespace name. false;
  new_account = λ h account. answer tt;
  find_secret = λ h namespace name. not_found;
  new_secret = λ h secret. answer tt;
  new_generated_secret = λ h secret. answer "wif-token-r1-x7";
  change_secret = λ h secret. answer tt;
  remove_secret = λ h namespace name. answer tt;
  token_of = λ h run subject. answer "a token";
  warning = λ h run. answer tt;
  decode_base64 = λ text. if str_eq text "e30=" then answer "{}" else refusal "illegal base64 data";
  parse_quantity = λ text. some text;
}

abbrev pub spec : JobSpecTemplate
spec = record {
  image = "tf-block-runner:1.0";
  command = [];
  args = [];
  env = ("LOG", "debug") ∷ [];
  resources = record {
    requests = record { cpu = ""; memory = "512Mi" };
    limits = record { cpu = "1"; memory = "" };
  };
  extra_volumes =
      record {
        name = "certs";
        config_map = none;
        secret = some record { secret_name = "ca" };
        empty_dir = none;
      }
      ∷ [];
  extra_volume_mounts = record { name = "certs"; mount_path = "/certs"; read_only = true } ∷ [];
}

abbrev pub config : ControllerConfig
config = record {
  namespace = "runners";
  image_pull_secrets = [];
  polling_interval_seconds = pos 10;
  max_concurrent_jobs = pos 0;
  api = record {
    url = "https://meshstack";
    username = "";
    password = "";
    client_id = "id";
    client_secret = "secret";
  };
  uuid = "c-1";
  owned_by_workspace = "platform";
  display_name = "runner";
  crypto = record { public_key = "public"; private_key = "private" };
  tolerations = [];
  node_selector = [];
  implementations = ("TERRAFORM", spec) ∷ [];
  workload_identity_federation = record {
    issuer = "keycloak";
    keycloak = some record {
      url = "https://keycloak/";
      realm = "mesh";
      client_id = "runner";
      client_secret = "s3cret";
      token_lifetime_minutes = pos 0;
    };
  };
}

abbrev pub client : KubernetesClient
client = record { config = config; wif_tokens = true }

abbrev pub info : RunInfo
info = record {
  uuid = "r1";
  workspace_identifier = "w1";
  building_block_definition_uuid = "d1";
  building_block_definition_workspace = "platform";
}

-- A secret of another run is there.
abbrev pub earlier : History
earlier =
    create_secret
      record {
        name = "run-json-r0";
        generate_name = "";
        namespace = "runners";
        labels = [];
        content = ("run.json", "{}") ∷ [];
        owners = [];
      }
      true
    ∷ []

abbrev pub claimed_run : RunDetails
claimed_run = record {
  uuid = "r1";
  workspace_identifier = "w1";
  inputs = [];
  definition_uuid = "d1";
  definition_workspace = "platform";
  implementation = "a terraform run";
  others = "";
}

abbrev pub codec : Codec
codec = record {
  decode_base64 = λ text. answer "{}";
  encode_base64 = λ text. "e30=";
  parse_run_details = λ text. answer claimed_run;
  print_run_details = λ r. answer "{}";
  implementation_type = λ text. answer "MANUAL";
  parse_terraform = λ text. refusal "not used";
  print_terraform = λ impl. refusal "not used";
  parse_github = λ text. refusal "not used";
  print_github = λ impl. refusal "not used";
  parse_gitlab = λ text. refusal "not used";
  print_gitlab = λ impl. refusal "not used";
  parse_azure = λ text. refusal "not used";
  print_azure = λ impl. refusal "not used";
}

-- meshStack always has a run to claim.
abbrev pub busy : RunApi
busy = record {
  fetch_run_details = λ h. answer record { run_json_base64 = "e30="; run = claimed_run };
  register_source_of = λ h id. answer tt;
  update_status_of = λ h id message. answer tt;
  codec = codec;
  decrypt = answer;
  is_stopping = λ h. false;
}
