-- ===== src/Controller/RunDetails.antt =====
-- go-meshapi-client/meshapi/dtos.go: the data of a run, as far as the run controller reads or changes it.
use building_block_runner.Prelude.{String, Bool, Option, List, str_eq, if◌then◌else◌}
use building_block_runner.Controller.Subject.{RunInfo}

-- An input's `Value`, a Go `any`: a text, nil, or anything else by its JSON.
pub data InputValue : Type 0 where
  text_value : String → InputValue
  nil_value : InputValue
  json_value : String → InputValue

pub record BuildingBlockInput : Type 0 where
  pub key : String
  pub value : InputValue
  pub input_type : String
  pub is_sensitive : Bool
  pub is_environment : Bool

-- RunDetailsDTO with the structs in it flattened: `implementation` is raw JSON, `others` stands for the
-- fields that the run controller passes on as they are.
pub record RunDetails : Type 0 where
  pub uuid : String
  pub workspace_identifier : String
  pub inputs : List BuildingBlockInput
  pub definition_uuid : String
  pub definition_workspace : String
  pub implementation : String
  pub others : String

-- RunDetailsDTO.GetRunInfo
unfoldable pub get_run_info : RunDetails → RunInfo
get_run_info run = record {
  uuid = run.uuid;
  workspace_identifier = run.workspace_identifier;
  building_block_definition_uuid = run.definition_uuid;
  building_block_definition_workspace = run.definition_workspace;
}

pub record KnownHost : Type 0 where
  pub host : String
  pub key_type : String
  pub key_value : String

pub record TerraformImplementation : Type 0 where
  pub kind : String
  pub terraform_version : String
  pub repository_url : String
  pub repository_path : Option String
  pub ref_name : Option String
  pub ssh_private_key : Option String
  pub known_host : Option KnownHost
  pub is_async : Bool
  pub use_mesh_http_backend_fallback : Bool
  pub pre_run_script : Option String

pub record GithubImplementation : Type 0 where
  pub kind : String
  pub github_base_url : String
  pub owner : String
  pub app_id : String
  pub app_pem : String
  pub repository : String
  pub branch : String
  pub apply_workflow : String
  pub destroy_workflow : Option String
  pub is_async : Bool
  pub omit_run_object_input : Bool

pub record GitlabImplementation : Type 0 where
  pub kind : String
  pub gitlab_base_url : String
  pub project_id : String
  pub ref_name : String
  pub pipeline_trigger_token : String

pub record AzureDevOpsImplementation : Type 0 where
  pub kind : String
  pub azure_dev_ops_base_url : String
  pub organization : String
  pub project : String
  pub pipeline_id : String
  pub personal_access_token : String
  pub is_async : Bool
  pub ref_name : Option String

-- ToRunnerType
unfoldable pub to_runner_type : String → String
to_runner_type impl_type =
    if str_eq impl_type "GITLAB_CICD"
    then "GITLAB_PIPELINE"
    else if str_eq impl_type "AZURE_DEVOPS"
    then "AZURE_DEVOPS_PIPELINE"
    else impl_type
