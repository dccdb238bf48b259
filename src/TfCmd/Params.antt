-- ===== src/TfCmd/Params.antt =====
-- What a command is given: TfCmdParams and the fixed fields of RunContextInfo, GitSource and the
-- runner's configuration. What a command changes is in `Cmd`.
use building_block_runner.Prelude.{String, Bool, Option, List}
use building_block_runner.Prelude.Int.{ℤ}
use building_block_runner.Run.Kinds.{DataType}
use building_block_runner.Run.Status.{Json}
use building_block_runner.TfCmd.Outside.{Result, Outside}

pub data AuthType : Type 0 where
  no_auth ssh : AuthType

pub record GitSource : Type 0 where
  pub url : String
  pub path : Option String
  pub ref_name : Option String
  pub auth : AuthType

pub record Variable : Type 0 where
  pub value : Json
  pub env : Bool
  pub data_type : DataType
  pub is_sensitive : Bool

pub record TfCmdParams : Type 0 where
  pub building_block_id : String
  pub tf_version : String
  pub suggested_workspace : String
  pub vars : List (String × Variable)
  pub source : GitSource
  pub pre_run_script : Option String
  pub run_mode : String
  pub artifact_url : String
  pub artifact_upload_url : String

pub record RunContextInfo : Type 0 where
  pub run_id : String
  pub run_json_base64 : String
  pub bb_id : String
  pub workspace_identifier : String
  pub async_run : Bool
  pub use_mesh_backend_fallback : Bool
  pub working_directory : String
  pub artifact_file_path : String
  pub run_token : String
  pub meshstack_base_url : String
  pub tf_state_lock_url : String

-- `tf_command_timeout_mins` as `%d` prints it; `bin_dir` is the directory of TfBinaries.
pub record TfRunnerConfig : Type 0 where
  pub tf_command_timeout_mins : String
  pub skip_host_key_validation : Bool
  pub api_url : String
  pub runner_uuid : String
  pub bin_dir : String

-- Functions of libraries and of the decryption, which a command only calls. `less_than` compares
-- two versions, `none` where the first does not parse.
pub record Libraries : Type 0 where
  pub show_value : Json → String
  pub marshal : Json → Result String
  pub marshal_indent : Json → String
  pub implied_type : Json → Bool
  pub to_cty_value : Json → Result String
  pub json_valid : String → Bool
  pub unmarshal_json : String → Result String
  pub parse_expression : String → Result String
  pub cty_marshal : String → Result String
  pub decrypt : String → Result String
  pub decode_base64 : String → Result String
  pub look_up_env : String → Option String
  pub trim_space : String → String
  pub path_join : String → String → String
  pub show_int : ℤ → String
  pub less_than : String → String → Option Bool

-- GenericTfCmd
pub record GenericTfCmd : Type 0 where
  pub outside : Outside
  pub libraries : Libraries
  pub open libraries use *
  pub app_config : TfRunnerConfig
  pub open app_config use *
  pub run_context_info : RunContextInfo
  pub open run_context_info use *
  pub params : TfCmdParams
  pub open params use *
