-- ===== src/TfCmd/Outside.antt =====
-- What a command asks of the world outside the repository's code: OpenTofu through tfexec, git, the
-- file system, the script's process, the meshStack API. Every answer may depend on all that happened
-- before, so it is a function of the history.
use building_block_runner.Prelude.{String, Bool, Option, List}
use building_block_runner.Prelude.Int.{ℤ}
use building_block_runner.Run.Status.{Json, RunStatus}
use building_block_runner.TfConfig.{ConfigDir}

-- A Go `error`, by its text.
abbrev pub Error : Type 0
Error = String

-- `panic` is a run-time panic, which ends the process.
pub data Result (A : Type 0) : Type 0 where
  ok : A → Result A
  err : Error → Result A
  panic : Result A

-- The texts that a callee writes to the update log, and what it returns.
pub record Reply (A : Type 0) : Type 0 where
  pub written : List String
  pub result : Result A

-- The value of a variable in a tfvars file: a null, a text, or what the cty library made of it.
pub data TfValue : Type 0 where
  null_value : TfValue
  text_value : String → TfValue
  cty_value : String → TfValue

-- What a file is given: text, or what hclwrite prints: the attributes of a backend block, variables
-- with their values, or declarations of string variables, each nullable with a null default or not.
pub data FileContent : Type 0 where
  plain : String → FileContent
  backend : List (String × String) → FileContent
  tfvars : List (String × TfValue) → FileContent
  declarations : List (String × Bool) → FileContent

-- One thing that happened, with the arguments that the code chose.
pub data Event : Type 0 where
  published : RunStatus → Event
  prepare_auth : String → Event
  make_dir : String → Event
  remove_all : String → Event
  git_clone : String → Event
  git_checkout : String → Event
  azure_clone : String → Event
  azure_checkout : String → Event
  stat : String → Event
  move_dir_content : String → String → Event
  get_tf : String → Event
  set_env : List (String × String) → Event
  write_file : String → FileContent → Event
  tf_init : Event
  workspace_list : Event
  workspace_select : String → Event
  workspace_new : String → Event
  workspace_delete : String → Event
  run_process : List String → String → Event
  apply_fresh : Event
  apply_plan : String → Event
  tf_plan : String → Event
  tf_destroy : Bool → Event
  tf_output : Event
  open_plan_file : String → Event
  download_artifact : String → Event
  close_plan_file : String → Event
  read_plan_file : String → Event
  upload_artifact : String → String → Event

-- Newest first.
abbrev pub History : Type 0
History = List Event

-- `tfexec.OutputMeta`: `type_json` is what the `Type` field decodes to, `none` where it does not.
pub record OutputMeta : Type 0 where
  pub sensitive : Bool
  pub type_json : Option Json
  pub value : Option Json

-- `stat` of a path: it is there, it is not, or the file system failed.
pub data Stat : Type 0 where
  exists : Stat
  not_exist : Stat
  stat_failed : Error → Stat

-- `ctx.Err()`, with `context.Cause` for a cancelled context.
pub data ContextError : Type 0 where
  deadline_exceeded : ContextError
  canceled : String → ContextError

-- The error of a process: an `exec.ExitError` carries an exit code, another error does not.
pub data ProcessError : Type 0 where
  exited : ℤ → Error → ProcessError
  not_started : Error → ProcessError

-- A finished process: what it printed, its error, and the user message file after it, `none` where
-- that cannot be read.
pub record Process : Type 0 where
  pub output : String
  pub error : Option ProcessError
  pub user_message_file : Option String

pub record Outside : Type 0 where
  pub log_unreadable : History → Bool
  pub context_error : History → Option ContextError
  pub auth_prepare : History → String → Reply (Unit {0})
  pub mkdir : History → String → Reply (Unit {0})
  pub clone_repository : History → String → String → Reply (Unit {0})
  pub checkout_ref : History → String → Reply (Unit {0})
  pub azure_clone_repository : History → String → String → Reply (Unit {0})
  pub azure_checkout_ref : History → String → String → Reply (Unit {0})
  pub stat_path : History → String → Stat
  pub move_files : History → String → String → Reply (Unit {0})
  pub tf_binary : History → String → Reply (Unit {0})
  pub tf_set_env : History → List (String × String) → Reply (Unit {0})
  pub config_dir : History → ConfigDir
  pub create_temp : History → Result String
  pub run_process : History → List String → String → Process
  pub unix_time : History → String
  pub open_root : History → String → Reply (Unit {0})
  pub store : History → String → FileContent → Reply (Unit {0})
  pub run_init : History → Reply (Unit {0})
  pub list_workspaces : History → Reply (List String × String)
  pub select_workspace : History → String → Reply (Unit {0})
  pub new_workspace : History → String → Reply (Unit {0})
  pub delete_workspace : History → String → Reply (Unit {0})
  pub run_apply : History → Reply (Unit {0})
  pub run_apply_plan : History → String → Reply (Unit {0})
  pub run_plan : History → String → Reply Bool
  pub run_destroy : History → Bool → Reply (Unit {0})
  pub read_output : History → Reply (List (String × OutputMeta))
  pub open_for_write : History → String → Reply (Unit {0})
  pub download : History → String → Reply (Unit {0})
  pub close_file : History → String → Reply (Unit {0})
  pub read_file : History → String → Reply String
  pub upload : History → String → String → Reply (Unit {0})
