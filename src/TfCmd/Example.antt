-- ===== src/TfCmd/Example.antt =====
-- A command in a world where every call succeeds, for the tests.
use building_block_runner.Prelude.{
  String, true, false, none, some, [], ◌∷◌, ◌<>◌, str_eq, if◌then◌else◌,
}
use building_block_runner.Prelude.Int.{pos}
use building_block_runner.Run.Kinds.{pending, string}
use building_block_runner.Run.Status.{RunStatus, Json, text}
use building_block_runner.TfConfig.{entries}
use building_block_runner.TfCmd.Outside.{Outside, Reply, ok, exists}
use building_block_runner.TfCmd.Exec.{Cmd}
use building_block_runner.TfCmd.Params.{GenericTfCmd, Libraries, ssh}

abbrev done : Reply (Unit {0})
done = record { written = []; result = ok tt }

abbrev pub calm : Outside
calm = record {
  log_unreadable = λ h. false;
  context_error = λ h. none;
  auth_prepare = λ h d. done;
  mkdir = λ h d. done;
  clone_repository = λ h u d. done;
  checkout_ref = λ h r. done;
  azure_clone_repository = λ h d u. done;
  azure_checkout_ref = λ h d r. done;
  stat_path = λ h p. exists;
  move_files = λ h a b. done;
  tf_binary = λ h v. done;
  tf_set_env = λ h e. done;
  config_dir = λ h. entries [];
  create_temp = λ h. ok "user-msg";
  run_process = λ h c i. record { output = ""; error = none; user_message_file = none };
  unix_time = λ h. "0";
  open_root = λ h d. done;
  store = λ h p f. done;
  run_init = λ h. done;
  list_workspaces = λ h. record { written = []; result = ok ("default" ∷ [], "default") };
  select_workspace = λ h w. done;
  new_workspace = λ h w. done;
  delete_workspace = λ h w. done;
  run_apply = λ h. done;
  run_apply_plan = λ h f. done;
  run_plan = λ h f. record { written = []; result = ok true };
  run_destroy = λ h b. done;
  read_output = λ h. record { written = []; result = ok [] };
  open_for_write = λ h f. done;
  download = λ h u. done;
  close_file = λ h f. done;
  read_file = λ h f. record { written = []; result = ok "plan" };
  upload = λ h u d. done;
}

abbrev show_text : Json → String
show_text (text s) = s
show_text _ = ""

abbrev pub plain_libraries : Libraries
plain_libraries = record {
  show_value = show_text;
  marshal = λ v. ok (show_text v);
  marshal_indent = show_text;
  implied_type = λ v. true;
  to_cty_value = λ v. ok (show_text v);
  json_valid = λ s. false;
  unmarshal_json = ok;
  parse_expression = ok;
  cty_marshal = ok;
  decrypt = ok;
  decode_base64 = ok;
  look_up_env = λ k. if str_eq k "HOME" then some "/root" else none;
  trim_space = λ s. s;
  path_join = λ a b. a <> "/" <> b;
  show_int = λ i. "0";
  less_than = λ a b. some false;
}

-- `mode` and `artifact_url` tell a dry run, an apply and the replay of a plan apart.
abbrev pub example : String → String → GenericTfCmd
example mode url = record {
  outside = calm;
  libraries = plain_libraries;
  app_config = record {
    tf_command_timeout_mins = "60";
    skip_host_key_validation = false;
    api_url = "https://api";
    runner_uuid = "r";
    bin_dir = "/bin-dir";
  };
  run_context_info = record {
    run_id = "run";
    run_json_base64 = "e30=";
    bb_id = "bb";
    workspace_identifier = "ws";
    async_run = false;
    use_mesh_backend_fallback = true;
    working_directory = "/wd";
    artifact_file_path = "/wd/plan";
    run_token = "token";
    meshstack_base_url = "https://mesh";
    tf_state_lock_url = "";
  };
  params = record {
    building_block_id = "bb";
    tf_version = "1.9.0";
    suggested_workspace = "ws-bb";
    vars =
        (
          "TF_VAR_region",
          record { value = text "eu"; env = true; data_type = string; is_sensitive = false },
        )
        ∷ [];
    source = record { url = "https://git"; path = none; ref_name = some "main"; auth = ssh };
    pre_run_script = none;
    run_mode = mode;
    artifact_url = url;
    artifact_upload_url = "https://up";
  };
}

abbrev idle : RunStatus
idle = record {
  run_id = "run";
  status = pending;
  steps = [];
  current_step_index = pos 0;
  summary = none;
  changes_detected = none;
}

abbrev pub fresh : Cmd
fresh = record {
  run_status = idle;
  report_status = idle;
  log = "";
  log_unreadable = λ h. false;
  writes_report = false;
  use_workspaces = true;
  events = [];
}
