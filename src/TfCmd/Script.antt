-- ===== src/TfCmd/Script.antt =====
-- scriptcmd.go and `runPreRunScript` of tfcmd.go. `path_list_separator` is ":".
pub mod Invariants
pub mod Laws
mod Tests
pub mod NoError
use Prim.Native.Char.{code as char_code}
use Prim.Native.String.{slice}
use building_block_runner.Prelude.{
  String, len, Bool, true, false, Option, none, some, List, [], ◌∷◌, ◌++◌, map, ◌<>◌, has_prefix,
  is_empty, insert, join, ◌==◌, if◌then◌else◌, ◌&&◌,
}
use building_block_runner.Prelude.Int.{ℤ, pos, negsuc}
use building_block_runner.TfCmd.Outside.{
  Error, Result, ok, err, panic, plain, write_file, Process, ProcessError, exited, not_started,
  run_process, remove_all,
}
use building_block_runner.TfCmd.Exec.{
  Exec, ◌>>=◌, ◌>>◌, pure, raise, lift, catch, gets, ask, note, modify_state,
  println_to_update_logs, deferred, when_some,
}
use building_block_runner.TfCmd.Params.{GenericTfCmd}
use building_block_runner.TfCmd.Env.{Environment, clean_system_env}

pub record ScriptResult : Type 0 where
  pub user_message : String
  pub system_message : String
  pub exit_code : ℤ

-- strings.ReplaceAll(script, "\r\n", "\n")
unfoldable pub unix_line_endings : String → String
unix_line_endings String.[] = ""
unix_line_endings (String.◌∷◌ a String.[]) = String.◌∷◌ a ""
unix_line_endings (String.◌∷◌ a (String.◌∷◌ b s)) =
    let rest = unix_line_endings (String.◌∷◌ b s) in
    if char_code a == 13 && char_code b == 10 then rest else String.◌∷◌ a rest

copy_all : Environment → Environment → Environment
copy_all [] env = env
copy_all ((k, v) ∷ r) env = copy_all r (insert k v env)

abbrev path_key_prefix : String
path_key_prefix = "PATH="

abbrev cut_path : String → String
cut_path entry = slice entry 5 (len entry)

-- The loop over the environment; `paths` grows by the paths that an entry held before.
prepend_from : List String → List String → List String × Bool
prepend_from paths [] = ([], false)
prepend_from paths (e ∷ r) =
    if has_prefix e path_key_prefix
    then (let paths' = if is_empty (cut_path e) then paths else paths ++ cut_path e ∷ [] in
        let (rest, any) = prepend_from paths' r in
        ((path_key_prefix <> join ":" paths') ∷ rest, true))
    else (let (rest, any) = prepend_from paths r in (e ∷ rest, any))

drop_blank : (String → String) → List String → List String
drop_blank trim [] = []
drop_blank trim (p ∷ r) =
    let rest = drop_blank trim r in if is_empty (trim p) then rest else p ∷ rest

prepend_paths : List String → List String → List String
prepend_paths environ [] = environ
prepend_paths environ (p ∷ r) =
    let (changed, path_found) = prepend_from (p ∷ r) environ in
    if path_found then changed else changed ++ (path_key_prefix <> join ":" (p ∷ r)) ∷ []

-- prependToPathEnvironmentVariable
unfoldable pub prepend_to_path_environment_variable :
    (String → String) → List String → List String → List String
unfolding prepend_paths prepend_from drop_blank
prepend_to_path_environment_variable trim environ paths =
    prepend_paths environ (drop_blank trim paths)

environ_entries : Environment → List String
environ_entries = map λ (kv : String × String). kv.0 <> "=" <> kv.1

-- buildScriptEnvironmentVariables
unfoldable pub build_script_environment_variables :
    GenericTfCmd → String → String → Environment → List String
unfolding copy_all environ_entries
build_script_environment_variables c bin_dir user_msg_path extra_env =
    let merged =
      insert "MESHSTACK_USER_MESSAGE" user_msg_path
        (copy_all extra_env (clean_system_env c.look_up_env)) in
    prepend_to_path_environment_variable c.trim_space (environ_entries merged) (bin_dir ∷ [])

-- extractExitCode
abbrev pub extract_exit_code : Option ProcessError → ℤ
extract_exit_code none = pos 0
extract_exit_code (some (exited n e)) = n
extract_exit_code (some (not_started e)) = negsuc 0

-- decodeRunJSON
abbrev decode_run_json : GenericTfCmd → String → Result String
decode_run_json c encoded = if is_empty encoded then ok "" else elim (c.decode_base64 encoded) [
  | ok s ↦ ok s
  | err e ↦ err ("could not decode run JSON: " <> e)
  | panic ↦ panic
]

script_result : GenericTfCmd → Process → ScriptResult
script_result c p = record {
  user_message = elim p.user_message_file [ none ↦ "" | some t ↦ c.trim_space t ];
  system_message = p.output;
  exit_code = extract_exit_code p.error;
}

abbrev process_text : ProcessError → String
process_text (exited n e) = e
process_text (not_started e) = e

script_error : GenericTfCmd → Option ProcessError → Option Error
script_error c none = none
script_error c (some e) = some (
    "pre-run script failed with exit code "
    <> c.show_int (extract_exit_code (some e))
    <> ": "
    <> process_text e)

-- The bash call: its arguments, then its environment.
abbrev bash_call : String → String → List String
bash_call script_path run_mode =
    "bash" ∷ "--noprofile" ∷ "--norc" ∷ "-e" ∷ "-o" ∷ "pipefail" ∷ script_path ∷ run_mode ∷ []

-- stdin is empty where there is no run JSON.
execute_script : GenericTfCmd → String → List String → String → Exec (ScriptResult × Option Error)
unfolding script_result script_error
execute_script c script_path environ stdin = do
  let call = bash_call script_path c.run_mode ++ environ
  p ← gets (λ s. c.outside.run_process s.events call stdin)
  modify_state (note (run_process call stdin))
  pure (script_result c p, script_error c p.error)

unfoldable pub script_body :
    GenericTfCmd → String → Environment → Exec (ScriptResult × Option Error)
unfolding execute_script
script_body c script extra_env = do
  let script_path = c.path_join c.working_directory "meshstack-pre-run.sh"
  catch
      (ask (write_file script_path (plain (unix_line_endings script)))
        (λ h. c.outside.store h script_path (plain (unix_line_endings script))))
      (λ e. raise ("failed to write pre-run script: " <> e))
  created ← gets (λ s. c.outside.create_temp s.events)
  user_msg_path ←
      catch (lift created) (λ e. raise ("failed to create user message temp file: " <> e))
  deferred (remove_all user_msg_path) (do
    run_json ← lift (decode_run_json c c.run_json_base64)
    execute_script c script_path
        (build_script_environment_variables c (c.path_join c.bin_dir c.tf_version) user_msg_path
          extra_env)
        run_json)

-- RunScript for the "pre-run" script: an error is a value, beside the result.
unfoldable pub run_script : GenericTfCmd → String → Environment → Exec (ScriptResult × Option Error)
unfolding script_body
run_script c script extra_env =
    catch (script_body c script extra_env)
      (λ e. pure (record { user_message = ""; system_message = ""; exit_code = pos 0 }, some e))

print_unless_empty : String → Exec (Unit {0})
print_unless_empty s = if is_empty s then pure tt else println_to_update_logs s

report_script : GenericTfCmd → ScriptResult → Option Error → Exec (Option String × Option Error)
unfolding print_unless_empty
report_script c result e = do
  when_some e (λ x. print_unless_empty result.user_message)
  print_unless_empty result.system_message
  println_to_update_logs ("pre-run script exited with code " <> c.show_int result.exit_code)
  pure (if is_empty result.user_message then none else some result.user_message, e)

run_configured : GenericTfCmd → String → Environment → Exec (Option String × Option Error)
unfolding report_script
run_configured c script extra_env = do r ← run_script c script extra_env; report_script c r.0 r.1

skip_script : Exec (Option String × Option Error)
skip_script = do println_to_update_logs "No pre-run script configured, skipping."; pure (none, none)

script_or_skip : GenericTfCmd → Option String → Environment → Exec (Option String × Option Error)
unfolding run_configured skip_script
script_or_skip c none extra_env = skip_script
script_or_skip c (some script) extra_env =
    if is_empty (c.trim_space script) then skip_script else run_configured c script extra_env

-- GenericTfCmd.runPreRunScript: the user message and the error.
unfoldable pub run_pre_run_script : GenericTfCmd → Environment → Exec (Option String × Option Error)
unfolding script_or_skip
run_pre_run_script c extra_env = script_or_skip c c.pre_run_script extra_env
