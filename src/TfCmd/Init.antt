-- ===== src/TfCmd/Init.antt =====
-- tfcmd.go: `init` with the generated http backend.
pub mod Invariants
use building_block_runner.Prelude.{
  String, Bool, true, false, none, some, List, [], ◌∷◌, ◌<>◌, is_empty, first_set, if◌then◌else◌,
}
use building_block_runner.TfConfig.{Search, found, not_found, broken, find_backend_config}
use building_block_runner.TfCmd.Outside.{
  Stat, exists, not_exist, stat_failed, backend, write_file, tf_init,
}
use building_block_runner.TfCmd.Exec.{
  Exec, ◌>>=◌, ◌>>◌, pure, raise, lift, catch, gets, ask, modify_state, without_workspaces,
  println_to_update_logs,
}
use building_block_runner.TfCmd.Params.{GenericTfCmd}
use building_block_runner.TfCmd.Source.{stat_path}

report_backend : Search → Exec Bool
report_backend (found file) = do
  println_to_update_logs ("Found a backend config in " <> file)
  pure true
report_backend not_found = pure false
report_backend (broken none) = pure false
report_backend (broken (some e)) = raise ("errors while detecting backend config: " <> e)

-- GenericTfCmd.detectBackend
unfoldable pub detect_backend : GenericTfCmd → Exec Bool
unfolding report_backend
detect_backend c = do
  dir ← gets (λ s. c.outside.config_dir s.events)
  report_backend (find_backend_config dir)

-- The EP_State url.
abbrev state_url : String → String → String → String
state_url base workspace bb =
    base <> "/api/terraform/state/workspace/" <> workspace <> "/buildingBlock/" <> bb

-- The attributes of the backend block, in the order in which they are set.
unfoldable pub backend_attributes : GenericTfCmd → List (String × String)
backend_attributes c =
    let url = state_url (first_set c.meshstack_base_url c.api_url) c.workspace_identifier c.bb_id in
    ("address", url)
    ∷ (if is_empty c.tf_state_lock_url
        then []
        else ("lock_address", c.tf_state_lock_url)
          ∷ ("lock_method", "POST")
          ∷ ("unlock_address", c.tf_state_lock_url)
          ∷ ("unlock_method", "DELETE")
          ∷ [])

is_absent : Stat → Bool
is_absent exists = false
is_absent not_exist = true
is_absent (stat_failed e) = false

write_backend_file : GenericTfCmd → String → Exec (Unit {0})
write_backend_file c name =
    if is_empty c.run_token
    then raise
        "cannot configure meshStack HTTP backend: runToken is empty — the run object did not include an ephemeral token"
    else ask (write_file name (backend (backend_attributes c)))
        (λ h. c.outside.store h name (backend (backend_attributes c)))

-- GenericTfCmd.createMeshStackHttpBackendFile
unfoldable pub create_mesh_stack_http_backend_file : GenericTfCmd → Exec (Unit {0})
unfolding write_backend_file is_absent
create_mesh_stack_http_backend_file c = do
  opened ← gets (λ s. (c.outside.open_root s.events c.working_directory).result)
  lift opened
  time ← gets (λ s. c.outside.unix_time s.events)
  let name = "meshStack_httpbackend-" <> time <> ".tf"
  present ← stat_path c name
  if is_absent present
      then write_backend_file c name
      else raise ("a file with the name '" <> name <> "' already exists in the working directory")

-- GenericTfCmd.plainInit: one retry.
unfoldable pub plain_init : GenericTfCmd → Exec (Unit {0})
plain_init c = catch (ask tf_init c.outside.run_init) (λ e. ask tf_init c.outside.run_init)

use_backend : GenericTfCmd → Bool → Exec (Unit {0})
use_backend c true = println_to_update_logs "Using existing backend."
use_backend c false = do
  println_to_update_logs "Detected no backend. Generating meshStack http backend for init."
  create_mesh_stack_http_backend_file c
  modify_state without_workspaces

prepare_backend : GenericTfCmd → Exec (Unit {0})
unfolding use_backend
prepare_backend c = do present ← detect_backend c; use_backend c present

-- GenericTfCmd.init
unfoldable pub init : GenericTfCmd → Exec (Unit {0})
unfolding prepare_backend
init c = do if c.use_mesh_backend_fallback then prepare_backend c else pure tt; plain_init c
