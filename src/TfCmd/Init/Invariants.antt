-- ===== src/TfCmd/Init/Invariants.antt =====
-- `tofu init` keeps every stable property.
use building_block_runner.TfCmd.Keeps.{
  Keeps, Stable, keeps_rules, Keeps-println, Keeps-ask, Keeps-skip_workspaces, Keeps-bind,
}
use building_block_runner.TfCmd.Exec.{Cmd}
use building_block_runner.TfCmd.Params.{GenericTfCmd}
use building_block_runner.Prelude.{String, Bool, true, false, none, some}
use building_block_runner.TfConfig.{Search, found, not_found, broken}
use building_block_runner.TfCmd.Source.Invariants.{stat_path-keeps}
use building_block_runner.TfCmd.Init.{
  report_backend, detect_backend, write_backend_file, create_mesh_stack_http_backend_file,
  plain_init, use_backend, prepare_backend, init,
}

module _ {P : Cmd → Type 0} (stable : Stable P) (c : GenericTfCmd) where
  report_backend-keeps : (s : Search) → Keeps P (report_backend s)
  unfolding report_backend
  report_backend-keeps (found file) = search (keeps_rules, Keeps-println stable)
  report_backend-keeps not_found = search keeps_rules
  report_backend-keeps (broken none) = search keeps_rules
  report_backend-keeps (broken (some e)) = search keeps_rules

  detect_backend-keeps : Keeps P (detect_backend c)
  unfolding detect_backend
  detect_backend-keeps = search (keeps_rules, report_backend-keeps)

  write_backend_file-keeps : (name : String) → Keeps P (write_backend_file c name)
  unfolding write_backend_file
  write_backend_file-keeps name = search (keeps_rules, Keeps-ask stable)

  create_backend-keeps : Keeps P (create_mesh_stack_http_backend_file c)
  unfolding create_mesh_stack_http_backend_file
  create_backend-keeps =
      search (keeps_rules, stat_path-keeps stable c, write_backend_file-keeps) depth 12

  use_backend-keeps : (present : Bool) → Keeps P (use_backend c present)
  unfolding use_backend
  use_backend-keeps true = search (Keeps-println stable)
  use_backend-keeps false =
      Keeps-bind _ _ (Keeps-println stable _)
        λ x. Keeps-bind _ _ create_backend-keeps λ y. Keeps-skip_workspaces stable

  prepare_backend-keeps : Keeps P (prepare_backend c)
  unfolding prepare_backend
  prepare_backend-keeps = search (keeps_rules, detect_backend-keeps, use_backend-keeps)

  pub init-keeps : Keeps P (init c)
  unfolding init plain_init
  init-keeps = search (keeps_rules, prepare_backend-keeps, Keeps-ask stable)
