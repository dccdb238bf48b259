-- ===== src/TfCmd/Inputs/Invariants.antt =====
-- Saving the file inputs keeps every stable property.
use building_block_runner.TfCmd.Keeps.{Keeps, Stable, keeps_rules, Keeps-println, Keeps-ask}
use building_block_runner.TfCmd.Exec.{Cmd}
use building_block_runner.TfCmd.Params.{GenericTfCmd, Variable}
use building_block_runner.Prelude.{String, List, [], ◌∷◌, ℕ}
use building_block_runner.TfCmd.Outside.{Stat, exists, not_exist, stat_failed}
use building_block_runner.TfCmd.Source.Invariants.{stat_path-keeps}
use building_block_runner.TfCmd.Env.Invariants.{decrypt_or_report-keeps}
use building_block_runner.TfCmd.Inputs.{
  report_and_raise, check_target, save_file, save_variable, save_files, save_input_files,
}

module _ {P : Cmd → Type 0} (stable : Stable P) (c : GenericTfCmd) where
  report_and_raise-keeps :
      {A : Type 0} (text e : String) → Keeps P (report_and_raise {A = A} text e)
  unfolding report_and_raise
  report_and_raise-keeps text e = search (keeps_rules, Keeps-println stable)

  check_target-keeps : (name : String) (s : Stat) → Keeps P (check_target name s)
  unfolding check_target
  check_target-keeps name exists = search (Keeps-println stable)
  check_target-keeps name not_exist = search keeps_rules
  check_target-keeps name (stat_failed e) = search report_and_raise-keeps

  save_file-keeps : (name : String) (v : Variable) → Keeps P (save_file c name v)
  unfolding save_file
  save_file-keeps name v =
      search
        (
          keeps_rules,
          stat_path-keeps stable c,
          check_target-keeps,
          decrypt_or_report-keeps stable c,
          report_and_raise-keeps,
          Keeps-ask stable,
        )
        depth 12

  save_variable-keeps : (name : String) (v : Variable) → Keeps P (save_variable c name v)
  unfolding save_variable
  save_variable-keeps name v = search (keeps_rules, report_and_raise-keeps, save_file-keeps)

  save_files-keeps : (vs : List (String × Variable)) (n : ℕ) → Keeps P (save_files c vs n)
  unfolding save_files
  save_files-keeps [] n = search keeps_rules
  save_files-keeps ((name, v) ∷ r) n = search (keeps_rules, save_variable-keeps, save_files-keeps r)

  pub save_input_files-keeps : Keeps P (save_input_files c)
  unfolding save_input_files
  save_input_files-keeps = search save_files-keeps
