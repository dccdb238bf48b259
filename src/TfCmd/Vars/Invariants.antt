-- ===== src/TfCmd/Vars/Invariants.antt =====
-- Writing the variables keeps every stable property.
use building_block_runner.TfCmd.Keeps.{
  Keeps, Stable, keeps_rules, Keeps-println, Keeps-ask, Keeps-bind,
}
use building_block_runner.TfCmd.Exec.{Cmd}
use building_block_runner.TfCmd.Params.{GenericTfCmd, Variable}
use building_block_runner.Prelude.{String, Bool, Option, none, some, List, [], ◌∷◌}
use building_block_runner.TfCmd.Outside.{Error, FileContent, Stat}
use building_block_runner.TfCmd.Source.Invariants.{stat_path-keeps}
use building_block_runner.TfCmd.Env.Invariants.{decrypt_or_report-keeps}
use building_block_runner.TfCmd.Vars.{
  VarsFile, print_diagnostics, add_and_print, add_input_variable, add_if_named, add_input_variables,
  write_missing, write_declarations, write_tfvars, known_inputs, vars,
}

module _ {P : Cmd → Type 0} (stable : Stable P) (c : GenericTfCmd) where
  print_diagnostics-keeps : (name : String) (ds : List String) → Keeps P (print_diagnostics name ds)
  unfolding print_diagnostics
  print_diagnostics-keeps name [] = search keeps_rules
  print_diagnostics-keeps name (d ∷ r) =
      Keeps-bind _ _ (Keeps-println stable _) λ x. print_diagnostics-keeps name r

  add_and_print-keeps : (name : String) (f : VarsFile) → Keeps P (add_and_print name f)
  unfolding add_and_print
  add_and_print-keeps name f = search (keeps_rules, print_diagnostics-keeps)

  add_input_variable-keeps :
      (inputs : List (String × String)) (name : String) (v : Variable) (f : VarsFile)
      → Keeps P (add_input_variable c inputs name v f)
  unfolding add_input_variable
  add_input_variable-keeps inputs name v f =
      search (keeps_rules, decrypt_or_report-keeps stable c, add_and_print-keeps)

  add_if_named-keeps :
      (inputs : List (String × String)) (name : Option String) (v : Variable) (f : VarsFile)
      → Keeps P (add_if_named c inputs name v f)
  unfolding add_if_named
  add_if_named-keeps inputs none v f = search keeps_rules
  add_if_named-keeps inputs (some name) v f = search add_input_variable-keeps

  add_input_variables-keeps :
      (inputs : List (String × String)) (vs : List (String × Variable)) (f : VarsFile)
      → Keeps P (add_input_variables c inputs vs f)
  unfolding add_input_variables
  add_input_variables-keeps inputs [] f = search keeps_rules
  add_input_variables-keeps inputs ((name, v) ∷ r) f =
      search (keeps_rules, add_if_named-keeps, add_input_variables-keeps inputs r)

  write_missing-keeps :
      (path : String) (content : FileContent) (s : Stat) → Keeps P (write_missing c path content s)
  unfolding write_missing
  write_missing-keeps path content s = search (keeps_rules, Keeps-ask stable)

  write_declarations-keeps : (ds : List (String × Bool)) → Keeps P (write_declarations c ds)
  unfolding write_declarations
  write_declarations-keeps [] = search keeps_rules
  write_declarations-keeps (d ∷ r) =
      search (keeps_rules, stat_path-keeps stable c, write_missing-keeps)

  write_tfvars-keeps : (f : VarsFile) → Keeps P (write_tfvars c f)
  unfolding write_tfvars
  write_tfvars-keeps f = search (keeps_rules, Keeps-ask stable, Keeps-println stable)

  known_inputs-keeps :
      (inputs : List (String × String)) (errors : List Error) → Keeps P (known_inputs inputs errors)
  unfolding known_inputs
  known_inputs-keeps inputs [] = search keeps_rules
  known_inputs-keeps inputs (e ∷ r) = search (keeps_rules, Keeps-println stable)

  pub vars-keeps : Keeps P (vars c)
  unfolding vars
  vars-keeps =
      search
        (
          keeps_rules, known_inputs-keeps, add_input_variables-keeps, write_declarations-keeps,
          write_tfvars-keeps,
        )
        depth 12
