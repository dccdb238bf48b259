-- ===== src/TfCmd/Vars/Tests.antt =====
-- The variables of the example command.
use building_block_runner.Prelude.{
  String, All, ◌≡◌, true, List, [], ◌∷◌, insert, lookup, is_some, any, str_eq, if◌then◌else◌,
}
use building_block_runner.TfCmd.Outside.{text_value}
use building_block_runner.TfCmd.Example.{example}
use building_block_runner.TfCmd.Vars.{
  mesh_stack_vars, mesh_stack_declarations, add_mesh_stack_values, include_run_scoped_vars,
}
use building_block_runner.TfCmd.Vars.Laws.{
  declared_as, mesh_stack_declarations-once, add_mesh_stack_values-include_run_scoped_vars,
}

abbrev own : List (String × String)
own = ("meshstack_building_block_id", "string") ∷ []

add_mesh_stack_values-include_run_scoped_vars_example :
    (add_mesh_stack_values
      (include_run_scoped_vars (example "DETECT" ""))
      (mesh_stack_vars (example "DETECT" ""))
      (record { variables = []; diagnostics = [] })).variables
    ≡ ("meshstack_building_block_id", text_value "bb") ∷ []
unfolding insert
add_mesh_stack_values-include_run_scoped_vars_example =
    add_mesh_stack_values-include_run_scoped_vars (example "DETECT" "")
      (record { variables = []; diagnostics = [] })

mesh_stack_declarations-once_example :
    let written = mesh_stack_declarations own (mesh_stack_vars (example "APPLY" "")) in
    All
      (λ v.
        declared_as v.name written
        ≡ (if is_some (lookup v.name own) then [] else v.run_scoped ∷ []))
      (mesh_stack_vars (example "APPLY" ""))
    × All (λ d. any (λ v. str_eq v.name d.0) (mesh_stack_vars (example "APPLY" "")) ≡ true) written
mesh_stack_declarations-once_example = mesh_stack_declarations-once (example "APPLY" "") own
