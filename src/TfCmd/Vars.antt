-- ===== src/TfCmd/Vars.antt =====
-- tfcmd_vars.go, `vars` of tfcmd.go and util/maps.go: the variables that OpenTofu is given.
mod File
pub mod Invariants
pub mod Laws
mod Tests
unfoldable pub use File.*
use Prim.Native.Nat.{Ordering}
use Prim.Native.String.{compare, slice}
use building_block_runner.Prelude.{
  String, len, Bool, true, false, Option, none, some, List, [], ◌∷◌, ◌++◌, ◌<>◌, ◌&&◌, ◌||◌, not,
  str_eq, is_empty, has_prefix, lookup, insert, is_some, if◌then◌else◌, join,
}
use building_block_runner.Run.Kinds.{
  DataType, string, integer, boolean, code, single_select, multi_select, file, legacy_list, other,
}
use building_block_runner.Run.Status.{Json, null, text}
use building_block_runner.TfConfig.{VariableInputs, parse_variable_inputs}
use building_block_runner.TfCmd.Outside.{
  Error, Result, ok, err, panic, TfValue, null_value, text_value, cty_value, Stat, exists,
  not_exist, stat_failed, declarations, tfvars, write_file, FileContent,
}
use building_block_runner.TfCmd.Exec.{
  Exec, ◌>>=◌, ◌>>◌, pure, raise, catch, gets, ask, println_to_update_logs,
}
use building_block_runner.TfCmd.Params.{GenericTfCmd, Variable}
use building_block_runner.TfCmd.Source.{stat_path}
use building_block_runner.TfCmd.Inputs.{is_file}
use building_block_runner.TfCmd.Env.{decrypt_or_report, tf_var_env_prefix}

-- util.SortedByKeys
precedes : String → String → Bool
precedes a b = elim (compare a b) [ Ordering.gt ↦ false | _ ↦ true ]

insert_by_key {ℓ} : {V : Type ℓ} → String → V → List (String × V) → List (String × V)
insert_by_key k v [] = (k, v) ∷ []
insert_by_key k v ((j, w) ∷ r) =
    let rest = insert_by_key k v r in if precedes k j then (k, v) ∷ (j, w) ∷ r else (j, w) ∷ rest

unfoldable pub sorted_by_keys {ℓ} : {V : Type ℓ} → List (String × V) → List (String × V)
unfolding insert_by_key precedes
sorted_by_keys [] = []
sorted_by_keys ((k, v) ∷ r) = insert_by_key k v (sorted_by_keys r)

-- Under which name a variable goes into the file, `none` where it does not.
unfoldable pub tfvars_name : List (String × Variable) → String → Variable → Option String
tfvars_name vars name v =
    let trimmed = slice name 7 (len name) in
    if is_file v.data_type
    then none
    else if v.env && has_prefix name tf_var_env_prefix
    then (if is_some (lookup trimmed vars) then none else some trimmed)
    else if v.env
    then none
    else some name

abbrev is_string_like : DataType → Bool
is_string_like string = true
is_string_like single_select = true
is_string_like integer = false
is_string_like boolean = false
is_string_like code = false
is_string_like multi_select = false
is_string_like file = false
is_string_like legacy_list = false
is_string_like (other s) = false

abbrev is_raw : DataType → Bool
is_raw code = true
is_raw legacy_list = true
is_raw string = false
is_raw integer = false
is_raw boolean = false
is_raw single_select = false
is_raw multi_select = false
is_raw file = false
is_raw (other s) = false

abbrev declared_type : List (String × String) → String → String
declared_type inputs name = elim (lookup name inputs) [ none ↦ "" | some t ↦ t ]

add_input : GenericTfCmd → List (String × String) → String → Variable → Json → VarsFile → VarsFile
add_input c inputs name v value f =
    let encode = not (is_string_like v.data_type) && str_eq (declared_type inputs name) "string" in
    if is_raw v.data_type
    then add_raw_variable c name (c.show_value value) encode f
    else add_variable c name value encode f

print_diagnostics : String → List String → Exec (Unit {0})
print_diagnostics name [] = pure tt
print_diagnostics name (d ∷ r) = do
  println_to_update_logs ("While adding variable '" <> name <> "': " <> d)
  print_diagnostics name r

-- One variable: the file with it, its diagnostics in the log and no longer in the file.
add_and_print : String → VarsFile → Exec VarsFile
unfolding print_diagnostics
add_and_print name f = do print_diagnostics name f.diagnostics; pure (record f { diagnostics = [] })

add_input_variable :
    GenericTfCmd → List (String × String) → String → Variable → VarsFile → Exec VarsFile
unfolding add_and_print add_input
add_input_variable c inputs name v f = do
  value ← decrypt_or_report c "input" name v
  add_and_print name (add_input c inputs name v value f)

add_if_named :
    GenericTfCmd → List (String × String) → Option String → Variable → VarsFile → Exec VarsFile
unfolding add_input_variable
add_if_named c inputs none v f = pure f
add_if_named c inputs (some name) v f = add_input_variable c inputs name v f

add_input_variables :
    GenericTfCmd → List (String × String) → List (String × Variable) → VarsFile → Exec VarsFile
unfolding add_if_named
add_input_variables c inputs [] f = pure f
add_input_variables c inputs ((name, v) ∷ r) f = (do
  f' ← add_if_named c inputs (tfvars_name c.vars name v) v f
  add_input_variables c inputs r f')

-- The run-scoped values are left out of a plan and of the replay of one.
unfoldable pub include_run_scoped_vars : GenericTfCmd → Bool
include_run_scoped_vars c = not (str_eq c.run_mode "DETECT") && is_empty c.artifact_url

pub record MeshStackVar : Type 0 where
  pub name : String
  pub value : String
  pub run_scoped : Bool

abbrev pub mesh_stack_vars : GenericTfCmd → List MeshStackVar
mesh_stack_vars c =
    record { name = "meshstack_building_block_id"; value = c.bb_id; run_scoped = false }
    ∷ record {
      name = "meshstack_building_block_run_b64";
      value = c.run_json_base64;
      run_scoped = true;
    }
    ∷ record { name = "meshstack_building_block_run_id"; value = c.run_id; run_scoped = true }
    ∷ []

-- The values, which are texts and cannot fail to be added.
unfoldable pub add_mesh_stack_values : Bool → List MeshStackVar → VarsFile → VarsFile
add_mesh_stack_values include [] f = f
add_mesh_stack_values include (v ∷ r) f =
    add_mesh_stack_values include r
      (if not v.run_scoped || include then add_text_variable v.name v.value f else f)

-- The declarations: each variable that the configuration does not declare, nullable if run-scoped.
unfoldable pub mesh_stack_declarations :
    List (String × String) → List MeshStackVar → List (String × Bool)
mesh_stack_declarations inputs [] = []
mesh_stack_declarations inputs (v ∷ r) =
    let rest = mesh_stack_declarations inputs r in
    if is_some (lookup v.name inputs) then rest else (v.name, v.run_scoped) ∷ rest

is_missing : Stat → Bool
is_missing exists = false
is_missing not_exist = true
is_missing (stat_failed e) = false

write_missing : GenericTfCmd → String → FileContent → Stat → Exec (Unit {0})
unfolding is_missing
write_missing c path content target =
    if is_missing target
    then catch (ask (write_file path content) (λ h. c.outside.store h path content))
        (λ e. raise ("failed to write meshStack_run_vars.tf: " <> e))
    else pure tt

write_declarations : GenericTfCmd → List (String × Bool) → Exec (Unit {0})
unfolding write_missing
write_declarations c [] = pure tt
write_declarations c (d ∷ r) = do
  let path = c.path_join c.working_directory "meshStack_run_vars.tf"
  target ← stat_path c path
  write_missing c path (declarations (d ∷ r)) target

abbrev tfvars_filename : String
tfvars_filename = "aaaaaa_meshstack-e48f8924-a6c0-4ff0-9528-ff3c1f6f94d8.auto.tfvars"

write_tfvars : GenericTfCmd → VarsFile → Exec (Unit {0})
write_tfvars c f = do
  let path = c.path_join c.working_directory tfvars_filename
  catch
      (ask (write_file path (tfvars f.variables))
        (λ h. c.outside.store h path (tfvars f.variables)))
      (λ e. do
        println_to_update_logs ("Unable to write " <> tfvars_filename <> " file")
        raise ("failed to write " <> tfvars_filename <> ": " <> e))

-- Errors of the configuration are logged, and no input is then taken as declared.
known_inputs : List (String × String) → List Error → Exec (List (String × String))
known_inputs inputs [] = pure inputs
known_inputs inputs (e ∷ r) = do
  println_to_update_logs
      ("Failed to parse Terraform config for variable inputs: " <> join ", " (e ∷ r))
  pure []

-- GenericTfCmd.vars
unfoldable pub vars : GenericTfCmd → Exec (Unit {0})
unfolding add_input_variables write_declarations write_tfvars known_inputs
vars c = do
  parsed ← gets (λ s. parse_variable_inputs (c.outside.config_dir s.events))
  inputs ← known_inputs parsed.inputs parsed.errors
  f ←
      add_input_variables c inputs (sorted_by_keys c.vars)
        (record { variables = []; diagnostics = [] })
  write_declarations c (mesh_stack_declarations inputs (mesh_stack_vars c))
  write_tfvars c (add_mesh_stack_values (include_run_scoped_vars c) (mesh_stack_vars c) f)
