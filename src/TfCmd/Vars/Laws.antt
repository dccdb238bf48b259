-- ===== src/TfCmd/Vars/Laws.antt =====
-- What the tfvars file and the declarations hold.
use building_block_runner.Prelude.{
  String, Bool, true, false, List, [], ◌∷◌, ◌≡◌, refl, All, not, ◌||◌, ◌&&◌, is_some, is_empty,
  str_eq, lookup, insert, any, if◌then◌else◌,
}
use building_block_runner.TfCmd.Outside.{text_value}
use building_block_runner.TfCmd.Params.{GenericTfCmd}
use building_block_runner.TfCmd.Vars.{
  VarsFile, mesh_stack_vars, add_mesh_stack_values, mesh_stack_declarations,
  include_run_scoped_vars,
}

-- Whether each declaration of a variable is nullable.
unfoldable pub declared_as : String → List (String × Bool) → List Bool
declared_as name [] = []
declared_as name (d ∷ r) =
    let rest = declared_as name r in if str_eq d.0 name then d.1 ∷ rest else rest

-- The declarations, by which of the three variables are declared already.
abbrev new_ones : (id run_b64 run_id : Bool) → List (String × Bool)
new_ones id run_b64 run_id =
    let last = if run_id then [] else ("meshstack_building_block_run_id", true) ∷ [] in
    let later = if run_b64 then last else ("meshstack_building_block_run_b64", true) ∷ last in
    if id then later else ("meshstack_building_block_id", false) ∷ later

mesh_stack_declarations-new_ones :
    (c : GenericTfCmd) (inputs : List (String × String))
    → mesh_stack_declarations inputs (mesh_stack_vars c)
      ≡ new_ones
          (is_some (lookup "meshstack_building_block_id" inputs))
          (is_some (lookup "meshstack_building_block_run_b64" inputs))
          (is_some (lookup "meshstack_building_block_run_id" inputs))
unfolding mesh_stack_declarations
mesh_stack_declarations-new_ones c inputs = refl

AreOnce : GenericTfCmd → List (String × Bool) → (id run_b64 run_id : Bool) → Type 0
AreOnce c written id run_b64 run_id =
    (declared_as "meshstack_building_block_id" written ≡ (if id then [] else false ∷ []))
    × (declared_as "meshstack_building_block_run_b64" written ≡ (if run_b64 then [] else true ∷ []))
    × (declared_as "meshstack_building_block_run_id" written ≡ (if run_id then [] else true ∷ []))
    × All (λ d. any (λ v. str_eq v.name d.0) (mesh_stack_vars c) ≡ true) written

new_ones-AreOnce :
    (c : GenericTfCmd) (id run_b64 run_id : Bool)
    → AreOnce c (new_ones id run_b64 run_id) id run_b64 run_id
unfolding declared_as AreOnce
new_ones-AreOnce c false false false = (refl, refl, refl, (refl, (refl, (refl, tt))))
new_ones-AreOnce c false false true = (refl, refl, refl, (refl, (refl, tt)))
new_ones-AreOnce c false true false = (refl, refl, refl, (refl, (refl, tt)))
new_ones-AreOnce c false true true = (refl, refl, refl, (refl, tt))
new_ones-AreOnce c true false false = (refl, refl, refl, (refl, (refl, tt)))
new_ones-AreOnce c true false true = (refl, refl, refl, (refl, tt))
new_ones-AreOnce c true true false = (refl, refl, refl, (refl, tt))
new_ones-AreOnce c true true true = (refl, refl, refl, tt)

declarations-AreOnce :
    (c : GenericTfCmd) (inputs : List (String × String))
    → AreOnce c
        (mesh_stack_declarations inputs (mesh_stack_vars c))
        (is_some (lookup "meshstack_building_block_id" inputs))
        (is_some (lookup "meshstack_building_block_run_b64" inputs))
        (is_some (lookup "meshstack_building_block_run_id" inputs))
declarations-AreOnce c inputs =
    rw (mesh_stack_declarations-new_ones c inputs) (new_ones-AreOnce c _ _ _)

-- The declarations that are computed from those of the configuration, for the file that is written where
-- it is missing, hold each of the three meshStack variables exactly once, nullable if it is run-scoped,
-- where the configuration does not declare it, and not at all where it does; and they hold no other
-- variable.
pub mesh_stack_declarations-once :
    (c : GenericTfCmd) (inputs : List (String × String))
    → let written = mesh_stack_declarations inputs (mesh_stack_vars c) in
      All
        (λ v.
          declared_as v.name written
          ≡ (if is_some (lookup v.name inputs) then [] else v.run_scoped ∷ []))
        (mesh_stack_vars c)
      × All (λ d. any (λ v. str_eq v.name d.0) (mesh_stack_vars c) ≡ true) written
unfolding AreOnce
mesh_stack_declarations-once c inputs =
    let (id, run_b64, run_id, only) = declarations-AreOnce c inputs in
    ((id, (run_b64, (run_id, tt))), only)

-- In a dry run, and in a run that a plan artifact is linked to, the building block's id is the
-- one value that is added. Any other run is given the run's id and its JSON too.
pub add_mesh_stack_values-include_run_scoped_vars :
    (c : GenericTfCmd) (f : VarsFile)
    → (let replayed = str_eq c.run_mode "DETECT" || not (is_empty c.artifact_url) in
        let with_id = insert "meshstack_building_block_id" (text_value c.bb_id) f.variables in
        (add_mesh_stack_values (include_run_scoped_vars c) (mesh_stack_vars c) f).variables ≡ (
          if replayed
          then with_id
          else insert "meshstack_building_block_run_id"
              (text_value c.run_id)
              (insert "meshstack_building_block_run_b64" (text_value c.run_json_base64) with_id)))
unfolding add_mesh_stack_values include_run_scoped_vars
add_mesh_stack_values-include_run_scoped_vars c f =
    go (str_eq c.run_mode "DETECT") (is_empty c.artifact_url)
  where
    go :
        (detects unlinked : Bool)
        → (let with_id = insert "meshstack_building_block_id" (text_value c.bb_id) f.variables in
            (add_mesh_stack_values (not detects && unlinked) (mesh_stack_vars c) f).variables ≡ (
              if detects || not unlinked
              then with_id
              else insert "meshstack_building_block_run_id" (text_value c.run_id) (
                  insert "meshstack_building_block_run_b64"
                    (text_value c.run_json_base64)
                    with_id)))
    go true unlinked = refl
    go false true = refl
    go false false = refl
