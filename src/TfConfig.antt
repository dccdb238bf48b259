-- ===== src/TfConfig.antt =====
-- tf-block-runner/tfrun: tfconfig_parse.go and backendsearch.go. The hcl library parses the files; a
-- directory is given here as what it made of each entry.
use building_block_runner.Prelude.{
  String, Bool, Option, none, some, List, [], ◌∷◌, ◌++◌, ◌||◌, str_eq, insert, is_some,
  if◌then◌else◌,
}

-- The result of hcl's `PartialContent`: the diagnostics if they have errors, and the blocks if not
-- nil.
pub record Content (A : Type 0) : Type 0 where
  pub errors : Option String
  pub blocks : Option (List A)

-- The type names of the blocks that match the backend schema.
pub record TerraformBlock : Type 0 where
  pub backend_blocks : Content String

-- The text of the `type` attribute, if there is one, or hcl's errors.
pub record VariableBlock : Type 0 where
  pub labels : List String
  pub type_errors : Option String
  pub type_text : Option String

pub record TfFile : Type 0 where
  pub filename : String
  pub errors : Option String
  pub terraform_blocks : Content TerraformBlock
  pub variable_blocks : Content VariableBlock

-- `extension` is the lower-case extension of the name.
pub record DirEntry : Type 0 where
  pub is_dir : Bool
  pub extension : String
  pub file : TfFile

pub data ConfigDir : Type 0 where
  unreadable : String → ConfigDir
  entries : List DirEntry → ConfigDir

abbrev unreadable_file : String → TfFile
unreadable_file detail = record {
  filename = "";
  errors = some detail;
  terraform_blocks = record { errors = none; blocks = none };
  variable_blocks = record { errors = none; blocks = none };
}

parsed_entries : List DirEntry → List TfFile
parsed_entries [] = []
parsed_entries (e ∷ r) =
    let rest = parsed_entries r in
    if e.is_dir
    then rest
    else if str_eq e.extension ".tf" || str_eq e.extension ".json"
    then e.file ∷ rest
    else rest

-- ParseTerraformConfig: what the iteration yields, if it is not stopped.
unfoldable pub parse_terraform_config : ConfigDir → List TfFile
unfolding parsed_entries
parse_terraform_config (unreadable detail) = unreadable_file detail ∷ []
parse_terraform_config (entries l) = parsed_entries l

-- The three results of FindBackendConfig.
pub data Search : Type 0 where
  found : String → Search
  not_found : Search
  broken : Option String → Search

in_backend_blocks : TfFile → List String → Search → Search
in_backend_blocks f [] next = next
in_backend_blocks f (t ∷ r) next =
    let rest = in_backend_blocks f r next in if str_eq t "backend" then found f.filename else rest

in_content : {A : Type 0} → Content A → (List A → Search) → Search
in_content c look =
    if is_some c.errors
    then broken c.errors
    else elim c.blocks [ none ↦ broken none | some l ↦ look l ]

in_terraform_blocks : TfFile → Search → List TerraformBlock → Search
in_terraform_blocks f next [] = next
in_terraform_blocks f next (b ∷ r) =
    let rest = in_terraform_blocks f next r in
    in_content b.backend_blocks (λ l. in_backend_blocks f l rest)

in_files : List TfFile → Search
in_files [] = not_found
in_files (f ∷ r) =
    let rest = in_files r in
    if is_some f.errors
    then broken f.errors
    else in_content f.terraform_blocks (in_terraform_blocks f rest)

-- FindBackendConfig
unfoldable pub find_backend_config : ConfigDir → Search
unfolding in_files in_terraform_blocks in_content in_backend_blocks
find_backend_config dir = in_files (parse_terraform_config dir)

-- VariableInputs, by name, and the collected errors.
pub record VariableInputs : Type 0 where
  pub inputs : List (String × String)
  pub errors : List String

add_error : Option String → VariableInputs → VariableInputs
add_error none v = v
add_error (some e) v = record v { errors = v.errors ++ e ∷ [] }

type_or_any : Option String → String
type_or_any none = "any"
type_or_any (some t) = t

add_variable_block : VariableBlock → List String → VariableInputs → VariableInputs
add_variable_block b (name ∷ []) v =
    if is_some b.type_errors
    then add_error b.type_errors v
    else record v { inputs = insert name (type_or_any b.type_text) v.inputs }
add_variable_block b labels v = v

add_variable_blocks : List VariableBlock → VariableInputs → VariableInputs
add_variable_blocks [] v = v
add_variable_blocks (b ∷ r) v = add_variable_blocks r (add_variable_block b b.labels v)

add_content : Content VariableBlock → Option (List VariableBlock) → VariableInputs → VariableInputs
add_content c none v = add_error c.errors v
add_content c (some l) v =
    if is_some c.errors then add_error c.errors v else add_variable_blocks l v

add_file : TfFile → VariableInputs → VariableInputs
add_file f v =
    if is_some f.errors
    then add_error f.errors v
    else add_content f.variable_blocks f.variable_blocks.blocks v

add_files : List TfFile → VariableInputs → VariableInputs
add_files [] v = v
add_files (f ∷ r) v = add_files r (add_file f v)

-- ParseVariableInputs
unfoldable pub parse_variable_inputs : ConfigDir → VariableInputs
unfolding add_files add_file add_content add_variable_blocks add_variable_block add_error
    type_or_any
parse_variable_inputs dir =
    add_files (parse_terraform_config dir) (record { inputs = []; errors = [] })
