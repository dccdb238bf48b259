-- ===== src/TfCmd/Vars/File.antt =====
-- tfcmd_vars.go: the file of variables.
use building_block_runner.Prelude.{
  String, Bool, true, false, List, [], ◌∷◌, ◌++◌, insert, if◌then◌else◌,
}
use building_block_runner.Run.Status.{Json, null, text}
use building_block_runner.TfCmd.Outside.{
  Error, Result, ok, err, panic, TfValue, null_value, text_value, cty_value,
}
use building_block_runner.TfCmd.Params.{GenericTfCmd}

-- The attributes of the file so far, and the summaries of the diagnostics.
pub record VarsFile : Type 0 where
  pub variables : List (String × TfValue)
  pub diagnostics : List String

abbrev pub set_variable : String → TfValue → VarsFile → VarsFile
set_variable name v f = record f { variables = insert name v f.variables }

abbrev pub add_diagnostic : String → VarsFile → VarsFile
add_diagnostic d f = record f { diagnostics = f.diagnostics ++ d ∷ [] }

-- AddVariable of a Go string: gocty implies its type and converts it.
abbrev pub add_text_variable : String → String → VarsFile → VarsFile
add_text_variable name s = set_variable name (text_value s)

-- parseJsonOrHcl
abbrev pub parse_json_or_hcl : GenericTfCmd → String → Result String
parse_json_or_hcl c raw = if c.json_valid raw then c.unmarshal_json raw else c.parse_expression raw

-- The raw text is taken as a string.
fall_back : String → String → Error → VarsFile → VarsFile
fall_back name raw e f =
    add_text_variable name raw
      (add_diagnostic "Failed to parse input as JSON or HCL" (add_diagnostic e f))

add_parsed : GenericTfCmd → String → String → Bool → Result String → VarsFile → VarsFile
add_parsed c name raw encode (err e) f = fall_back name raw e f
add_parsed c name raw encode panic f = f
add_parsed c name raw false (ok v) f = set_variable name (cty_value v) f
add_parsed c name raw true (ok v) f = elim (c.cty_marshal v) [
  | ok json ↦ add_text_variable name json f
  | err e ↦ fall_back name raw "Cannot marshal raw HCL value to JSON" f
  | panic ↦ f
]

-- VarsFile.AddRawVariable
unfoldable pub add_raw_variable : GenericTfCmd → String → String → Bool → VarsFile → VarsFile
unfolding add_parsed fall_back
add_raw_variable c name raw encode f = add_parsed c name raw encode (parse_json_or_hcl c raw) f

add_encoded : GenericTfCmd → String → Json → VarsFile → VarsFile
add_encoded c name value f = elim (c.marshal value) [
  | ok json ↦ add_text_variable name json f
  | err e ↦
      add_text_variable name (c.show_value value)
        (add_diagnostic "Failed to marshal value into JSON" f)
  | panic ↦ f
]

add_untyped : GenericTfCmd → String → Json → VarsFile → VarsFile
add_untyped c name value f = elim (c.marshal value) [
  | ok json ↦ add_raw_variable c name json false f
  | err e ↦ add_diagnostic "Failed to marshal value into JSON after failing to imply type" f
  | panic ↦ f
]

add_typed : GenericTfCmd → String → Json → VarsFile → VarsFile
add_typed c name value f = elim (c.to_cty_value value) [
  | ok v ↦ set_variable name (cty_value v) f
  | err e ↦ add_diagnostic "Cannot convert value to cty.Value" f
  | panic ↦ f
]

add_plain : GenericTfCmd → String → Json → VarsFile → VarsFile
unfolding add_untyped add_typed
add_plain c name null f = set_variable name null_value f
add_plain c name (text s) f = add_text_variable name s f
add_plain c name value f =
    if c.implied_type value then add_typed c name value f else add_untyped c name value f

-- VarsFile.AddVariable
unfoldable pub add_variable : GenericTfCmd → String → Json → Bool → VarsFile → VarsFile
unfolding add_encoded add_plain
add_variable c name value encode f =
    if encode then add_encoded c name value f else add_plain c name value f
