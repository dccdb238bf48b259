-- ===== src/TfCmd/Execute/Outputs.antt =====
-- tfcmd.go: the outputs of OpenTofu.
use building_block_runner.Prelude.{
  String, Option, none, some, List, [], ◌∷◌, str_eq, insert, if◌then◌else◌,
}
use building_block_runner.Run.Kinds.{DataType, string, integer, boolean, code}
use building_block_runner.Run.Status.{Json, text, TfOutput, StepStatus, update_current}
use building_block_runner.TfCmd.Outside.{OutputMeta}
use building_block_runner.TfCmd.Exec.{Cmd}
use building_block_runner.TfCmd.Params.{GenericTfCmd}

-- matchOutputType
abbrev simple_output_type : String → DataType
simple_output_type s =
    if str_eq s "number"
    then integer
    else if str_eq s "bool"
    then boolean
    else if str_eq s "string"
    then string
    else code

unfoldable pub match_output_type : Option Json → DataType
match_output_type none = code
match_output_type (some (text s)) = simple_output_type s
match_output_type (some _) = code

-- A value of type CODE is passed on as its JSON text.
parsed_value : GenericTfCmd → DataType → Json → Json
parsed_value c code v = text (c.marshal_indent v)
parsed_value c _ v = v

add_output :
    GenericTfCmd
    → String
    → OutputMeta
    → Option Json
    → List (String × TfOutput)
    → List (String × TfOutput)
unfolding parsed_value
add_output c k meta none parsed = parsed
add_output c k meta (some v) parsed =
    insert k
      (record {
        value = parsed_value c (match_output_type meta.type_json) v;
        data_type = match_output_type meta.type_json;
        sensitive = meta.sensitive;
      })
      parsed

unfoldable pub parse_outputs :
    GenericTfCmd → List (String × OutputMeta) → List (String × TfOutput) → List (String × TfOutput)
unfolding add_output
parse_outputs c [] parsed = parsed
parse_outputs c ((k, meta) ∷ r) parsed = parse_outputs c r (add_output c k meta meta.value parsed)

abbrev pub set_outputs : List (String × TfOutput) → StepStatus → StepStatus
set_outputs outputs s = record s { outputs = outputs }

-- GenericTfCmd.collectOutput
unfoldable pub collect_output : GenericTfCmd → List (String × OutputMeta) → Cmd → Cmd
unfolding parse_outputs
collect_output c output s = record s {
  run_status = update_current (set_outputs (parse_outputs c output [])) s.run_status;
}
