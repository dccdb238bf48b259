-- ===== src/TfCmd/Inputs.antt =====
-- tfcmd.go: file inputs.
pub mod Invariants
use Prim.Native.Char.{code as char_code, len_utf8}
use Prim.Native.String.{slice}
use building_block_runner.Prelude.{
  ℕ, suc, ◌+◌, String, len, Bool, true, false, Option, none, some, List, [], ◌∷◌, ◌<>◌, has_prefix,
  ◌==◌, if◌then◌else◌,
}
use building_block_runner.Run.Kinds.{
  DataType, string, integer, boolean, code, single_select, multi_select, file, legacy_list, other,
}
use building_block_runner.TfCmd.Outside.{
  Result, err, Stat, exists, not_exist, stat_failed, plain, write_file,
}
use building_block_runner.TfCmd.Exec.{
  Exec, ◌>>=◌, ◌>>◌, pure, raise, lift, catch, ask, println_to_update_logs,
}
use building_block_runner.TfCmd.Params.{GenericTfCmd, Variable}
use building_block_runner.TfCmd.Source.{stat_path}
use building_block_runner.TfCmd.Env.{decrypt_or_report}

plus : ℕ → Option ℕ → Option ℕ
plus k none = none
plus k (some n) = some (k + n)

-- The bytes up to and with the first ";base64,"; a `.` of the pattern matches no newline.
to_base64_mark : String → Option ℕ
to_base64_mark String.[] = none
to_base64_mark (String.◌∷◌ ch s) =
    let rest = plus (len_utf8 ch) (to_base64_mark s) in
    if has_prefix (String.◌∷◌ ch s) ";base64,"
    then some 8
    else if char_code ch == 10
    then none
    else rest

or_later : Option ℕ → Option ℕ → Option ℕ
or_later none later = later
or_later (some n) later = some n

-- The length of the first match of `data:(.*?);base64,`, wherever in the text it begins.
header_length : String → Option ℕ
header_length String.[] = none
header_length (String.◌∷◌ ch s) =
    let later = header_length s in
    if has_prefix (String.◌∷◌ ch s) "data:"
    then or_later (plus 5 (to_base64_mark (slice (String.◌∷◌ ch s) 5 (len (String.◌∷◌ ch s)))))
        later
    else later

-- extractContentFromDataUrl: as many bytes are cut off the front as the match is long.
unfoldable pub extract_content_from_data_url : GenericTfCmd → String → Result String
unfolding header_length to_base64_mark plus or_later
extract_content_from_data_url c url = elim (header_length url) [
  | none ↦ err "no data content found in DataURL"
  | some n ↦ c.decode_base64 (slice url n (len url))
]

abbrev pub is_file : DataType → Bool
is_file file = true
is_file string = false
is_file integer = false
is_file boolean = false
is_file code = false
is_file single_select = false
is_file multi_select = false
is_file legacy_list = false
is_file (other s) = false

-- `return savedFiles, err` after a text to both logs.
report_and_raise : {A : Type 0} → String → String → Exec A
report_and_raise text e = do println_to_update_logs text; raise e

check_target : String → Stat → Exec (Unit {0})
check_target name exists = println_to_update_logs (
    "A file with the name '" <> name
    <> "' already exists in the working directory and will be overwritten by a file input.")
check_target name not_exist = pure tt
check_target name (stat_failed e) = report_and_raise ("Could not access file: " <> name) e

save_file : GenericTfCmd → String → Variable → Exec (Unit {0})
unfolding check_target report_and_raise
save_file c name v = do
  let path = c.path_join c.working_directory name
  target ← stat_path c path
  check_target name target
  value ← decrypt_or_report c "file input" name v
  content ←
      catch (lift (extract_content_from_data_url c (c.show_value value)))
        (report_and_raise "Unable to decode file content from DataURL")
  catch (ask (write_file path (plain content)) (λ h. c.outside.store h path (plain content)))
      (report_and_raise "Unable to write variable file")

save_variable : GenericTfCmd → String → Variable → Exec (Unit {0})
unfolding save_file
save_variable c name v =
    if v.env
    then (let e = "variable '" <> name <> "' with type FILE cannot be marked as environment var" in
        report_and_raise e e)
    else save_file c name v

save_files : GenericTfCmd → List (String × Variable) → ℕ → Exec ℕ
unfolding save_variable
save_files c [] saved = pure saved
save_files c ((name, v) ∷ r) saved =
    let skip = save_files c r saved in
    if is_file v.data_type then (do save_variable c name v; save_files c r (suc saved)) else skip

-- GenericTfCmd.saveInputFiles: the number of files saved.
unfoldable pub save_input_files : GenericTfCmd → Exec ℕ
unfolding save_files
save_input_files c = save_files c c.vars 0
