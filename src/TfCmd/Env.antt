-- ===== src/TfCmd/Env.antt =====
-- tfcmd.go: the environment of the OpenTofu process; `decryptIfSensitive` of run.go.
pub mod Invariants
pub mod Laws
mod Tests
use building_block_runner.Prelude.{
  String, Bool, true, false, Option, none, some, List, [], ◌∷◌, ◌<>◌, ◌&&◌, not, is_empty,
  has_prefix, insert, if◌then◌else◌,
}
use building_block_runner.Run.Kinds.{
  DataType, string, integer, boolean, code, single_select, multi_select, file, legacy_list, other,
}
use building_block_runner.Run.Status.{Json, text}
use building_block_runner.TfCmd.Outside.{Result, ok, err, panic}
use building_block_runner.TfCmd.Exec.{
  Exec, ◌>>=◌, ◌>>◌, pure, raise, lift, catch, println_to_update_logs,
}
use building_block_runner.TfCmd.Params.{GenericTfCmd, Variable, AuthType, ssh, no_auth}

abbrev pub Environment : Type 0
Environment = List (String × String)

copy_env : (String → Option String) → List String → Environment → Environment
copy_env look_up [] env = env
copy_env look_up (k ∷ r) env =
    copy_env look_up r (elim (look_up k) [ none ↦ env | some v ↦ insert k v env ])

abbrev pub system_keys : List String
system_keys = "HOME" ∷ "PATH" ∷ "PWD" ∷ "TMPDIR" ∷ "TMP" ∷ "TEMP" ∷ []

abbrev pub compatibility_keys : List String
compatibility_keys =
    "SSH_KNOWN_HOSTS" ∷ "NIX_CONFIG" ∷ "MESHSTACK_ENDPOINT" ∷ "MESHSTACK_SKIP_VERSION_CHECK"
    ∷ "CUSTOM_CA_CERTS_PATH" ∷ "TF_LOG" ∷ "TF_LOG_CORE" ∷ "TF_LOG_PROVIDER" ∷ "TF_LOG_PATH"
    ∷ "CHECKPOINT_DISABLE" ∷ "TF_IN_AUTOMATION" ∷ []

-- cleanSystemEnv
unfoldable pub clean_system_env : (String → Option String) → Environment
unfolding copy_env
clean_system_env look_up = copy_env look_up compatibility_keys (copy_env look_up system_keys [])

-- The types that a sensitive value is decrypted for.
abbrev pub is_decryptable : DataType → Bool
is_decryptable code = true
is_decryptable string = true
is_decryptable file = true
is_decryptable integer = false
is_decryptable boolean = false
is_decryptable single_select = false
is_decryptable multi_select = false
is_decryptable legacy_list = false
is_decryptable (other s) = false

abbrev decryption_hint : String
decryption_hint =
    ". This typically indicates a key mismatch - the private key provided to this building block block runner does not match the public key used to encrypt the input. Please verify: 1) The correct building block block runner is configured for this building block definition, 2) The private key configured in the runner matches the public key for the runner configured in meshStack, or 3) Create and publish a new building block definition version and re-upload the plaintext for secret inputs so they are re-encrypted with the correct key"

decrypted : Result String → Result Json
decrypted (ok s) = ok (text s)
decrypted (err e) = err ("failed to decrypt secret input: " <> e <> decryption_hint)
decrypted panic = panic

-- Variable.decryptIfSensitive
unfoldable pub decrypt_if_sensitive : GenericTfCmd → Variable → Result Json
unfolding decrypted
decrypt_if_sensitive c v =
    if v.is_sensitive && is_decryptable v.data_type
    then decrypted (c.decrypt (c.show_value v.value))
    else ok v.value

-- encodeVarValueForEnv
unfoldable pub encode_var_value_for_env : GenericTfCmd → Json → DataType → Result String
encode_var_value_for_env c value multi_select = c.marshal value
encode_var_value_for_env c value t = ok (c.show_value value)

abbrev pub tf_var_env_prefix : String
tf_var_env_prefix = "TF_VAR_"

-- A decryption that fails is reported to the user, and fails under another text. `what` is
-- "input" or "file input".
unfoldable pub decrypt_or_report : GenericTfCmd → String → String → Variable → Exec Json
decrypt_or_report c what name v = catch (lift (decrypt_if_sensitive c v)) (λ e. do
  println_to_update_logs ("Failed to decrypt " <> what <> " '" <> name <> "': " <> e)
  raise (what <> " decryption failed for '" <> name <> "'"))

env_value : GenericTfCmd → String → Variable → Exec String
env_value c name v = do
  val ← decrypt_or_report c "input" name v
  lift (encode_var_value_for_env c val v.data_type)

-- The loop over the variables.
add_env_vars : GenericTfCmd → List (String × Variable) → Environment → Exec Environment
add_env_vars c [] env = pure env
add_env_vars c ((name, v) ∷ r) env =
    let skip = add_env_vars c r env in
    if v.env && not (has_prefix name tf_var_env_prefix)
    then (do value ← env_value c name v; add_env_vars c r (insert name value env))
    else skip

abbrev ssh_command : GenericTfCmd → String
ssh_command c =
    "ssh -i '"
    <> c.path_join c.working_directory "ssh_cert"
    <> "'"
    <> (if c.skip_host_key_validation then " -o StrictHostKeyChecking=no" else "")

abbrev with_ssh : GenericTfCmd → AuthType → Environment → Environment
with_ssh c no_auth env = env
with_ssh c ssh env = insert "GIT_SSH_COMMAND" (ssh_command c) env

-- The run token rides in the password of the state backend's Basic auth.
abbrev with_backend_auth : GenericTfCmd → Environment → Environment
with_backend_auth c env =
    if c.use_mesh_backend_fallback && not (is_empty c.run_token)
    then insert "TF_HTTP_PASSWORD" c.run_token (insert "TF_HTTP_USERNAME" "x" env)
    else env

-- GenericTfCmd.buildTfEnv
unfoldable pub build_tf_env : GenericTfCmd → Exec Environment
unfolding add_env_vars env_value clean_system_env
build_tf_env c = do
  env ← add_env_vars c c.vars (with_ssh c c.source.auth (clean_system_env c.look_up_env))
  pure (with_backend_auth c env)
