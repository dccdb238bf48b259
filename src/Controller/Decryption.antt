-- ===== src/Controller/Decryption.antt =====
-- run-controller/controller/decryption.go: decryptRunDetails.
pub mod Laws
use building_block_runner.Prelude.{
  String, Bool, true, false, Option, none, some, List, [], ◌∷◌, ◌<>◌, ◌&&◌, not, is_empty, str_eq,
  if◌then◌else◌,
}
use building_block_runner.Controller.World.{Answer, answer, refusal}
use building_block_runner.Controller.RunDetails.{
  InputValue, text_value, nil_value, json_value, BuildingBlockInput, RunDetails,
  TerraformImplementation, GithubImplementation, GitlabImplementation, AzureDevOpsImplementation,
}

-- encoding/base64 and encoding/json, at the types that the code reads and writes.
pub record Codec : Type 0 where
  pub decode_base64 : String → Answer String
  pub encode_base64 : String → String
  pub parse_run_details : String → Answer RunDetails
  pub print_run_details : RunDetails → Answer String
  pub implementation_type : String → Answer String
  pub parse_terraform : String → Answer TerraformImplementation
  pub print_terraform : TerraformImplementation → Answer String
  pub parse_github : String → Answer GithubImplementation
  pub print_github : GithubImplementation → Answer String
  pub parse_gitlab : String → Answer GitlabImplementation
  pub print_gitlab : GitlabImplementation → Answer String
  pub parse_azure : String → Answer AzureDevOpsImplementation
  pub print_azure : AzureDevOpsImplementation → Answer String

infixl 5 ◌>>=◌
unfoldable ◌>>=◌ : {A B : Type 0} → Answer A → (A → Answer B) → Answer B
answer a >>= f = f a
refusal e >>= f = refusal e

-- `fmt.Errorf("…: %w", err)`
unfoldable context : {A : Type 0} → String → Answer A → Answer A
context text (answer a) = answer a
context text (refusal e) = refusal (text <> ": " <> e)

module _ (codec : Codec) (decrypt : String → Answer String) where
  -- One secret field: an empty one stays.
  unfoldable pub decrypt_secret : String → String → Answer String
  unfolding context
  decrypt_secret text secret =
      if is_empty secret then answer secret else context text (decrypt secret)

  -- A field that may be nil.
  unfoldable pub decrypt_optional : String → Option String → Answer (Option String)
  unfolding ◌>>=◌ decrypt_secret
  decrypt_optional text none = answer none
  decrypt_optional text (some secret) = do
    decrypted ← decrypt_secret text secret
    answer (some decrypted)

  unfoldable pub decrypt_value : String → InputValue → Answer InputValue
  unfolding ◌>>=◌ decrypt_secret
  decrypt_value key (text_value secret) = do
    decrypted ← decrypt_secret ("failed to decrypt sensitive input '" <> key <> "'") secret
    answer (text_value decrypted)
  decrypt_value key nil_value = answer nil_value
  decrypt_value key (json_value json) = answer (json_value json)

  -- One input: only a sensitive one is decrypted.
  unfoldable pub decrypt_input : BuildingBlockInput → Answer BuildingBlockInput
  unfolding ◌>>=◌ decrypt_value
  decrypt_input input =
      if input.is_sensitive
      then (decrypt_value input.key input.value >>= λ value. answer record input { value = value })
      else answer input

  -- The loop over the inputs, which stops at the first error.
  unfoldable pub decrypt_inputs : List BuildingBlockInput → Answer (List BuildingBlockInput)
  unfolding ◌>>=◌ decrypt_input
  decrypt_inputs [] = answer []
  decrypt_inputs (input ∷ rest) = do
    decrypted ← decrypt_input input
    others ← decrypt_inputs rest
    answer (decrypted ∷ others)

  -- The cases of the switch over the implementation's type.
  unfoldable pub decrypt_terraform : String → Answer String
  unfolding ◌>>=◌ context decrypt_optional
  decrypt_terraform raw = do
    impl ← context "failed to parse Terraform implementation" (codec.parse_terraform raw)
    key ← decrypt_optional "failed to decrypt SSH private key" impl.ssh_private_key
    context "failed to marshal Terraform implementation"
        (codec.print_terraform record impl { ssh_private_key = key })

  unfoldable pub decrypt_github : String → Answer String
  unfolding ◌>>=◌ context decrypt_secret
  decrypt_github raw = do
    impl ← context "failed to parse GitHub implementation" (codec.parse_github raw)
    pem ← decrypt_secret "failed to decrypt GitHub appPem" impl.app_pem
    context "failed to marshal GitHub implementation"
        (codec.print_github record impl { app_pem = pem })

  unfoldable pub decrypt_gitlab : String → Answer String
  unfolding ◌>>=◌ context decrypt_secret
  decrypt_gitlab raw = do
    impl ← context "failed to parse GitLab implementation" (codec.parse_gitlab raw)
    token ←
        decrypt_secret "failed to decrypt GitLab pipeline trigger token" impl.pipeline_trigger_token
    context "failed to marshal GitLab implementation"
        (codec.print_gitlab record impl { pipeline_trigger_token = token })

  unfoldable pub decrypt_azure : String → Answer String
  unfolding ◌>>=◌ context decrypt_secret
  decrypt_azure raw = do
    impl ← context "failed to parse Azure DevOps implementation" (codec.parse_azure raw)
    token ←
        decrypt_secret "failed to decrypt Azure DevOps personal access token"
          impl.personal_access_token
    context "failed to marshal Azure DevOps implementation"
        (codec.print_azure record impl { personal_access_token = token })

  unfoldable pub decrypt_implementation : String → String → Answer String
  unfolding decrypt_terraform decrypt_github decrypt_gitlab decrypt_azure
  decrypt_implementation impl_type raw =
      if str_eq impl_type "TERRAFORM"
      then decrypt_terraform raw
      else if str_eq impl_type "GITHUB_WORKFLOW"
      then decrypt_github raw
      else if str_eq impl_type "GITLAB_CICD"
      then decrypt_gitlab raw
      else if str_eq impl_type "AZURE_DEVOPS"
      then decrypt_azure raw
      else if str_eq impl_type "MANUAL"
      then answer raw
      else refusal ("unsupported implementation type: " <> impl_type)

  -- decryptRunDetails
  unfoldable pub decrypt_run_details : String → Answer String
  unfolding ◌>>=◌ context decrypt_inputs decrypt_implementation
  decrypt_run_details run_json_base64 = do
    run_json ← context "failed to decode base64 run JSON" (codec.decode_base64 run_json_base64)
    run ← context "failed to parse run JSON" (codec.parse_run_details run_json)
    inputs ← decrypt_inputs run.inputs
    impl_type ←
        context "failed to get implementation type" (codec.implementation_type run.implementation)
    implementation ← decrypt_implementation impl_type run.implementation
    decrypted ←
        context "failed to marshal decrypted run JSON"
          (codec.print_run_details record run { inputs = inputs; implementation = implementation })
    answer (codec.encode_base64 decrypted)
