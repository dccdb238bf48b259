-- ===== src/Controller/Tests.antt =====
-- Runs of the run controller on concrete inputs.
use building_block_runner.Prelude.{
  ◌≤◌, ◌+◌, ◌*◌, ◌/◌, len, String, Bool, true, false, Option, some, List, [], ◌∷◌, ◌≡◌, refl, sym,
  subst, str_eq, str_eq_iff, All, arith, Bool-cases, inl, inr, map, is_empty, ap, lookup,
}
use building_block_runner.Prelude.Int.{pos}
use building_block_runner.Controller.Config.{ControllerConfig, wif_issuer}
use building_block_runner.Controller.Config.Read.{read_config}
use building_block_runner.Controller.Config.Read.Laws.{IsUsable, read_config-IsUsable}
use building_block_runner.Controller.Subject.{render_subject_template, kubernetes_wif, WifDto}
use building_block_runner.Controller.Pod.{
  build_resource_requirements, must_parse_all, requested_quantities, create_volumes,
  create_volume_mounts, wif_token_volumes,
}
use building_block_runner.Controller.Pod.Laws.{HaveVolumes, create_volume_mounts-HaveVolumes}
use building_block_runner.Controller.World.{Error, Answer, answer, refusal, Secret, History}
use building_block_runner.Controller.Exec.{
  call, ask, note, on_error, ◌>>=◌, pure, raise, answered, unless, value_or_crash, read,
}
use building_block_runner.Controller.Cluster.{remove}
use building_block_runner.Controller.Cluster.Leftovers.{is_left}
use building_block_runner.Controller.Job.{
  other_error, create_runner_job, effective_max_run_json_size, estimate_run_json_size,
}
use building_block_runner.Controller.Job.Leftovers.{create_runner_job-is_left}
use building_block_runner.Controller.Job.Provided.{names_secret}
use building_block_runner.Controller.Job.Requests.{
  DecodesWithin, HoldsAtMost, CouldStart, create_runner_job-HoldsAtMost,
  create_runner_job-CouldStart, RunsAs, create_runner_job-kubernetes_wif,
}
use building_block_runner.Controller.RunDetails.{to_runner_type, BuildingBlockInput, text_value}
use building_block_runner.Controller.Decryption.{decrypt_inputs}
use building_block_runner.Controller.Decryption.Laws.{
  seal_input, IsCipher, decrypt_inputs-seal_input,
}
use building_block_runner.Controller.Capacity.{count_active_jobs}
use building_block_runner.Controller.Dispatch.{new_kubernetes_dispatcher}
use building_block_runner.Controller.Loop.{drain_runs, process_next_run}
use building_block_runner.Controller.Loop.Quiet.{claims, new_kubernetes_dispatcher-ClaimsNothing}
use building_block_runner.Controller.Loop.Claims.{allowance, drain_runs-claims}
use building_block_runner.Controller.Loop.Outcome.{
  RunEnds, Nowhere, Anywhere, process_next_run-RunEnds,
}
use building_block_runner.Controller.Rules.{Ends}
use building_block_runner.Controller.Example.{
  cluster, spec, config, client, info, earlier, codec, busy,
}

abbrev text_of : Answer String → String
text_of (answer text) = text
text_of (refusal e) = e

-- A cluster without room: what was created for the run is deleted again.
create_runner_job-is_left_example : is_left "run-json-r0" earlier ≡ true
unfolding create_runner_job call ask note on_error ◌>>=◌ pure raise answered unless value_or_crash
    estimate_run_json_size build_resource_requirements must_parse_all requested_quantities remove
create_runner_job-is_left_example =
    create_runner_job-is_left (cluster false) client info "e30=" "TERRAFORM" spec earlier
      "run-json-r0" (other_error "failed to create job: exceeded quota") named refl refl
  where
    named :
        (h : History) (secret : Secret) (name : String)
        → (cluster false).new_generated_secret h secret ≡ answer name
        → is_empty name ≡ false
    named h secret name e = subst (λ n. is_empty n ≡ false) (ap text_of e) refl

run_json_is_deleted :
    is_left "run-json-r1"
      (create_runner_job (cluster false) client info "e30=" "TERRAFORM" spec earlier).1
    ≡ false
unfolding create_runner_job call ask note on_error ◌>>=◌ pure raise answered unless value_or_crash
    estimate_run_json_size build_resource_requirements must_parse_all requested_quantities remove
run_json_is_deleted = refl

run_json_is_kept :
    is_left "run-json-r1"
      (create_runner_job (cluster true) client info "e30=" "TERRAFORM" spec earlier).1
    ≡ true
unfolding create_runner_job call ask note on_error ◌>>=◌ pure raise answered unless value_or_crash
    estimate_run_json_size build_resource_requirements must_parse_all requested_quantities remove
run_json_is_kept = refl

decodes : DecodesWithin (cluster true)
decodes encoded text e = elim (Bool-cases (str_eq encoded "e30=")) [
  | inl same ↦
      let opened : answer "{}" ≡ answer text = rw same at e in
      subst (λ s. len text ≤ len s / 4 * 3) (sym ((str_eq_iff encoded "e30=").0 same))
        (subst (λ t. len t ≤ 3) (ap text_of opened) (omega arith))
  | inr other ↦ ground (arith, other, e)
]

create_runner_job-HoldsAtMost_example :
    All
      (HoldsAtMost effective_max_run_json_size)
      (create_runner_job (cluster true) client info "e30=" "TERRAFORM" spec earlier).1
create_runner_job-HoldsAtMost_example =
    create_runner_job-HoldsAtMost (cluster true) client info "e30=" "TERRAFORM" spec earlier decodes
      ((omega arith, tt), tt)

create_runner_job-CouldStart_example :
    CouldStart
      (names_secret spec.extra_volumes)
      (create_runner_job (cluster true) client info "e30=" "TERRAFORM" spec earlier).1
create_runner_job-CouldStart_example =
    create_runner_job-CouldStart (cluster true) client info "e30=" "TERRAFORM" spec earlier tt

create_volume_mounts-HaveVolumes_example :
    let (volumes, mounts) = wif_token_volumes config "runners" "wif-token-r1-x7" in
    HaveVolumes (create_volumes some spec "run-json-r1" volumes) (create_volume_mounts spec mounts)
create_volume_mounts-HaveVolumes_example =
    create_volume_mounts-HaveVolumes some config spec "runners" "run-json-r1" "wif-token-r1-x7"
      (refl, tt)

abbrev registered : WifDto
registered = record {
  issuer = "https://issuer";
  subject_template =
      "system:serviceaccount:runners:workspace.{{ workspaceIdentifier }}.buildingblockdefinition.{{ buildingBlockDefinitionUuid }}";
  gcp = record {
    audience = "gcp-workload-identity-provider:runners";
    token_path = "/var/run/secrets/workload-identity/gcp/token";
  };
  aws = record {
    audience = "aws-workload-identity-provider:runners";
    token_path = "/var/run/secrets/workload-identity/aws/token";
  };
  azure = record {
    audience = "api://AzureADTokenExchange";
    token_path = "/var/run/secrets/workload-identity/azure/token";
  };
}

create_runner_job-kubernetes_wif_example :
    All
      (RunsAs (render_subject_template registered.subject_template info))
      (create_runner_job (cluster true) client info "e30=" "TERRAFORM" spec earlier).1
unfolding kubernetes_wif
create_runner_job-kubernetes_wif_example =
    create_runner_job-kubernetes_wif (cluster true) client info "e30=" "TERRAFORM" spec earlier
      "https://issuer" registered refl refl (tt, tt)

-- The hash sign in front stands for the encryption.
abbrev seal : String → String
seal text = String.◌∷◌ "#" text

abbrev unseal : String → Answer String
unseal String.[] = refusal "too short"
unseal (String.◌∷◌ c text) = answer text

abbrev has_first : String → Bool
has_first String.[] = false
has_first (String.◌∷◌ c text) = true

seal-IsCipher : IsCipher seal unseal
seal-IsCipher = record { opens = λ text. refl; visible = λ text. visible_lem text }
  where
    visible_lem : (text : String) → is_empty (seal text) ≡ false
    visible_lem text = elim (Bool-cases (is_empty (seal text))) [
      | inr visible ↦ visible
      | inl empty ↦
          let same : true ≡ false = ap has_first ((str_eq_iff (seal text) "").0 empty) in
          ground (arith, same)
    ]

abbrev inputs : List BuildingBlockInput
inputs =
    record {
      key = "token";
      value = text_value "s3cret";
      input_type = "STRING";
      is_sensitive = true;
      is_environment = false;
    }
    ∷ record {
      key = "region";
      value = text_value "eu";
      input_type = "STRING";
      is_sensitive = false;
      is_environment = true;
    }
    ∷ []

decrypt_inputs-seal_input_example :
    decrypt_inputs codec unseal (map (seal_input seal) inputs) ≡ answer inputs
decrypt_inputs-seal_input_example = decrypt_inputs-seal_input codec seal-IsCipher inputs

abbrev no_env : String → String
no_env name = ""

abbrev https : String → Option (String × String)
https url = some ("https", "keycloak")

abbrev accepted_config : ControllerConfig
accepted_config = record config {
  max_concurrent_jobs = pos 20;
  workload_identity_federation = record {
    issuer = "keycloak";
    keycloak = some record {
      url = "https://keycloak";
      realm = "mesh";
      client_id = "runner";
      client_secret = "s3cret";
      token_lifetime_minutes = pos 90;
    };
  };
}

read_config-IsUsable_example : IsUsable accepted_config
unfolding read_config wif_issuer
read_config-IsUsable_example =
    read_config-IsUsable no_env https (answer config) accepted_config refl

-- One run is in work and two may be: one is claimed.
drain_runs-claims_example :
    claims
      (drain_runs busy (new_kubernetes_dispatcher (cluster true) config) {E = Error} (pos 2) []).1
    ≤ 0 + allowance (pos 2) ((new_kubernetes_dispatcher (cluster true) config).count_active []).0
drain_runs-claims_example =
    drain_runs-claims busy (new_kubernetes_dispatcher (cluster true) config) (pos 2) []
      (new_kubernetes_dispatcher-ClaimsNothing (cluster true) config)

process_next_run-RunEnds_example :
    Ends
      (RunEnds busy
        (new_kubernetes_dispatcher (cluster true) config)
        (busy.fetch_run_details [])
        [])
      Nowhere
      Anywhere
      (process_next_run busy (new_kubernetes_dispatcher (cluster true) config) {E = Error} []).0
      (process_next_run busy (new_kubernetes_dispatcher (cluster true) config) {E = Error} []).1
process_next_run-RunEnds_example =
    process_next_run-RunEnds busy (new_kubernetes_dispatcher (cluster true) config) []

one_is_claimed :
    claims
      (drain_runs busy (new_kubernetes_dispatcher (cluster true) config) {E = Error} (pos 2) []).1
    ≡ 1
unfolding drain_runs ◌>>=◌ on_error new_kubernetes_dispatcher count_active_jobs call answered pure
    read unless lookup to_runner_type raise
one_is_claimed = refl
