-- ===== src/Controller/Config/Read/Laws.antt =====
-- What a configuration promises that was accepted.
use building_block_runner.Prelude.{
  String, Bool, true, false, Option, none, some, List, [], ◌∷◌, ◌≡◌, ◌≢◌, refl, subst, is_empty,
  is_some, All, arith, if◌then◌else◌,
}
use building_block_runner.Prelude.Int.{ℤ, pos, negsuc}
use building_block_runner.Controller.World.{Error, Answer, answer, refusal}
use building_block_runner.Controller.Config.{
  WorkloadIdentityFederationConfig, ApiConfig, JobSpecTemplate, ControllerConfig, AuthProvider,
  basic_auth, api_key_auth, new_auth_provider,
}
use building_block_runner.Controller.Subject.{registered_wif}
use building_block_runner.Controller.Config.Read.{
  UrlParser, ◌then_check◌, required, or_default, validate_workload_identity_federation,
  validate_api_auth, is_valid_handler_implementation_type, validate_implementations,
  validate_config, complete_config, if_valid, at_least_one, read_config,
}

-- Both parts of the credentials are there.
abbrev pub HasCredentials : AuthProvider → Type 0
HasCredentials (basic_auth username password) =
    (is_empty username ≡ false) × (is_empty password ≡ false)
HasCredentials (api_key_auth url id secret) = (is_empty id ≡ false) × (is_empty secret ≡ false)

pub record IsUsable (c : ControllerConfig) : Type 0 where
  pub limited : c.max_concurrent_jobs ≢ pos 0
  pub authenticated :
      (fallback_url : String) → HasCredentials (new_auth_provider c.api fallback_url)
  pub registrable :
      (namespace issuer : String)
      → is_some (registered_wif c.workload_identity_federation namespace issuer) ≡ true
  pub handlers :
      All
        (λ (entry : String × JobSpecTemplate).
          (is_valid_handler_implementation_type entry.0 ≡ true) × (is_empty entry.1.image ≡ false))
        c.implementations

passed : (a b : Option Error) → (a then_check b) ≡ none → (a ≡ none) × (b ≡ none)
passed none b e = (refl, e)
passed (some t) b e = ground arith

or_default-nonzero : (z : ℤ) → or_default z (pos 20) ≢ pos 0
or_default-nonzero (pos n) e = ground arith
or_default-nonzero (negsuc n) e = ground arith

validate_api_auth-HasCredentials :
    (c : ApiConfig) (context fallback_url : String)
    → validate_api_auth c context ≡ none
    → HasCredentials (new_auth_provider c fallback_url)
unfolding validate_api_auth new_auth_provider
validate_api_auth-HasCredentials c context fallback_url valid = ground arith

complete_config-limited :
    (get_env : String → String) (c : ControllerConfig)
    → (complete_config get_env c).max_concurrent_jobs ≢ pos 0
unfolding complete_config
complete_config-limited get_env c = or_default-nonzero c.max_concurrent_jobs

none_if : (b : Bool) (e : Error) → (if b then none else some e) ≡ none → b ≡ true
none_if true e h = refl
none_if false e h = ground arith

validate_implementations_lem :
    (entries : List (String × JobSpecTemplate))
    → validate_implementations entries ≡ none
    → All
        (λ (entry : String × JobSpecTemplate).
          (is_valid_handler_implementation_type entry.0 ≡ true) × (is_empty entry.1.image ≡ false))
        entries
unfolding validate_implementations
validate_implementations_lem [] valid = tt
validate_implementations_lem (entry ∷ rest) valid =
    let (front, others) = passed _ (validate_implementations rest) valid in
    let (key, image) = passed _ (required entry.1.image _) front in
    ((none_if _ _ key, ground (arith, image)), validate_implementations_lem rest others)

registered_wif-accepted :
    (parse : UrlParser) (c : WorkloadIdentityFederationConfig) (namespace issuer : String)
    → validate_workload_identity_federation parse c ≡ none
    → is_some (registered_wif c namespace issuer) ≡ true
unfolding registered_wif validate_workload_identity_federation
registered_wif-accepted parse c namespace issuer valid = ground arith

if_valid-answer :
    (c result : ControllerConfig) (o : Option Error)
    → if_valid c o ≡ answer result
    → (c ≡ result) × (o ≡ none)
unfolding if_valid
if_valid-answer c result none e = (cc, refl)
if_valid-answer c result (some error) e = ground arith

validate_config-IsUsable :
    (parse : UrlParser) (c : ControllerConfig)
    → c.max_concurrent_jobs ≢ pos 0
    → validate_config parse c ≡ none
    → IsUsable c
unfolding validate_config
validate_config-IsUsable parse c limited valid =
    let (rest, federation) =
      passed _ (validate_workload_identity_federation parse c.workload_identity_federation) valid in
    let (rest, implementations) = passed _ (validate_implementations c.implementations) rest in
    let (rest, some_handler) = passed _ (at_least_one c.implementations) rest in
    let (rest, namespace) = passed _ (required c.namespace _) rest in
    let (rest, private_key) = passed _ (required c.crypto.private_key _) rest in
    let (rest, public_key) = passed _ (required c.crypto.public_key _) rest in
    let (rest, display_name) = passed _ (required c.display_name _) rest in
    let (rest, owned_by_workspace) = passed _ (required c.owned_by_workspace _) rest in
    let (rest, uuid) = passed _ (required c.uuid _) rest in
    let (url, auth) = passed _ (validate_api_auth c.api "api") rest in
    record {
      limited = limited;
      authenticated =
          λ fallback_url. validate_api_auth-HasCredentials c.api "api" fallback_url auth;
      registrable = λ namespace issuer.
          registered_wif-accepted parse c.workload_identity_federation namespace issuer federation;
      handlers = validate_implementations_lem c.implementations implementations;
    }

-- A configuration that was read and accepted has a limit other than zero, sends complete credentials,
-- can be registered without a nil pointer for each issuer of tokens, and has an image for each of its
-- handlers, all of them of a type that exists.
pub read_config-IsUsable :
    (get_env : String → String) (parse : UrlParser) (file : Answer ControllerConfig)
    (result : ControllerConfig)
    → read_config get_env parse file ≡ answer result
    → IsUsable result
unfolding read_config
read_config-IsUsable get_env parse (refusal e) result read = ground arith
read_config-IsUsable get_env parse (answer c) result read =
    let (same, valid) = if_valid-answer (complete_config get_env c) result _ read in
    subst IsUsable same (
      validate_config-IsUsable parse (complete_config get_env c) (complete_config-limited get_env c)
        valid)
