-- ===== src/Controller/Cluster/Steps.antt =====
-- What each step of the calls for a run keeps and makes known.
use building_block_runner.Prelude.{
  String, Bool, true, false, ◌≡◌, refl, ◌||◌, not, str_eq, str_eq_iff, is_empty, All, arith,
}
use building_block_runner.Controller.Subject.{RunInfo}
use building_block_runner.Controller.World.{
  Answer, answer, refusal, Secret, CreatedJob, ServiceAccount, Found, found, not_found, get_failed,
  History, World,
}
use building_block_runner.Controller.Exec.{pure}
use building_block_runner.Controller.Cluster.{
  KubernetesClient, create_account_named, create_service_account, unless_found, decoded_run_json,
  create_run_json_secret, create_token_secret, mint_token_secret, warn_without_token, mint_or_warn,
  create_wif_token_secret, is_found, remove, set_owner, set_secret_owner_reference,
}
use building_block_runner.Controller.Rules.{
  Triple, Always, Triple-imply, Triple-given, Triple-pure, Triple-raise, Triple-if, Triple-ask,
  Triple-bind, Triple-on_error, Triple-note, Triple-unless, Triple-call,
}
use building_block_runner.Controller.Pod.{Job}
use building_block_runner.Controller.Cluster.Known.{
  knows_secret, knows_account, Invariant, Grows, Both, Keeps, Both-is_minor, Keeps-call, Keeps-note,
}

module _ (w : World) (k : KubernetesClient) {Small : String → Type 0} {Runs : Job → Type 0}
    {configured : String → Bool} {P : History → Type 0}
    (invariant : Invariant Small Runs configured P) {M : History → Type 0} (grows : Grows M) where
  itself : (name : String) → str_eq name name ≡ true
  itself name = (str_eq_iff name name).1 refl

  abbrev pub KnowsAccount : String → History → Type 0
  KnowsAccount name h = Both P M h × (knows_account name h ≡ true)

  abbrev pub KnowsSecret : String → History → Type 0
  KnowsSecret name h = Both P M h × (knows_secret name h ≡ true)

  -- The token's secret, where there is one.
  abbrev pub KnowsToken : String → History → Type 0
  KnowsToken name h = Both P M h × ((is_empty name || knows_secret name h) ≡ true)

  create_account_named-Known :
      (account : ServiceAccount)
      → Triple
          (Both P M)
          (create_account_named w k account)
          (Always (KnowsAccount account.name))
          (Always P)
          P
  unfolding create_account_named
  create_account_named-Known account =
      Triple-on_error _ _ _
        (Triple-call {Q = Always (KnowsAccount account.name)} {F = Always (Both P M)} _ _
          (λ h a both _.
            (Both-is_minor invariant grows _ h refl both, ground (arith, itself account.name)))
          (λ h e both. Both-is_minor invariant grows _ h refl both))
        (λ e.
          Triple-bind _ _ (Keeps-note invariant grows _ refl) λ _. Triple-raise _ λ h both. both.0)
        (λ _.
          Triple-note _
            λ h known. (Both-is_minor invariant grows _ h refl known.0, ground (arith, known.1)))

  pub create_service_account-Known :
      (namespace name run_id : String)
      → Triple
          (Both P M)
          (create_service_account w k namespace name run_id)
          (Always (KnowsAccount name))
          (Always P)
          P
  unfolding create_service_account
  create_service_account-Known namespace name run_id =
      Triple-bind _ _
        (Triple-ask {Q = λ exists h. Both P M h × (exists ≡ true → knows_account name h ≡ true)} _ _
          λ h both. (
            Both-is_minor invariant grows _ h refl both,
            λ exists. ground (arith, itself name, exists),
          ))
        λ exists.
          Triple-unless _ _ (λ there h both. (both.0, both.1 there))
            λ _.
              Triple-imply {X' = P} _ (λ h both. both.0) (λ a h q. q) (λ e h q. q) (λ h q. q)
                (create_account_named-Known _)

  unless_found-Known :
      (secret : Secret) (there : Found)
      → All (λ (entry : String × String). Small entry.1) secret.content
      → Triple
          (λ h. Both P M h × (is_found w k there ≡ true → knows_secret secret.name h ≡ true))
          (unless_found w k secret there)
          (Always (KnowsSecret secret.name))
          (Always P)
          P
  unfolding unless_found
  unless_found-Known secret (found s) small = Triple-pure _ λ h both. (both.0, both.1 refl)
  unless_found-Known secret (get_failed e) small = Triple-raise _ λ h both. both.0.0
  unless_found-Known secret not_found small =
      Triple-on_error _ _ _
        (Triple-call {Q = Always (KnowsSecret secret.name)} {F = Always (Both P M)} _ _
          (λ h a both _. (
            (invariant.secret secret true h small both.0.0, grows _ h both.0.1),
            ground (arith, itself secret.name),
          ))
          (λ h e both. (invariant.secret secret false h small both.0.0, grows _ h both.0.1)))
        (λ e. Triple-raise _ λ h both. both.0) (λ _. Triple-pure _ λ h known. known)

  decoded_run_json-Known :
      (encoded : String) (a : Answer String)
      → w.decode_base64 encoded ≡ a
      → Triple
          (Both P M)
          (decoded_run_json w k a)
          (λ text h. Both P M h × (w.decode_base64 encoded ≡ answer text))
          (Always P)
          P
  unfolding decoded_run_json
  decoded_run_json-Known encoded (answer text) e = Triple-pure _ λ h both. (both, e)
  decoded_run_json-Known encoded (refusal error) e = Triple-raise _ λ h both. both.0

  pub create_run_json_secret-Known :
      (namespace secret_name encoded run_id : String)
      → ((text : String) → w.decode_base64 encoded ≡ answer text → Small text)
      → Triple
          (Both P M)
          (create_run_json_secret w k namespace secret_name encoded run_id)
          (Always (KnowsSecret secret_name))
          (Always P)
          P
  unfolding create_run_json_secret
  create_run_json_secret-Known namespace secret_name encoded run_id small =
      Triple-bind _ _ (decoded_run_json-Known encoded _ refl) λ text. Triple-given λ decoded.
        Triple-bind _ _
          (Triple-ask
            {Q = λ there h.
              Both P M h × (is_found w k there ≡ true → knows_secret secret_name h ≡ true)}
            _ _
            λ h both. (
              Both-is_minor invariant grows _ h refl both,
              λ there. ground (arith, itself secret_name, there),
            ))
          λ there. unless_found-Known _ there (small text decoded, tt)

  create_token_secret-Known :
      (namespace run_id token : String)
      → Triple
          (Both P M)
          (create_token_secret w k namespace run_id token)
          KnowsToken
          (Always (Both P M))
          P
  unfolding create_token_secret
  create_token_secret-Known namespace run_id token =
      Triple-on_error _ _ _
        (Triple-call {Q = KnowsToken} {F = Always (Both P M)} _ _
          (λ h name both _.
            (Both-is_minor invariant grows _ h refl both, ground (arith, itself name)))
          (λ h e both. Both-is_minor invariant grows _ h refl both))
        (λ e. Triple-raise _ λ h both. both)
        (λ name. Triple-pure {P = KnowsToken name} {Q = KnowsToken} name λ h known. known)

  warn_without_token-Known :
      {E : Type 0} (info : RunInfo)
      → Triple (Both P M) (warn_without_token w k {E = E} info) KnowsToken (Always P) P
  unfolding warn_without_token
  warn_without_token-Known info =
      Triple-on_error _ _ _ (Keeps-call invariant grows _ _ λ a. refl)
        (λ _. Triple-pure "" λ h both. (both, refl)) (λ _. Triple-pure "" λ h both. (both, refl))

  mint_or_warn-Known :
      {E : Type 0} (namespace : String) (info : RunInfo)
      → Triple (Both P M) (mint_or_warn w k {E = E} namespace info) KnowsToken (Always P) P
  unfolding mint_or_warn mint_token_secret
  mint_or_warn-Known namespace info =
      Triple-on_error _ _ _
        (Triple-bind _ _ (Keeps-call invariant grows _ _ λ a. refl)
          λ token. create_token_secret-Known namespace info.uuid token)
        (λ e.
          Triple-bind _ _ (Keeps-note invariant grows _ refl) λ _. warn_without_token-Known info)
        (λ name.
          Triple-bind _ _
            (Triple-note {Q = Always (KnowsToken name)} _
              λ h known. (Both-is_minor invariant grows _ h refl known.0, ground (arith, known.1)))
            λ _. Triple-pure {P = KnowsToken name} {Q = KnowsToken} name λ h known. known)

  pub create_wif_token_secret-Known :
      {E : Type 0} (namespace : String) (info : RunInfo) (impl_type : String)
      → Triple
          (Both P M)
          (create_wif_token_secret w k {E = E} namespace info impl_type)
          KnowsToken
          (Always P)
          P
  unfolding create_wif_token_secret
  create_wif_token_secret-Known namespace info impl_type =
      Triple-if (not k.wif_tokens || not (str_eq impl_type "TERRAFORM")) (pure "")
        (mint_or_warn w k namespace info) (λ _. Triple-pure "" λ h both. (both, refl))
        (λ _. mint_or_warn-Known namespace info)

  pub remove-Known :
      {E : Type 0} (namespace name : String) → Keeps P M (remove w k {E = E} namespace name)
  unfolding remove
  remove-Known namespace name =
      Triple-on_error _ _ _ (Keeps-call invariant grows _ _ λ a. refl)
        (λ _. Triple-pure _ λ h both. both) (λ _. Triple-pure _ λ h both. both)

  set_owner-Known :
      {E : Type 0} (there : Found) (job : CreatedJob) → Keeps P M (set_owner w k {E = E} there job)
  unfolding set_owner
  set_owner-Known (found secret) job =
      Triple-on_error _ _ _ (Keeps-call invariant grows _ _ λ a. refl)
        (λ _. Triple-pure _ λ h both. both) (λ _. Triple-pure _ λ h both. both)
  set_owner-Known not_found job = Triple-pure _ λ h both. both
  set_owner-Known (get_failed e) job = Triple-pure _ λ h both. both

  pub set_secret_owner_reference-Known :
      {E : Type 0} (namespace name : String) (job : CreatedJob)
      → Keeps P M (set_secret_owner_reference w k {E = E} namespace name job)
  unfolding set_secret_owner_reference
  set_secret_owner_reference-Known namespace name job =
      Triple-bind _ _
        (Triple-ask {Q = Always (Both P M)} _ _
          λ h both. Both-is_minor invariant grows _ h refl both)
        λ there. set_owner-Known there job
