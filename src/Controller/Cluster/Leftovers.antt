-- ===== src/Controller/Cluster/Leftovers.antt =====
-- Which secrets are left after the calls for one run, by name.
use building_block_runner.Prelude.{
  String, Bool, true, false, some, [], ◌∷◌, ◌≡◌, refl, ◌||◌, ◌&&◌, not, str_eq, is_empty, arith,
  sym, ◌∙◌,
}
use building_block_runner.Controller.Subject.{RunInfo}
use building_block_runner.Controller.World.{
  Answer, answer, refusal, Secret, Metric, Found, found, not_found, get_failed, Event,
  create_secret, generate_secret, delete_secret, History, World,
}
use building_block_runner.Controller.Exec.{Exec, call, ask, count, raise, pure, ◌>>◌}
use building_block_runner.Controller.Cluster.{
  KubernetesClient, create_account_named, create_service_account, unless_found, decoded_run_json,
  create_run_json_secret, create_token_secret, mint_token_secret, warn_without_token, mint_or_warn,
  create_wif_token_secret, remove,
}
use building_block_runner.Controller.Rules.{
  Triple, Always, Triple-pure, Triple-raise, Triple-if, Triple-ask, Triple-bind, Triple-on_error,
  Triple-note, Triple-unless, Triple-call,
}

-- The secret of this name was created and not deleted after.
abbrev pub is_left : String → History → Bool
is_left name (create_secret secret true ∷ h) = str_eq secret.name name || is_left name h
is_left name (generate_secret secret (some created) ∷ h) = str_eq created name || is_left name h
is_left name (delete_secret namespace deleted ∷ h) = not (str_eq deleted name) && is_left name h
is_left name (_ ∷ h) = is_left name h
is_left name [] = false

-- Kubernetes gives a generated secret a name.
abbrev pub NamesSecrets : World → Type 0
NamesSecrets w =
    (h : History) (secret : Secret) (name : String)
    → w.new_generated_secret h secret ≡ answer name
    → is_empty name ≡ false

abbrev pub Anything : History → Type 0
Anything h = Unit

module _ (w : World) (k : KubernetesClient) (name : String) where
  -- Where the secret is left, `b` is true.
  abbrev pub LeftOnlyIf : Bool → History → Type 0
  LeftOnlyIf b h = is_left name h ≡ true → b ≡ true

  abbrev pub Steady : {E A : Type 0} → Bool → Exec E A → Type 0
  Steady b m = Triple (LeftOnlyIf b) m (Always (LeftOnlyIf b)) (Always (LeftOnlyIf b)) Anything

  pub Steady-call :
      {A : Type 0} (b : Bool) (event : Answer A → Event) (reply : History → Answer A)
      → ((a : Answer A) (h : History) → is_left name (event a ∷ h) ≡ is_left name h)
      → Steady b (call event reply)
  Steady-call b event reply same =
      Triple-call _ _ (λ h a left _ now. left (sym (same (answer a) h) ∙ now))
        (λ h e left now. left (sym (same (refusal e) h) ∙ now))

  Steady-ask :
      {E A : Type 0} (b : Bool) (event : A → Event) (reply : History → A)
      → ((a : A) (h : History) → is_left name (event a ∷ h) ≡ is_left name h)
      → Steady b (ask {E = E} event reply)
  Steady-ask b event reply same = Triple-ask _ _ λ h left now. left (sym (same (reply h) h) ∙ now)

  pub Steady-counted-raise :
      {E A : Type 0} (b : Bool) (metric : Metric) (e : E)
      → Steady b (count metric >> raise {A = A} e)
  Steady-counted-raise b metric e =
      Triple-bind _ _ (Triple-note {Q = Always (LeftOnlyIf b)} _ λ h left. left)
        λ _. Triple-raise _ λ h left. left

  pub create_service_account-LeftOnlyIf :
      (b : Bool) (namespace account run_id : String)
      → Steady b (create_service_account w k namespace account run_id)
  unfolding create_service_account create_account_named
  create_service_account-LeftOnlyIf b namespace account run_id =
      Triple-bind _ _ (Steady-ask b _ _ λ a h. refl) λ exists.
        Triple-unless _ _ (λ _ h left. left)
          λ _.
            Triple-on_error _ _ _ (Steady-call b _ _ λ a h. refl) (λ e. Steady-counted-raise b _ _)
              (λ _. Triple-note _ λ h left. left)

  -- A secret of a name of its own may be left after its creation.
  unless_found-LeftOnlyIf :
      (b : Bool) (secret : Secret) (there : Found)
      → Triple
          (LeftOnlyIf b)
          (unless_found w k secret there)
          (Always (LeftOnlyIf (b || str_eq secret.name name)))
          (Always (LeftOnlyIf b))
          Anything
  unfolding unless_found
  unless_found-LeftOnlyIf b secret (found s) = Triple-pure _ λ h left now. ground (arith, left now)
  unless_found-LeftOnlyIf b secret (get_failed e) = Triple-raise _ λ h left. left
  unless_found-LeftOnlyIf b secret not_found =
      Triple-on_error _ _ _
        (Triple-call {Q = Always (LeftOnlyIf (b || str_eq secret.name name))}
          {F = Always (LeftOnlyIf b)} _ _ (λ h a left _ now. ground (arith, left, now))
          (λ h e left. left))
        (λ e. Triple-raise _ λ h left. left) (λ _. Triple-pure _ λ h left. left)

  decoded_run_json-LeftOnlyIf : (b : Bool) (a : Answer String) → Steady b (decoded_run_json w k a)
  unfolding decoded_run_json
  decoded_run_json-LeftOnlyIf b (answer text) = Triple-pure _ λ h left. left
  decoded_run_json-LeftOnlyIf b (refusal e) = Triple-raise _ λ h left. left

  pub create_run_json_secret-LeftOnlyIf :
      (b : Bool) (namespace secret_name run_json run_id : String)
      → Triple
          (LeftOnlyIf b)
          (create_run_json_secret w k namespace secret_name run_json run_id)
          (Always (LeftOnlyIf (b || str_eq secret_name name)))
          (Always (LeftOnlyIf b))
          Anything
  unfolding create_run_json_secret
  create_run_json_secret-LeftOnlyIf b namespace secret_name run_json run_id =
      Triple-bind _ _ (decoded_run_json-LeftOnlyIf b _) λ text.
        Triple-bind _ _ (Steady-ask b _ _ λ a h. refl) λ there. unless_found-LeftOnlyIf b _ there

  -- The token's secret, where there is one.
  abbrev pub token_is_named : String → Bool
  token_is_named token_secret_name =
      not (is_empty token_secret_name) && str_eq token_secret_name name

  abbrev pub AfterToken : Bool → String → History → Type 0
  AfterToken b token_secret_name = LeftOnlyIf (b || token_is_named token_secret_name)

  create_token_secret-AfterToken :
      NamesSecrets w
      → (b : Bool) (namespace run_id token : String)
      → Triple
          (LeftOnlyIf b)
          (create_token_secret w k namespace run_id token)
          (AfterToken b)
          (Always (LeftOnlyIf b))
          Anything
  unfolding create_token_secret
  create_token_secret-AfterToken named b namespace run_id token =
      Triple-on_error _ _ _
        (Triple-call {Q = AfterToken b} {F = Always (LeftOnlyIf b)} _ _
          (λ h a left e now. ground (arith, left, now, named h _ a e)) (λ h e left. left))
        (λ e. Triple-raise _ λ h left. left) (λ created. Triple-pure _ λ h left. left)

  warn_without_token-AfterToken :
      {E : Type 0} (b : Bool) (info : RunInfo) {F : E → History → Type 0}
      → Triple (LeftOnlyIf b) (warn_without_token w k {E = E} info) (AfterToken b) F Anything
  unfolding warn_without_token
  warn_without_token-AfterToken b info =
      Triple-on_error _ _ _ (Steady-call b _ _ λ a h. refl)
        (λ _. Triple-pure "" λ h left now. ground (arith, left now))
        (λ _. Triple-pure "" λ h left now. ground (arith, left now))

  mint_or_warn-AfterToken :
      {E : Type 0} {F : E → History → Type 0}
      → NamesSecrets w
      → (b : Bool) (namespace : String) (info : RunInfo)
      → Triple (LeftOnlyIf b) (mint_or_warn w k {E = E} namespace info) (AfterToken b) F Anything
  unfolding mint_or_warn mint_token_secret
  mint_or_warn-AfterToken named b namespace info =
      Triple-on_error _ _ _
        (Triple-bind _ _ (Steady-call b _ _ λ a h. refl)
          λ token. create_token_secret-AfterToken named b namespace info.uuid token)
        (λ e.
          Triple-bind _ _ (Triple-note {Q = Always (LeftOnlyIf b)} _ λ h left. left)
            λ _. warn_without_token-AfterToken b info)
        (λ created.
          Triple-bind _ _ (Triple-note {Q = Always (AfterToken b created)} _ λ h left. left)
            λ _. Triple-pure created λ h left. left)

  pub create_wif_token_secret-AfterToken :
      {E : Type 0} {F : E → History → Type 0}
      → NamesSecrets w
      → (b : Bool) (namespace : String) (info : RunInfo) (impl_type : String)
      → Triple
          (LeftOnlyIf b)
          (create_wif_token_secret w k {E = E} namespace info impl_type)
          (AfterToken b)
          F
          Anything
  unfolding create_wif_token_secret
  create_wif_token_secret-AfterToken named b namespace info impl_type =
      Triple-if (not k.wif_tokens || not (str_eq impl_type "TERRAFORM")) (pure "")
        (mint_or_warn w k namespace info)
        (λ _. Triple-pure "" λ h left now. ground (arith, left now))
        (λ _. mint_or_warn-AfterToken named b namespace info)

  pub remove-LeftOnlyIf :
      {E : Type 0} (b c : Bool) (namespace deleted : String) {F : E → History → Type 0}
      → (b ≡ true → str_eq deleted name ≡ false → c ≡ true)
      → Triple
          (LeftOnlyIf b)
          (remove w k {E = E} namespace deleted)
          (Always (LeftOnlyIf c))
          F
          Anything
  unfolding remove
  remove-LeftOnlyIf b c namespace deleted imply =
      Triple-on_error _ _ _
        (Triple-call {Q = Always (LeftOnlyIf c)} {F = Always (LeftOnlyIf c)} _ _
          (λ h a left _ now. ground (arith, left, now, imply))
          (λ h e left now. ground (arith, left, now, imply)))
        (λ _. Triple-pure _ λ h left. left) (λ _. Triple-pure _ λ h left. left)
