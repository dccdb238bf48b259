-- ===== src/Controller/Subject/Laws.antt =====
-- The subjects that are registered with meshStack and those that the runs' pods get.
use Prim.Native.String.append
use Prim.Native.Char.{Char, code}
use text.Mathlib.TextEquality.{starts_with_iff}
use building_block_runner.Prelude.{
  Bool-cases, inl, inr, ℕ, zero, String, Bool, true, false, some, ◌<>◌, ◌≡◌, refl, sym, ap, ◌∙◌,
  arith, ◌==◌, ◌&&◌, has_prefix, not,
}
use building_block_runner.Controller.Subject.{
  RunInfo, WifDto, replace_from, render_subject_template, service_account_name_template,
  kubernetes_wif,
}

-- A text in front of another, in a form that computes at a literal.
prepend : String → String → String
prepend String.[] t = t
prepend (String.◌∷◌ c s) t = String.◌∷◌ c (prepend s t)

prepend-append : (s t : String) → s <> t ≡ prepend s t
unfolding prepend
prepend-append String.[] t = append.nil t
prepend-append (String.◌∷◌ c s) t = append.cons c s t ∙ ap (String.◌∷◌ c) (prepend-append s t)

-- The service account of a run's pod.
rendered_service_account :
    (i : RunInfo)
    → render_subject_template service_account_name_template i
      ≡ "workspace." <> i.building_block_definition_workspace <> ".buildingblockdefinition."
        <> i.building_block_definition_uuid <> ""
unfolding render_subject_template replace_from prepend
rendered_service_account i =
    let definition = i.building_block_definition_uuid <> "" in
    let workspace = i.building_block_definition_workspace in
    sym (
      prepend-append "workspace." (workspace <> ".buildingblockdefinition." <> definition)
      ∙ ap (λ t. prepend "workspace." (workspace <> t))
          (prepend-append ".buildingblockdefinition." definition))

-- No opening brace, with which each mark starts.
abbrev pub is_plain : String → Bool
is_plain String.[] = true
is_plain (String.◌∷◌ c s) = not (code c == b'{') && is_plain s

first_code : String → ℕ
first_code String.[] = 0
first_code (String.◌∷◌ c s) = code c

no_mark_lem :
    (c : Char) (s rest : String)
    → (code c == b'{') ≡ false
    → has_prefix (String.◌∷◌ c s) (String.◌∷◌ "{" rest) ≡ false
unfolding first_code
no_mark_lem c s rest h = elim (Bool-cases (has_prefix (String.◌∷◌ c s) (String.◌∷◌ "{" rest))) [
  | inr absent ↦ absent
  | inl there ↦
      let split = (starts_with_iff (String.◌∷◌ c s) (String.◌∷◌ "{" rest)).0 there in
      let same : b'{' ≡ code c = ap first_code (sym (append.cons "{" rest split.0) ∙ split.1) in
      ground (arith, h, same)
]

plain_parts :
    (c : Char) (s : String)
    → is_plain (String.◌∷◌ c s) ≡ true
    → ((code c == b'{') ≡ false) × (is_plain s ≡ true)
plain_parts c s h = ground arith

replace_from-cons :
    (i : RunInfo) (c : Char) (s : String)
    → (code c == b'{') ≡ false
    → replace_from i zero (String.◌∷◌ c s) ≡ String.◌∷◌ c (replace_from i zero s)
unfolding replace_from
replace_from-cons i c s no_brace =
    rw
      (
        no_mark_lem c s "{ workspaceIdentifier }}" no_brace,
        no_mark_lem c s "{ buildingBlockDefinitionUuid }}" no_brace,
      )
      refl

-- A text without a mark is passed over.
pub replace_from-append :
    (i : RunInfo) (front back : String)
    → is_plain front ≡ true
    → replace_from i zero (front <> back) ≡ front <> replace_from i zero back
unfolding replace_from
replace_from-append i String.[] back h =
    ap (replace_from i zero) (append.nil back) ∙ sym (append.nil _)
replace_from-append i (String.◌∷◌ c s) back h =
    let (no_brace, plain) = plain_parts c s h in
    ap (replace_from i zero) (append.cons c s back)
    ∙ replace_from-cons i c (s <> back) no_brace
    ∙ ap (String.◌∷◌ c) (replace_from-append i s back plain)
    ∙ sym (append.cons c s (replace_from i zero back))

registered_subject :
    (namespace oidc_issuer : String) (wif : WifDto)
    → kubernetes_wif namespace oidc_issuer ≡ some wif
    → wif.subject_template
      ≡ "system:serviceaccount:" <> namespace <> ":" <> service_account_name_template
unfolding kubernetes_wif
registered_subject namespace oidc_issuer wif registered = ground arith

-- The registered template names the account that is rendered from the template of account names.
pub kubernetes_wif-render_subject_template :
    (namespace oidc_issuer : String) (wif : WifDto) (i : RunInfo)
    → kubernetes_wif namespace oidc_issuer ≡ some wif
    → is_plain namespace ≡ true
    → render_subject_template wif.subject_template i
      ≡ "system:serviceaccount:"
        <> namespace
        <> ":"
        <> render_subject_template service_account_name_template i
unfolding kubernetes_wif render_subject_template
kubernetes_wif-render_subject_template namespace oidc_issuer wif i registered plain =
    ap (replace_from i zero) (registered_subject namespace oidc_issuer wif registered)
    ∙ replace_from-append i "system:serviceaccount:" _ refl
    ∙ ap (λ t. "system:serviceaccount:" <> t)
        (replace_from-append i namespace _ plain
          ∙ ap (λ t. namespace <> t) (replace_from-append i ":" service_account_name_template refl))
