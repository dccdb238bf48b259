-- ===== src/Keycloak/Claims.antt =====
-- run-controller/keycloakwif/claims.go: checkClaims, which looks at a token before a run gets it. A
-- duration is a 64-bit word in two's complement, in nanoseconds.
pub mod Laws
use building_block_runner.Prelude.{
  ℕ, ◌+◌, ◌-◌, ◌*◌, ◌%◌, ◌^◌, String, Bool, true, false, Option, none, some, List, [], ◌∷◌, ◌⊎◌,
  inl, inr, ◌&&◌, ◌||◌, not, ltb, if◌then◌else◌, str_eq, has_prefix, lookup,
}
use Prim.Native.Char.{Char}
use building_block_runner.Meshapi.Auth.{second}
use building_block_runner.Controller.Subject.{keycloak_audience}

-- A value of the decoded payload. An element of an array is a text or, as `none`, something else; `F` is
-- the type of the numbers, float64.
pub data Claim (F : Type 0) : Type 0 where
  text : String → Claim F
  number : F → Claim F
  array : List (Option String) → Claim F
  no_scalar : Claim F

pub data ClaimError : Type 0 where
  not_a_jwt : ClaimError
  not_base64url : ClaimError
  not_a_json_object : ClaimError
  unexpected_claim : String → ClaimError
  wrong_iss : ClaimError
  wrong_sub : ClaimError
  wrong_azp : ClaimError
  wrong_aud : ClaimError
  no_exp : ClaimError
  no_iat : ClaimError
  wrong_lifetime : ℕ → ClaimError

-- base64.RawURLEncoding.DecodeString; json.Unmarshal into a map, with its entries in the order of one
-- iteration; and `time.Duration(exp-iat)`.
pub record TokenCodec (F : Type 0) : Type 0 where
  pub decode_string : String → Option String
  pub unmarshal : String → Option (List (String × Claim F))
  pub whole_difference : F → F → ℕ

abbrev allowed_claims : List String
allowed_claims =
    "iss" ∷ "sub" ∷ "aud" ∷ "azp" ∷ "exp" ∷ "iat" ∷ "nbf" ∷ "jti" ∷ "typ" ∷ "scope" ∷ []

abbrev pub lifetime_tolerance : ℕ
lifetime_tolerance = 120_000_000_000

-- `strings.Split(token, ".")`
add_to_first : Char → List String → List String
add_to_first c [] = String.◌∷◌ c "" ∷ []
add_to_first c (part ∷ parts) = String.◌∷◌ c part ∷ parts

unfoldable pub split_dots : String → List String
unfolding add_to_first
split_dots String.[] = "" ∷ []
split_dots (String.◌∷◌ c s) =
    if has_prefix (String.◌∷◌ c s) "." then "" ∷ split_dots s else add_to_first c (split_dots s)

unfoldable pub is_member : String → List String → Bool
is_member x [] = false
is_member x (y ∷ ys) = str_eq y x || is_member x ys

-- The loop over the claims: the error for the first one that is not allowed.
unfoldable pub first_unexpected : {F : Type 0} → List (String × Claim F) → Option ClaimError
unfolding is_member
first_unexpected [] = none
first_unexpected (entry ∷ claims) =
    if is_member entry.0 allowed_claims
    then first_unexpected claims
    else some (unexpected_claim entry.0)

-- `claims[…] == s`, where a missing claim is nil.
unfoldable pub is_text : {F : Type 0} → String → Option (Claim F) → Bool
is_text s (some (text t)) = str_eq t s
is_text s (some (number n)) = false
is_text s (some (array elements)) = false
is_text s (some no_scalar) = false
is_text s none = false

-- isOnlyAudience
unfoldable pub is_only_audience : {F : Type 0} → Option (Claim F) → Bool
is_only_audience (some (text t)) = str_eq t keycloak_audience
is_only_audience (some (array (some t ∷ []))) = str_eq t keycloak_audience
is_only_audience (some (array (none ∷ []))) = false
is_only_audience (some (array [])) = false
is_only_audience (some (array (t ∷ u ∷ elements))) = false
is_only_audience (some (number n)) = false
is_only_audience (some no_scalar) = false
is_only_audience none = false

-- `a < b` of durations
unfoldable pub duration_lt : ℕ → ℕ → Bool
duration_lt a b = ltb ((a + 2 ^ 63) % 2 ^ 64) ((b + 2 ^ 63) % 2 ^ 64)

unfoldable pub check_lifetime : ℕ → ℕ → Option ClaimError
unfolding duration_lt
check_lifetime lifetime issued =
    if duration_lt issued ((lifetime + (2 ^ 64 - lifetime_tolerance)) % 2 ^ 64)
      || duration_lt ((lifetime + lifetime_tolerance) % 2 ^ 64) issued
    then some (wrong_lifetime issued)
    else none

unfoldable pub check_times :
    {F : Type 0} → TokenCodec F → ℕ → Option (Claim F) → Option (Claim F) → Option ClaimError
unfolding check_lifetime
check_times codec lifetime (some (number exp)) (some (number iat)) =
    check_lifetime lifetime ((codec.whole_difference exp iat * second) % 2 ^ 64)
check_times codec lifetime (some (number exp)) iat = some no_iat
check_times codec lifetime exp iat = some no_exp

infixr 20 ◌else_check◌
-- A return where there is an error
unfoldable pub ◌else_check◌ : Option ClaimError → Option ClaimError → Option ClaimError
some e else_check rest = some e
none else_check rest = rest

-- checkClaims, after the payload is decoded.
unfoldable pub check_payload :
    {F : Type 0} → TokenCodec F → String → String → ℕ → List (String × Claim F) → Option ClaimError
unfolding first_unexpected is_text is_only_audience check_times ◌else_check◌
check_payload codec issuer subject lifetime claims =
    first_unexpected claims
    else_check (if not (is_text issuer (lookup "iss" claims))
        then some wrong_iss
        else if not (is_text subject (lookup "sub" claims))
        then some wrong_sub
        else if not (is_text keycloak_audience (lookup "azp" claims))
        then some wrong_azp
        else if not (is_only_audience (lookup "aud" claims))
        then some wrong_aud
        else check_times codec lifetime (lookup "exp" claims) (lookup "iat" claims))

unfoldable pub decoded_payload :
    {F : Type 0} → TokenCodec F → List String → ClaimError ⊎ List (String × Claim F)
decoded_payload codec (header ∷ payload ∷ signature ∷ []) = elim (codec.decode_string payload) [
  | none ↦ inl not_base64url
  | some decoded ↦ (elim (codec.unmarshal decoded) [
    | none ↦ inl not_a_json_object
    | some claims ↦ inr claims
  ])
]
decoded_payload codec (header ∷ payload ∷ signature ∷ part ∷ parts) = inl not_a_jwt
decoded_payload codec (header ∷ payload ∷ []) = inl not_a_jwt
decoded_payload codec (header ∷ []) = inl not_a_jwt
decoded_payload codec [] = inl not_a_jwt

unfoldable pub check_decoded :
    {F : Type 0}
    → TokenCodec F
    → String
    → String
    → ℕ
    → ClaimError ⊎ List (String × Claim F)
    → Option ClaimError
unfolding check_payload
check_decoded codec issuer subject lifetime (inl e) = some e
check_decoded codec issuer subject lifetime (inr claims) =
    check_payload codec issuer subject lifetime claims

-- checkClaims; `none` where it returns no error.
unfoldable pub check_claims :
    {F : Type 0} → TokenCodec F → String → String → String → ℕ → Option ClaimError
unfolding check_decoded decoded_payload split_dots
check_claims codec token issuer subject lifetime =
    check_decoded codec issuer subject lifetime (decoded_payload codec (split_dots token))
