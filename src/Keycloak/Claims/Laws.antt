-- ===== src/Keycloak/Claims/Laws.antt =====
-- What a token that passes the check holds.
use building_block_runner.Prelude.{
  ℕ, ◌+◌, ◌-◌, ◌*◌, ◌%◌, ◌^◌, ◌≤◌, ◌<◌, String, Bool, true, false, Option, none, some, List, [],
  ◌∷◌, ◌⊎◌, inl, inr, ◌≡◌, refl, ap, ◌∙◌, not, ◌||◌, if◌then◌else◌, str_eq, str_eq_iff, lookup, All,
  arith,
}
use building_block_runner.Meshapi.Auth.{second}
use building_block_runner.Controller.Subject.{keycloak_audience}
use building_block_runner.Keycloak.Claims.{
  Claim, text, number, array, no_scalar, ClaimError, TokenCodec, allowed_claims, lifetime_tolerance,
  split_dots, is_member, first_unexpected, is_text, is_only_audience, duration_lt, check_lifetime,
  check_times, ◌else_check◌, check_payload, decoded_payload, check_decoded, check_claims,
}

-- The only audience is Keycloak's, as a text or as an array.
abbrev pub IsOnlyAudience : {F : Type 0} → Option (Claim F) → Type 0
IsOnlyAudience aud =
    (aud ≡ some (text keycloak_audience)) ⊎ (aud ≡ some (array (some keycloak_audience ∷ [])))

-- The two times are there, and their distance is the lifetime, up to the tolerance.
abbrev pub HasLifetime :
    {F : Type 0} → TokenCodec F → ℕ → Option (Claim F) → Option (Claim F) → Type 0
HasLifetime {F} codec lifetime exp iat =
    (e : F) × (i : F) × (exp ≡ some (number e))
    × (iat ≡ some (number i))
    × (lifetime ≤ (codec.whole_difference e i * second) % 2 ^ 64 + lifetime_tolerance)
    × ((codec.whole_difference e i * second) % 2 ^ 64 ≤ lifetime + lifetime_tolerance)

pub record IsIssued {F : Type 0} (codec : TokenCodec F) (issuer subject : String) (lifetime : ℕ)
    (claims : List (String × Claim F)) : Type 0 where
  pub allowed : All (λ (entry : String × Claim F). is_member entry.0 allowed_claims ≡ true) claims
  pub iss : lookup "iss" claims ≡ some (text issuer)
  pub sub : lookup "sub" claims ≡ some (text subject)
  pub azp : lookup "azp" claims ≡ some (text keycloak_audience)
  pub aud : IsOnlyAudience (lookup "aud" claims)
  pub times : HasLifetime codec lifetime (lookup "exp" claims) (lookup "iat" claims)

passed : (a b : Option ClaimError) → (a else_check b) ≡ none → (a ≡ none) × (b ≡ none)
unfolding ◌else_check◌
passed none b e = (refl, e)
passed (some t) b e = ground arith

accepted :
    (b : Bool) (e : ClaimError) (rest : Option ClaimError)
    → (if not b then some e else rest) ≡ none
    → (b ≡ true) × (rest ≡ none)
accepted true e rest h = (refl, h)
accepted false e rest h = ground arith

kept :
    (b : Bool) (e : ClaimError) (rest : Option ClaimError)
    → (if b then rest else some e) ≡ none
    → (b ≡ true) × (rest ≡ none)
kept true e rest h = (refl, h)
kept false e rest h = ground arith

first_unexpected-allowed :
    {F : Type 0}
    → (claims : List (String × Claim F)) → first_unexpected claims ≡ none
    → All (λ (entry : String × Claim F). is_member entry.0 allowed_claims ≡ true) claims
unfolding first_unexpected
first_unexpected-allowed [] h = tt
first_unexpected-allowed (entry ∷ claims) h =
    let (front, rest) = kept _ _ (first_unexpected claims) h in
    (front, first_unexpected-allowed claims rest)

same_text :
    {F : Type 0}
    → (t s : String) (claim : Option (Claim F)) → str_eq t s ≡ true
    → claim ≡ some (text t)
    → claim ≡ some (text s)
same_text t s claim same is = is ∙ ap (λ x. some (text x)) ((str_eq_iff t s).0 same)

is_text_lem :
    {F : Type 0}
    → (s : String) (claim : Option (Claim F)) → is_text s claim ≡ true
    → claim ≡ some (text s)
unfolding is_text
is_text_lem s (some (text t)) h = same_text t s _ h refl
is_text_lem s (some (number n)) h = ground arith
is_text_lem s (some (array elements)) h = ground arith
is_text_lem s (some no_scalar) h = ground arith
is_text_lem s none h = ground arith

is_only_audience_lem :
    {F : Type 0} → (claim : Option (Claim F)) → is_only_audience claim ≡ true → IsOnlyAudience claim
unfolding is_only_audience
is_only_audience_lem (some (text t)) h = inl (same_text t keycloak_audience _ h refl)
is_only_audience_lem (some (array (some t ∷ []))) h =
    inr (ap (λ x. some (array (some x ∷ []))) ((str_eq_iff t keycloak_audience).0 h))
is_only_audience_lem (some (array (none ∷ []))) h = ground arith
is_only_audience_lem (some (array [])) h = ground arith
is_only_audience_lem (some (array (t ∷ u ∷ elements))) h = ground arith
is_only_audience_lem (some (number n)) h = ground arith
is_only_audience_lem (some no_scalar) h = ground arith
is_only_audience_lem none h = ground arith

neither :
    (a b : Bool) (e : ClaimError)
    → (if a || b then Option.some e else none) ≡ none
    → (a ≡ false) × (b ≡ false)
neither true b e h = ground arith
neither false true e h = ground arith
neither false false e h = (refl, refl)

duration_lt_lem :
    (a b : ℕ) → duration_lt a b ≡ false → (b + 2 ^ 63) % 2 ^ 64 ≤ (a + 2 ^ 63) % 2 ^ 64
unfolding duration_lt
duration_lt_lem a b h = ground arith

-- A natural number below 2^63 is the greater one: the other is negative, or smaller.
nonnegative_lem :
    (issued least : ℕ)
    → issued < 2 ^ 64
    → least < 2 ^ 63
    → (least + 2 ^ 63) % 2 ^ 64 ≤ (issued + 2 ^ 63) % 2 ^ 64
    → (least ≤ issued) × (issued < 2 ^ 63)
nonnegative_lem issued least word small h = (omega arith, omega arith)

lowered_lem :
    (lifetime : ℕ)
    → lifetime_tolerance ≤ lifetime
    → lifetime < 2 ^ 62
    → (lifetime + (2 ^ 64 - lifetime_tolerance)) % 2 ^ 64 + lifetime_tolerance ≡ lifetime
lowered_lem lifetime above below = omega arith

raised_lem :
    (issued lifetime : ℕ)
    → issued < 2 ^ 63
    → lifetime < 2 ^ 62
    → (issued + 2 ^ 63) % 2 ^ 64 ≤ ((lifetime + lifetime_tolerance) % 2 ^ 64 + 2 ^ 63) % 2 ^ 64
    → issued ≤ lifetime + lifetime_tolerance
raised_lem issued lifetime small below h = omega arith

check_lifetime-bounds :
    (lifetime issued : ℕ)
    → lifetime_tolerance ≤ lifetime
    → lifetime < 2 ^ 62
    → issued < 2 ^ 64
    → check_lifetime lifetime issued ≡ none
    → (lifetime ≤ issued + lifetime_tolerance) × (issued ≤ lifetime + lifetime_tolerance)
unfolding check_lifetime duration_lt
check_lifetime-bounds lifetime issued above below word h =
    let low = (lifetime + (2 ^ 64 - lifetime_tolerance)) % 2 ^ 64 in
    let high = (lifetime + lifetime_tolerance) % 2 ^ 64 in
    let (not_less, not_more) = neither (duration_lt issued low) (duration_lt high issued) _ h in
    let lowered = lowered_lem lifetime above below in
    let (least, small) =
      nonnegative_lem issued low word (omega (arith, lowered))
        (duration_lt_lem issued low not_less) in
    (
      omega (arith, lowered, least),
      raised_lem issued lifetime small below (duration_lt_lem high issued not_more),
    )

check_times-HasLifetime :
    {F : Type 0}
    → (codec : TokenCodec F) (lifetime : ℕ) (exp iat : Option (Claim F))
    → lifetime_tolerance ≤ lifetime
    → lifetime < 2 ^ 62
    → check_times codec lifetime exp iat ≡ none
    → HasLifetime codec lifetime exp iat
unfolding check_times
check_times-HasLifetime codec lifetime (some (number e)) (some (number i)) above below h =
    let bounds =
      check_lifetime-bounds lifetime ((codec.whole_difference e i * second) % 2 ^ 64) above below
        (omega arith) h in
    (e, i, refl, refl, bounds.0, bounds.1)
check_times-HasLifetime codec lifetime (some (number e)) (some (text t)) above below h =
    ground arith
check_times-HasLifetime codec lifetime (some (number e)) (some (array elements)) above below h =
    ground arith
check_times-HasLifetime codec lifetime (some (number e)) (some no_scalar) above below h =
    ground arith
check_times-HasLifetime codec lifetime (some (number e)) none above below h = ground arith
check_times-HasLifetime codec lifetime (some (text t)) iat above below h = ground arith
check_times-HasLifetime codec lifetime (some (array elements)) iat above below h = ground arith
check_times-HasLifetime codec lifetime (some no_scalar) iat above below h = ground arith
check_times-HasLifetime codec lifetime none iat above below h = ground arith

check_payload-IsIssued :
    {F : Type 0}
    → (codec : TokenCodec F) (issuer subject : String) (lifetime : ℕ)
      (claims : List (String × Claim F))
    → lifetime_tolerance ≤ lifetime
    → lifetime < 2 ^ 62
    → check_payload codec issuer subject lifetime claims ≡ none
    → IsIssued codec issuer subject lifetime claims
unfolding check_payload
check_payload-IsIssued codec issuer subject lifetime claims above below h =
    let (front, h1) = passed (first_unexpected claims) _ h in
    let (iss, h2) = accepted (is_text issuer (lookup "iss" claims)) _ _ h1 in
    let (sub, h3) = accepted (is_text subject (lookup "sub" claims)) _ _ h2 in
    let (azp, h4) = accepted (is_text keycloak_audience (lookup "azp" claims)) _ _ h3 in
    let (aud, h5) = accepted (is_only_audience (lookup "aud" claims)) _ _ h4 in
    record {
      allowed = first_unexpected-allowed claims front;
      iss = is_text_lem issuer _ iss;
      sub = is_text_lem subject _ sub;
      azp = is_text_lem keycloak_audience _ azp;
      aud = is_only_audience_lem _ aud;
      times = check_times-HasLifetime codec lifetime _ _ above below h5;
    }

check_decoded-IsIssued :
    {F : Type 0}
    → (codec : TokenCodec F) (issuer subject : String) (lifetime : ℕ)
      (decoded : ClaimError ⊎ List (String × Claim F))
    → lifetime_tolerance ≤ lifetime
    → lifetime < 2 ^ 62
    → check_decoded codec issuer subject lifetime decoded ≡ none
    → (claims : List (String × Claim F)) × (decoded ≡ inr claims)
      × IsIssued codec issuer subject lifetime claims
unfolding check_decoded
check_decoded-IsIssued codec issuer subject lifetime (inl e) above below h = ground arith
check_decoded-IsIssued codec issuer subject lifetime (inr claims) above below h =
    (claims, refl, check_payload-IsIssued codec issuer subject lifetime claims above below h)

-- A token passes the check, for a lifetime of at least the tolerance and below 2^62 nanoseconds, only if
-- its payload decodes to claims that are all allowed, with the wanted issuer and subject, Keycloak's
-- audience as the authorised party and as the only audience, and times whose distance, as a 64-bit
-- duration, is the lifetime up to the tolerance.
pub check_claims-IsIssued :
    {F : Type 0}
    → (codec : TokenCodec F) (token issuer subject : String) (lifetime : ℕ)
    → lifetime_tolerance ≤ lifetime
    → lifetime < 2 ^ 62
    → check_claims codec token issuer subject lifetime ≡ none
    → (claims : List (String × Claim F)) × (decoded_payload codec (split_dots token) ≡ inr claims)
      × IsIssued codec issuer subject lifetime claims
unfolding check_claims
check_claims-IsIssued codec token issuer subject lifetime above below h =
    check_decoded-IsIssued codec issuer subject lifetime (decoded_payload codec (split_dots token))
      above below h
