-- ===== src/Keycloak/Tests.antt =====
-- Tokens that are checked.
use building_block_runner.Prelude.{
  is_empty, Bool, true, not, subst, ℕ, ◌-◌, String, none, some, List, [], ◌∷◌, ◌≡◌, refl, inr,
  arith, str_eq, if◌then◌else◌, lookup,
}
use building_block_runner.Controller.Subject.{keycloak_audience}
use building_block_runner.Keycloak.Claims.{
  Claim, text, number, array, unexpected_claim, not_a_jwt, TokenCodec, split_dots, decoded_payload,
  check_claims,
}
use building_block_runner.Keycloak.Issuer.{
  replied, lost, KeycloakReply, token_request, create_client_request, named, last_segment_from,
  list_scopes, delete_scope, delete_client, Keycloak, IssuerConfig, AdminToken, issue,
}
use building_block_runner.Keycloak.Issuer.Leftovers.{NamesClients, clients_left, issue-clients_left}
use building_block_runner.Keycloak.Issuer.Checked.{issue-check_claims}
use building_block_runner.Keycloak.Claims.Laws.{IsIssued, check_claims-IsIssued}

abbrev claims : List (String × Claim ℕ)
claims =
    ("iss", text "issuer")
    ∷ ("sub", text "subject")
    ∷ ("azp", text keycloak_audience)
    ∷ ("aud", array (some keycloak_audience ∷ []))
    ∷ ("exp", number 4000)
    ∷ ("iat", number 400)
    ∷ []

-- Payloads: "c" holds the claims, "e" also an unexpected one.
abbrev codec : TokenCodec ℕ
codec = record {
  decode_string = λ s. some s;
  unmarshal = λ s.
      if str_eq s "c"
      then some claims
      else if str_eq s "e"
      then some (("ip", text "10.0.0.1") ∷ claims)
      else none;
  whole_difference = λ exp iat. exp - iat;
}

abbrev hour : ℕ
hour = 3_600_000_000_000

check_claims-IsIssued_example :
    (cs : List (String × Claim ℕ)) × (decoded_payload codec (split_dots "h.c.s") ≡ inr cs)
    × IsIssued codec "issuer" "subject" hour cs
unfolding check_claims lookup
check_claims-IsIssued_example =
    check_claims-IsIssued codec "h.c.s" "issuer" "subject" hour (omega arith) (omega arith) refl

check_claims_unexpected :
    check_claims codec "h.e.s" "issuer" "subject" hour ≡ some (unexpected_claim "ip")
unfolding check_claims
check_claims_unexpected = refl

check_claims_parts : check_claims codec "h.c" "issuer" "subject" hour ≡ some not_a_jwt
unfolding check_claims
check_claims_parts = refl

-- Keycloak gives each client a scope; the token of the administrator expires after an hour.
abbrev keycloak : Keycloak
keycloak = record {
  token_of =
      λ s name. replied 200 "" (inr (if str_eq name "admin" then ("a", 3600) else ("h.c.s", 3600)));
  new_client = λ s name subject. replied 201 "" "https://keycloak/clients/17";
  scopes_of = λ s id kind. replied 200 "" (inr ("email" ∷ []));
  without_scope = λ s id kind scope. replied 204 "" tt;
  now = λ s. 5;
  random_string = λ s bytes. inr "r";
}

abbrev config : IssuerConfig
config = record { issuer = "issuer"; client_id = "admin"; token_lifetime = hour }

abbrev no_admin_token : AdminToken
no_admin_token = record { admin_token = ""; admin_token_expiry = 0 }

is_named : KeycloakReply String → Bool
is_named (lost e) = true
is_named (replied status detail location) = not (is_empty (last_segment_from location location))

keycloak-NamesClients : NamesClients keycloak
unfolding is_named last_segment_from
keycloak-NamesClients s client_id subject detail location is =
    ground (arith, subst (λ r. is_named r ≡ true) is refl)

issue-clients_left_example :
    clients_left (issue codec keycloak config "run" "subject" no_admin_token []).1 ≡ clients_left []
issue-clients_left_example =
    issue-clients_left codec keycloak config "run" "subject" no_admin_token [] keycloak-NamesClients

issue-check_claims_example : check_claims codec "h.c.s" "issuer" "subject" hour ≡ none
unfolding issue check_claims lookup
issue-check_claims_example =
    issue-check_claims codec keycloak config "run" "subject" no_admin_token [] "h.c.s" refl

issue_requests :
    (issue codec keycloak config "run" "subject" no_admin_token []).1
    ≡ delete_client "17"
      ∷ token_request "bb-run-run-r"
      ∷ delete_scope "17" "optional-client-scopes" "email"
      ∷ list_scopes "17" "optional-client-scopes"
      ∷ delete_scope "17" "default-client-scopes" "email"
      ∷ list_scopes "17" "default-client-scopes"
      ∷ create_client_request "bb-run-run-r" (named "17")
      ∷ token_request "admin"
      ∷ []
unfolding issue check_claims lookup
issue_requests = refl
