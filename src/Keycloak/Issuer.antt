-- ===== src/Keycloak/Issuer.antt =====
-- run-controller/keycloakwif/issuer.go: Issuer, which creates a client in Keycloak for each token, asks
-- for the token and deletes the client. Times are nanoseconds.
pub mod Leftovers
pub mod Checked
use building_block_runner.Prelude.{
  ℕ, ◌+◌, ◌-◌, ◌*◌, ◌%◌, ◌^◌, String, Bool, Option, none, some, List, [], ◌∷◌, ◌⊎◌, inl, inr, ◌<>◌,
  ◌&&◌, ◌==◌, not, leb, ltb, is_empty, has_prefix, if◌then◌else◌,
}
use building_block_runner.Meshapi.Auth.{second}
use building_block_runner.Meshapi.Client.{is_success}
use building_block_runner.Keycloak.Claims.{Claim, ClaimError, TokenCodec, check_claims}

pub data IssueError : Type 0 where
  call_failed : String → IssueError
  keycloak_error : String → ℕ → String → IssueError
  not_decoded : String → IssueError
  no_access_token : IssueError
  no_location : String → IssueError
  no_random : String → IssueError
  admin_login : IssueError → IssueError
  token_for : String → IssueError → IssueError
  bad_claims : ClaimError → IssueError

-- The answer to a request: none came; or a status, the text of the error fields of the body, and what
-- the code reads of it: the Location header of a created client, or what the body decodes to.
pub data KeycloakReply (A : Type 0) : Type 0 where
  lost : String → KeycloakReply A
  replied : ℕ → String → A → KeycloakReply A

-- What Keycloak's answer tells of a client: it was not created; or it was, with status 201, and the answer
-- names it or not.
pub data Creation : Type 0 where
  not_created : Creation
  unnamed : Creation
  named : String → Creation

-- A request, newest first in a list.
pub data Request : Type 0 where
  token_request : String → Request
  create_client_request : String → Creation → Request
  list_scopes : String → String → Request
  delete_scope : String → String → String → Request
  delete_client : String → Request

abbrev pub Calls : Type 0 → Type 0
Calls A = List Request → (IssueError ⊎ A) × List Request

-- Keycloak, the clock and the random numbers: what comes next may depend on all requests before.
pub record Keycloak : Type 0 where
  pub token_of : List Request → String → KeycloakReply (String ⊎ (String × ℕ))
  pub new_client : List Request → String → String → KeycloakReply String
  pub scopes_of : List Request → String → String → KeycloakReply (String ⊎ List String)
  pub without_scope : List Request → String → String → String → KeycloakReply (Unit {0})
  pub now : List Request → ℕ
  pub random_string : List Request → ℕ → String ⊎ String

pub record IssuerConfig : Type 0 where
  pub issuer : String
  pub client_id : String
  pub token_lifetime : ℕ

-- The part of Issuer that changes.
pub record AdminToken : Type 0 where
  pub admin_token : String
  pub admin_token_expiry : ℕ

abbrev chain : {A B : Type 0} → IssueError ⊎ A → (A → Calls B) → Calls B
chain (inl e) f s = (inl e, s)
chain (inr a) f s = f a s

infixl 5 ◌and_then◌
-- A call, and what follows unless it fails.
unfoldable pub ◌and_then◌ : {A B : Type 0} → Calls A → (A → Calls B) → Calls B
(m and_then f) s = chain (m s).0 f (m s).1

unfoldable pub give : {A : Type 0} → IssueError ⊎ A → Calls A
give r s = (r, s)

-- One request, with what is made of its answer.
unfoldable pub send_request : {A : Type 0} → (List Request → IssueError ⊎ A) → Request → Calls A
send_request reply request s = (reply s, request ∷ s)

abbrev mapped_error : {A : Type 0} → (IssueError → IssueError) → IssueError ⊎ A → IssueError ⊎ A
mapped_error f (inl e) = inl (f e)
mapped_error f (inr a) = inr a

unfoldable pub wrapped : {A : Type 0} → (IssueError → IssueError) → Calls A → Calls A
wrapped f m s = (mapped_error f (m s).0, (m s).1)

abbrev decoded : {A : Type 0} → IssueError ⊎ (String ⊎ A) → IssueError ⊎ A
decoded (inl e) = inl e
decoded (inr (inl e)) = inl (not_decoded e)
decoded (inr (inr a)) = inr a

-- What is made of an answer whose status has to be accepted; of the action, the URL is left out.
unfoldable pub accepted_reply :
    {A : Type 0} → (ℕ → Bool) → String → KeycloakReply A → IssueError ⊎ A
accepted_reply accepts action (lost e) = inl (call_failed e)
accepted_reply accepts action (replied status detail content) =
    if accepts status then inr content else inl (keycloak_error action status detail)

-- requestToken, after the response is decoded.
unfoldable pub visible_token : String × ℕ → IssueError ⊎ (String × ℕ)
visible_token token = if is_empty token.0 then inl no_access_token else inr token

unfoldable pub send_token_request : Keycloak → String → Calls (String ⊎ (String × ℕ))
unfolding accepted_reply send_request
send_token_request k client_id =
    send_request
      (λ s. accepted_reply (λ status. status == 200) "token request" (k.token_of s client_id))
      (token_request client_id)

-- requestToken
unfoldable pub request_token : Keycloak → String → Calls (String × ℕ)
unfolding send_token_request visible_token ◌and_then◌ give
request_token k client_id = send_token_request k client_id and_then λ content.
    give (decoded (inr content)) and_then λ token. give (visible_token token)

-- `i.now().Add(time.Duration(expiresIn)*time.Second - adminTokenExpiryMargin)`, with the sum cut off at
-- 0, which no time lies before.
unfoldable pub admin_expiry : ℕ → ℕ → ℕ
admin_expiry now expires_in =
    let duration = (expires_in * second + (2 ^ 64 - 30 * second)) % 2 ^ 64 in
    if leb (2 ^ 63) duration then now - (2 ^ 64 - duration) else now + duration

unfoldable pub login_admin : Keycloak → IssuerConfig → Calls AdminToken
unfolding request_token ◌and_then◌ wrapped admin_expiry
login_admin k c = wrapped admin_login (request_token k c.client_id) and_then λ token. λ s.
    (inr record { admin_token = token.0; admin_token_expiry = admin_expiry (k.now s) token.1 }, s)

-- adminAccessToken
unfoldable pub admin_access_token : Keycloak → IssuerConfig → AdminToken → Calls AdminToken
unfolding login_admin
admin_access_token k c a s =
    if not (is_empty a.admin_token) && ltb (k.now s) a.admin_token_expiry
    then (inr a, s)
    else login_admin k c s

-- `location[strings.LastIndex(location, "/")+1:]`, with what follows the last slash so far.
unfoldable pub last_segment_from : String → String → String
last_segment_from last String.[] = last
last_segment_from last (String.◌∷◌ c s) =
    last_segment_from (if has_prefix (String.◌∷◌ c s) "/" then s else last) s

-- createClient, after its request.
unfoldable pub location_id : String → IssueError ⊎ String → IssueError ⊎ String
unfolding last_segment_from
location_id client_id (inl e) = inl e
location_id client_id (inr location) =
    let id = last_segment_from location location in
    if is_empty id then inl (no_location client_id) else inr id

-- What the answer to a creation tells of the client.
unfoldable pub creation : IssueError ⊎ String → Creation
unfolding last_segment_from
creation (inl e) = not_created
creation (inr location) =
    let id = last_segment_from location location in if is_empty id then unnamed else named id

-- createClient
unfoldable pub create_client : Keycloak → String → String → Calls String
unfolding accepted_reply location_id creation
create_client k client_id subject s =
    let reply =
      accepted_reply (λ status. status == 201) ("create client " <> client_id)
        (k.new_client s client_id subject) in
    (location_id client_id reply, create_client_request client_id (creation reply) ∷ s)

-- The inner loop of removeClientScopes.
unfoldable pub remove_scopes : Keycloak → String → String → List String → Calls (Unit {0})
unfolding accepted_reply send_request ◌and_then◌ give
remove_scopes k id kind [] = give (inr tt)
remove_scopes k id kind (scope ∷ scopes) =
    send_request (λ s. accepted_reply is_success "DELETE" (k.without_scope s id kind scope))
      (delete_scope id kind scope)
    and_then λ done. remove_scopes k id kind scopes

-- removeClientScopes for one kind.
unfoldable pub remove_scopes_of : Keycloak → String → String → Calls (Unit {0})
unfolding accepted_reply send_request ◌and_then◌ remove_scopes
remove_scopes_of k id kind =
    send_request (λ s. decoded (accepted_reply is_success "GET" (k.scopes_of s id kind)))
      (list_scopes id kind)
    and_then λ scopes. remove_scopes k id kind scopes

-- removeClientScopes
unfoldable pub remove_client_scopes : Keycloak → String → Calls (Unit {0})
unfolding remove_scopes_of ◌and_then◌
remove_client_scopes k id = remove_scopes_of k id "default-client-scopes" and_then λ done.
    remove_scopes_of k id "optional-client-scopes"

-- The deferred deleteClientIgnoringCancel, whose error is only logged.
unfoldable pub delete_after : {A : Type 0} → String → Calls A → Calls A
delete_after id m s = ((m s).0, delete_client id ∷ (m s).1)

abbrev random_result : String ⊎ String → IssueError ⊎ String
random_result (inl e) = inl (no_random e)
random_result (inr text) = inr text

-- randomString
unfoldable pub random : Keycloak → ℕ → Calls String
random k bytes s = (random_result (k.random_string s bytes), s)

module _ {F : Type 0} (codec : TokenCodec F) (k : Keycloak) (c : IssuerConfig) where
  abbrev pub checked : String → String → Option ClaimError → IssueError ⊎ String
  checked subject token (some e) = inl (bad_claims e)
  checked subject token none = inr token

  -- The end of Issue, while the client exists.
  unfoldable pub issue_for_client : String → String → String → Calls String
  unfolding remove_client_scopes ◌and_then◌ wrapped request_token give check_claims
  issue_for_client subject client_id id = remove_client_scopes k id and_then λ done.
      wrapped (token_for client_id) (request_token k client_id) and_then λ token.
      give (checked subject token.0 (check_claims codec token.0 c.issuer subject c.token_lifetime))

  -- Issue, with the administrator's token.
  unfoldable pub issue_as_admin : String → String → Calls String
  unfolding create_client ◌and_then◌ delete_after issue_for_client random
  issue_as_admin run_uuid subject = random k 4 and_then λ suffix.
      random k 32 and_then λ client_secret.
      create_client k ("bb-run-" <> run_uuid <> "-" <> suffix) subject and_then λ id.
      delete_after id (issue_for_client subject ("bb-run-" <> run_uuid <> "-" <> suffix) id)

  abbrev pub with_admin_token :
      String
      → String
      → AdminToken
      → IssueError ⊎ AdminToken
      → List Request
      → ((IssueError ⊎ String) × AdminToken) × List Request
  with_admin_token run_uuid subject a (inl e) s = ((inl e, a), s)
  with_admin_token run_uuid subject a (inr a') s =
      (((issue_as_admin run_uuid subject s).0, a'), (issue_as_admin run_uuid subject s).1)

  -- Issue
  unfoldable pub issue :
      String
      → String
      → AdminToken
      → List Request
      → ((IssueError ⊎ String) × AdminToken) × List Request
  unfolding admin_access_token issue_as_admin
  issue run_uuid subject a s =
      with_admin_token run_uuid subject a (admin_access_token k c a s).0
        (admin_access_token k c a s).1
