-- ===== src/Keycloak/Issuer/Leftovers.antt =====
-- What is left in Keycloak of the clients that are created for tokens.
use building_block_runner.Prelude.{
  ℕ, String, Bool, true, false, List, [], ◌∷◌, ◌⊎◌, inl, inr, ◌≡◌, refl, sym, ◌∙◌, ap, is_empty,
  ◌==◌, ◌<>◌, arith, if◌then◌else◌, str_eq, str_eq_iff,
}
use building_block_runner.Keycloak.Claims.{TokenCodec}
use building_block_runner.Keycloak.Issuer.{
  IssueError, Request, token_request, create_client_request, list_scopes, delete_scope,
  delete_client, Calls, Keycloak, send_request, random, send_token_request, visible_token, decoded,
  login_admin, Creation, not_created, unnamed, named, creation, location_id, last_segment_from,
  KeycloakReply, lost, replied, accepted_reply, keycloak_error, with_admin_token, IssuerConfig,
  AdminToken, ◌and_then◌, give, wrapped, request_token, admin_access_token, create_client,
  remove_scopes, remove_scopes_of, remove_client_scopes, issue_for_client, delete_after,
  issue_as_admin, issue,
}

-- A list without the first of an id.
unfoldable pub without : String → List String → List String
without id [] = []
without id (x ∷ xs) = if str_eq x id then xs else x ∷ without id xs

-- The clients that were created and whose deletion was not asked for. One that the answer to its creation
-- does not name stands there with the empty name: nobody can ask for its deletion.
unfoldable pub clients_left : List Request → List String
unfolding without
clients_left [] = []
clients_left (create_client_request name (named id) ∷ s) = id ∷ clients_left s
clients_left (create_client_request name unnamed ∷ s) = "" ∷ clients_left s
clients_left (create_client_request name not_created ∷ s) = clients_left s
clients_left (delete_client id ∷ s) = without id (clients_left s)
clients_left (token_request name ∷ s) = clients_left s
clients_left (list_scopes id kind ∷ s) = clients_left s
clients_left (delete_scope id kind scope ∷ s) = clients_left s

record Keeps {A : Type 0} (m : Calls A) : Type 0 where
  pub at : (s : List Request) → clients_left (m s).1 ≡ clients_left s

Keeps-chain :
    {A B : Type 0}
    → (r : IssueError ⊎ A) (s : List Request) (f : A → Calls B) → ((a : A) → Keeps (f a))
    → clients_left (((λ (_ : List Request). (r, s)) and_then f) s).1 ≡ clients_left s
unfolding ◌and_then◌
Keeps-chain (inl e) s f after = refl
Keeps-chain (inr a) s f after = (after a).at s

Keeps-and_then :
    {A B : Type 0}
    → (m : Calls A) (f : A → Calls B) → Keeps m
    → ((a : A) → Keeps (f a))
    → Keeps (m and_then f)
unfolding ◌and_then◌
Keeps-and_then m f keeps after = record {
  at = λ s. Keeps-chain (m s).0 (m s).1 f after ∙ keeps.at s;
}

Keeps-give : {A : Type 0} → (r : IssueError ⊎ A) → Keeps (give r)
unfolding give
Keeps-give r = record { at = λ s. refl }

Keeps-send_request :
    {A : Type 0}
    → (reply : List Request → IssueError ⊎ A) (request : Request)
    → ((s : List Request) → clients_left (request ∷ s) ≡ clients_left s)
    → Keeps (send_request reply request)
unfolding send_request
Keeps-send_request reply request keeps = record { at = keeps }

Keeps-wrapped :
    {A : Type 0} → (f : IssueError → IssueError) (m : Calls A) → Keeps m → Keeps (wrapped f m)
unfolding wrapped
Keeps-wrapped f m keeps = record { at = keeps.at }

Keeps-send_token_request :
    (k : Keycloak) (client_id : String) → Keeps (send_token_request k client_id)
unfolding send_token_request clients_left
Keeps-send_token_request k client_id = Keeps-send_request _ _ (λ s. refl)

Keeps-request_token : (k : Keycloak) (client_id : String) → Keeps (request_token k client_id)
unfolding request_token
Keeps-request_token k client_id =
    Keeps-and_then (send_token_request k client_id)
      (λ content. give (decoded (inr content)) and_then λ token. give (visible_token token))
      (Keeps-send_token_request k client_id)
      (λ content.
        Keeps-and_then (give (decoded (inr content))) (λ token. give (visible_token token))
          (Keeps-give (decoded (inr content))) (λ token. Keeps-give (visible_token token)))

Keeps-remove_scopes :
    (k : Keycloak) (id kind : String) (scopes : List String)
    → Keeps (remove_scopes k id kind scopes)
unfolding remove_scopes clients_left
Keeps-remove_scopes k id kind [] = Keeps-give _
Keeps-remove_scopes k id kind (scope ∷ scopes) =
    Keeps-and_then _ _ (Keeps-send_request _ _ (λ s. refl))
      (λ done. Keeps-remove_scopes k id kind scopes)

Keeps-remove_scopes_of : (k : Keycloak) (id kind : String) → Keeps (remove_scopes_of k id kind)
unfolding remove_scopes_of clients_left
Keeps-remove_scopes_of k id kind =
    Keeps-and_then _ _ (Keeps-send_request _ _ (λ s. refl))
      (λ scopes. Keeps-remove_scopes k id kind scopes)

Keeps-remove_client_scopes : (k : Keycloak) (id : String) → Keeps (remove_client_scopes k id)
unfolding remove_client_scopes
Keeps-remove_client_scopes k id =
    Keeps-and_then _ _ (Keeps-remove_scopes_of k id _) (λ done. Keeps-remove_scopes_of k id _)

Keeps-issue_for_client :
    {F : Type 0}
    → (codec : TokenCodec F) (k : Keycloak) (c : IssuerConfig) (subject client_id id : String)
    → Keeps (issue_for_client codec k c subject client_id id)
unfolding issue_for_client
Keeps-issue_for_client codec k c subject client_id id =
    Keeps-and_then _ _ (Keeps-remove_client_scopes k id) (λ done.
      Keeps-and_then _ _ (Keeps-wrapped _ _ (Keeps-request_token k client_id))
        (λ token. Keeps-give _))

Keeps-login_admin : (k : Keycloak) (c : IssuerConfig) → Keeps (login_admin k c)
unfolding login_admin
Keeps-login_admin k c =
    Keeps-and_then (wrapped _ (request_token k c.client_id)) _
      (Keeps-wrapped _ _ (Keeps-request_token k c.client_id)) (λ token. record { at = λ s. refl })

clients_left-if :
    {A : Type 0}
    → (b : Bool) (x y : A × List Request) (clients : List String) → clients_left x.1 ≡ clients
    → clients_left y.1 ≡ clients
    → clients_left (if b then x else y).1 ≡ clients
clients_left-if true x y clients left right = left
clients_left-if false x y clients left right = right

Keeps-admin_access_token :
    (k : Keycloak) (c : IssuerConfig) (a : AdminToken) → Keeps (admin_access_token k c a)
unfolding admin_access_token
Keeps-admin_access_token k c a = record {
  at = λ s. clients_left-if _ _ _ _ refl ((Keeps-login_admin k c).at s);
}

without-first : (id : String) (xs : List String) → without id (id ∷ xs) ≡ xs
unfolding without
without-first id xs = rw ((str_eq_iff id id).1 refl) refl

-- Keycloak's answer to a creation names the client in the Location header.
abbrev pub NamesClients : Keycloak → Type 0
NamesClients k =
    (s : List Request) (client_id subject detail location : String)
    → k.new_client s client_id subject ≡ replied 201 detail location
    → is_empty (last_segment_from location location) ≡ false

created_answer :
    (action : String) (reply : KeycloakReply String) (location : String)
    → accepted_reply (λ status. status == 201) action reply ≡ inr location
    → (detail : String) × (reply ≡ replied 201 detail location)
unfolding accepted_reply
created_answer action (lost e) location is = ground (arith, is)
created_answer action (replied status detail content) location is =
    (detail, answer_lem (status == 201) refl is)
  where
    answer_lem :
        (b : Bool)
        → (status == 201) ≡ b
        → ◌≡◌ {A = IssueError ⊎ String}
            (if b then inr content else inl (keycloak_error action status detail))
            (inr location)
        → replied status detail content ≡ replied 201 detail location
    answer_lem true right same = ground (arith, right, same)
    answer_lem false wrong same = ground (arith, same)

-- The client that is used is the one that was created.
Matches : IssueError ⊎ String → Creation → Type 0
Matches (inl e) not_created = Unit
Matches (inl e) unnamed = ⊥
Matches (inl e) (named id) = ⊥
Matches (inr id) not_created = ⊥
Matches (inr id) unnamed = ⊥
Matches (inr id) (named created) = id ≡ created

location_id-Matches :
    (client_id : String) (reply : IssueError ⊎ String)
    → ((location : String)
        → reply ≡ inr location
        → is_empty (last_segment_from location location) ≡ false)
    → Matches (location_id client_id reply) (creation reply)
unfolding location_id creation Matches
location_id-Matches client_id (inl e) names = tt
location_id-Matches client_id (inr location) names = rw (names location refl) refl

-- What happens to a client between its creation and its deletion, if that keeps the others.
created-deleted :
    {A : Type 0}
    → (r : IssueError ⊎ String) (made : Creation) (name : String) (s : List Request)
      (m : String → Calls A)
    → Matches r made
    → ((id : String) → Keeps (m id))
    → clients_left
        (((λ (_ : List Request). (r, create_client_request name made ∷ s)) and_then λ id.
            delete_after id (m id))
          s).1
      ≡ clients_left s
unfolding ◌and_then◌ delete_after clients_left Matches
created-deleted (inl e) not_created name s m same keeps = refl
created-deleted (inl e) unnamed name s m same keeps = elim same [ ]
created-deleted (inl e) (named created) name s m same keeps = elim same [ ]
created-deleted (inr id) not_created name s m same keeps = elim same [ ]
created-deleted (inr id) unnamed name s m same keeps = elim same [ ]
created-deleted (inr id) (named created) name s m same keeps =
    ap (without id) ((keeps id).at _)
    ∙ (ap (λ x. without id (x ∷ clients_left s)) (sym same) ∙ without-first id (clients_left s))

Keeps-created :
    {A : Type 0}
    → (k : Keycloak) (name subject : String) (m : String → Calls A) → NamesClients k
    → ((id : String) → Keeps (m id))
    → Keeps (create_client k name subject and_then λ id. delete_after id (m id))
unfolding create_client ◌and_then◌
Keeps-created k name subject m names keeps = record {
  at = λ s.
      let action = "create client " <> name in
      let answer = k.new_client s name subject in
      let reply = accepted_reply (λ status. status == 201) action answer in
      created-deleted (location_id name reply) (creation reply) name s m
        (location_id-Matches name reply (λ location is.
          let (detail, reply) = created_answer action answer location is in
          names s name subject detail location reply))
        keeps;
}

Keeps-random : (k : Keycloak) (bytes : ℕ) → Keeps (random k bytes)
unfolding random
Keeps-random k bytes = record { at = λ s. refl }

Keeps-issue_as_admin :
    {F : Type 0}
    → (codec : TokenCodec F) (k : Keycloak) (c : IssuerConfig) (run_uuid subject : String)
    → NamesClients k
    → Keeps (issue_as_admin codec k c run_uuid subject)
unfolding issue_as_admin
Keeps-issue_as_admin codec k c run_uuid subject names =
    Keeps-and_then (random k 4) _ (Keeps-random k 4) (λ suffix.
      Keeps-and_then (random k 32) _ (Keeps-random k 32) (λ client_secret.
        Keeps-created k _ subject _ names (λ id. Keeps-issue_for_client codec k c subject _ id)))

with_admin_token-keeps :
    {F : Type 0}
    → (codec : TokenCodec F) (k : Keycloak) (c : IssuerConfig) (run_uuid subject : String)
    → (a : AdminToken) (r : IssueError ⊎ AdminToken) (s : List Request) → NamesClients k
    → clients_left (with_admin_token codec k c run_uuid subject a r s).1 ≡ clients_left s
with_admin_token-keeps codec k c run_uuid subject a (inl e) s names = refl
with_admin_token-keeps codec k c run_uuid subject a (inr a') s names =
    (Keeps-issue_as_admin codec k c run_uuid subject names).at s

-- Where Keycloak's answers to creations, with status 201, name the clients: after a token is issued, and
-- after every error on the way, the deletion of the client that was created has been asked for, and of
-- no other: the clients that are left are those from before.
pub issue-clients_left :
    {F : Type 0}
    → (codec : TokenCodec F) (k : Keycloak) (c : IssuerConfig) (run_uuid subject : String)
    → (a : AdminToken) (s : List Request) → NamesClients k
    → clients_left (issue codec k c run_uuid subject a s).1 ≡ clients_left s
unfolding issue
issue-clients_left codec k c run_uuid subject a s names =
    with_admin_token-keeps codec k c run_uuid subject a _ _ names
    ∙ (Keeps-admin_access_token k c a).at s
