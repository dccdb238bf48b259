-- ===== src/Keycloak/Issuer/Checked.antt =====
-- What is known of a token that is issued.
use building_block_runner.Prelude.{
  String, Option, none, some, List, ◌⊎◌, inl, inr, ◌≡◌, refl, subst, arith,
}
use building_block_runner.Keycloak.Claims.{TokenCodec, check_claims, ClaimError}
use building_block_runner.Keycloak.Issuer.{
  IssueError, Request, Calls, Keycloak, random, token_for, checked, with_admin_token, IssuerConfig,
  AdminToken, ◌and_then◌, give, wrapped, request_token, remove_client_scopes, issue_for_client,
  delete_after, issue_as_admin, issue,
}

payload-inr : (a b : String) (r : IssueError ⊎ String) → r ≡ inr a → r ≡ inr b → a ≡ b
payload-inr a b r is also = ground (arith, is, also)

record Gives {A : Type 0} (P : A → Type 0) (m : Calls A) : Type 0 where
  pub at : (s : List Request) (a : A) → (m s).0 ≡ inr a → P a

Gives-chain :
    {A B : Type 0}
    → {P : B → Type 0} → (r : IssueError ⊎ A) (s : List Request) (f : A → Calls B) (b : B)
    → ((a : A) → Gives P (f a))
    → (((λ (_ : List Request). (r, s)) and_then f) s).0 ≡ inr b
    → P b
unfolding ◌and_then◌
Gives-chain (inl e) s f b gives h = ground arith
Gives-chain (inr a) s f b gives h = (gives a).at s b h

Gives-and_then :
    {A B : Type 0}
    → {P : B → Type 0} → (m : Calls A) (f : A → Calls B) → ((a : A) → Gives P (f a))
    → Gives P (m and_then f)
unfolding ◌and_then◌
Gives-and_then m f gives = record { at = λ s b h. Gives-chain (m s).0 (m s).1 f b gives h }

module _ {F : Type 0} (codec : TokenCodec F) (k : Keycloak) (c : IssuerConfig) where
  abbrev Passes : String → String → Type 0
  Passes subject token = check_claims codec token c.issuer subject c.token_lifetime ≡ none

  checked-Passes :
      (subject token t : String) (r : Option ClaimError)
      → check_claims codec token c.issuer subject c.token_lifetime ≡ r
      → checked codec k c subject token r ≡ inr t
      → Passes subject t
  checked-Passes subject token t (some e) is h = ground arith
  checked-Passes subject token t none is h =
      subst (Passes subject) (payload-inr token t _ refl h) is

  issue_for_client-Passes :
      (subject client_id id : String)
      → Gives (Passes subject) (issue_for_client codec k c subject client_id id)
  unfolding issue_for_client give
  issue_for_client-Passes subject client_id id =
      Gives-and_then (remove_client_scopes k id) _ (λ done.
        Gives-and_then (wrapped (token_for client_id) (request_token k client_id)) _
          (λ token. record { at = λ s t h. checked-Passes subject token.0 t _ refl h }))

  delete_after-Passes :
      (subject id : String) (m : Calls String)
      → Gives (Passes subject) m
      → Gives (Passes subject) (delete_after id m)
  unfolding delete_after
  delete_after-Passes subject id m gives = record { at = gives.at }

  issue_as_admin-Passes :
      (run_uuid subject : String)
      → Gives (Passes subject) (issue_as_admin codec k c run_uuid subject)
  unfolding issue_as_admin
  issue_as_admin-Passes run_uuid subject = Gives-and_then (random k 4) _ (λ suffix.
      Gives-and_then (random k 32) _ (λ client_secret.
        Gives-and_then _ _
          (λ id. delete_after-Passes subject id _ (issue_for_client-Passes subject _ id))))

  with_admin_token-Passes :
      (run_uuid subject : String) (a : AdminToken) (r : IssueError ⊎ AdminToken) (s : List Request)
      (t : String)
      → (with_admin_token codec k c run_uuid subject a r s).0.0 ≡ inr t
      → Passes subject t
  with_admin_token-Passes run_uuid subject a (inl e) s t h = ground arith
  with_admin_token-Passes run_uuid subject a (inr a') s t h =
      (issue_as_admin-Passes run_uuid subject).at s t h

-- A token that is issued has passed the check for the run's subject.
pub issue-check_claims :
    {F : Type 0}
    → (codec : TokenCodec F) (k : Keycloak) (c : IssuerConfig) (run_uuid subject : String)
    → (a : AdminToken) (s : List Request) (token : String)
    → (issue codec k c run_uuid subject a s).0.0 ≡ inr token
    → check_claims codec token c.issuer subject c.token_lifetime ≡ none
unfolding issue
issue-check_claims codec k c run_uuid subject a s token issued =
    with_admin_token-Passes codec k c run_uuid subject a _ _ token issued
