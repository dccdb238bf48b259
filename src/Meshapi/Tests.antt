-- ===== src/Meshapi/Tests.antt =====
-- Runs of the API client.
use building_block_runner.Prelude.{
  ℕ, true, some, List, [], ◌∷◌, ◌≡◌, refl, ◌≤◌, ◌+◌, ◌*◌, ◌-◌, ◌^◌, arith, length, suc, inr, leb,
  ltb, ◌<>◌, none, if◌then◌else◌,
}
use building_block_runner.Meshapi.Auth.{
  ApiKeyAuth, login_failed, login_response, second, token_expiry_buffer, expiry_of, fetch_token,
  store_token, auth_header, new_api_key_auth,
}
use building_block_runner.Meshapi.Auth.Laws.{auth_header-again, auth_header-fetch_token}
use building_block_runner.Meshapi.Client.{
  fine, faulty, status_error, plain_error, http_error, response, is_success, max_artifact_bytes,
  limited, copied, download_artifact, register_source_at, patch_status_at, checked_run, fetch_run,
}
use building_block_runner.Meshapi.Client.Laws.{download_artifact-fine, length-download_artifact}

-- A lifetime of ten seconds, and one of minus one, are both cut to a second.
expiry_of_short : (expiry_of 10 ≡ second) × (expiry_of (2 ^ 64 - 1) ≡ second)
unfolding expiry_of
expiry_of_short = (refl, refl)

abbrev fetched : ApiKeyAuth
fetched = record { token = "t"; expires_at = 270_000_000_005 }

auth_header-again_example :
    auth_header login_failed 100 101
      (auth_header (login_response 200 (some ("t", 300))) 4 5 new_api_key_auth).1
    ≡ auth_header (login_response 200 (some ("t", 300))) 4 5 new_api_key_auth
unfolding fetch_token store_token expiry_of
auth_header-again_example =
    auth_header-again (login_response 200 (some ("t", 300))) login_failed 4 5 100 101
      new_api_key_auth fetched refl refl (omega arith)

-- At the time given here the kept token has thirty seconds left and is dropped.
auth_header-fetch_token_example :
    auth_header (login_response 200 (some ("u", 300))) 270_000_000_005 270_000_000_006 fetched ≡ (
      if (if leb 300 30
        then ltb 270_000_000_005 (5 + second)
        else ltb (270_000_000_005 + token_expiry_buffer) (5 + 300 * second))
      then ("Bearer " <> "t", fetched)
      else elim (fetch_token (login_response 200 (some ("u", 300))) 270_000_000_006) [
        | none ↦ ("", fetched)
        | some new ↦ ("Bearer " <> new.token, new)
      ])
unfolding fetch_token store_token expiry_of
auth_header-fetch_token_example =
    auth_header-fetch_token 200 "t" 300 5 fetched (login_response 200 (some ("u", 300)))
      270_000_000_005 270_000_000_006 (omega arith) refl

abbrev body : List ℕ
body = 1 ∷ 2 ∷ 3 ∷ []

download_artifact-fine_example :
    (is_success 200 ≡ true)
    × (true ≡ true)
    × (length body ≤ max_artifact_bytes)
    × ((download_artifact (response 200 body true)).0 ≡ body)
unfolding download_artifact limited copied
download_artifact-fine_example = download_artifact-fine 200 body true refl

length-download_artifact_example :
    length ((download_artifact (response 200 body true)).0) ≤ suc max_artifact_bytes
length-download_artifact_example = length-download_artifact (response 200 body true)

download_missing : download_artifact (response 404 body true) ≡ ([], faulty (http_error 404))
unfolding download_artifact
download_missing = refl

register_conflict : register_source_at (response 409 [] true) ≡ fine tt
unfolding register_source_at
register_conflict = refl

patch_server_error : patch_status_at (response 503 [] true) ≡ faulty (status_error 503)
unfolding patch_status_at
patch_server_error = refl

fetch_without_uuid :
    fetch_run (λ b. inr "") (response 200 body true)
    ≡ faulty (plain_error "fetched run has no UUID")
unfolding fetch_run checked_run
fetch_without_uuid = refl
