-- ===== src/Meshapi/Auth.antt =====
-- go-meshapi-client/meshapi/auth.go: ApiKeyAuth, which fetches a token and keeps it until it nears its
-- expiry. Times are nanoseconds; Go's `int` and `time.Duration` have 64 bits.
pub mod Laws
use building_block_runner.Prelude.{
  ℕ, ◌+◌, ◌-◌, ◌*◌, ◌%◌, ◌^◌, String, Bool, Option, none, some, ◌<>◌, ◌&&◌, ◌||◌, ◌==◌, not, ltb,
  leb, is_empty, if◌then◌else◌,
}

abbrev pub second : ℕ
second = 1_000_000_000

abbrev pub token_expiry_buffer : ℕ
token_expiry_buffer = 30_000_000_000

-- The part of ApiKeyAuth that changes; at first there is no token, and the expiry is the zero time.
pub record ApiKeyAuth : Type 0 where
  pub token : String
  pub expires_at : ℕ

abbrev pub new_api_key_auth : ApiKeyAuth
new_api_key_auth = record { token = ""; expires_at = 0 }

-- The answer to the login request: no response, or its status and what its body decodes to, the token and
-- `expires_in` as a 64-bit word in two's complement.
pub data LoginReply : Type 0 where
  login_failed : LoginReply
  login_response : ℕ → Option (String × ℕ) → LoginReply

-- `time.Duration(expiresIn)*time.Second - tokenExpiryBuffer`, and a second where that is not positive.
unfoldable pub expiry_of : ℕ → ℕ
expiry_of expires_in =
    let expiry = (expires_in * second + (2 ^ 64 - token_expiry_buffer)) % 2 ^ 64 in
    if expiry == 0 || leb (2 ^ 63) expiry then second else expiry

-- The end of fetchToken: `now` is read when the response is decoded; `none` is an error.
unfoldable pub store_token : String → ℕ → ℕ → Option ApiKeyAuth
unfolding expiry_of
store_token token expires_in now =
    if is_empty token
    then none
    else some record { token = token; expires_at = now + expiry_of expires_in }

-- fetchToken
unfoldable pub fetch_token : LoginReply → ℕ → Option ApiKeyAuth
unfolding store_token
fetch_token login_failed now = none
fetch_token (login_response status none) now = none
fetch_token (login_response status (some (token, expires_in))) now =
    if status == 200 then store_token token expires_in now else none

-- The rest of AuthHeader, where the cached token does not serve: an error leaves the state as it is.
unfoldable pub header_after : ApiKeyAuth → Option ApiKeyAuth → String × ApiKeyAuth
header_after a none = ("", a)
header_after a (some fetched) = ("Bearer " <> fetched.token, fetched)

abbrev pub serves : ApiKeyAuth → ℕ → Bool
serves a now = ltb now a.expires_at && not (is_empty a.token)

-- AuthHeader, at `now`, with the answer that a login would get and the time of that.
unfoldable pub auth_header : LoginReply → ℕ → ℕ → ApiKeyAuth → String × ApiKeyAuth
unfolding fetch_token header_after
auth_header reply now later a =
    if serves a now then ("Bearer " <> a.token, a) else header_after a (fetch_token reply later)
