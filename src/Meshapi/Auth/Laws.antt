-- ===== src/Meshapi/Auth/Laws.antt =====
-- When a token is used, and when a new one is fetched.
use building_block_runner.Prelude.{
  String, ltb, Option, if◌then◌else◌, ℕ, ◌+◌, ◌-◌, ◌*◌, ◌%◌, ◌^◌, ◌≤◌, ◌<◌, true, false, none, some,
  ◌<>◌, ◌≡◌, refl, ◌⊎◌, inl, inr, is_empty, arith, Bool-cases, leb,
}
use building_block_runner.Meshapi.Auth.{
  ApiKeyAuth, LoginReply, login_failed, login_response, second, token_expiry_buffer, expiry_of,
  store_token, fetch_token, header_after, serves, auth_header,
}

expiry_lem :
    (x : ℕ)
    → x < 2 ^ 63
    → 30_000_000_000 < x
    → (x + (2 ^ 64 - token_expiry_buffer)) % 2 ^ 64 + token_expiry_buffer ≡ x
expiry_lem x short long = omega arith

short_lem :
    (x : ℕ)
    → x ≤ 30_000_000_000
    → let expiry = (x + (2 ^ 64 - token_expiry_buffer)) % 2 ^ 64 in (expiry ≡ 0) ⊎ (2 ^ 63 ≤ expiry)
short_lem x short = omega arith

-- How long a token of a lifetime is kept.
expiry_of-second :
    (expires_in : ℕ)
    → expires_in * second < 2 ^ 63
    → ((expires_in ≤ 30) × (expiry_of expires_in ≡ second))
      ⊎ ((30 < expires_in) × (expiry_of expires_in + token_expiry_buffer ≡ expires_in * second))
unfolding expiry_of
expiry_of-second expires_in short = elim (Bool-cases (leb expires_in 30)) [
  | inl few ↦ inl (ground arith, ground (arith, short_lem (expires_in * second) (ground arith)))
  | inr many ↦
      inr (ground arith, ground (arith, expiry_lem (expires_in * second) short (ground arith)))
]

fetch_token-visible :
    (reply : LoginReply) (later : ℕ) (f : ApiKeyAuth)
    → fetch_token reply later ≡ some f
    → is_empty f.token ≡ false
unfolding fetch_token store_token
fetch_token-visible login_failed later f got = ground arith
fetch_token-visible (login_response status none) later f got = ground arith
fetch_token-visible (login_response status (some (token, expires_in))) later f got = ground arith

auth_header-fetched :
    (reply : LoginReply) (now later : ℕ) (a f : ApiKeyAuth)
    → serves a now ≡ false
    → fetch_token reply later ≡ some f
    → auth_header reply now later a ≡ ("Bearer " <> f.token, f)
unfolding auth_header header_after
auth_header-fetched reply now later a f stale got = rw (stale, got) refl

auth_header-serves :
    (reply : LoginReply) (now later : ℕ) (a : ApiKeyAuth)
    → serves a now ≡ true
    → auth_header reply now later a ≡ ("Bearer " <> a.token, a)
unfolding auth_header
auth_header-serves reply now later a fresh = rw fresh refl

-- Where the kept token does not serve and a login gives a new one, each call before the expiry of that
-- one sends the same header and leaves the state as it is, whatever a further login would answer.
pub auth_header-again :
    (reply again : LoginReply) (now later at after : ℕ) (a f : ApiKeyAuth)
    → serves a now ≡ false
    → fetch_token reply later ≡ some f
    → at < f.expires_at
    → auth_header again at after (auth_header reply now later a).1 ≡ auth_header reply now later a
auth_header-again reply again now later at after a f stale got early =
    let visible = fetch_token-visible reply later f got in
    rw (auth_header-fetched reply now later a f stale got)
      (auth_header-serves again at after f (ground (arith, visible, early)))

-- When the token of a lifetime serves that was got at `later`.
kept_until :
    (expires_in later at : ℕ)
    → expires_in * second < 2 ^ 63
    → ltb at (later + expiry_of expires_in) ≡ (
        if leb expires_in 30
        then ltb at (later + second)
        else ltb (at + token_expiry_buffer) (later + expires_in * second))
kept_until expires_in later at short = elim (expiry_of-second expires_in short) [
  | inl (few, is) ↦ rw is (ground (arith, few))
  | inr (many, is) ↦ ground (arith, many, is)
]

fetched_parts :
    (status : ℕ) (token : String) (expires_in later : ℕ) (a : ApiKeyAuth)
    → fetch_token (login_response status (some (token, expires_in))) later ≡ some a
    → (a.token ≡ token) × (a.expires_at ≡ later + expiry_of expires_in) × (is_empty a.token ≡ false)
unfolding fetch_token store_token
fetched_parts status token expires_in later a got =
    (ground (arith, got), ground (arith, got), ground (arith, got))

header_after_lem :
    (a : ApiKeyAuth) (got : Option ApiKeyAuth)
    → header_after a got ≡ (elim got [ none ↦ ("", a) | some new ↦ ("Bearer " <> new.token, new) ])
unfolding header_after
header_after_lem a none = refl
header_after_lem a (some new) = refl

serves_until :
    (a : ApiKeyAuth) (end at : ℕ)
    → a.expires_at ≡ end
    → is_empty a.token ≡ false
    → serves a at ≡ ltb at end
serves_until a end at is visible = ground (arith, is, visible)

-- A token that a login gave at `later`, with a lifetime in seconds that fits a duration, is sent again at
-- each time before thirty seconds before the end of its lifetime, for a lifetime of more than thirty
-- seconds, and within a second, for a shorter one. At any other time the answer to a new login decides,
-- and where that fails no token is sent.
pub auth_header-fetch_token :
    (status : ℕ) (token : String) (expires_in later : ℕ) (a : ApiKeyAuth) (again : LoginReply)
    (at after : ℕ)
    → expires_in * second < 2 ^ 63
    → fetch_token (login_response status (some (token, expires_in))) later ≡ some a
    → auth_header again at after a ≡ (
        if (if leb expires_in 30
          then ltb at (later + second)
          else ltb (at + token_expiry_buffer) (later + expires_in * second))
        then ("Bearer " <> token, a)
        else elim (fetch_token again after) [
          | none ↦ ("", a)
          | some new ↦ ("Bearer " <> new.token, new)
        ])
unfolding auth_header
auth_header-fetch_token status token expires_in later a again at after short got =
    let (same, ends, visible) = fetched_parts status token expires_in later a got in
    rw
      (
        serves_until a (later + expiry_of expires_in) at ends visible,
        kept_until expires_in later at short,
        header_after_lem a (fetch_token again after),
        same,
      )
      refl
