-- ===== src/Worker/Delivery.antt =====
-- tf-block-runner/tfrun/statusupdate.go: updateStateWithRetry, the operation that it hands to
-- backoff.Retry, and the sequence of attempts.
pub mod Laws
mod Tests
use building_block_runner.Prelude.{
  ℕ, String, Bool, true, false, Option, none, some, List, [], ◌∷◌, ◌≡◌, ◌&&◌, ◌||◌, ◌==◌, leb, ltb,
  if◌then◌else◌,
}

-- The errors that the code tells apart: meshapi.StatusError, url.Error and all others.
pub data UpdateError : Type 0 where
  status_answer : ℕ → UpdateError
  transport : String → UpdateError
  other_error : String → UpdateError

-- What the operation returns: no error, an error after which backoff.Retry tries again, or a permanent
-- one, as it is or with the note that an earlier attempt may have delivered the status.
pub data Verdict : Type 0 where
  delivered : Verdict
  again : UpdateError → Verdict
  permanent : UpdateError → Verdict
  maybe_delivered : UpdateError → Verdict

-- isTransient: Locked, BadGateway, ServiceUnavailable and GatewayTimeout
unfoldable pub is_transient : UpdateError → Bool
is_transient (status_answer status) =
    status == 423 || status == 502 || status == 503 || status == 504
is_transient (transport e) = true
is_transient (other_error e) = false

-- isClientError
unfoldable pub is_client_error : UpdateError → Bool
is_client_error (status_answer status) = leb 400 status && ltb status 500
is_client_error (transport e) = false
is_client_error (other_error e) = false

-- The operation, after an update with this error or none: the verdict and the new value of `retried`.
unfoldable pub attempt : Bool → Option UpdateError → Verdict × Bool
unfolding is_transient is_client_error
attempt retried none = (delivered, retried)
attempt retried (some e) =
    if is_transient e
    then (again e, true)
    else (if retried && is_client_error e then maybe_delivered e else permanent e, retried)

-- The attempts so far, newest first, by their errors, each of which asked for another; and the value of
-- `retried` after them.
pub data Attempts : List UpdateError → Bool → Type 0 where
  first_attempt : Attempts [] false
  next_attempt :
      {errors : List UpdateError} {retried : Bool}
      → Attempts errors retried
      → (e : UpdateError) → (attempt retried (some e)).0 ≡ again e
      → Attempts (e ∷ errors) (attempt retried (some e)).1
