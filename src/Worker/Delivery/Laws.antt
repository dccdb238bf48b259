-- ===== src/Worker/Delivery/Laws.antt =====
-- What each attempt says of the delivery.
use building_block_runner.Prelude.{
  Bool, true, false, some, List, [], ◌∷◌, ◌≡◌, refl, All, ◌&&◌, if◌then◌else◌, arith, Bool-cases,
  inl, inr,
}
use building_block_runner.Worker.Delivery.{
  UpdateError, again, permanent, maybe_delivered, is_transient, is_client_error, attempt, Attempts,
  first_attempt, next_attempt,
}

abbrev pub any_before : List UpdateError → Bool
any_before [] = false
any_before (e ∷ errors) = true

attempt-again :
    (retried : Bool) (e : UpdateError)
    → (attempt retried (some e)).0 ≡ again e
    → (is_transient e ≡ true) × ((attempt retried (some e)).1 ≡ true)
unfolding attempt
attempt-again retried e more = elim (Bool-cases (is_transient e)) [
  | inl transient ↦ (transient, ground (arith, transient))
  | inr final ↦ ground (arith, final, more)
]

Attempts-retried :
    {errors : List UpdateError} {retried : Bool}
    → Attempts errors retried
    → retried ≡ any_before errors
Attempts-retried first_attempt = refl
Attempts-retried (next_attempt {errors} {retried} before e more) = (attempt-again retried e more).1

Attempts-transient :
    {errors : List UpdateError} {retried : Bool}
    → Attempts errors retried
    → All (λ e. is_transient e ≡ true) errors
Attempts-transient first_attempt = tt
Attempts-transient (next_attempt {errors} {retried} before e more) =
    ((attempt-again retried e more).0, Attempts-transient before)

-- After any attempts, all of which failed with transient errors, an attempt that fails asks for another
-- if its error is transient; else it ends with the note of an earlier delivery exactly if there was an
-- attempt before and meshStack rejects this one, and with its error if not.
pub attempt-Attempts :
    (errors : List UpdateError) (retried : Bool) (e : UpdateError)
    → Attempts errors retried
    → All (λ earlier. is_transient earlier ≡ true) errors
      × ((attempt retried (some e)).0 ≡ (
          if is_transient e
          then again e
          else if any_before errors && is_client_error e
          then maybe_delivered e
          else permanent e))
unfolding attempt
attempt-Attempts errors retried e attempts = (
  Attempts-transient attempts,
  elim (Bool-cases (is_transient e)) [
    | inl transient ↦ rw transient refl
    | inr final ↦ rw (final, Attempts-retried attempts) refl
  ],
)
