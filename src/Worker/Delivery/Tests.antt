-- ===== src/Worker/Delivery/Tests.antt =====
-- Attempts at an update.
use building_block_runner.Prelude.{
  true, false, some, none, [], ◌∷◌, ◌≡◌, refl, All, ◌&&◌, if◌then◌else◌,
}
use building_block_runner.Worker.Delivery.{
  UpdateError, status_answer, delivered, again, permanent, maybe_delivered, is_transient,
  is_client_error, attempt, Attempts, first_attempt, next_attempt,
}
use building_block_runner.Worker.Delivery.Laws.{any_before, attempt-Attempts}

abbrev unavailable : UpdateError
unavailable = status_answer 503

abbrev not_found : UpdateError
not_found = status_answer 404

one_attempt : Attempts (unavailable ∷ []) true
unfolding attempt is_transient
one_attempt = next_attempt first_attempt unavailable refl

attempt-Attempts_example :
    All (λ earlier. is_transient earlier ≡ true) (unavailable ∷ [])
    × ((attempt true (some not_found)).0 ≡ (
        if is_transient not_found
        then again not_found
        else if any_before (unavailable ∷ []) && is_client_error not_found
        then maybe_delivered not_found
        else permanent not_found))
attempt-Attempts_example = attempt-Attempts (unavailable ∷ []) true not_found one_attempt

attempt_rejected : (attempt true (some not_found)).0 ≡ maybe_delivered not_found
unfolding attempt is_transient is_client_error
attempt_rejected = refl

attempt_first_rejected : (attempt false (some not_found)).0 ≡ permanent not_found
unfolding attempt is_transient is_client_error
attempt_first_rejected = refl

attempt_server_error : (attempt true (some (status_answer 500))).0 ≡ permanent (status_answer 500)
unfolding attempt is_transient is_client_error
attempt_server_error = refl

attempt_done : (attempt true none).0 ≡ delivered
unfolding attempt
attempt_done = refl
