-- ===== src/Controller/Loop.antt =====
-- run-controller/controller/controller.go: one cycle of the controller, in which it claims runs and
-- hands each to the dispatcher.
pub mod Quiet
pub mod Claims
pub mod Outcome
use building_block_runner.Prelude.{
  ℕ, zero, suc, ◌-◌, String, Bool, true, false, Option, none, some, ◌<>◌, ◌==◌, if◌then◌else◌,
}
use building_block_runner.Prelude.Int.{ℤ, pos, negsuc}
use building_block_runner.Controller.World.{
  Error, Answer, answer, refusal, Event, fetch_run, register_source, update_run_status, History,
  decryption_errors, jobs_at_capacity_skips,
}
use building_block_runner.Controller.RunDetails.{RunDetails, to_runner_type}
use building_block_runner.Controller.Exec.{
  Exec, ◌>>=◌, ◌>>◌, pure, raise, on_error, is_answer, answered, call, ask, note, count, read,
  unless,
}
use building_block_runner.Controller.Job.{
  DispatchError, no_handler_error, run_too_large_error, other_error,
}
use building_block_runner.Controller.Decryption.{Codec, decrypt_run_details}
use building_block_runner.Controller.Dispatch.{Dispatcher}

-- A claimed run: its JSON in base64, and what was parsed of it.
pub record Fetched : Type 0 where
  pub run_json_base64 : String
  pub run : RunDetails

-- What a cycle asks of others: the interface RunApi, whose calls reach meshStack, the codecs and the
-- cipher, and `ctx.Err() != nil`.
pub record RunApi : Type 0 where
  pub fetch_run_details : History → Answer Fetched
  pub register_source_of : History → String → Answer (Unit {0})
  pub update_status_of : History → String → String → Answer (Unit {0})
  pub codec : Codec
  pub decrypt : String → Answer String
  pub is_stopping : History → Bool

pub data ProcessResult : Type 0 where
  run_processed : ProcessResult
  no_run_available : ProcessResult
  process_failed : ProcessResult

abbrev pub max_drain_per_cycle_unlimited : ℕ
max_drain_per_cycle_unlimited = 10

-- dispatchFailureMessage, with NoHandlerError.Error
unfoldable pub dispatch_failure_message : DispatchError → String
dispatch_failure_message (no_handler_error runner_type) =
    "no implementation handler configured for type '" <> runner_type <> "'"
dispatch_failure_message (run_too_large_error run_id size max_size) =
    "Run data is too large to be passed to the runner. The run data exceeds the Kubernetes secret size limit of 1MiB. Please reduce the size of the building block inputs."
dispatch_failure_message (other_error text) = "Failed to dispatch run: " <> text

abbrev pub claimed : Answer Fetched → Option String
claimed (answer f) = some f.run.uuid
claimed (refusal e) = none

module _ (api : RunApi) (d : Dispatcher) where
  -- reportRunFailure; both errors are only logged.
  unfoldable pub report_run_failure : {E : Type 0} → String → String → Exec E (Unit {0})
  report_run_failure run_id message =
      on_error
        (call (λ a. register_source run_id (is_answer a)) (λ h. api.register_source_of h run_id))
        (λ _. pure tt)
        (λ _.
          on_error
            (call (λ _. update_run_status run_id "FAILED" message message)
              (λ h. api.update_status_of h run_id message))
            (λ _. pure tt) pure)

  unfoldable pub fail_run : {E : Type 0} → String → String → Exec E ProcessResult
  unfolding report_run_failure
  fail_run run_id message = report_run_failure run_id message >> pure process_failed

  -- The part of processNextRun that has the decrypted data.
  unfoldable pub dispatch_run :
      {E : Type 0} → RunDetails → String → Answer String → Exec E ProcessResult
  unfolding fail_run dispatch_failure_message
  dispatch_run run decrypted (refusal e) =
      fail_run run.uuid ("Failed to determine implementation type: " <> e)
  dispatch_run run decrypted (answer impl_type) =
      on_error (d.dispatch run decrypted (to_runner_type impl_type))
        (λ e. fail_run run.uuid (dispatch_failure_message e)) (λ _. pure run_processed)

  unfoldable pub process_decrypted :
      {E : Type 0} → RunDetails → Answer String → Exec E ProcessResult
  unfolding dispatch_run
  process_decrypted run (refusal e) = count decryption_errors >> pure process_failed
  process_decrypted run (answer decrypted) =
      dispatch_run run decrypted (api.codec.implementation_type run.implementation)

  -- processNextRun
  unfoldable pub process_next_run : {E : Type 0} → Exec E ProcessResult
  unfolding process_decrypted decrypt_run_details
  process_next_run =
      on_error (call (λ a. fetch_run (claimed a)) api.fetch_run_details)
        (λ _. pure no_run_available)
        (λ f. process_decrypted f.run (decrypt_run_details api.codec api.decrypt f.run_json_base64))

  -- availableCapacity
  unfoldable pub available_capacity : {E : Type 0} → ℤ → Exec E ℕ
  available_capacity (negsuc n) = pure max_drain_per_cycle_unlimited
  available_capacity (pos max_jobs) =
      on_error d.count_active (λ _. pure 0) (λ active. pure (max_jobs - active))

  abbrev after_run : {E : Type 0} → ProcessResult → Exec E (Unit {0}) → Exec E (Unit {0})
  after_run run_processed rest = rest
  after_run no_run_available rest = pure tt
  after_run process_failed rest = pure tt

  -- The loop of drainRuns, with what is left of the capacity.
  unfoldable pub drain : {E : Type 0} → ℕ → Exec E (Unit {0})
  unfolding process_next_run
  drain zero = pure tt
  drain (suc left) = do
    stopping ← read api.is_stopping
    unless stopping (process_next_run >>= λ result. after_run result (drain left))

  -- drainRuns
  unfoldable pub drain_with : {E : Type 0} → ℕ → Exec E (Unit {0})
  unfolding drain
  drain_with capacity = if capacity == 0 then count jobs_at_capacity_skips else drain capacity

  unfoldable pub drain_runs : {E : Type 0} → ℤ → Exec E (Unit {0})
  unfolding available_capacity drain_with
  drain_runs max_concurrent_jobs = available_capacity max_concurrent_jobs >>= drain_with
