-- ===== src/Controller/Loop/Claims.antt =====
-- How many runs a cycle claims.
use building_block_runner.Prelude.{ℕ, zero, suc, ◌+◌, ◌-◌, ◌≤◌, String, ◌==◌, arith}
use building_block_runner.Prelude.Int.{ℤ, pos, negsuc}
use building_block_runner.Controller.World.{
  Error, Answer, answer, refusal, History, jobs_at_capacity_skips,
}
use building_block_runner.Controller.RunDetails.{RunDetails}
use building_block_runner.Controller.Exec.{
  Go, done, failure, crash, Exec, pure, count, on_error, ◌>>=◌,
}
use building_block_runner.Controller.Dispatch.{Dispatcher}
use building_block_runner.Controller.Rules.{
  Triple, Always, Triple-pure, Triple-if, Triple-bind, Triple-on_error, Triple-note, Triple-call,
  Triple-read, Triple-imply, Triple-unless, run_keeps_from, run_keeps,
}
use building_block_runner.Controller.Loop.{
  RunApi, ProcessResult, run_processed, no_run_available, process_failed, report_run_failure,
  fail_run, dispatch_run, process_decrypted, process_next_run, available_capacity, after_run, drain,
  drain_with, drain_runs, max_drain_per_cycle_unlimited,
}
use building_block_runner.Controller.Loop.Quiet.{claims, AtMost, ClaimsNothing}

module _ (api : RunApi) {d : Dispatcher} (quiet : ClaimsNothing d) where
  report_run_failure-AtMost :
      {E : Type 0} (n : ℕ) (run_id message : String)
      → Triple
          (AtMost n)
          (report_run_failure api d {E = E} run_id message)
          (Always (AtMost n))
          (Always (AtMost n))
          (AtMost n)
  unfolding report_run_failure
  report_run_failure-AtMost n run_id message =
      Triple-on_error _ _ _
        (Triple-call {Q = Always (AtMost n)} {F = Always (AtMost n)} _ _ (λ h a p e. p)
          (λ h e p. p))
        (λ _. Triple-pure _ λ h p. p)
        (λ _.
          Triple-on_error _ _ _
            (Triple-call {Q = Always (AtMost n)} {F = Always (AtMost n)} _ _ (λ h a p e. p)
              (λ h e p. p))
            (λ _. Triple-pure _ λ h p. p) (λ _. Triple-pure _ λ h p. p))

  fail_run-AtMost :
      {E : Type 0} (n : ℕ) (run_id message : String)
      → Triple
          (AtMost n)
          (fail_run api d {E = E} run_id message)
          (Always (AtMost n))
          (Always (AtMost n))
          (AtMost n)
  unfolding fail_run
  fail_run-AtMost n run_id message =
      Triple-bind _ _ (report_run_failure-AtMost n run_id message) λ _. Triple-pure _ λ h p. p

  dispatch_run-AtMost :
      {E : Type 0} (n : ℕ) (run : RunDetails) (decrypted : String) (a : Answer String)
      → Triple
          (AtMost n)
          (dispatch_run api d {E = E} run decrypted a)
          (Always (AtMost n))
          (Always (AtMost n))
          (AtMost n)
  unfolding dispatch_run
  dispatch_run-AtMost n run decrypted (refusal e) = fail_run-AtMost n run.uuid _
  dispatch_run-AtMost n run decrypted (answer impl_type) =
      Triple-on_error _ _ _ (quiet.by_dispatch n run decrypted _)
        (λ e. fail_run-AtMost n run.uuid _) (λ _. Triple-pure _ λ h p. p)

  process_decrypted-AtMost :
      {E : Type 0} (n : ℕ) (run : RunDetails) (a : Answer String)
      → Triple
          (AtMost n)
          (process_decrypted api d {E = E} run a)
          (Always (AtMost n))
          (Always (AtMost n))
          (AtMost n)
  unfolding process_decrypted
  process_decrypted-AtMost n run (refusal e) =
      Triple-bind _ _ (Triple-note {Q = Always (AtMost n)} _ λ h p. p) λ _. Triple-pure _ λ h p. p
  process_decrypted-AtMost n run (answer decrypted) = dispatch_run-AtMost n run decrypted _

  process_next_run-AtMost :
      {E : Type 0} (n : ℕ)
      → Triple
          (AtMost n)
          (process_next_run api d {E = E})
          (Always (AtMost (suc n)))
          (Always (AtMost (suc n)))
          (AtMost (suc n))
  unfolding process_next_run
  process_next_run-AtMost n =
      Triple-on_error _ _ _
        (Triple-call {Q = Always (AtMost (suc n))} {F = Always (AtMost n)} _ _
          (λ h a p e. omega arith) (λ h e p. p))
        (λ _. Triple-pure _ λ h p. omega arith) (λ f. process_decrypted-AtMost (suc n) f.run _)

  after_run-AtMost :
      {E : Type 0} (n m : ℕ) (result : ProcessResult) {rest : Exec E (Unit {0})}
      → n ≤ m
      → Triple (AtMost n) rest (Always (AtMost m)) (Always (AtMost m)) (AtMost m)
      → Triple
          (AtMost n)
          (after_run api d result rest)
          (Always (AtMost m))
          (Always (AtMost m))
          (AtMost m)
  after_run-AtMost n m run_processed le t = t
  after_run-AtMost n m no_run_available le t = Triple-pure _ λ h p. omega arith
  after_run-AtMost n m process_failed le t = Triple-pure _ λ h p. omega arith

  drain-AtMost :
      {E : Type 0} (left n m : ℕ)
      → n + left ≤ m
      → Triple
          (AtMost n)
          (drain api d {E = E} left)
          (Always (AtMost m))
          (Always (AtMost m))
          (AtMost m)
  unfolding drain
  drain-AtMost zero n m le = Triple-pure _ λ h p. omega arith
  drain-AtMost (suc left) n m le =
      Triple-bind _ _ (Triple-read {Q = Always (AtMost n)} _ λ h p. p) λ stopping.
        Triple-unless _ _ (λ _ h p. omega arith)
          λ _.
            Triple-bind _ _
              (Triple-imply {F = Always (AtMost m)} {X' = AtMost (suc n)}
                {Q' = Always (AtMost (suc n))} {F' = Always (AtMost (suc n))} _ (λ h p. p)
                (λ a h q. q) (λ e h q. omega arith) (λ h q. omega arith)
                (process_next_run-AtMost n))
              λ result.
                after_run-AtMost (suc n) m result (omega arith)
                  (drain-AtMost left (suc n) m (omega arith))

-- The free places of a cycle, by the limit and the count of the runs in work.
abbrev pub allowance : ℤ → Go Error ℕ → ℕ
allowance (negsuc n) counted = max_drain_per_cycle_unlimited
allowance (pos max_jobs) (done active) = max_jobs - active
allowance (pos max_jobs) _ = 0

drain_with-claims :
    (api : RunApi) {d : Dispatcher} (quiet : ClaimsNothing d) (capacity n : ℕ) (h : History)
    → claims h ≤ n
    → claims (drain_with api d {E = Error} capacity h).1 ≤ n + capacity
unfolding drain_with
drain_with-claims api {d} quiet capacity n h =
    run_keeps_from
      (Triple-if (capacity == 0) (count jobs_at_capacity_skips) (drain api d capacity)
        (λ _. Triple-note _ λ h p. omega arith)
        (λ _. drain-AtMost api quiet capacity n (n + capacity) (omega arith)))
      h

counted_claims :
    (api : RunApi) {d : Dispatcher} (quiet : ClaimsNothing d) (max_jobs n : ℕ) (r : Go Error ℕ)
    (h : History)
    → claims h ≤ n
    → claims
        ((on_error (λ (_ : History). (r, h)) (λ _. pure 0) (λ active. pure (max_jobs - active))
            >>= drain_with api d {E = Error})
          h).1
      ≤ n + allowance (pos max_jobs) r
unfolding on_error ◌>>=◌ pure
counted_claims api quiet max_jobs n (done active) h le =
    drain_with-claims api quiet (max_jobs - active) n h le
counted_claims api quiet max_jobs n (failure e) h le = drain_with-claims api quiet 0 n h le
counted_claims api quiet max_jobs n crash h le = omega arith

-- For a dispatcher that claims nothing by itself: a cycle claims at most as many runs as there are free
-- places, the limit less the runs in work, none where they cannot be counted, and ten where the limit is
-- negative.
pub drain_runs-claims :
    (api : RunApi) (d : Dispatcher) (max_concurrent_jobs : ℤ) (h : History)
    → ClaimsNothing d
    → claims (drain_runs api d {E = Error} max_concurrent_jobs h).1
      ≤ claims h + allowance max_concurrent_jobs (d.count_active h).0
unfolding drain_runs available_capacity on_error ◌>>=◌ pure
drain_runs-claims api d (pos max_jobs) h quiet =
    let (r, h') = d.count_active h in
    counted_claims api quiet max_jobs (claims h) r h'
      (run_keeps (quiet.by_count_active (claims h)) h (omega arith))
drain_runs-claims api d (negsuc n) h quiet =
    drain_with-claims api quiet max_drain_per_cycle_unlimited (claims h) h (omega arith)
