-- ===== src/TfCmd/Progress/Endings.antt =====
-- How `startRun`, `advanceStep`, `completeRun` and `fail` of tfcmd.go lead from stage to stage.
use building_block_runner.Prelude.{
  ℕ, suc, ◌+◌, String, Bool, true, false, Option, none, some, List, [], ◌∷◌, ◌++◌, ◌≡◌, refl, ap,
  ◌∙◌, inl, inr, ◌⊎◌, append-nil, replicate, length-replicate, All,
}
use building_block_runner.Run.Kinds.{ExecutionStatus, pending, in_progress, succeeded, failed}
use building_block_runner.Run.Status.{StepStatus, statuses, fail_run_and_not_finished_steps}
use building_block_runner.Run.Status.Laws.{fail_run_and_not_finished_steps-statuses, clone_lem}
use building_block_runner.TfCmd.Outside.{Error, published, History, ContextError}
use building_block_runner.TfCmd.Exec.{Cmd, publish_status, set_current_step_message}
use building_block_runner.TfCmd.Params.{GenericTfCmd}
use building_block_runner.TfCmd.Triple.{Triple, Always, Triple-modify}
use building_block_runner.TfCmd.Progress.{
  next_step, set_current_step_status, set_run_status, report_context, fail_message,
  fail_with_user_msg, fail_and_return_msg, advance_step, complete_run, user_facing,
}
use building_block_runner.TfCmd.Progress.Stages.{
  Reporting, Running, IsReport, log-Reporting, message-Reporting,
}
use building_block_runner.TfCmd.Progress.Moves.{
  Stage, progress, now, message-Running, publish-Running, next_step-progress, set_status-steps,
  modify-replicate, replicate_snoc,
}

-- The run is over: its last report says `e` and the statuses `st` of the steps, it was published
-- last, and the reports before said `e` too or that the run was in progress.
pub record Ended (e : ExecutionStatus) (st : List ExecutionStatus) (s : Cmd) : Type 0 where
  pub report : s.report_status ≡ s.run_status
  pub status : s.report_status.status ≡ e
  pub steps : statuses s.report_status.steps ≡ st
  pub reports : All (λ ev. IsReport e ev ⊎ IsReport in_progress ev) s.events
  pub last : (h : History) × (s.events ≡ published s.report_status ∷ h)

publish-Ended :
    (e : ExecutionStatus) (st : List ExecutionStatus) (s : Cmd)
    → Reporting e st s
    → Ended e st (publish_status s)
unfolding publish_status
publish-Ended e st s h = record {
  report = clone_lem s.run_status;
  status = ap (λ r. r.status) (clone_lem s.run_status) ∙ h.status;
  steps = ap (λ r. statuses r.steps) (clone_lem s.run_status) ∙ h.steps;
  reports = (inl (ap (λ r. r.status) (clone_lem s.run_status) ∙ h.status), h.reports);
  last = (s.events, refl);
}

next_step-Stage :
    (a : Bool) (k m : ℕ) (s : Cmd) → Stage a k (suc m) s → Stage a (suc k) m (next_step a s)
unfolding next_step
next_step-Stage true k m s h = h
next_step-Stage false k m s h = next_step-progress k m s h

message-Stage :
    (a : Bool) (k m : ℕ) (msg : Option String) (s : Cmd)
    → Stage a k m s
    → Stage a k m (set_current_step_message msg s)
message-Stage true k m msg s h = message-Running msg 0 (progress 0 0) s h
message-Stage false k m msg s h = message-Running msg k (progress k m) s h

publish-Stage : (a : Bool) (k m : ℕ) (s : Cmd) → Stage a k m s → Stage a k m (publish_status s)
publish-Stage true k m s h = publish-Running 0 (progress 0 0) s h
publish-Stage false k m s h = publish-Running k (progress k m) s h

module _ {E X : Cmd → Type 0} (c : GenericTfCmd) where
  pub advance_step-Stage :
      (k m : ℕ) (msg : Option String)
      → Triple
          (Stage c.async_run k (suc m))
          (advance_step c msg)
          (Always (Stage c.async_run (suc k) m))
          E
          X
  unfolding advance_step
  advance_step-Stage k m msg = Triple-modify _ λ s h.
      publish-Stage c.async_run (suc k) m (next_step c.async_run (set_current_step_message msg s)) (
        next_step-Stage c.async_run k m (set_current_step_message msg s)
          (message-Stage c.async_run k (suc m) msg s h))

-- The statuses of the steps of a run that ended well.
abbrev pub all_done : Bool → ℕ → List ExecutionStatus
all_done true n = succeeded ∷ []
all_done false n = replicate n succeeded

-- Reports of a run in progress may be followed by any.
in_progress_only :
    (e : ExecutionStatus) (es : History)
    → All (λ ev. IsReport in_progress ev ⊎ IsReport in_progress ev) es
    → All (λ ev. IsReport e ev ⊎ IsReport in_progress ev) es
in_progress_only e [] h = tt
in_progress_only e (ev ∷ es) (inl h, hs) = (inr h, in_progress_only e es hs)
in_progress_only e (ev ∷ es) (inr h, hs) = (inr h, in_progress_only e es hs)

complete-progress :
    (k : ℕ) (s : Cmd)
    → Running k (progress k 0) s
    → Reporting succeeded
        (replicate (suc k) succeeded)
        (record (set_current_step_status succeeded s) {
          run_status = record (set_current_step_status succeeded s).run_status {
            status = succeeded;
          };
        })
complete-progress k s h = record {
  status = refl;
  steps =
      set_status-steps succeeded k (progress k 0) s h.index h.report.steps
      ∙ (modify-replicate k succeeded (now k) (λ _. succeeded) []
          ∙ (replicate_snoc k succeeded [] ∙ append-nil (replicate (suc k) succeeded)));
  reports = in_progress_only succeeded s.events h.report.reports;
}

complete-Stage :
    (a : Bool) (k : ℕ) (s : Cmd)
    → Stage a k 0 s
    → Reporting succeeded
        (all_done a (suc k))
        (set_run_status succeeded (set_current_step_status succeeded s))
complete-Stage true k s h = complete-progress 0 s h
complete-Stage false k s h = complete-progress k s h

-- The statuses of the `n` steps of a run that failed: those before the one that failed are done.
abbrev pub FailedAt : Bool → ℕ → Cmd → Type 0
FailedAt true n s = Ended failed (failed ∷ []) s
FailedAt false n s =
    (k : ℕ) × (m : ℕ) × (k + suc m ≡ n)
    × Ended failed (replicate k succeeded ++ replicate (suc m) failed) s

fail-Running :
    (k m : ℕ) (s : Cmd)
    → Running k (progress k m) s
    → Reporting failed
        (replicate k succeeded ++ replicate (suc m) failed)
        (record s { run_status = fail_run_and_not_finished_steps s.run_status })
unfolding fail_run_and_not_finished_steps
fail-Running k m s h = record {
  status = refl;
  steps =
      fail_run_and_not_finished_steps-statuses s.run_status k (now k ∷ replicate m pending) h.index
        h.report.steps
      ∙ ap (λ n. replicate k succeeded ++ replicate (suc n) failed) (length-replicate m pending);
  reports = in_progress_only failed s.events h.report.reports;
}

module _ {e : ExecutionStatus} {st : List ExecutionStatus} where
  context-Reporting :
      (timeout : String) (o : Option ContextError) (msg : String) (s : Cmd)
      → Reporting e st s
      → Reporting e st (report_context timeout o msg s).1
  unfolding report_context
  context-Reporting timeout none msg s h = h
  context-Reporting timeout (some x) msg s h = log-Reporting _ s h

  fail_message-Reporting :
      (c : GenericTfCmd) (t : Error) (o : Option String) (step : Option StepStatus) (s : Cmd)
      → Reporting e st s
      → Reporting e st (fail_message c t o step s).1
  unfolding fail_message
  fail_message-Reporting c t o none s h = h
  fail_message-Reporting c t o (some step) s h =
      context-Reporting c.tf_command_timeout_mins _ (user_facing t) _ (log-Reporting _ s h)

fail-Ended :
    (c : GenericTfCmd) (t : Error) (o : Option String) (st : List ExecutionStatus) (s : Cmd)
    → Reporting failed st (record s { run_status = fail_run_and_not_finished_steps s.run_status })
    → Ended failed st (fail_with_user_msg c t o s)
unfolding fail_with_user_msg
fail-Ended c t o st s h =
    publish-Ended failed st _ (message-Reporting _ _ (fail_message-Reporting c t o _ _ h))

fail-Stage :
    (a : Bool) (k m n : ℕ) (c : GenericTfCmd) (t : Error) (o : Option String) (s : Cmd)
    → k + suc m ≡ n
    → Stage a k m s
    → FailedAt a n (fail_with_user_msg c t o s)
fail-Stage true k m n c t o s sum h = fail-Ended c t o _ s (fail-Running 0 0 s h)
fail-Stage false k m n c t o s sum h = (k, m, sum, fail-Ended c t o _ s (fail-Running k m s h))

module _ (c : GenericTfCmd) {X : Cmd → Type 0} where
  pub fail_and_return-FailedAt :
      {A : Type 0} {Q : A → Cmd → Type 0} (k m n : ℕ) (t : Error) (o : Option String)
      → k + suc m ≡ n
      → Triple
          (Stage c.async_run k m)
          (fail_and_return_msg {A = A} c t o)
          Q
          (FailedAt c.async_run n)
          X
  unfolding fail_and_return_msg
  fail_and_return-FailedAt k m n t o sum = record {
    at = λ s. fail-Stage c.async_run k m n c t o s sum;
  }

  pub complete_run-Ended :
      {E : Cmd → Type 0} (k : ℕ) (msg : Option String)
      → Triple
          (Stage c.async_run k 0)
          (complete_run msg)
          (Always (Ended succeeded (all_done c.async_run (suc k))))
          E
          X
  unfolding complete_run
  complete_run-Ended k msg = Triple-modify _ λ s h.
      publish-Ended succeeded _ _
        (complete-Stage c.async_run k _ (message-Stage c.async_run k 0 msg s h))
