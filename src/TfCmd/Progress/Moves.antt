-- ===== src/TfCmd/Progress/Moves.antt =====
-- `startRun`, `advanceStep`, `completeRun` and `fail` of tfcmd.go, by the statuses of the steps.
use building_block_runner.Prelude.{
  ℕ, zero, suc, ◌+◌, String, len, Bool, true, false, Option, none, some, List, [], ◌∷◌, ◌++◌, ◌≡◌,
  refl, sym, ap, ◌∙◌, subst, modify, replicate, length, length-append, length-replicate,
  if◌then◌else◌, arith,
}
use building_block_runner.Prelude.Int.{pos, ◌<ℤ◌, inc}
use building_block_runner.Run.Kinds.{ExecutionStatus, pending, in_progress, succeeded}
use building_block_runner.Run.Status.{StepStatus, RunStatus, statuses, clone, update_current}
use building_block_runner.Run.Status
use building_block_runner.Run.Status.Laws.{statuses-update_current, length-statuses}
use building_block_runner.TfCmd.Exec.{Cmd, publish_status, set_current_step_message}
use building_block_runner.TfCmd.Progress.{
  next_step, enter_step, begin_step, set_step_status, set_current_step_status,
}
use building_block_runner.TfCmd.Progress.Stages.{
  Running, step_index, publish-Reporting, message-Reporting,
}

-- The first step is never marked as in progress.
abbrev pub now : ℕ → ExecutionStatus
now zero = pending
now (suc k) = in_progress

-- `k` steps are done, and `m` more come after the current one.
abbrev pub progress : ℕ → ℕ → List ExecutionStatus
progress k m = replicate k succeeded ++ now k ∷ replicate m pending

-- A run of the meshStack API's asynchronous kind has one step and stays at it.
abbrev pub Stage : Bool → ℕ → ℕ → Cmd → Type 0
Stage true k m = Running 0 (progress 0 0)
Stage false k m = Running k (progress k m)

pub modify-replicate {ℓ} :
    {A : Type ℓ} (k : ℕ) (a x : A) (f : A → A) (r : List A)
    → modify k f (replicate k a ++ x ∷ r) ≡ replicate k a ++ f x ∷ r
modify-replicate zero a x f r = refl
modify-replicate (suc k) a x f r = ap (λ ys. a ∷ ys) (modify-replicate k a x f r)

pub replicate_snoc {ℓ} :
    {A : Type ℓ} (k : ℕ) (a : A) (r : List A) → replicate k a ++ a ∷ r ≡ replicate (suc k) a ++ r
replicate_snoc zero a r = refl
replicate_snoc (suc k) a r = ap (λ ys. a ∷ ys) (replicate_snoc k a r)

progress-advance :
    (k m : ℕ)
    → modify (suc k) (λ _. in_progress) (modify k (λ _. succeeded) (progress k (suc m)))
      ≡ progress (suc k) m
progress-advance k m =
    ap (modify (suc k) (λ _. in_progress)) (
      modify-replicate k succeeded (now k) (λ _. succeeded) (replicate (suc m) pending)
      ∙ replicate_snoc k succeeded (replicate (suc m) pending))
    ∙ modify-replicate (suc k) succeeded pending (λ _. in_progress) (replicate m pending)

length-progress : (k m : ℕ) → length (progress k m) ≡ k + suc m
length-progress k m =
    length-append (replicate k succeeded) (now k ∷ replicate m pending)
    ∙ omega (arith, length-replicate k succeeded, length-replicate m pending)

pub set_status-steps :
    (e : ExecutionStatus) (k : ℕ) (st : List ExecutionStatus) (s : Cmd)
    → step_index s ≡ pos k
    → statuses s.run_status.steps ≡ st
    → statuses (set_current_step_status e s).run_status.steps ≡ modify k (λ _. e) st
set_status-steps e k st s at_k is_st =
    statuses-update_current (set_step_status e) (λ _. e) (λ x. refl) s.run_status k st at_k is_st

pub length-modify {ℓ} :
    {A : Type ℓ} (k : ℕ) (f : A → A) (xs : List A) → length (modify k f xs) ≡ length xs
length-modify k f [] = refl
length-modify zero f (x ∷ xs) = refl
length-modify (suc k) f (x ∷ xs) = ap suc (length-modify k f xs)

index-message :
    (m : Option String) (s : Cmd) → step_index (set_current_step_message m s) ≡ step_index s
unfolding set_current_step_message
index-message m s = refl

pub message-Running :
    (m : Option String) (k : ℕ) (st : List ExecutionStatus) (s : Cmd)
    → Running k st s
    → Running k st (set_current_step_message m s)
message-Running m k st s h = record {
  report = message-Reporting m s h.report;
  index = index-message m s ∙ h.index;
}

pub publish-Running :
    (k : ℕ) (st : List ExecutionStatus) (s : Cmd) → Running k st s → Running k st (publish_status s)
unfolding publish_status clone
publish-Running k st s h = record { report = publish-Reporting s h.report; index = h.index }

enter_true :
    (b : Bool) (r' r : RunStatus) (e : Status.StepError) (s : Cmd)
    → b ≡ true
    → enter_step (if b then (r', none) else (r, some e)) s ≡ enter_step (r', none) s
enter_true true r' r e s h = refl
enter_true false r' r e s h = ground arith

pub next_step-progress :
    (k m : ℕ) (s : Cmd)
    → Running k (progress k (suc m)) s
    → Running (suc k) (progress (suc k) m) (next_step false s)
unfolding next_step Status.next_step
next_step-progress k m s h =
    let s' = set_current_step_status succeeded s in
    let marked = set_status-steps succeeded k (progress k (suc m)) s h.index h.report.steps in
    subst (Running (suc k) (progress (suc k) m))
      (sym (
        enter_true _ (record s'.run_status { current_step_index = inc (step_index s) })
          s'.run_status Status.step_idx_too_high s' (moves marked)))
      (record {
        report = record {
          status = h.report.status;
          steps =
              statuses-update_current (begin_step (len s.log)) (λ _. in_progress) (λ x. refl)
                (record s'.run_status { current_step_index = inc (step_index s) }) (suc k) _
                (ap inc h.index) marked
              ∙ progress-advance k m;
          reports = h.report.reports;
        };
        index = ap inc h.index;
      })
  where
    moves :
        statuses (set_current_step_status succeeded s).run_status.steps
          ≡ modify k (λ _. succeeded) (progress k (suc m))
        → (inc (step_index s)
            <ℤ pos (length (set_current_step_status succeeded s).run_status.steps))
          ≡ true
    moves marked = ground (
      arith,
      marked,
      h.index,
      length-statuses (set_current_step_status succeeded s).run_status.steps,
      length-modify k (λ _. succeeded) (progress k (suc m)),
      length-progress k (suc m),
    )
