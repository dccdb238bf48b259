-- ===== src/TfCmd/Execute/Outcome.antt =====
-- What `execute` of tfapply.go, tfplan.go and tfdestroy.go reports, on every way out.
use building_block_runner.Prelude.{
  ℕ, suc, ◌+◌, String, Bool, true, false, none, List, [], ◌∷◌, ◌≡◌, refl, ◌⊎◌, inl, All,
  if◌then◌else◌, is_empty,
}
use building_block_runner.Run.Kinds.{in_progress, succeeded, Behavior, apply, detect, destroy}
use building_block_runner.Run.Status.{statuses}
use building_block_runner.TfCmd.Outside.{Error, History, OutputMeta}
use building_block_runner.TfCmd.Exec.{Cmd, modify_state}
use building_block_runner.TfCmd.Params.{GenericTfCmd}
use building_block_runner.TfCmd.Keeps.{
  Keeps, Keeps-ask, Keeps-println, Keeps-bind, Keeps-catch, Keeps-raise, Keeps-pure,
}
use building_block_runner.TfCmd.Triple.{
  Triple, Always, Ends, Triple-modify, Triple-bind, Triple-if, Triple-panic, Triple-pure,
}
use building_block_runner.TfCmd.Progress.Stages.{IsReport}
use building_block_runner.TfCmd.Progress.Moves.{Stage}
use building_block_runner.TfCmd.Progress.Endings.{
  Ended, FailedAt, all_done, advance_step-Stage, complete_run-Ended,
}
use building_block_runner.TfCmd.Workspace.Invariants.{delete_workspace_if_needed-Returns}
use building_block_runner.TfCmd.Execute.{
  run_tf_apply, apply_predecessor_plan, wrap, close_then_raise, upload_plan, collect_output,
  set_outputs, set_changes_detected, execute, execute_apply, execute_plan, execute_destroy,
  steps_of, trigger_steps, init_run_steps,
}
use building_block_runner.TfCmd.Execute.AtStage.{
  println-Stage, write-Stage, flag-Stage, Unfinished, Stage-Unfinished, Stage-Stable, ask-Stage,
  or_fail-Stage, or_fail_then,
}
use building_block_runner.TfCmd.Execute.Prepared.{Fresh, all_pending, prepare_run-Stage}

module _ (c : GenericTfCmd) where
  close_then_raise-keeps :
      (k m : ℕ) (file : String) (e : Error)
      → Keeps (Stage c.async_run k m) (close_then_raise c file e)
  unfolding close_then_raise
  close_then_raise-keeps k m file e =
      Keeps-bind _ _
        (Keeps-catch _ _ (Keeps-ask (Stage-Stable c.async_run k m) _ _ refl) λ e'. Keeps-pure tt)
        λ x. Keeps-raise _

  apply_predecessor_plan-keeps :
      (k m : ℕ) → Keeps (Stage c.async_run k m) (apply_predecessor_plan c)
  unfolding apply_predecessor_plan wrap
  apply_predecessor_plan-keeps k m =
      let stable = Stage-Stable c.async_run k m in
      Keeps-bind _ _ (Keeps-println stable _) λ x1.
        Keeps-bind _ _ (Keeps-catch _ _ (Keeps-ask stable _ _ refl) λ e. Keeps-raise _) λ x2.
          Keeps-bind _ _
            (Keeps-catch _ _ (Keeps-ask stable _ _ refl) (close_then_raise-keeps k m _))
            λ x3.
              Keeps-bind _ _ (Keeps-catch _ _ (Keeps-ask stable _ _ refl) λ e. Keeps-raise _)
                λ x4. Keeps-catch _ _ (ask-Stage c.async_run k m _ _ tt) λ e. Keeps-raise _

  run_tf_apply-Stage :
      (k m n : ℕ)
      → k + suc m ≡ n
      → Triple
          (Stage c.async_run k m)
          (run_tf_apply c)
          (Always (Stage c.async_run k m))
          (FailedAt c.async_run n)
          Unfinished
  unfolding run_tf_apply
  run_tf_apply-Stage k m n sum =
      Triple-if (is_empty c.artifact_url) _ _
        (Triple-bind _ _ (println-Stage c k m _)
          λ x. or_fail-Stage c k m n sum _ (ask-Stage c.async_run k m _ _ tt))
        (or_fail-Stage c k m n sum _ (apply_predecessor_plan-keeps k m))

  collect_output-Stage :
      (k m : ℕ) (output : List (String × OutputMeta)) {E X : Cmd → Type 0}
      → Triple
          (Stage c.async_run k m)
          (modify_state (collect_output c output))
          (Always (Stage c.async_run k m))
          E
          X
  unfolding collect_output
  collect_output-Stage k m output =
      Triple-modify _ (write-Stage c.async_run k m (set_outputs _) λ x. refl)

  execute_apply-Ends :
      Triple
        (Fresh (all_pending c.async_run 5))
        (execute_apply c)
        (Always (Ended succeeded (all_done c.async_run 6)))
        (FailedAt c.async_run 6)
        Unfinished
  unfolding execute_apply
  execute_apply-Ends = Triple-bind _ _ (prepare_run-Stage c 1 false) λ x1.
      Triple-bind _ _ (run_tf_apply-Stage 4 1 6 refl) λ x2.
        Triple-bind _ _ (advance_step-Stage c 4 0 none) λ x3.
          or_fail_then c 5 0 6 refl _ _ (Keeps-ask (Stage-Stable c.async_run 5 0) _ _ refl)
            λ output.
              Triple-bind _ _ (collect_output-Stage 5 0 output) λ x4. complete_run-Ended c 5 none

  upload_plan-Stage :
      (k m n : ℕ)
      → k + suc m ≡ n
      → Triple
          (Stage c.async_run k m)
          (upload_plan c)
          (Always (Stage c.async_run k m))
          (FailedAt c.async_run n)
          Unfinished
  unfolding upload_plan wrap
  upload_plan-Stage k m n sum =
      Triple-if (is_empty c.artifact_upload_url) _ _ (or_fail-Stage c k m n sum _ (Keeps-raise _)) (
        or_fail_then c k m n sum _ _
          (Keeps-catch _ _ (Keeps-ask (Stage-Stable c.async_run k m) _ _ refl) λ e. Keeps-raise _)
          λ plan.
            or_fail-Stage c k m n sum _
              (Keeps-catch _ _ (ask-Stage c.async_run k m _ _ tt) λ e. Keeps-raise _))

  changes_detected-Stage :
      (k m : ℕ) (changed : Bool) {E X : Cmd → Type 0}
      → Triple
          (Stage c.async_run k m)
          (modify_state (set_changes_detected changed))
          (Always (Stage c.async_run k m))
          E
          X
  changes_detected-Stage k m changed = Triple-modify _ (flag-Stage c.async_run k m changed)

  execute_plan-Ends :
      Triple
        (Fresh (all_pending c.async_run 4))
        (execute_plan c)
        (Always (Ended succeeded (all_done c.async_run 5)))
        (FailedAt c.async_run 5)
        Unfinished
  unfolding execute_plan
  execute_plan-Ends = Triple-bind _ _ (prepare_run-Stage c 0 true) λ x1.
      or_fail_then c 4 0 5 refl _ _ (ask-Stage c.async_run 4 0 _ _ tt) λ changed.
        Triple-bind _ _ (changes_detected-Stage 4 0 changed)
          λ x2. Triple-bind _ _ (upload_plan-Stage 4 0 5 refl) λ x3. complete_run-Ended c 4 none

  execute_destroy-Ends :
      Triple
        (Fresh (all_pending c.async_run 5))
        (execute_destroy c)
        (Always (Ended succeeded (all_done c.async_run 6)))
        (FailedAt c.async_run 6)
        Unfinished
  unfolding execute_destroy
  execute_destroy-Ends = Triple-bind _ _ (prepare_run-Stage c 1 true) λ x1.
      Triple-bind _ _
        (Triple-if c.async_run _ _ (or_fail-Stage c 4 1 6 refl _ (ask-Stage c.async_run 4 1 _ _ tt))
          (Triple-pure tt))
        λ x2. or_fail_then c 4 1 6 refl _ _ (ask-Stage c.async_run 4 1 _ _ tt) λ x3.
          Triple-bind _ _ (advance_step-Stage c 4 0 none) λ x4.
            or_fail_then c 5 0 6 refl _ _ (Keeps-ask (Stage-Stable c.async_run 5 0) _ _ refl)
              λ output. Triple-bind _ _ (collect_output-Stage 5 0 output) λ x5.
                Triple-bind _ _
                  (Triple-panic _ (Stage-Unfinished c.async_run 5 0)
                    (delete_workspace_if_needed-Returns (Stage-Stable c.async_run 5 0) c))
                  λ x6. complete_run-Ended c 5 none

-- The steps of a command, less one.
abbrev pub steps_after_first : Behavior → ℕ
steps_after_first apply = 5
steps_after_first detect = 4
steps_after_first destroy = 5

init_run_steps-pending :
    (a : Bool) (b : Behavior)
    → statuses (if a then trigger_steps else steps_of b) ≡ all_pending a (steps_after_first b)
init_run_steps-pending true apply = refl
init_run_steps-pending true detect = refl
init_run_steps-pending true destroy = refl
init_run_steps-pending false apply = refl
init_run_steps-pending false detect = refl
init_run_steps-pending false destroy = refl

execute-Ends :
    (c : GenericTfCmd) (b : Behavior)
    → Triple
        (Fresh (all_pending c.async_run (steps_after_first b)))
        (execute c b)
        (Always (Ended succeeded (all_done c.async_run (suc (steps_after_first b)))))
        (FailedAt c.async_run (suc (steps_after_first b)))
        Unfinished
execute-Ends c apply = execute_apply-Ends c
execute-Ends c detect = execute_plan-Ends c
execute-Ends c destroy = execute_destroy-Ends c

both :
    (es : History)
    → All (IsReport in_progress) es
    → All (λ ev. IsReport in_progress ev ⊎ IsReport in_progress ev) es
both [] h = tt
both (e ∷ r) h = (inl h.0, both r h.1)

pub Fresh-init_run_steps :
    (c : GenericTfCmd) (b : Behavior) (s : Cmd)
    → All (IsReport in_progress) s.events
    → Fresh (all_pending c.async_run (steps_after_first b)) (init_run_steps c b s)
unfolding init_run_steps
Fresh-init_run_steps c b s unpublished = record {
  steps = init_run_steps-pending c.async_run b;
  reports = both s.events unpublished;
}

-- Every command, from its initial steps and where every report published before says IN_PROGRESS,
-- ends in one of three ways. If it returns no error, the last
-- report says SUCCEEDED with every step SUCCEEDED. If it returns an error, the last report says
-- FAILED; the steps before the one that failed are SUCCEEDED, and it and all later ones are FAILED.
-- In both cases that report was published last, and every report before says the same or
-- IN_PROGRESS. If a panic stops it, every published report says IN_PROGRESS. An asynchronous run
-- has one step for all of it.
pub execute-Outcome :
    (c : GenericTfCmd) (b : Behavior) (s : Cmd)
    → All (IsReport in_progress) s.events
    → Ends
        (Always (Ended succeeded (all_done c.async_run (suc (steps_after_first b)))))
        (FailedAt c.async_run (suc (steps_after_first b)))
        Unfinished
        (execute c b (init_run_steps c b s)).0
        (execute c b (init_run_steps c b s)).1
execute-Outcome c b s unpublished =
    (execute-Ends c b).at (init_run_steps c b s) (Fresh-init_run_steps c b s unpublished)
