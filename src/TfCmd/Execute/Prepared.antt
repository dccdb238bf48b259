-- ===== src/TfCmd/Execute/Prepared.antt =====
-- The work up to the pre-run script, common to tfapply.go, tfplan.go and tfdestroy.go, by stages.
use building_block_runner.Prelude.{
  ℕ, suc, ◌+◌, Bool, true, false, Option, none, some, List, ◌∷◌, ◌≡◌, refl, sym, ap, subst, leb,
  length, ◌⊎◌, All, if◌then◌else◌, arith,
}
use building_block_runner.Run.Kinds.{ExecutionStatus, in_progress}
use building_block_runner.Run.Status.{RunStatus, StepStatus, update_current, statuses}
use building_block_runner.Run.Status
use building_block_runner.Run.Status.Laws.{length-statuses}
use building_block_runner.Prelude.Int.{pos}
use building_block_runner.TfCmd.Exec.{Cmd, modify_state, publish_status}
use building_block_runner.TfCmd.Params.{GenericTfCmd}
use building_block_runner.TfCmd.Keeps.{
  Keeps, Keeps-ask, Keeps-println, Keeps-bind, Keeps-catch, Keeps-raise,
}
use building_block_runner.TfCmd.Triple.{Triple, Always, Triple-modify, Triple-bind, Triple-panic}
use building_block_runner.TfCmd.Progress.{set_run_status, first_step, start_run}
use building_block_runner.TfCmd.Progress.Stages.{IsReport, Running}
use building_block_runner.TfCmd.Progress.Moves.{Stage, progress, publish-Running}
use building_block_runner.TfCmd.Progress.Endings.{FailedAt, advance_step-Stage}
use building_block_runner.TfCmd.Source.Invariants.{create_fresh_command_wd-keeps}
use building_block_runner.TfCmd.Init.{init}
use building_block_runner.TfCmd.Init.Invariants.{init-keeps}
use building_block_runner.TfCmd.Workspace.Invariants.{use_workspace_if_needed-keeps}
use building_block_runner.TfCmd.Env.Invariants.{build_tf_env-keeps}
use building_block_runner.TfCmd.Env.{Environment}
use building_block_runner.TfCmd.Inputs.Invariants.{save_input_files-keeps}
use building_block_runner.TfCmd.Script.NoError.{run_pre_run_script-Returns}
use building_block_runner.TfCmd.Vars.Invariants.{vars-keeps}
use building_block_runner.TfCmd.Execute.{prepare_run, pre_run, init_with_hint, assign_output}
use building_block_runner.TfCmd.Execute.AtStage.{
  Unfinished, Stage-Unfinished, Stage-Stable, or_fail_then, unless_failed-Stage,
}

-- A command's steps are pending, and nothing but progress was reported.
pub record Fresh (st : List ExecutionStatus) (s : Cmd) : Type 0 where
  pub steps : statuses s.run_status.steps ≡ st
  pub reports : All (λ ev. IsReport in_progress ev ⊎ IsReport in_progress ev) s.events

-- The statuses of the steps before the start; `m` steps come after the first.
abbrev pub all_pending : Bool → ℕ → List ExecutionStatus
all_pending true m = progress 0 0
all_pending false m = progress 0 m

nonempty :
    (st : List ExecutionStatus) (e : ExecutionStatus) (steps : List StepStatus)
    → statuses steps ≡ e ∷ st
    → leb (length steps) 0 ≡ false
nonempty st e steps h = ground (arith, length-statuses steps, ap length h)

start_true :
    (b : Bool) (r' r : RunStatus) (e : Status.StepError)
    → b ≡ false
    → (if◌then◌else◌ {A = RunStatus × Option Status.StepError} b (r, some e) (r', none)).0 ≡ r'
start_true true r' r e h = ground arith
start_true false r' r e h = refl

start-Running :
    (m : ℕ) (s : Cmd)
    → Fresh (progress 0 m) s
    → Running 0 (progress 0 m) (publish_status (set_run_status in_progress (first_step s)))
unfolding Status.first_step
start-Running m s h =
    let r' = record s.run_status { current_step_index = pos 0 } in
    publish-Running 0 (progress 0 m) _ (
      subst
        (λ r. Running 0 (progress 0 m) (set_run_status in_progress (record s { run_status = r })))
        (sym
          (start_true _ r' s.run_status Status.no_steps (nonempty _ _ s.run_status.steps h.steps)))
        (record {
          report = record { status = refl; steps = h.steps; reports = h.reports };
          index = refl;
        }))

start-Stage :
    (a : Bool) (m : ℕ) (s : Cmd)
    → Fresh (all_pending a m) s
    → Stage a 0 m (publish_status (set_run_status in_progress (first_step s)))
start-Stage true m s h = start-Running 0 s h
start-Stage false m s h = start-Running m s h

module _ (c : GenericTfCmd) (m : ℕ) where
  start_run-Stage :
      {E X : Cmd → Type 0}
      → Triple (Fresh (all_pending c.async_run m)) start_run (Always (Stage c.async_run 0 m)) E X
  unfolding start_run
  start_run-Stage = Triple-modify _ (start-Stage c.async_run m)

  assign_output-Stage :
      {E X : Cmd → Type 0} (k : ℕ)
      → Triple
          (Stage c.async_run k m)
          (modify_state assign_output)
          (Always (Stage c.async_run k m))
          E
          X
  unfolding assign_output
  assign_output-Stage k = Triple-modify _ (keeps c.async_run)
    where
      keeps : (a : Bool) (s : Cmd) → Stage a k m s → Stage a k m (record s { writes_report = true })
      keeps true s h = record {
        report = record {
          status = h.report.status;
          steps = h.report.steps;
          reports = h.report.reports;
        };
        index = h.index;
      }
      keeps false s h = record {
        report = record {
          status = h.report.status;
          steps = h.report.steps;
          reports = h.report.reports;
        };
        index = h.index;
      }

module _ (c : GenericTfCmd) (r : ℕ) where
  pre_run-Stage :
      (env : Environment)
      → Triple
          (Stage c.async_run 3 (suc r))
          (pre_run c env)
          (Always (Stage c.async_run 3 (suc r)))
          (FailedAt c.async_run (5 + r))
          Unfinished
  unfolding pre_run
  pre_run-Stage env =
      Triple-bind _ _
        (Triple-panic _ (Stage-Unfinished c.async_run 3 (suc r))
          (run_pre_run_script-Returns (Stage-Stable c.async_run 3 (suc r)) c env))
        λ x. unless_failed-Stage c 3 (suc r) (5 + r) (omega arith) x.0 x.1

  hinted_init-keeps :
      (k m : ℕ) (hinted : Bool)
      → Keeps (Stage c.async_run k m) (if hinted then init_with_hint c else init c)
  unfolding init_with_hint
  hinted_init-keeps k m true =
      let stable = Stage-Stable c.async_run k m in
      Keeps-catch _ _ (init-keeps stable c)
        λ e. Keeps-bind _ _ (Keeps-println stable _) λ x. Keeps-raise e
  hinted_init-keeps k m false = init-keeps (Stage-Stable c.async_run k m) c

  pub prepare_run-Stage :
      (hinted : Bool)
      → Triple
          (Fresh (all_pending c.async_run (suc (suc (suc (suc r))))))
          (prepare_run c hinted)
          (Always (Stage c.async_run 4 r))
          (FailedAt c.async_run (5 + r))
          Unfinished
  unfolding prepare_run
  prepare_run-Stage hinted =
      let m = suc (suc r) in
      let at0 = Stage-Stable c.async_run 0 (suc (suc m)) in
      let at1 = Stage-Stable c.async_run 1 (suc m) in
      let at2 = Stage-Stable c.async_run 2 m in
      Triple-bind _ _ (start_run-Stage c (suc (suc m))) λ x1.
        or_fail_then c 0 (suc (suc m)) (5 + r) (omega arith) _ _
          (create_fresh_command_wd-keeps at0 c)
          λ x2.
            or_fail_then c 0 (suc (suc m)) (5 + r) (omega arith) _ _ (Keeps-ask at0 _ _ refl) λ x3.
              or_fail_then c 0 (suc (suc m)) (5 + r) (omega arith) _ _ (build_tf_env-keeps at0 c)
                λ env.
                  or_fail_then c 0 (suc (suc m)) (5 + r) (omega arith) _ _ (Keeps-ask at0 _ _ refl)
                    λ x4. Triple-bind _ _ (assign_output-Stage c (suc (suc m)) 0) λ x5.
                      Triple-bind _ _ (advance_step-Stage c 0 (suc m) none) λ x6.
                        or_fail_then c 1 (suc m) (5 + r) (omega arith) _ _
                          (save_input_files-keeps at1 c)
                          λ x7.
                            or_fail_then c 1 (suc m) (5 + r) (omega arith) _ _ (vars-keeps at1 c)
                              λ x8. Triple-bind _ _ (advance_step-Stage c 1 m none) λ x9.
                                or_fail_then c 2 m (5 + r) (omega arith) _ _
                                  (hinted_init-keeps 2 m hinted)
                                  λ y1.
                                    or_fail_then c 2 m (5 + r) (omega arith) _ _
                                      (use_workspace_if_needed-keeps at2 c)
                                      λ y2.
                                        Triple-bind _ _ (advance_step-Stage c 2 (suc r) none) λ y3.
                                          Triple-bind _ _ (pre_run-Stage env)
                                            λ msg. advance_step-Stage c 3 r msg
