-- ===== src/TfCmd/Execute/Avoids.antt =====
-- What the commands of tfapply.go and tfplan.go never do.
use building_block_runner.Prelude.{
  String, Bool, true, false, Option, none, some, List, ◌≡◌, refl, if◌then◌else◌, is_empty,
}
use building_block_runner.TfCmd.Outside.{
  Error, Event, apply_fresh, apply_plan, tf_plan, tf_destroy, OutputMeta,
}
use building_block_runner.TfCmd.Exec.{Cmd, Exec, ◌>>=◌, modify_state}
use building_block_runner.TfCmd.Params.{GenericTfCmd}
use building_block_runner.TfCmd.Keeps.{
  Keeps, Stable, is_major, Keeps-ask, Keeps-println, Keeps-bind, Keeps-catch, Keeps-raise,
  Keeps-pure, Keeps-if, Keeps-else,
}
use building_block_runner.TfCmd.Progress.Avoids.{
  Avoids, Harmless, Avoids-Stable, ask-Avoids, start_run-Avoids, advance_step-Avoids,
  complete_run-Avoids, fail-Avoids, or_fail-Avoids,
}
use building_block_runner.TfCmd.Progress.{or_fail}
use building_block_runner.TfCmd.Source.Invariants.{create_fresh_command_wd-keeps}
use building_block_runner.TfCmd.Init.{init}
use building_block_runner.TfCmd.Init.Invariants.{init-keeps}
use building_block_runner.TfCmd.Workspace.Invariants.{use_workspace_if_needed-keeps}
use building_block_runner.TfCmd.Env.Invariants.{build_tf_env-keeps}
use building_block_runner.TfCmd.Env.{Environment}
use building_block_runner.TfCmd.Inputs.Invariants.{save_input_files-keeps}
use building_block_runner.TfCmd.Script.NoError.{run_pre_run_script-keeps}
use building_block_runner.TfCmd.Vars.Invariants.{vars-keeps}
use building_block_runner.TfCmd.Execute.{
  prepare_run, pre_run, unless_failed, init_with_hint, assign_output, run_tf_apply,
  apply_predecessor_plan, close_then_raise, wrap, upload_plan, collect_output, set_changes_detected,
  execute_apply, execute_plan,
}

module _ {bad : Event → Bool} (harmless : Harmless bad) (c : GenericTfCmd) where
  stable : Stable (Avoids bad)
  stable = Avoids-Stable harmless

  hinted_init-Avoids : (b : Bool) → Keeps (Avoids bad) (if b then init_with_hint c else init c)
  unfolding init_with_hint
  hinted_init-Avoids true =
      Keeps-catch _ _ (init-keeps stable c)
        λ e. Keeps-bind _ _ (Keeps-println stable _) λ x. Keeps-raise e
  hinted_init-Avoids false = init-keeps stable c

  unless_failed-Avoids :
      (msg : Option String) (e : Option Error) → Keeps (Avoids bad) (unless_failed c msg e)
  unfolding unless_failed
  unless_failed-Avoids msg none = Keeps-pure msg
  unless_failed-Avoids msg (some e) = fail-Avoids harmless c e msg

  assign_output-Avoids : Keeps (Avoids bad) (modify_state assign_output)
  unfolding assign_output modify_state
  assign_output-Avoids = record { at = λ s h. h }

  collect_output-Avoids :
      (o : List (String × OutputMeta)) → Keeps (Avoids bad) (modify_state (collect_output c o))
  unfolding collect_output modify_state
  collect_output-Avoids o = record { at = λ s h. h }

  changes_detected-Avoids : (b : Bool) → Keeps (Avoids bad) (modify_state (set_changes_detected b))
  unfolding modify_state
  changes_detected-Avoids b = record { at = λ s h. h }

  pre_run-Avoids : (env : Environment) → Keeps (Avoids bad) (pre_run c env)
  unfolding pre_run
  pre_run-Avoids env =
      Keeps-bind _ _ (run_pre_run_script-keeps stable c env) λ x. unless_failed-Avoids x.0 x.1

  part :
      {A B : Type 0} (m : Exec A) (f : A → Exec B)
      → Keeps (Avoids bad) m
      → ((a : A) → Keeps (Avoids bad) (f a))
      → Keeps (Avoids bad) (or_fail c m >>= f)
  part m f km kf = Keeps-bind _ f (or_fail-Avoids harmless c m km) kf

  prepare_run-Avoids : (b : Bool) → Keeps (Avoids bad) (prepare_run c b)
  unfolding prepare_run
  prepare_run-Avoids b = Keeps-bind _ _ (start_run-Avoids harmless) λ x1.
      part _ _ (create_fresh_command_wd-keeps stable c) λ x2.
        part _ _ (Keeps-ask stable _ _ refl) λ x3. part _ _ (build_tf_env-keeps stable c) λ env.
          part _ _ (Keeps-ask stable _ _ refl) λ x4. Keeps-bind _ _ assign_output-Avoids λ x5.
            Keeps-bind _ _ (advance_step-Avoids harmless c none) λ x6.
              part _ _ (save_input_files-keeps stable c) λ x7. part _ _ (vars-keeps stable c) λ x8.
                Keeps-bind _ _ (advance_step-Avoids harmless c none) λ x9.
                  part _ _ (hinted_init-Avoids b) λ y1.
                    part _ _ (use_workspace_if_needed-keeps stable c) λ y2.
                      Keeps-bind _ _ (advance_step-Avoids harmless c none)
                        λ y3. Keeps-bind _ _ (pre_run-Avoids env) (advance_step-Avoids harmless c)

-- A change of the infrastructure or of its state.
abbrev pub changes : Event → Bool
changes apply_fresh = true
changes (apply_plan f) = true
changes (tf_destroy b) = true
changes _ = false

-- A new plan, which is what a run without the previewed one makes.
abbrev pub replans : Event → Bool
replans apply_fresh = true
replans (tf_plan f) = true
replans (tf_destroy b) = true
replans _ = false

changes-Harmless : Harmless changes
changes-Harmless = record { minor = minor; report = λ r. refl }
  where
    minor : (e : Event) → is_major e ≡ false → changes e ≡ false
    minor apply_fresh h = h
    minor (apply_plan f) h = h
    minor (tf_destroy b) h = h
    minor _ h = refl

replans-Harmless : Harmless replans
replans-Harmless = record { minor = minor; report = λ r. refl }
  where
    minor : (e : Event) → is_major e ≡ false → replans e ≡ false
    minor apply_fresh h = h
    minor (tf_plan f) h = h
    minor (tf_destroy b) h = h
    minor _ h = refl

module _ (c : GenericTfCmd) where
  upload_plan-Avoids : Keeps (Avoids changes) (upload_plan c)
  unfolding upload_plan wrap
  upload_plan-Avoids =
      Keeps-if (is_empty c.artifact_upload_url) _ _
        (or_fail-Avoids changes-Harmless c _ (Keeps-raise _))
        (part changes-Harmless c _ _
          (Keeps-catch _ _ (Keeps-ask (stable changes-Harmless c) _ _ refl) λ e. Keeps-raise _)
          λ plan.
            or_fail-Avoids changes-Harmless c _
              (Keeps-catch _ _ (ask-Avoids changes-Harmless _ _ refl) λ e. Keeps-raise _))

  execute_plan-Keeps : Keeps (Avoids changes) (execute_plan c)
  unfolding execute_plan
  execute_plan-Keeps = Keeps-bind _ _ (prepare_run-Avoids changes-Harmless c true) λ x1.
      part changes-Harmless c _ _ (ask-Avoids changes-Harmless _ _ refl) λ changed.
        Keeps-bind _ _ (changes_detected-Avoids changes-Harmless c changed)
          λ x2. Keeps-bind _ _ upload_plan-Avoids λ x3. complete_run-Avoids changes-Harmless c none

  close_then_raise-Avoids :
      (file : String) (e : Error) → Keeps (Avoids replans) (close_then_raise c file e)
  unfolding close_then_raise
  close_then_raise-Avoids file e =
      Keeps-bind _ _
        (Keeps-catch _ _ (Keeps-ask (stable replans-Harmless c) _ _ refl) λ e'. Keeps-pure tt)
        λ x. Keeps-raise _

  apply_predecessor_plan-Avoids : Keeps (Avoids replans) (apply_predecessor_plan c)
  unfolding apply_predecessor_plan wrap
  apply_predecessor_plan-Avoids =
      let s = stable replans-Harmless c in
      Keeps-bind _ _ (Keeps-println s _) λ x1.
        Keeps-bind _ _ (Keeps-catch _ _ (Keeps-ask s _ _ refl) λ e. Keeps-raise _) λ x2.
          Keeps-bind _ _ (Keeps-catch _ _ (Keeps-ask s _ _ refl) (close_then_raise-Avoids _)) λ x3.
            Keeps-bind _ _ (Keeps-catch _ _ (Keeps-ask s _ _ refl) λ e. Keeps-raise _)
              λ x4. Keeps-catch _ _ (ask-Avoids replans-Harmless _ _ refl) λ e. Keeps-raise _

  run_tf_apply-Avoids : is_empty c.artifact_url ≡ false → Keeps (Avoids replans) (run_tf_apply c)
  unfolding run_tf_apply
  run_tf_apply-Avoids linked =
      Keeps-else (is_empty c.artifact_url) _ _ linked
        (or_fail-Avoids replans-Harmless c _ apply_predecessor_plan-Avoids)

  execute_apply-Keeps : is_empty c.artifact_url ≡ false → Keeps (Avoids replans) (execute_apply c)
  unfolding execute_apply
  execute_apply-Keeps linked = Keeps-bind _ _ (prepare_run-Avoids replans-Harmless c false) λ x1.
      Keeps-bind _ _ (run_tf_apply-Avoids linked) λ x2.
        Keeps-bind _ _ (advance_step-Avoids replans-Harmless c none) λ x3.
          part replans-Harmless c _ _ (Keeps-ask (stable replans-Harmless c) _ _ refl) λ output.
            Keeps-bind _ _ (collect_output-Avoids replans-Harmless c output)
              λ x4. complete_run-Avoids replans-Harmless c none

  -- A dry run never applies, replays or destroys, however it ends: if no such event was before it,
  -- none is after it.
  pub execute_plan-Avoids : (s : Cmd) → Avoids changes s → Avoids changes (execute_plan c s).1
  execute_plan-Avoids s h = execute_plan-Keeps.at s h

  -- An apply that a plan artifact is linked to never applies afresh, plans or destroys, however it
  -- ends, a failing download or replay included: if no such event was before it, none is after it.
  pub execute_apply-Avoids :
      (s : Cmd)
      → is_empty c.artifact_url ≡ false
      → Avoids replans s
      → Avoids replans (execute_apply c s).1
  execute_apply-Avoids s linked h = (execute_apply-Keeps linked).at s h
