-- ===== src/TfCmd/Progress/Avoids.antt =====
-- Events that never happen: the log and the step keeping of tfcmd.go cause none but reports.
use building_block_runner.Prelude.{
  String, Bool, true, false, Option, none, some, ◌≡◌, All, if◌then◌else◌, ◌<>◌,
}
use building_block_runner.Run.Kinds.{succeeded}
use building_block_runner.Run.Status.{RunStatus, StepStatus}
use building_block_runner.Run.Status
use building_block_runner.TfCmd.Outside.{Error, Event, published, History, Reply, ContextError}
use building_block_runner.TfCmd.Exec.{
  Cmd, Exec, publish_status, set_current_step_message, write_log, note, ask, without_workspaces,
  modify_state,
}
use building_block_runner.TfCmd.Params.{GenericTfCmd}
use building_block_runner.TfCmd.Keeps.{Keeps, Stable, is_major, write_all-keeps, Keeps-catch}
use building_block_runner.TfCmd.Progress.{
  next_step, enter_step, set_current_step_status, report_context, fail_message, fail_with_user_msg,
  fail_and_return_msg, fail_and_return, or_fail, start_run, advance_step, complete_run, user_facing,
}

abbrev pub Avoids : (Event → Bool) → Cmd → Type 0
Avoids bad s = All (λ ev. bad ev ≡ false) s.events

-- Neither a report nor a minor event is among the bad ones.
pub record Harmless (bad : Event → Bool) : Type 0 where
  pub minor : (e : Event) → is_major e ≡ false → bad e ≡ false
  pub report : (r : RunStatus) → bad (published r) ≡ false

module _ {bad : Event → Bool} (harmless : Harmless bad) where
  message-Avoids :
      (m : Option String) (s : Cmd) → Avoids bad s → Avoids bad (set_current_step_message m s)
  unfolding set_current_step_message
  message-Avoids m s h = h

  publish-Avoids : (s : Cmd) → Avoids bad s → Avoids bad (publish_status s)
  unfolding publish_status
  publish-Avoids s h = (harmless.report _, h)

  log_then :
      (b : Bool) (s : Cmd)
      → Avoids bad s
      → Avoids bad (if b then publish_status (set_current_step_message none s) else s)
  log_then true s h = publish-Avoids _ (message-Avoids none s h)
  log_then false s h = h

  log-Avoids : (text : String) (s : Cmd) → Avoids bad s → Avoids bad (write_log text s)
  unfolding write_log
  log-Avoids text s h = log_then s.writes_report (record s { log = s.log <> text }) h

  pub Avoids-Stable : Stable (Avoids bad)
  unfolding note without_workspaces
  Avoids-Stable = record {
    keeps_log = log-Avoids;
    keeps_note = λ e s minor h. (harmless.minor e minor, h);
    keeps_workspaces = λ s h. h;
  }

  pub ask-Avoids :
      {A : Type 0} (e : Event) (f : History → Reply A)
      → bad e ≡ false
      → Keeps (Avoids bad) (ask e f)
  unfolding ask note
  ask-Avoids e f good = record {
    at = λ s h. write_all-keeps Avoids-Stable (f s.events).written (note e s) (good, h);
  }

  enter_step-Avoids :
      (o : Option Status.StepError) (r : RunStatus) (s : Cmd)
      → Avoids bad s
      → Avoids bad (enter_step (r, o) s)
  enter_step-Avoids none r s h = h
  enter_step-Avoids (some e) r s h = h

  next_step-Avoids : (a : Bool) (s : Cmd) → Avoids bad s → Avoids bad (next_step a s)
  unfolding next_step
  next_step-Avoids true s h = h
  next_step-Avoids false s h =
      let moved = Status.next_step (set_current_step_status succeeded s).run_status in
      enter_step-Avoids moved.1 moved.0 (set_current_step_status succeeded s) h

  context-Avoids :
      (timeout : String) (o : Option ContextError) (msg : String) (s : Cmd)
      → Avoids bad s
      → Avoids bad (report_context timeout o msg s).1
  unfolding report_context
  context-Avoids timeout none msg s h = h
  context-Avoids timeout (some x) msg s h = log-Avoids _ s h

  fail_message-Avoids :
      (c : GenericTfCmd) (t : Error) (o : Option String) (step : Option StepStatus) (s : Cmd)
      → Avoids bad s
      → Avoids bad (fail_message c t o step s).1
  unfolding fail_message
  fail_message-Avoids c t o none s h = h
  fail_message-Avoids c t o (some step) s h =
      context-Avoids c.tf_command_timeout_mins _ (user_facing t) _ (log-Avoids _ s h)

  pub start_run-Avoids : Keeps (Avoids bad) start_run
  unfolding start_run modify_state
  start_run-Avoids = record { at = λ s h. publish-Avoids _ h }

  module _ (c : GenericTfCmd) where
    pub advance_step-Avoids : (m : Option String) → Keeps (Avoids bad) (advance_step c m)
    unfolding advance_step modify_state
    advance_step-Avoids m = record {
      at = λ s h. publish-Avoids _ (next_step-Avoids c.async_run _ (message-Avoids m s h));
    }

    pub complete_run-Avoids : (m : Option String) → Keeps (Avoids bad) (complete_run m)
    unfolding complete_run modify_state
    complete_run-Avoids m = record { at = λ s h. publish-Avoids _ (message-Avoids m s h) }

    pub fail-Avoids :
        {A : Type 0} (t : Error) (o : Option String)
        → Keeps (Avoids bad) (fail_and_return_msg {A = A} c t o)
    unfolding fail_and_return_msg fail_with_user_msg
    fail-Avoids t o = record {
      at = λ s h. publish-Avoids _ (message-Avoids _ _ (fail_message-Avoids c t o _ _ h));
    }

    pub or_fail-Avoids :
        {A : Type 0} (m : Exec A) → Keeps (Avoids bad) m → Keeps (Avoids bad) (or_fail c m)
    or_fail-Avoids m kept = Keeps-catch m (fail_and_return c) kept λ e. fail-Avoids e none
