-- ===== src/TfCmd/Progress/Stages.antt =====
-- How far a run is, by the statuses of its steps, and what the step keeping of tfcmd.go does to it.
use building_block_runner.Prelude.{
  ℕ, String, Bool, true, false, Option, none, some, List, ◌≡◌, refl, ◌∙◌, ◌⊎◌, inl, All,
  if◌then◌else◌, ◌<>◌, arith,
}
use building_block_runner.Prelude.Int.{ℤ, pos}
use building_block_runner.Run.Kinds.{ExecutionStatus, in_progress}
use building_block_runner.Run.Status.{StepStatus, statuses, clone}
use building_block_runner.Run.Status.Laws.{statuses-keep}
use building_block_runner.TfCmd.Outside.{Event, published, History, Reply}
use building_block_runner.TfCmd.Exec.{
  Cmd, publish_status, set_current_step_message, message_step, log_from, write_log, note, ask,
  without_workspaces,
}
use building_block_runner.TfCmd.Keeps.{Keeps, Stable, is_major, write_all-keeps}

-- A published report has the status `e`.
abbrev pub IsReport : ExecutionStatus → Event → Type 0
IsReport e (published r) = r.status ≡ e
IsReport e _ = Unit

-- The run has the status `e` and the steps' statuses `st`; what was published said so or that the run
-- was in progress.
pub record Reporting (e : ExecutionStatus) (st : List ExecutionStatus) (s : Cmd) : Type 0 where
  pub status : s.run_status.status ≡ e
  pub steps : statuses s.run_status.steps ≡ st
  pub reports : All (λ ev. IsReport e ev ⊎ IsReport in_progress ev) s.events

minor-IsReport : (e : ExecutionStatus) (ev : Event) → is_major ev ≡ false → IsReport e ev
minor-IsReport e (published r) h = ground arith
minor-IsReport e _ h = tt

module _ {e : ExecutionStatus} {st : List ExecutionStatus} where
  pub message-Reporting :
      (m : Option String) (s : Cmd)
      → Reporting e st s
      → Reporting e st (set_current_step_message m s)
  unfolding set_current_step_message
  message-Reporting m s h = record {
    status = h.status;
    steps =
        statuses-keep (message_step m (log_from s)) (keeps m (log_from s)) s.run_status ∙ h.steps;
    reports = h.reports;
  }
    where
      keeps :
          (m : Option String) (log : ℕ → String) (x : StepStatus)
          → (message_step m log x).status ≡ x.status
      keeps none log x = refl
      keeps (some t) log x = refl

  pub publish-Reporting : (s : Cmd) → Reporting e st s → Reporting e st (publish_status s)
  unfolding publish_status clone
  publish-Reporting s h = record {
    status = h.status;
    steps = h.steps;
    reports = (inl h.status, h.reports);
  }

  log_then :
      (b : Bool) (s : Cmd)
      → Reporting e st s
      → Reporting e st (if b then publish_status (set_current_step_message none s) else s)
  log_then true s h = publish-Reporting _ (message-Reporting none s h)
  log_then false s h = h

  pub log-Reporting :
      (text : String) (s : Cmd) → Reporting e st s → Reporting e st (write_log text s)
  unfolding write_log
  log-Reporting text s h =
      log_then s.writes_report (record s { log = s.log <> text })
        (record { status = h.status; steps = h.steps; reports = h.reports })

  note-Reporting :
      (ev : Event) (s : Cmd) → IsReport e ev → Reporting e st s → Reporting e st (note ev s)
  unfolding note
  note-Reporting ev s said h = record {
    status = h.status;
    steps = h.steps;
    reports = (inl said, h.reports);
  }

-- The step that the run is at.
abbrev pub step_index : Cmd → ℤ
step_index s = s.run_status.current_step_index

index_then :
    (b : Bool) (s : Cmd)
    → step_index (if b then publish_status (set_current_step_message none s) else s) ≡ step_index s
unfolding publish_status set_current_step_message clone
index_then true s = refl
index_then false s = refl

pub index-write_log : (text : String) (s : Cmd) → step_index (write_log text s) ≡ step_index s
unfolding write_log
index-write_log text s = index_then s.writes_report (record s { log = s.log <> text })

pub record Running (k : ℕ) (st : List ExecutionStatus) (s : Cmd) : Type 0 where
  pub report : Reporting in_progress st s
  pub index : step_index s ≡ pos k

pub Running-Stable : (k : ℕ) (st : List ExecutionStatus) → Stable (Running k st)
unfolding note without_workspaces
Running-Stable k st = record {
  keeps_log = λ text s h. record {
    report = log-Reporting text s h.report;
    index = index-write_log text s ∙ h.index;
  };
  keeps_note = λ e s minor h. record {
    report = note-Reporting e s (minor-IsReport in_progress e minor) h.report;
    index = h.index;
  };
  keeps_workspaces = λ s h. record {
    report = record {
      status = h.report.status;
      steps = h.report.steps;
      reports = h.report.reports;
    };
    index = h.index;
  };
}

-- A call of the outside that is not itself a report.
pub ask-Running :
    (k : ℕ) (st : List ExecutionStatus) {A : Type 0} (e : Event) (f : History → Reply A)
    → IsReport in_progress e
    → Keeps (Running k st) (ask e f)
unfolding ask note
ask-Running k st e f said = record {
  at = λ s h.
      write_all-keeps (Running-Stable k st) (f s.events).written (note e s)
        (record { report = note-Reporting e s said h.report; index = h.index });
}
