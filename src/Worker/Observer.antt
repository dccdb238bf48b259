-- ===== src/Worker/Observer.antt =====
-- worker.go, singlerunworker.go and runcontextinfo.go: the work routine, which executes a command, and
-- the observer routine, which reports on it. The two workers share both, word for word.
pub mod Laws
mod Tests
use building_block_runner.Prelude.{
  ℕ, zero, suc, String, Bool, true, false, not, ◌&&◌, Option, none, some, List, [], ◌∷◌, ◌++◌,
  if◌then◌else◌,
}
use building_block_runner.Prelude.Int.{negsuc}
use building_block_runner.Run.Kinds.{
  ExecutionStatus, in_progress, succeeded, failed, aborted, is_terminal_state, Behavior,
}
use building_block_runner.Run.Status.{RunStatus}
use building_block_runner.TfCmd.Outside.{Error, Event, History, published, Outside}
use building_block_runner.TfCmd.Exec.{Cmd}
use building_block_runner.TfCmd.Params.{GenericTfCmd}
use building_block_runner.TfCmd.Execute.{init_run_steps, execute}

-- What the observer's loop meets before the done signal: a report of the work routine, or a tick with
-- the answer to the update that is then sent, its abort flag and its error.
pub data Signal : Type 0 where
  report : RunStatus → Signal
  tick : Bool → Option Error → Signal

-- `updates` were sent, newest first; `cancels` counts the calls of `cancel`.
pub record Observer : Type 0 where
  pub reported : RunStatus
  pub abort_requested : Bool
  pub cancels : ℕ
  pub updates : List RunStatus

abbrev request_abort : Bool → Observer → Observer
request_abort abort o =
    if abort && not o.abort_requested
    then record o { abort_requested = true; cancels = suc o.cancels }
    else o

abbrev send_update : Observer → Observer
send_update o = record o { updates = o.reported ∷ o.updates }

unfoldable pub on_signal : Signal → Observer → Observer
on_signal (report r) o = record o { reported = r }
on_signal (tick abort e) o =
    if not (is_terminal_state o.reported.status) then request_abort abort (send_update o) else o

-- The loop of observerRoutine, up to the done signal.
unfoldable pub observe : List Signal → Observer → Observer
unfolding on_signal
observe [] o = o
observe (x ∷ r) o = observe r (on_signal x o)

-- sendFinalStatus: the status that is sent.
unfoldable pub final_status : Bool → Bool → ExecutionStatus → ExecutionStatus
final_status is_async true e = aborted
final_status true false succeeded = in_progress
final_status is_async false e = e

-- observerRoutine: the last update.
unfoldable pub final_update : Bool → Observer → RunStatus
unfolding final_status
final_update is_async o = record o.reported {
  status = final_status is_async o.abort_requested o.reported.status;
}

-- initRunContextInfo
abbrev pub init_status : String → RunStatus
init_status id = record {
  run_id = id;
  status = in_progress;
  steps = [];
  current_step_index = negsuc 0;
  summary = none;
  changes_detected = none;
}

abbrev pub init_run_context_info : Outside → String → Cmd
init_run_context_info outside id = record {
  run_status = init_status id;
  report_status = init_status id;
  log = "";
  log_unreadable = outside.log_unreadable;
  writes_report = false;
  use_workspaces = true;
  events = [];
}

abbrev pub init_observer : String → Observer
init_observer id = record {
  reported = init_status id;
  abort_requested = false;
  cancels = 0;
  updates = [];
}

-- The published reports, oldest first.
unfoldable pub published_reports : History → List RunStatus
published_reports [] = []
published_reports (published r ∷ h) = published_reports h ++ r ∷ []
published_reports (_ ∷ h) = published_reports h

-- runContextInfo.reportFailed
abbrev report_failed : RunStatus → RunStatus
report_failed r = record r { status = failed }

-- workRoutine, by the reports that it leaves, given the error of registering, if any.
unfoldable pub work_routine : GenericTfCmd → Behavior → Option Error → List RunStatus
unfolding published_reports
work_routine c b none =
    published_reports
      (execute c b (init_run_steps c b (init_run_context_info c.outside c.run_id))).1.events
work_routine c b (some e) =
    report_failed (init_run_steps c b (init_run_context_info c.outside c.run_id)).report_status ∷ []
