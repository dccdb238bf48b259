-- ===== src/TfCmd/Exec.antt =====
-- The state that a command changes, and methods on it that may return an error. What was changed
-- before an error stays changed, so the state comes back beside the error too.
pub mod Laws
mod Tests
use building_block_runner.Prelude.{
  ℕ, String, len, Bool, false, Option, none, some, List, [], ◌∷◌, ◌<>◌, if◌then◌else◌,
}
use Prim.Native.String.{slice}
use building_block_runner.Run.Status.{StepStatus, RunStatus, update_current, clone}
use building_block_runner.TfCmd.Outside.{
  Error, Result, ok, err, panic, Reply, Event, published, History,
}

-- `log` is the update log's file, `log_unreadable` whether reading it fails at a moment, `writes_report`
-- whether `assignOutput` has set the log's callback, `use_workspaces` the one parameter that a command
-- changes.
pub record Cmd : Type 0 where
  pub run_status : RunStatus
  pub report_status : RunStatus
  pub log : String
  pub log_unreadable : History → Bool
  pub writes_report : Bool
  pub use_workspaces : Bool
  pub events : History

abbrev pub Exec : Type 0 → Type 0
Exec A = Cmd → Result A × Cmd

abbrev continue : {A B : Type 0} → Result A → (A → Exec B) → Exec B
continue (ok a) f s = f a s
continue (err e) f s = (err e, s)
continue panic f s = (panic, s)

infixl 5 ◌>>=◌ ◌>>◌
unfoldable pub ◌>>=◌ : {A B : Type 0} → Exec A → (A → Exec B) → Exec B
◌>>=◌ m f s = let (r, s') = m s in continue r f s'

abbrev pub ◌>>◌ : {A B : Type 0} → Exec A → Exec B → Exec B
m >> n = m >>= λ _. n

unfoldable pub pure : {A : Type 0} → A → Exec A
pure a s = (ok a, s)

unfoldable pub raise : {A : Type 0} → Error → Exec A
raise e s = (err e, s)

unfoldable pub raise_panic : {A : Type 0} → Exec A
raise_panic s = (panic, s)

unfoldable pub lift : {A : Type 0} → Result A → Exec A
lift r s = (r, s)

abbrev handle : {A : Type 0} → Result A → (Error → Exec A) → Exec A
handle (ok a) f s = (ok a, s)
handle (err e) f s = f e s
handle panic f s = (panic, s)

-- `if err != nil { … }`: an error is handled, and its handler's result is the result.
unfoldable pub catch : {A : Type 0} → Exec A → (Error → Exec A) → Exec A
catch m f s = let (r, s') = m s in handle r f s'

unfoldable pub gets : {A : Type 0} → (Cmd → A) → Exec A
gets f s = (ok (f s), s)

-- A statement that cannot fail.
unfoldable pub modify_state : (Cmd → Cmd) → Exec (Unit {0})
modify_state f s = (ok tt, f s)

-- `if p != nil { … *p … }`
unfoldable pub when_some : {A : Type 0} → Option A → (A → Exec (Unit {0})) → Exec (Unit {0})
unfolding pure
when_some none f = pure tt
when_some (some a) f = f a

-- RunContextInfo.publishStatus
unfoldable pub publish_status : Cmd → Cmd
publish_status s = record s {
  report_status = clone s.run_status;
  events = published (clone s.run_status) ∷ s.events;
}

-- fileContentOrEmpty, of what os.ReadFile gave, `none` where it failed.
abbrev pub file_content_or_empty : Option String → ℕ → ℕ → String
file_content_or_empty none start end = ""
file_content_or_empty (some content) start end = slice content start end

-- The log's file, as it is read now, from a position to the end of what was written.
abbrev pub log_from : Cmd → ℕ → String
log_from s start =
    file_content_or_empty (if s.log_unreadable s.events then none else some s.log) start (len s.log)

abbrev pub message_step : Option String → (ℕ → String) → StepStatus → StepStatus
message_step none log s = record s { system_message = some (log s.log_start_idx) }
message_step (some m) log s = record s {
  user_message = some m;
  system_message = some (log s.log_start_idx);
}

-- GenericTfCmd.setCurrentStepMessage
unfoldable pub set_current_step_message : Option String → Cmd → Cmd
set_current_step_message user_message s = record s {
  run_status = update_current (message_step user_message (log_from s)) s.run_status;
}

-- logwrap.Write: the file grows, then the callback runs.
unfoldable pub write_log : String → Cmd → Cmd
unfolding set_current_step_message publish_status
write_log text s =
    let s' = record s { log = s.log <> text } in
    if s'.writes_report then publish_status (set_current_step_message none s') else s'

-- logwrap.PrintlnToUpdateLogs
unfoldable pub println_to_update_logs : String → Exec (Unit {0})
println_to_update_logs text = modify_state (write_log (text <> "\n"))

unfoldable pub write_all : List String → Cmd → Cmd
write_all [] s = s
write_all (t ∷ r) s = write_all r (write_log t s)

unfoldable pub note : Event → Cmd → Cmd
note e s = record s { events = e ∷ s.events }

-- One call of the outside: the event is recorded, what the callee writes reaches the log.
unfoldable pub ask : {A : Type 0} → Event → (History → Reply A) → Exec A
ask e f s = let r = f s.events in (r.result, write_all r.written (note e s))

-- `defer`: the event happens however the rest ends.
unfoldable pub deferred : {A : Type 0} → Event → Exec A → Exec A
unfolding note
deferred e m s = let (r, s') = m s in (r, note e s')

unfoldable pub without_workspaces : Cmd → Cmd
without_workspaces s = record s { use_workspaces = false }
