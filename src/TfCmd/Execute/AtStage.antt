-- ===== src/TfCmd/Execute/AtStage.antt =====
-- A part of a command at a stage of the run, with `fail` on its errors, for tfapply.go, tfplan.go
-- and tfdestroy.go.
use building_block_runner.Prelude.{
  ℕ, suc, ◌+◌, String, Bool, true, false, Option, none, some, List, ◌≡◌, ◌∙◌, ◌⊎◌, All,
}
use building_block_runner.Run.Kinds.{ExecutionStatus, in_progress}
use building_block_runner.Run.Status.{StepStatus, update_current}
use building_block_runner.Run.Status.Laws.{statuses-keep}
use building_block_runner.TfCmd.Outside.{Error, Event, History, Reply}
use building_block_runner.TfCmd.Exec.{Cmd, Exec, ◌>>=◌, ask, println_to_update_logs}
use building_block_runner.TfCmd.Params.{GenericTfCmd}
use building_block_runner.TfCmd.Keeps.{Keeps, Stable}
use building_block_runner.TfCmd.Triple.{
  Triple, Always, Triple-modify, Triple-bind, Triple-catch, Triple-kept, Triple-pure,
}
use building_block_runner.TfCmd.Progress.{or_fail, fail_and_return}
use building_block_runner.TfCmd.Progress.Stages.{IsReport, Running, Running-Stable, ask-Running}
use building_block_runner.TfCmd.Progress.Moves.{Stage, progress}
use building_block_runner.TfCmd.Progress.Endings.{FailedAt, fail_and_return-FailedAt}
use building_block_runner.TfCmd.Execute.{unless_failed, set_changes_detected}

-- A command that a panic stopped has reported nothing but that it is in progress.
pub record Unfinished (s : Cmd) : Type 0 where
  pub status : s.run_status.status ≡ in_progress
  pub reports : All (λ ev. IsReport in_progress ev ⊎ IsReport in_progress ev) s.events

pub Stage-Unfinished : (a : Bool) (k m : ℕ) (s : Cmd) → Stage a k m s → Unfinished s
Stage-Unfinished true k m s h = record { status = h.report.status; reports = h.report.reports }
Stage-Unfinished false k m s h = record { status = h.report.status; reports = h.report.reports }

pub Stage-Stable : (a : Bool) (k m : ℕ) → Stable (Stage a k m)
Stage-Stable true k m = Running-Stable 0 (progress 0 0)
Stage-Stable false k m = Running-Stable k (progress k m)

pub ask-Stage :
    (a : Bool) (k m : ℕ) {A : Type 0} (e : Event) (f : History → Reply A)
    → IsReport in_progress e
    → Keeps (Stage a k m) (ask e f)
ask-Stage true k m e f said = ask-Running 0 (progress 0 0) e f said
ask-Stage false k m e f said = ask-Running k (progress k m) e f said

module _ (c : GenericTfCmd) (k m n : ℕ) (sum : k + suc m ≡ n) where
  pub or_fail-Stage :
      {A : Type 0} (part : Exec A)
      → Keeps (Stage c.async_run k m) part
      → Triple
          (Stage c.async_run k m)
          (or_fail c part)
          (Always (Stage c.async_run k m))
          (FailedAt c.async_run n)
          Unfinished
  or_fail-Stage part kept =
      Triple-catch part (fail_and_return c)
        (Triple-kept part (λ s h. h) (Stage-Unfinished c.async_run k m) kept)
        λ e. fail_and_return-FailedAt c k m n e none sum

  pub unless_failed-Stage :
      (msg : Option String) (e : Option Error)
      → Triple
          (Stage c.async_run k m)
          (unless_failed c msg e)
          (Always (Stage c.async_run k m))
          (FailedAt c.async_run n)
          Unfinished
  unfolding unless_failed
  unless_failed-Stage msg none = Triple-pure msg
  unless_failed-Stage msg (some e) = fail_and_return-FailedAt c k m n e msg sum

  -- A part with `fail` on its errors, and what comes after it.
  pub or_fail_then :
      {A B : Type 0} {R : B → Cmd → Type 0} (part : Exec A) (f : A → Exec B)
      → Keeps (Stage c.async_run k m) part
      → ((a : A) → Triple (Stage c.async_run k m) (f a) R (FailedAt c.async_run n) Unfinished)
      → Triple (Stage c.async_run k m) (or_fail c part >>= f) R (FailedAt c.async_run n) Unfinished
  or_fail_then part f kept rest = Triple-bind _ f (or_fail-Stage part kept) rest

module _ (c : GenericTfCmd) (k m : ℕ) where
  -- A line in the log is never an error.
  pub println-Stage :
      (text : String) {E X : Cmd → Type 0}
      → Triple
          (Stage c.async_run k m)
          (println_to_update_logs text)
          (Always (Stage c.async_run k m))
          E
          X
  unfolding println_to_update_logs
  println-Stage text = Triple-modify _ ((Stage-Stable c.async_run k m).keeps_log _)

write-Running :
    (k : ℕ) (st : List ExecutionStatus) (f : StepStatus → StepStatus)
    → ((x : StepStatus) → (f x).status ≡ x.status)
    → (s : Cmd) → Running k st s
    → Running k st (record s { run_status = update_current f s.run_status })
write-Running k st f same s h = record {
  report = record {
    status = h.report.status;
    steps = statuses-keep f same s.run_status ∙ h.report.steps;
    reports = h.report.reports;
  };
  index = h.index;
}

pub write-Stage :
    (a : Bool) (k m : ℕ) (f : StepStatus → StepStatus)
    → ((x : StepStatus) → (f x).status ≡ x.status)
    → (s : Cmd) → Stage a k m s
    → Stage a k m (record s { run_status = update_current f s.run_status })
write-Stage true k m f same s h = write-Running 0 (progress 0 0) f same s h
write-Stage false k m f same s h = write-Running k (progress k m) f same s h

pub flag-Stage :
    (a : Bool) (k m : ℕ) (changed : Bool) (s : Cmd)
    → Stage a k m s
    → Stage a k m (set_changes_detected changed s)
flag-Stage true k m changed s h = record {
  report = record { status = h.report.status; steps = h.report.steps; reports = h.report.reports };
  index = h.index;
}
flag-Stage false k m changed s h = record {
  report = record { status = h.report.status; steps = h.report.steps; reports = h.report.reports };
  index = h.index;
}
