-- ===== src/TfCmd/Execute/Uploaded.antt =====
-- A dry run that succeeds has stored its plan (tfplan.go).
use building_block_runner.Prelude.{
  ◌⊎◌, inl, inr, All, String, Bool, true, false, none, List, [], ◌∷◌, ◌++◌, ◌≡◌, refl, ap, ◌∙◌,
  is_empty, if◌then◌else◌, ◌<>◌,
}
use building_block_runner.Run.Status.{clone}
use building_block_runner.TfCmd.Outside.{
  Error, Event, History, Result, ok, err, panic, upload_artifact, published, tf_plan,
  read_plan_file, Reply,
}
use building_block_runner.Run.Kinds.{in_progress, succeeded, detect}
use building_block_runner.TfCmd.Keeps.{Keeps, Keeps-ask, Keeps-catch, Keeps-raise}
use building_block_runner.TfCmd.Progress.Stages.{IsReport}
use building_block_runner.TfCmd.Progress.Moves.{Stage}
use building_block_runner.TfCmd.Execute.AtStage.{
  Stage-Unfinished, Stage-Stable, ask-Stage, or_fail-Stage, flag-Stage,
}
use building_block_runner.TfCmd.Execute.Prepared.{Fresh, all_pending, prepare_run-Stage}
use building_block_runner.TfCmd.Execute.Outcome.{Fresh-init_run_steps}
use building_block_runner.TfCmd.Exec.{
  Cmd, Exec, raise, ask, note, write_log, write_all, publish_status, set_current_step_message,
}
use building_block_runner.TfCmd.Params.{GenericTfCmd}
use building_block_runner.TfCmd.Triple.{
  Triple, Ends, Triple-bind, Triple-if, Triple-catch, Triple-modify,
}
use building_block_runner.TfCmd.Progress.{
  fail_and_return, fail_and_return_msg, complete_run, or_fail,
}
use building_block_runner.TfCmd.Execute.{upload_plan, wrap, execute_plan, init_run_steps}

-- The events only grow.
Extends : History → Cmd → Type 0
Extends h s = (more : History) × (s.events ≡ more ++ h)

one_more :
    (e : Event) (h : History) (s : Cmd)
    → Extends h s
    → (s' : Cmd) → s'.events ≡ e ∷ s.events
    → Extends h s'
unfolding Extends
one_more e h s (more, is) s' grown = (e ∷ more, grown ∙ ap (λ x. e ∷ x) is)

log_then :
    (b : Bool) (h : History) (s : Cmd)
    → Extends h s
    → Extends h (if b then publish_status (set_current_step_message none s) else s)
unfolding publish_status set_current_step_message
log_then true h s x = one_more _ h s x _ refl
log_then false h s x = x

write_log-Extends :
    (text : String) (h : History) (s : Cmd) → Extends h s → Extends h (write_log text s)
unfolding write_log Extends
write_log-Extends text h s x = log_then s.writes_report h (record s { log = s.log <> text }) x

write_all-Extends :
    (texts : List String) (h : History) (s : Cmd) → Extends h s → Extends h (write_all texts s)
unfolding write_all
write_all-Extends [] h s x = x
write_all-Extends (t ∷ r) h s x = write_all-Extends r h (write_log t s) (write_log-Extends t h s x)

abbrev pub Anything : Cmd → Type 0
Anything s = Unit

abbrev pub AnyHistory : History → Type 0
AnyHistory h = Unit

-- At a moment with the property `P` the call `e` was made, and its answer was `a`.
abbrev pub Happened :
    {A : Type 0} → (History → Type 0) → Event → (History → Reply A) → A → History → Type 0
Happened P e f a h' =
    (h : History) × P h × ((f h).result ≡ ok a) × (more : History) × (h' ≡ more ++ e ∷ h)

-- A plan was made and written to the artifact's file.
abbrev pub WasPlanned : GenericTfCmd → Bool → History → Type 0
WasPlanned c =
    Happened AnyHistory (tf_plan c.artifact_file_path)
      (λ h. c.outside.run_plan h c.artifact_file_path)

-- After that, `plan` was read from the file.
abbrev pub WasRead : GenericTfCmd → Bool → String → History → Type 0
WasRead c changed =
    Happened (WasPlanned c changed) (read_plan_file c.artifact_file_path)
      (λ h. c.outside.read_file h c.artifact_file_path)

-- After that, it was uploaded to the run's own address.
abbrev pub WasUploaded : GenericTfCmd → Bool → String → History → Type 0
WasUploaded c changed plan =
    Happened (WasRead c changed plan) (upload_artifact c.artifact_upload_url plan)
      (λ h. c.outside.upload h c.artifact_upload_url plan) tt

-- The plan that was made is uploaded, and only then the run is reported as SUCCEEDED, last of all.
pub record Uploaded (c : GenericTfCmd) (s : Cmd) : Type 0 where
  pub changed : Bool
  pub plan : String
  pub before : History
  pub last : s.events ≡ published s.report_status ∷ before
  pub status : s.report_status.status ≡ succeeded
  pub unfinished : All (IsReport in_progress) before
  pub uploaded : WasUploaded c changed plan before

happens :
    {A : Type 0} {P : History → Type 0} (e : Event) (f : History → Reply A)
    → Triple (λ s. P s.events) (ask e f) (λ a s. Happened P e f a s.events) Anything Anything
unfolding ask note Extends
happens {A} {P} e f = record {
  at = λ s p.
      go s.events p (f s.events).result refl _
        (write_all-Extends (f s.events).written (e ∷ s.events) (note e s) ([], refl));
}
  where
    go :
        (h : History)
        → P h
        → (r : Result A) → (f h).result ≡ r
        → (s' : Cmd) → Extends (e ∷ h) s'
        → Ends (λ a s. Happened P e f a s.events) Anything Anything r s'
    go h p (ok a) is s' grown = (h, p, is, grown.0, grown.1)
    go h p (err t) is s' grown = tt
    go h p panic is s' grown = tt

Ends-both :
    {A : Type 0} (Q Q' : A → Cmd → Type 0) (E X : Cmd → Type 0) (r : Result A) (s : Cmd)
    → Ends Q E X r s
    → Ends Q' Anything Anything r s
    → Ends (λ a s. Q a s × Q' a s) Anything Anything r s
Ends-both Q Q' E X (ok a) s h h' = (h, h')
Ends-both Q Q' E X (err e) s h h' = tt
Ends-both Q Q' E X panic s h h' = tt

Ends-weaken :
    {A : Type 0} (Q Q' : A → Cmd → Type 0) (r : Result A) (s : Cmd)
    → ((a : A) (s : Cmd) → Q a s → Q' a s)
    → Ends Q Anything Anything r s
    → Ends Q' Anything Anything r s
Ends-weaken Q Q' (ok a) s f h = f a s h
Ends-weaken Q Q' (err e) s f h = tt
Ends-weaken Q Q' panic s f h = tt

Ends-prepared :
    {A : Type 0} (Q : A → Cmd → Type 0) (E X : Cmd → Type 0) (r : Result A) (s : Cmd)
    → Ends Q E X r s
    → Ends Q Anything Anything r s
Ends-prepared Q E X (ok a) s h = h
Ends-prepared Q E X (err e) s h = tt
Ends-prepared Q E X panic s h = tt

both :
    {A : Type 0} {P P' E X : Cmd → Type 0} {Q Q' : A → Cmd → Type 0} (m : Exec A)
    → Triple P m Q E X
    → Triple P' m Q' Anything Anything
    → Triple (λ s. P s × P' s) m (λ a s. Q a s × Q' a s) Anything Anything
both m t t' = record { at = λ s p. Ends-both _ _ _ _ (m s).0 (m s).1 (t.at s p.0) (t'.at s p.1) }

raises :
    {A : Type 0} {P : Cmd → Type 0} {Q : A → Cmd → Type 0} (e : Error)
    → Triple P (raise e) Q Anything Anything
unfolding raise
raises e = record { at = λ s h. tt }

weaken :
    {A : Type 0} {P : Cmd → Type 0} {Q Q' : A → Cmd → Type 0} (m : Exec A)
    → ((a : A) (s : Cmd) → Q a s → Q' a s)
    → Triple P m Q Anything Anything
    → Triple P m Q' Anything Anything
weaken m f t = record { at = λ s p. Ends-weaken _ _ (m s).0 (m s).1 f (t.at s p) }

prepared :
    {A : Type 0} {P E X : Cmd → Type 0} {Q : A → Cmd → Type 0} {m : Exec A}
    → Triple P m Q E X
    → Triple P m Q Anything Anything
prepared {m = m} t = record { at = λ s p. Ends-prepared _ _ _ (m s).0 (m s).1 (t.at s p) }

from_any :
    {A : Type 0} {P : Cmd → Type 0} {Q : A → Cmd → Type 0} {m : Exec A}
    → Triple (λ s. P s × AnyHistory s.events) m Q Anything Anything
    → Triple P m Q Anything Anything
from_any t = record { at = λ s p. t.at s (p, tt) }

-- Reports that the stage allows are IN_PROGRESS.
unfinished_lem :
    (h : History)
    → All (λ ev. IsReport in_progress ev ⊎ IsReport in_progress ev) h
    → All (IsReport in_progress) h
unfinished_lem [] reports = tt
unfinished_lem (ev ∷ h) (inl said, reports) = (said, unfinished_lem h reports)
unfinished_lem (ev ∷ h) (inr said, reports) = (said, unfinished_lem h reports)

module _ (c : GenericTfCmd) where
  -- The stage of a dry run that has been prepared.
  AtPlan : Cmd → Type 0
  AtPlan = Stage c.async_run 4 0

  AtPlan_events : (s : Cmd) → AtPlan s → All (IsReport in_progress) s.events
  unfolding AtPlan
  AtPlan_events s h = unfinished_lem s.events (Stage-Unfinished c.async_run 4 0 s h).reports

  fails :
      {A : Type 0} {P : Cmd → Type 0} {Q : A → Cmd → Type 0} (e : Error)
      → Triple P (fail_and_return {A = A} c e) Q Anything Anything
  unfolding fail_and_return_msg
  fails e = record { at = λ s h. tt }

  -- A call with `fail` on its errors, under the stage and a property of the history.
  step :
      {A : Type 0} (P : History → Type 0) (Q : A → History → Type 0) (part : Exec A)
      → Keeps AtPlan part
      → Triple (λ s. P s.events) part (λ a s. Q a s.events) Anything Anything
      → Triple
          (λ s. AtPlan s × P s.events)
          (or_fail c part)
          (λ a s. AtPlan s × Q a s.events)
          Anything
          Anything
  unfolding AtPlan
  step P Q part kept t =
      both (or_fail c part) (or_fail-Stage c 4 0 5 refl part kept) (Triple-catch _ _ t fails)

  upload_plan-WasUploaded :
      (changed : Bool)
      → Triple
          (λ s. AtPlan s × WasPlanned c changed s.events)
          (upload_plan c)
          (λ _ s. AtPlan s × ((plan : String) × WasUploaded c changed plan s.events))
          Anything
          Anything
  unfolding upload_plan wrap AtPlan
  upload_plan-WasUploaded changed =
      Triple-if (is_empty c.artifact_upload_url) _ _ (Triple-catch _ _ (raises _) fails) (
        Triple-bind _ _
          (step (WasPlanned c changed) (WasRead c changed) _
            (Keeps-catch _ _ (Keeps-ask (Stage-Stable c.async_run 4 0) _ _ refl) λ e. Keeps-raise _)
            (Triple-catch _ _ (happens _ _) λ e. raises _))
          λ plan.
            weaken _ (λ _ s p. (p.0, (plan, p.1)))
              (step (WasRead c changed plan) (λ _. WasUploaded c changed plan) _
                (Keeps-catch _ _ (ask-Stage c.async_run 4 0 _ _ tt) λ e. Keeps-raise _)
                (Triple-catch _ _ (happens _ _) λ e. raises _)))

  completes :
      (changed : Bool)
      → Triple
          (λ s. AtPlan s × ((plan : String) × WasUploaded c changed plan s.events))
          (complete_run none)
          (λ _. Uploaded c)
          Anything
          Anything
  unfolding complete_run set_current_step_message publish_status clone
  completes changed = Triple-modify _ λ s h. record {
    changed = changed;
    plan = h.1.0;
    before = s.events;
    last = refl;
    status = refl;
    unfinished = AtPlan_events s h.0;
    uploaded = h.1.1;
  }

  execute_plan-Triple :
      Triple
        (Fresh (all_pending c.async_run 4))
        (execute_plan c)
        (λ _. Uploaded c)
        Anything
        Anything
  unfolding execute_plan AtPlan
  execute_plan-Triple =
      Triple-bind {Q = λ _. AtPlan} _ _ (prepared (prepare_run-Stage c 0 true)) λ x1.
        Triple-bind {Q = λ changed s. AtPlan s × WasPlanned c changed s.events} _ _
          (from_any
            (step AnyHistory (WasPlanned c) _ (ask-Stage c.async_run 4 0 _ _ tt) (happens _ _)))
          λ changed.
            Triple-bind {Q = λ _ s. AtPlan s × WasPlanned c changed s.events} _ _
              (Triple-modify _ λ s h. (flag-Stage c.async_run 4 0 changed s h.0, h.1))
              λ x2. Triple-bind _ _ (upload_plan-WasUploaded changed) λ x3. completes changed

  -- A dry run that returns no error has made a plan and written it to the artifact's file, then read this
  -- file, then uploaded what it read to the address that the run names, and the upload succeeded; only
  -- after all of that, and last of all, it published SUCCEEDED: every report before was IN_PROGRESS. This
  -- holds from the initial steps, if every report before was IN_PROGRESS.
  pub execute_plan-Uploaded :
      (s : Cmd)
      → All (IsReport in_progress) s.events
      → let start = init_run_steps c detect s in
        Ends (λ _. Uploaded c) Anything Anything (execute_plan c start).0 (execute_plan c start).1
  unfolding init_run_steps
  execute_plan-Uploaded s unpublished =
      execute_plan-Triple.at (init_run_steps c detect s)
        (Fresh-init_run_steps c detect s unpublished)
