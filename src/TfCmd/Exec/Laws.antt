-- ===== src/TfCmd/Exec/Laws.antt =====
-- The message of a step.
use Prim.Native.String.{slice}
use text.Mathlib.TextPositions.{slice-append_right, len-append}
use building_block_runner.Prelude.{
  ℕ, zero, suc, String, Bool, true, false, if◌then◌else◌, len, Option, none, some, List, [], ◌∷◌,
  ◌≡◌, refl, sym, ap, ◌∙◌, subst, get_elem?, modify, ◌<>◌, arith,
}
use building_block_runner.Prelude.Int.{pos}
use building_block_runner.Run.Status.{StepStatus, update_current, current_step_status}
use building_block_runner.TfCmd.Exec.{
  Cmd, message_step, file_content_or_empty, log_from, set_current_step_message,
}

get_elem?-modify :
    (f : StepStatus → StepStatus) (k : ℕ) (steps : List StepStatus) (step : StepStatus)
    → get_elem? steps k ≡ some step
    → get_elem? (modify k f steps) k ≡ some (f step)
get_elem?-modify f k [] step h = ground arith
get_elem?-modify f zero (x ∷ r) step h = ground (arith, h)
get_elem?-modify f (suc k) (x ∷ r) step h = get_elem?-modify f k r step h

-- What is read of the log since a position, where the log was `before` there.
log_from-append :
    (s : Cmd) (before text : String)
    → s.log ≡ before <> text
    → log_from s (len before) ≡ (if s.log_unreadable s.events then "" else text)
log_from-append s before text grown = go (s.log_unreadable s.events)
  where
    go :
        (fails : Bool)
        → file_content_or_empty (if fails then none else some s.log) (len before) (len s.log)
          ≡ (if fails then "" else text)
    go true = refl
    go false =
        ap (λ l. slice l (len before) (len l)) grown
        ∙ (ap (λ n. slice (before <> text) (len before) n) (len-append before text)
            ∙ slice-append_right before text)

message_of :
    (m : Option String) (log : ℕ → String) (step : StepStatus)
    → (message_step m log step).system_message ≡ some (log step.log_start_idx)
message_of none log step = refl
message_of (some t) log step = refl

-- The message of the current step is exactly what was logged since the step began: where the log was
-- `before` when the step took its position, and has since grown by `text`, the message is `text`; it is
-- empty where the log's file cannot be read. A text for the user, if one is given, is kept beside it, and
-- else the one before stays.
pub set_current_step_message-log :
    (m : Option String) (s : Cmd) (k : ℕ) (step : StepStatus) (before text : String)
    → s.run_status.current_step_index ≡ pos k
    → get_elem? s.run_status.steps k ≡ some step
    → step.log_start_idx ≡ len before
    → s.log ≡ before <> text
    → (step' : StepStatus) × (current_step_status (set_current_step_message m s).run_status
        ≡ some step')
      × (step'.system_message ≡ some (if s.log_unreadable s.events then "" else text))
      × (step'.user_message ≡ (elim m [ none ↦ step.user_message | some t ↦ some t ]))
unfolding set_current_step_message
set_current_step_message-log m s k step before text at_k there began grown = (
  message_step m (log_from s) step,
  subst
      (λ i.
        current_step_status (
          update_current (message_step m (log_from s))
            (record s.run_status { current_step_index = i }))
        ≡ some (message_step m (log_from s) step))
      (sym at_k) (get_elem?-modify (message_step m (log_from s)) k s.run_status.steps step there),
  message_of m (log_from s) step
      ∙ ap some (ap (log_from s) began ∙ log_from-append s before text grown),
  user_of m,
)
  where
    user_of :
        (o : Option String)
        → (message_step o (log_from s) step).user_message
          ≡ (elim o [ none ↦ step.user_message | some t ↦ some t ])
    user_of none = refl
    user_of (some t) = refl
