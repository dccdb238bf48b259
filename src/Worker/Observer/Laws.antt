-- ===== src/Worker/Observer/Laws.antt =====
-- What meshStack is told of a run.
use building_block_runner.Prelude.{
  ℕ, suc, String, Bool, true, false, not, ◌&&◌, ◌||◌, Option, none, some, List, [], ◌∷◌, ◌++◌, ◌≡◌,
  refl, ap, ◌∙◌, sym, subst, All, map, arith, if◌then◌else◌,
}
use building_block_runner.Run.Kinds.{
  ExecutionStatus, pending, in_progress, succeeded, failed, aborted, is_terminal_state, Behavior,
}
use building_block_runner.Run.Status.{RunStatus}
use building_block_runner.TfCmd.Outside.{Error, Result, ok, err, panic}
use building_block_runner.TfCmd.Exec.{Cmd}
use building_block_runner.TfCmd.Params.{GenericTfCmd}
use building_block_runner.TfCmd.Triple.{Ends, Always}
use building_block_runner.TfCmd.Progress.Endings.{Ended, FailedAt, all_done}
use building_block_runner.TfCmd.Execute.{init_run_steps, execute}
use building_block_runner.TfCmd.Execute.AtStage.{Unfinished}
use building_block_runner.TfCmd.Execute.Outcome.{execute-Outcome, steps_after_first}
use building_block_runner.Worker.Observer.{
  Signal, report, tick, Observer, on_signal, observe, final_status, final_update, init_observer,
  init_status, init_run_context_info, published_reports, work_routine,
}

-- Whether meshStack asked for an abort: by the answer to an update that a tick sent, which it does while
-- the last report, `r` at first, is of a run that has not ended.
abbrev pub asks_abort : RunStatus → List Signal → Bool
asks_abort r [] = false
asks_abort r (report r' ∷ rest) = asks_abort r' rest
asks_abort r (tick abort e ∷ rest) =
    (abort && not (is_terminal_state r.status)) || asks_abort r rest

-- What the observer did so far is in order, where `asked` says whether an abort was asked for.
pub record IsOrderly (asked : Bool) (o : Observer) : Type 0 where
  pub ongoing : All (λ u. is_terminal_state u.status ≡ false) o.updates
  pub noted : o.abort_requested ≡ asked
  pub once : o.cancels ≡ (if asked then 1 else 0)

-- One tick of an observer that noted `was` before.
tick-IsOrderly :
    (abort was : Bool) (e : Option Error) (o : Observer)
    → IsOrderly was o
    → IsOrderly
        (was || (abort && not (is_terminal_state o.reported.status)))
        (on_signal (tick abort e) o)
unfolding on_signal
tick-IsOrderly abort was e o h =
    go (is_terminal_state o.reported.status) refl abort was o.abort_requested refl h.noted h.once
  where
    go :
        (ends : Bool)
        → is_terminal_state o.reported.status ≡ ends
        → (abort was asked : Bool) → o.abort_requested ≡ asked
        → asked ≡ was
        → o.cancels ≡ (if was then 1 else 0)
        → IsOrderly (was || (abort && not ends)) (
            if not ends
            then (if abort && not asked
                then record o {
                  updates = o.reported ∷ o.updates;
                  abort_requested = true;
                  cancels = suc o.cancels;
                }
                else record o { updates = o.reported ∷ o.updates })
            else o)
    go true is abort was asked flag same once = record {
      ongoing = h.ongoing;
      noted = ground (arith, flag, same);
      once = ground (arith, once);
    }
    go false is true false false flag same once = record {
      ongoing = (is, h.ongoing);
      noted = refl;
      once = ground (arith, once);
    }
    go false is true true true flag same once = record {
      ongoing = (is, h.ongoing);
      noted = flag;
      once = once;
    }
    go false is true true false flag same once = ground (arith, same)
    go false is true false true flag same once = ground (arith, same)
    go false is false was asked flag same once = record {
      ongoing = (is, h.ongoing);
      noted = ground (arith, flag, same);
      once = ground (arith, once);
    }

tick-reported :
    (ends abort asked : Bool) (o : Observer)
    → (if not ends
        then (if abort && not asked
            then record o {
              updates = o.reported ∷ o.updates;
              abort_requested = true;
              cancels = suc o.cancels;
            }
            else record o { updates = o.reported ∷ o.updates })
        else o).reported
      ≡ o.reported
tick-reported true abort asked o = refl
tick-reported false true true o = refl
tick-reported false true false o = refl
tick-reported false false asked o = refl

on_tick-reported :
    (abort : Bool) (e : Option Error) (o : Observer)
    → (on_signal (tick abort e) o).reported ≡ o.reported
unfolding on_signal
on_tick-reported abort e o =
    tick-reported (is_terminal_state o.reported.status) abort o.abort_requested o

report-IsOrderly :
    (was : Bool) (r : RunStatus) (o : Observer)
    → IsOrderly was o
    → IsOrderly was (on_signal (report r) o)
unfolding on_signal
report-IsOrderly was r o h = record { ongoing = h.ongoing; noted = h.noted; once = h.once }

on_report-reported : (r : RunStatus) (o : Observer) → (on_signal (report r) o).reported ≡ r
unfolding on_signal
on_report-reported r o = refl

or_false : (b : Bool) → (b || false) ≡ b
or_false true = refl
or_false false = refl

or_assoc : (a b c : Bool) → ((a || b) || c) ≡ (a || (b || c))
or_assoc true b c = refl
or_assoc false b c = refl

-- Every sequence of reports and ticks, whatever meshStack answers, keeps an observer in order: each
-- update sent before the last one is of a run that has not ended; and the command was cancelled exactly
-- once if meshStack's answer to one of these updates asked for an abort, or one was noted before, and
-- else never.
pub observe-IsOrderly :
    (signals : List Signal) (o : Observer) (was : Bool)
    → IsOrderly was o
    → IsOrderly (was || asks_abort o.reported signals) (observe signals o)
unfolding observe
observe-IsOrderly [] o was h = subst (λ b. IsOrderly b o) (sym (or_false was)) h
observe-IsOrderly (report r ∷ rest) o was h =
    subst (λ r'. IsOrderly (was || asks_abort r' rest) (observe rest (on_signal (report r) o)))
      (on_report-reported r o)
      (observe-IsOrderly rest (on_signal (report r) o) was (report-IsOrderly was r o h))
observe-IsOrderly (tick abort e ∷ rest) o was h =
    let stopped = abort && not (is_terminal_state o.reported.status) in
    subst (λ b. IsOrderly b (observe rest (on_signal (tick abort e) o)))
      (ap (λ r. (was || stopped) || asks_abort r rest) (on_tick-reported abort e o)
        ∙ or_assoc was stopped (asks_abort o.reported rest))
      (observe-IsOrderly rest (on_signal (tick abort e) o) (was || stopped)
        (tick-IsOrderly abort was e o h))

-- The reports among the signals, in their order.
abbrev pub reports_of : List Signal → List RunStatus
reports_of [] = []
reports_of (report r ∷ rest) = r ∷ reports_of rest
reports_of (tick abort e ∷ rest) = reports_of rest

pub reports_of-map : (rs : List RunStatus) → reports_of (map report rs) ≡ rs
reports_of-map [] = refl
reports_of-map (r ∷ rest) = ap (λ x. r ∷ x) (reports_of-map rest)

abbrev last_or : RunStatus → List RunStatus → RunStatus
last_or d [] = d
last_or d (r ∷ rest) = last_or r rest

observe-reported :
    (signals : List Signal) (o : Observer)
    → (observe signals o).reported ≡ last_or o.reported (reports_of signals)
unfolding observe on_signal
observe-reported [] o = refl
observe-reported (report r ∷ rest) o = observe-reported rest (record o { reported = r })
observe-reported (tick abort e ∷ rest) o =
    observe-reported rest _
    ∙ ap (λ d. last_or d (reports_of rest))
        (tick-reported (is_terminal_state o.reported.status) abort o.abort_requested o)

last_or-append : (d r : RunStatus) (rest : List RunStatus) → last_or d (rest ++ r ∷ []) ≡ r
last_or-append d r [] = refl
last_or-append d r (x ∷ rest) = last_or-append x r rest

reported_last :
    (signals : List Signal) (o : Observer) (e : ExecutionStatus) (st : List ExecutionStatus)
    (s : Cmd)
    → reports_of signals ≡ published_reports s.events
    → Ended e st s
    → (observe signals o).reported ≡ s.report_status
unfolding published_reports
reported_last signals o e st s same h =
    observe-reported signals o
    ∙ (ap (last_or o.reported) (same ∙ ap published_reports h.last.1)
        ∙ last_or-append o.reported s.report_status (published_reports h.last.0))

abbrev is_succeeded : ExecutionStatus → Bool
is_succeeded succeeded = true
is_succeeded pending = false
is_succeeded in_progress = false
is_succeeded failed = false
is_succeeded aborted = false

-- What is told of a run that came to an end with the status `e`.
abbrev pub told : Bool → Bool → ExecutionStatus → ExecutionStatus
told is_async asked e =
    if asked then aborted else if is_async && is_succeeded e then in_progress else e

told-final_status :
    (is_async asked : Bool) (e : ExecutionStatus)
    → final_status is_async asked e ≡ told is_async asked e
unfolding final_status
told-final_status true true e = refl
told-final_status false true e = refl
told-final_status true false pending = refl
told-final_status true false in_progress = refl
told-final_status true false succeeded = refl
told-final_status true false failed = refl
told-final_status true false aborted = refl
told-final_status false false e = refl

-- What the last update says of a run that ended with the status `e`, where meshStack was asked with
-- these signals, from the start of the run.
abbrev pub IsTold : Bool → ExecutionStatus → String → List Signal → Type 0
IsTold is_async e id signals =
    (final_update is_async (observe signals (init_observer id))).status
    ≡ told is_async (asks_abort (init_status id) signals) e

init-IsOrderly : (id : String) → IsOrderly false (init_observer id)
init-IsOrderly id = record { ongoing = tt; noted = refl; once = refl }

reported-IsTold :
    (is_async : Bool) (e : ExecutionStatus) (id : String) (signals : List Signal)
    → (observe signals (init_observer id)).reported.status ≡ e
    → IsTold is_async e id signals
unfolding final_update
reported-IsTold is_async e id signals is =
    let o = observe signals (init_observer id) in
    ap (final_status is_async o.abort_requested) is
    ∙ (told-final_status is_async o.abort_requested e
        ∙ ap (λ asked. told is_async asked e)
            (observe-IsOrderly signals (init_observer id) false (init-IsOrderly id)).noted)

module _ (c : GenericTfCmd) (n : ℕ) (signals : List Signal) where
  tells_end :
      (e : ExecutionStatus) (st : List ExecutionStatus) (s : Cmd)
      → reports_of signals ≡ published_reports s.events
      → Ended e st s
      → IsTold c.async_run e c.run_id signals
  tells_end e st s same h =
      reported-IsTold c.async_run e c.run_id signals (
        ap (λ r. r.status) (reported_last signals (init_observer c.run_id) e st s same h)
        ∙ h.status)

  tells_failure :
      (a : Bool) (s : Cmd)
      → reports_of signals ≡ published_reports s.events
      → FailedAt a n s
      → IsTold c.async_run failed c.run_id signals
  tells_failure true s same h = tells_end failed _ s same h
  tells_failure false s same (k, m, sum, h) = tells_end failed _ s same h

  tells_outcome :
      (r : Result (Unit {0})) (s : Cmd)
      → reports_of signals ≡ published_reports s.events
      → Ends
          (Always (Ended succeeded (all_done c.async_run n)))
          (FailedAt c.async_run n)
          Unfinished
          r
          s
      → Ends
          (λ _ _. IsTold c.async_run succeeded c.run_id signals)
          (λ _. IsTold c.async_run failed c.run_id signals)
          (λ _. Unit)
          r
          s
  tells_outcome (ok a) s same h = tells_end succeeded _ s same h
  tells_outcome (err e) s same h = tells_failure c.async_run s same h
  tells_outcome panic s same h = tt

-- The last update of a run that registered, for every order of the command's reports and the ticks.
-- Where meshStack's answer to an earlier update asked for an abort it says ABORTED. Else, where the
-- command returned no error, it says SUCCEEDED, or IN_PROGRESS for an asynchronous run, and where it
-- returned one, FAILED.
pub final_update-execute :
    (c : GenericTfCmd) (b : Behavior) (signals : List Signal)
    → reports_of signals ≡ work_routine c b none
    → (let start = init_run_steps c b (init_run_context_info c.outside c.run_id) in
        Ends
          (λ _ _. IsTold c.async_run succeeded c.run_id signals)
          (λ _. IsTold c.async_run failed c.run_id signals)
          (λ _. Unit)
          (execute c b start).0
          (execute c b start).1)
unfolding work_routine
final_update-execute c b signals same =
    tells_outcome c (suc (steps_after_first b)) signals _ _ same
      (execute-Outcome c b (init_run_context_info c.outside c.run_id) tt)

-- The last update of a run that could not register says FAILED, or ABORTED where meshStack's
-- answer to an earlier update asked for an abort.
pub final_update-register :
    (c : GenericTfCmd) (b : Behavior) (e : Error) (signals : List Signal)
    → reports_of signals ≡ work_routine c b (some e)
    → IsTold c.async_run failed c.run_id signals
unfolding work_routine
final_update-register c b e signals same =
    reported-IsTold c.async_run failed c.run_id signals
      (ap (λ r. r.status) (observe-reported signals (init_observer c.run_id) ∙ ap (last_or _) same))
