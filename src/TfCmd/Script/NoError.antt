-- ===== src/TfCmd/Script/NoError.antt =====
-- The pre-run script's errors are values: `runPreRunScript` itself never fails.
use building_block_runner.Prelude.{String, Option, none, some, is_empty}
use building_block_runner.TfCmd.Outside.{Error, Result, ok, err, panic}
use building_block_runner.TfCmd.Exec.{Cmd, println_to_update_logs, when_some}
use building_block_runner.TfCmd.Params.{GenericTfCmd}
use building_block_runner.TfCmd.Keeps.{Keeps, Stable}
use building_block_runner.TfCmd.Triple.{
  Ends, Triple, Always, Triple-modify, Triple-bind, Triple-if, Triple-catch, Triple-kept,
  Triple-pure,
}
use building_block_runner.TfCmd.Env.{Environment}
use building_block_runner.TfCmd.Script.{
  ScriptResult, run_script, print_unless_empty, report_script, run_configured, skip_script,
  script_or_skip, run_pre_run_script,
}
use building_block_runner.TfCmd.Script.Invariants.{script_body-keeps}

module _ {P : Cmd → Type 0} (stable : Stable P) (c : GenericTfCmd) {E : Cmd → Type 0} where
  println-Returns : (text : String) → Triple P (println_to_update_logs text) (Always P) E P
  unfolding println_to_update_logs
  println-Returns text = Triple-modify _ (stable.keeps_log _)

  run_script-Returns :
      (script : String) (env : Environment) → Triple P (run_script c script env) (Always P) E P
  unfolding run_script
  run_script-Returns script env =
      Triple-catch _ _ (Triple-kept _ (λ s h. h) (λ s h. h) (script_body-keeps stable c script env))
        λ e. Triple-pure _

  print_unless_empty-Returns : (s : String) → Triple P (print_unless_empty s) (Always P) E P
  unfolding print_unless_empty
  print_unless_empty-Returns s = Triple-if (is_empty s) _ _ (Triple-pure tt) (println-Returns s)

  print_message-Returns :
      (e : Option Error) (t : String)
      → Triple P (when_some e (λ x. print_unless_empty t)) (Always P) E P
  unfolding when_some
  print_message-Returns none t = Triple-pure tt
  print_message-Returns (some x) t = print_unless_empty-Returns t

  report_script-Returns :
      (r : ScriptResult) (e : Option Error) → Triple P (report_script c r e) (Always P) E P
  unfolding report_script
  report_script-Returns r e = Triple-bind _ _ (print_message-Returns e r.user_message) λ x.
      Triple-bind _ _ (print_unless_empty-Returns r.system_message)
        λ y. Triple-bind _ _ (println-Returns _) λ z. Triple-pure _

  skip_script-Returns : Triple P skip_script (Always P) E P
  unfolding skip_script
  skip_script-Returns = Triple-bind _ _ (println-Returns _) λ x. Triple-pure _

  script_or_skip-Returns :
      (o : Option String) (env : Environment) → Triple P (script_or_skip c o env) (Always P) E P
  unfolding script_or_skip run_configured
  script_or_skip-Returns none env = skip_script-Returns
  script_or_skip-Returns (some script) env =
      Triple-if (is_empty (c.trim_space script)) _ _ skip_script-Returns
        (Triple-bind _ _ (run_script-Returns script env) λ r. report_script-Returns r.0 r.1)

  -- Whatever the script does, its outcome comes back as a value.
  pub run_pre_run_script-Returns :
      (env : Environment) → Triple P (run_pre_run_script c env) (Always P) E P
  unfolding run_pre_run_script
  run_pre_run_script-Returns env = script_or_skip-Returns c.pre_run_script env

Ends-same : {A : Type 0} (P : Cmd → Type 0) (r : Result A) (s : Cmd) → Ends (Always P) P P r s → P s
Ends-same P (ok a) s h = h
Ends-same P (err e) s h = h
Ends-same P panic s h = h

pub run_pre_run_script-keeps :
    {P : Cmd → Type 0} (stable : Stable P) (c : GenericTfCmd) (env : Environment)
    → Keeps P (run_pre_run_script c env)
run_pre_run_script-keeps {P = P} stable c env = record {
  at = λ s h. Ends-same P _ _ ((run_pre_run_script-Returns stable c env).at s h);
}
