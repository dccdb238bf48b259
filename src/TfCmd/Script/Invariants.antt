-- ===== src/TfCmd/Script/Invariants.antt =====
-- The pre-run script keeps every stable property.
use building_block_runner.TfCmd.Keeps.{
  Keeps, Stable, keeps_rules, Keeps-note, Keeps-ask, Keeps-deferred,
}
use building_block_runner.TfCmd.Exec.{Cmd}
use building_block_runner.TfCmd.Params.{GenericTfCmd}
use building_block_runner.Prelude.{String, List}
use building_block_runner.TfCmd.Env.{Environment}
use building_block_runner.TfCmd.Script.{execute_script, script_body}

module _ {P : Cmd → Type 0} (stable : Stable P) (c : GenericTfCmd) where
  execute_script-keeps :
      (path : String) (environ : List String) (stdin : String)
      → Keeps P (execute_script c path environ stdin)
  unfolding execute_script
  execute_script-keeps path environ stdin = search (keeps_rules, Keeps-note stable)

  pub script_body-keeps : (script : String) (env : Environment) → Keeps P (script_body c script env)
  unfolding script_body
  script_body-keeps script env =
      search (keeps_rules, Keeps-ask stable, Keeps-deferred stable, execute_script-keeps) depth 14
