-- ===== src/TfCmd/Env/Invariants.antt =====
-- Building the environment keeps every stable property.
use building_block_runner.TfCmd.Keeps.{Keeps, Stable, keeps_rules, Keeps-println}
use building_block_runner.TfCmd.Exec.{Cmd}
use building_block_runner.TfCmd.Params.{GenericTfCmd, Variable}
use building_block_runner.Prelude.{String, List, [], ◌∷◌}
use building_block_runner.TfCmd.Env.{
  Environment, decrypt_or_report, env_value, add_env_vars, build_tf_env,
}

module _ {P : Cmd → Type 0} (stable : Stable P) (c : GenericTfCmd) where
  pub decrypt_or_report-keeps :
      (what name : String) (v : Variable) → Keeps P (decrypt_or_report c what name v)
  unfolding decrypt_or_report
  decrypt_or_report-keeps what name v = search (keeps_rules, Keeps-println stable)

  env_value-keeps : (name : String) (v : Variable) → Keeps P (env_value c name v)
  unfolding env_value
  env_value-keeps name v = search (keeps_rules, decrypt_or_report-keeps)

  add_env_vars-keeps :
      (vs : List (String × Variable)) (env : Environment) → Keeps P (add_env_vars c vs env)
  unfolding add_env_vars
  add_env_vars-keeps [] env = search keeps_rules
  add_env_vars-keeps ((name, v) ∷ r) env =
      search (keeps_rules, env_value-keeps, add_env_vars-keeps r)

  pub build_tf_env-keeps : Keeps P (build_tf_env c)
  unfolding build_tf_env
  build_tf_env-keeps = search (keeps_rules, add_env_vars-keeps)
