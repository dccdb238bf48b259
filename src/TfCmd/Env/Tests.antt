-- ===== src/TfCmd/Env/Tests.antt =====
-- The environment of the example command.
use building_block_runner.Prelude.{[], ◌∷◌, refl, ◌≡◌, some, true, lookup, insert}
use building_block_runner.TfCmd.Exec.{◌>>=◌, pure}
use building_block_runner.TfCmd.Example.{example, fresh, plain_libraries}
use building_block_runner.TfCmd.Env.{build_tf_env, add_env_vars, clean_system_env, copy_env}
use building_block_runner.TfCmd.Env.Laws.{
  HasNoTfVar, build_tf_env-HasNoTfVar, clean_system_env-inherits, named, inherited_keys,
}

clean_system_env-inherits_example :
    (plain_libraries.look_up_env "HOME" ≡ some "/root") × (named inherited_keys "HOME" ≡ true)
unfolding clean_system_env copy_env lookup insert
clean_system_env-inherits_example =
    clean_system_env-inherits plain_libraries.look_up_env "HOME" "/root" refl

build_tf_env-HasNoTfVar_example : HasNoTfVar (
    ("HOME", "/root")
    ∷ ("GIT_SSH_COMMAND", "ssh -i '/wd/ssh_cert'")
    ∷ ("TF_HTTP_USERNAME", "x")
    ∷ ("TF_HTTP_PASSWORD", "token")
    ∷ [])
unfolding build_tf_env add_env_vars clean_system_env copy_env lookup insert pure ◌>>=◌
build_tf_env-HasNoTfVar_example = build_tf_env-HasNoTfVar (example "APPLY" "") fresh _ refl
