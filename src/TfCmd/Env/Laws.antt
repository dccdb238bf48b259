-- ===== src/TfCmd/Env/Laws.antt =====
-- What the environment of the OpenTofu process holds.
use building_block_runner.Prelude.{
  String, Bool, true, false, Option, none, some, List, [], ◌∷◌, ◌++◌, ◌≡◌, refl, ap, ◌∙◌, subst,
  inl, inr, ◌&&◌, not, is_empty, has_prefix, str_eq, str_eq_iff, lookup, insert, lookup-insert,
  if◌then◌else◌, Bool-cases, Option-cases, any, arith, All,
}
use building_block_runner.TfCmd.Outside.{ok}
use building_block_runner.TfCmd.Exec.{Cmd, Exec, pure}
use building_block_runner.TfCmd.Params.{GenericTfCmd, Variable, AuthType, ssh, no_auth}
use building_block_runner.TfCmd.Triple.{
  Triple, Always, Ends, Triple-bind, Triple-branch, Triple-kept,
}
use building_block_runner.TfCmd.Env.{
  Environment, copy_env, clean_system_env, system_keys, compatibility_keys, tf_var_env_prefix,
  add_env_vars, env_value, with_ssh, with_backend_auth, build_tf_env, ssh_command,
}

-- Nothing is bound but what `look_up` binds and the list `allowed` names.
abbrev IsCopy : (String → Option String) → (String → Bool) → Environment → Type 0
IsCopy look_up allowed env =
    (k v : String) → lookup k env ≡ some v → (look_up k ≡ some v) × (allowed k ≡ true)

abbrev pub named : List String → String → Bool
named keys k = any (str_eq k) keys

copy_one_lem :
    (look_up : String → Option String) (allowed : String → Bool) (j : String) (o : Option String)
    (env : Environment)
    → look_up j ≡ o
    → allowed j ≡ true
    → IsCopy look_up allowed env
    → IsCopy look_up allowed (elim o [ none ↦ env | some v ↦ insert j v env ])
copy_one_lem look_up allowed j none env at_j ok_j h k v found = h k v found
copy_one_lem look_up allowed j (some w) env at_j ok_j h k v found = elim (Bool-cases (str_eq j k)) [
  | inl same ↦ ground (
    arith,
    lookup-insert j k w env,
    (str_eq_iff j k).0 same,
    same,
    found,
    ap look_up ((str_eq_iff j k).0 same),
    ap allowed ((str_eq_iff j k).0 same),
  )
  | inr differ ↦ ground (arith, lookup-insert j k w env, h k v, differ, found)
]

copy_env-IsCopy :
    (look_up : String → Option String) (allowed : String → Bool) (keys : List String)
    (env : Environment)
    → All (λ j. allowed j ≡ true) keys
    → IsCopy look_up allowed env
    → IsCopy look_up allowed (copy_env look_up keys env)
unfolding copy_env
copy_env-IsCopy look_up allowed [] env oks h = h
copy_env-IsCopy look_up allowed (j ∷ r) env oks h =
    copy_env-IsCopy look_up allowed r _ oks.1
      (copy_one_lem look_up allowed j (look_up j) env refl oks.0 h)

abbrev pub inherited_keys : List String
inherited_keys = system_keys ++ compatibility_keys

empty-IsCopy : (look_up : String → Option String) → IsCopy look_up (named inherited_keys) []
unfolding lookup
empty-IsCopy look_up k v found = ground arith

-- Each binding of the cleaned environment is the runner's own, and its key is in the two lists.
pub clean_system_env-inherits :
    (look_up : String → Option String) (k v : String)
    → lookup k (clean_system_env look_up) ≡ some v
    → (look_up k ≡ some v) × (named inherited_keys k ≡ true)
unfolding clean_system_env
clean_system_env-inherits look_up =
    copy_env-IsCopy look_up (named inherited_keys) compatibility_keys _
      (refl, (refl, (refl, (refl, (refl, (refl, (refl, (refl, (refl, (refl, (refl, tt)))))))))))
      (copy_env-IsCopy look_up (named inherited_keys) system_keys []
        (refl, (refl, (refl, (refl, (refl, (refl, tt)))))) (empty-IsCopy look_up))

-- No variable of the environment is one that OpenTofu takes for an input.
abbrev pub HasNoTfVar : Environment → Type 0
HasNoTfVar env = (k : String) → has_prefix k tf_var_env_prefix ≡ true → lookup k env ≡ none

insert-HasNoTfVar :
    (j v : String) (env : Environment)
    → has_prefix j tf_var_env_prefix ≡ false
    → HasNoTfVar env
    → HasNoTfVar (insert j v env)
insert-HasNoTfVar j v env other h k tf = elim (Bool-cases (str_eq j k)) [
  | inl same ↦
      ground (arith, ap (λ x. has_prefix x tf_var_env_prefix) ((str_eq_iff j k).0 same), other, tf)
  | inr differ ↦ ground (arith, lookup-insert j k v env, h k tf, differ)
]

named-other :
    (k : String) (keys : List String)
    → All (λ j. has_prefix j tf_var_env_prefix ≡ false) keys
    → named keys k ≡ true
    → has_prefix k tf_var_env_prefix ≡ false
named-other k [] oks h = ground arith
named-other k (j ∷ r) oks h = elim (Bool-cases (str_eq k j)) [
  | inl same ↦ ap (λ x. has_prefix x tf_var_env_prefix) ((str_eq_iff k j).0 same) ∙ oks.0
  | inr differ ↦ named-other k r oks.1 (ground (arith, h, differ))
]

inherited-HasNoTfVar : (look_up : String → Option String) → HasNoTfVar (clean_system_env look_up)
inherited-HasNoTfVar look_up k tf = elim (Option-cases (lookup k (clean_system_env look_up))) [
  | inl absent ↦ absent
  | inr (v, found) ↦ ground (
    arith,
    tf,
    named-other k inherited_keys
        (
          refl,
          (
            refl,
            (
              refl,
              (
                refl,
                (
                  refl,
                  (
                    refl,
                    (
                      refl,
                      (
                        refl,
                        (refl, (refl, (refl, (refl, (refl, (refl, (refl, (refl, (refl, tt))))))))),
                      ),
                    ),
                  ),
                ),
              ),
            ),
          ),
        )
        (clean_system_env-inherits look_up k v found).1,
  )
]

abbrev Anything : Cmd → Type 0
Anything s = Unit

module _ (c : GenericTfCmd) where
  anything : {A : Type 0} (m : Exec A) → Triple Anything m (Always Anything) Anything Anything
  anything m = Triple-kept m (λ s h. h) (λ s h. h) (record { at = λ s h. tt })

  and_not : (a b : Bool) → (a && not b) ≡ true → b ≡ false
  and_not a b h = ground arith

  add_env_vars-HasNoTfVar :
      (vs : List (String × Variable)) (env : Environment)
      → HasNoTfVar env
      → Triple Anything (add_env_vars c vs env) (λ env' s. HasNoTfVar env') Anything Anything
  unfolding add_env_vars pure
  add_env_vars-HasNoTfVar [] env h = record { at = λ s _. h }
  add_env_vars-HasNoTfVar ((name, v) ∷ r) env h =
      Triple-branch (v.env && not (has_prefix name tf_var_env_prefix)) _ _
        (λ passes. Triple-bind _ _ (anything (env_value c name v)) λ value.
          add_env_vars-HasNoTfVar r (insert name value env)
            (insert-HasNoTfVar name value env (and_not v.env _ passes) h))
        (λ skipped. add_env_vars-HasNoTfVar r env h)

  with_ssh-HasNoTfVar :
      (a : AuthType) (env : Environment) → HasNoTfVar env → HasNoTfVar (with_ssh c a env)
  with_ssh-HasNoTfVar no_auth env h = h
  with_ssh-HasNoTfVar ssh env h = insert-HasNoTfVar "GIT_SSH_COMMAND" (ssh_command c) env refl h

  with_backend_auth-HasNoTfVar :
      (env : Environment) → HasNoTfVar env → HasNoTfVar (with_backend_auth c env)
  with_backend_auth-HasNoTfVar env h =
      go (c.use_mesh_backend_fallback && not (is_empty c.run_token))
    where
      go :
          (b : Bool)
          → HasNoTfVar (
              if b
              then insert "TF_HTTP_PASSWORD" c.run_token (insert "TF_HTTP_USERNAME" "x" env)
              else env)
      go true = insert-HasNoTfVar _ _ _ refl (insert-HasNoTfVar _ _ _ refl h)
      go false = h

  build_tf_env-Triple : Triple Anything (build_tf_env c) (λ env s. HasNoTfVar env) Anything Anything
  unfolding build_tf_env pure
  build_tf_env-Triple =
      Triple-bind _ _
        (add_env_vars-HasNoTfVar c.vars _
          (with_ssh-HasNoTfVar c.source.auth _ (inherited-HasNoTfVar c.look_up_env)))
        λ env. record { at = λ s h. with_backend_auth-HasNoTfVar env h }

  -- Where buildTfEnv returns an environment, it binds no variable whose name begins with
  -- TF_VAR_, whatever the inputs are called and the runner's own environment holds.
  pub build_tf_env-HasNoTfVar :
      (s : Cmd) (env : Environment) → (build_tf_env c s).0 ≡ ok env → HasNoTfVar env
  build_tf_env-HasNoTfVar s env built =
      subst (λ r. Ends (λ env s. HasNoTfVar env) Anything Anything r (build_tf_env c s).1) built
        (build_tf_env-Triple.at s tt)
