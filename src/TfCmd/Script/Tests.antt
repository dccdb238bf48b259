-- ===== src/TfCmd/Script/Tests.antt =====
-- A script's PATH.
use building_block_runner.Prelude.{refl, ◌≡◌, [], ◌∷◌, ◌++◌}
use building_block_runner.TfCmd.Script.{prepend_to_path_environment_variable}
use building_block_runner.TfCmd.Script.Laws.{
  extended, prepend_to_path_environment_variable-extended,
}

prepend_to_path_environment_variable-extended_example :
    (prepend_to_path_environment_variable
        (λ s. s)
        (("A=1" ∷ []) ++ "PATH=/usr/bin" ∷ "B=2" ∷ [])
        ("/tf" ∷ [])
      ≡ ("A=1" ∷ []) ++ extended "/tf" "/usr/bin" ∷ "B=2" ∷ [])
    × (prepend_to_path_environment_variable (λ s. s) (("A=1" ∷ []) ++ "B=2" ∷ []) ("/tf" ∷ [])
        ≡ (("A=1" ∷ []) ++ "B=2" ∷ []) ++ "PATH=/tf" ∷ [])
prepend_to_path_environment_variable-extended_example =
    prepend_to_path_environment_variable-extended (λ s. s) "/tf" "/usr/bin" ("A=1" ∷ [])
      ("B=2" ∷ []) refl refl refl
