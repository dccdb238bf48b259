-- ===== src/TfCmd/Source/Invariants.antt =====
-- Copying the sources keeps every stable property.
use building_block_runner.TfCmd.Keeps.{
  Keeps, Stable, keeps_rules, Keeps-println, Keeps-note, Keeps-ask, Keeps-deferred,
}
use building_block_runner.TfCmd.Exec.{Cmd}
use building_block_runner.TfCmd.Params.{GenericTfCmd}
use building_block_runner.Prelude.{String, Option, none, some}
use building_block_runner.TfCmd.Source.{
  azure_source, git_source, missing_path, stat_path, move_sources, clone_and_move,
  copy_to_target_dir, create_fresh_command_wd,
}

module _ {P : Cmd → Type 0} (stable : Stable P) (c : GenericTfCmd) where
  pub stat_path-keeps : (p : String) → Keeps P (stat_path c p)
  unfolding stat_path
  stat_path-keeps p = search (keeps_rules, Keeps-note stable)

  azure_source-keeps : (dir tmp : String) → Keeps P (azure_source c dir tmp)
  unfolding azure_source
  azure_source-keeps dir tmp = search (keeps_rules, Keeps-ask stable)

  git_source-keeps : (tmp : String) → Keeps P (git_source c tmp)
  unfolding git_source
  git_source-keeps tmp = search (keeps_rules, Keeps-ask stable)

  missing_path-keeps : (p : Option String) → Keeps P (missing_path p)
  unfolding missing_path
  missing_path-keeps none = search keeps_rules
  missing_path-keeps (some p) = search (keeps_rules, Keeps-println stable)

  move_sources-keeps : (a b : String) → Keeps P (move_sources c a b)
  unfolding move_sources
  move_sources-keeps a b = search (keeps_rules, Keeps-println stable, Keeps-ask stable)

  clone_and_move-keeps : (dir tmp : String) → Keeps P (clone_and_move c dir tmp)
  unfolding clone_and_move
  clone_and_move-keeps dir tmp =
      search
        (
          keeps_rules,
          Keeps-println stable,
          stat_path-keeps,
          azure_source-keeps,
          git_source-keeps,
          missing_path-keeps,
          move_sources-keeps,
        )
        depth 12

  pub create_fresh_command_wd-keeps : Keeps P (create_fresh_command_wd c)
  unfolding create_fresh_command_wd copy_to_target_dir
  create_fresh_command_wd-keeps =
      search
        (
          keeps_rules,
          Keeps-println stable,
          Keeps-ask stable,
          Keeps-deferred stable,
          clone_and_move-keeps,
        )
        depth 12
