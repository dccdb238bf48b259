-- ===== src/TfCmd/Workspace/Invariants.antt =====
-- Choosing and deleting a workspace keeps every stable property.
use building_block_runner.TfCmd.Keeps.{Keeps, Stable, keeps_rules, Keeps-ask}
use building_block_runner.TfCmd.Exec.{Cmd}
use building_block_runner.TfCmd.Params.{GenericTfCmd}
use building_block_runner.Prelude.{String, Option, none, some, List}
use building_block_runner.TfCmd.Triple.{
  Triple, Always, Triple-bind, Triple-gets, Triple-if, Triple-catch, Triple-kept, Triple-pure,
}
use building_block_runner.TfCmd.Workspace.{
  select_found, select_listed, select_workspace, select_or_create, use_workspace_if_needed,
  delete_selected, delete_workspace_if_needed,
}

module _ {P : Cmd → Type 0} (stable : Stable P) (c : GenericTfCmd) where
  select_found-keeps : (ws : Option String) → Keeps P (select_found c ws)
  unfolding select_found
  select_found-keeps none = search keeps_rules
  select_found-keeps (some ws) = search (keeps_rules, Keeps-ask stable)

  select_listed-keeps : (l : List String × String) → Keeps P (select_listed c l)
  unfolding select_listed
  select_listed-keeps (available, current) = search (keeps_rules, select_found-keeps)

  select_workspace-keeps : Keeps P (select_workspace c)
  unfolding select_workspace
  select_workspace-keeps = search (keeps_rules, Keeps-ask stable, select_listed-keeps)

  select_or_create-keeps : Keeps P (select_or_create c)
  unfolding select_or_create
  select_or_create-keeps = search (keeps_rules, Keeps-ask stable, select_workspace-keeps)

  pub use_workspace_if_needed-keeps : Keeps P (use_workspace_if_needed c)
  unfolding use_workspace_if_needed
  use_workspace_if_needed-keeps = search (keeps_rules, select_or_create-keeps)

  delete_selected-keeps : (ws : String) → Keeps P (delete_selected c ws)
  unfolding delete_selected
  delete_selected-keeps ws = search (keeps_rules, Keeps-ask stable)

  -- Its errors are dropped.
  pub delete_workspace_if_needed-Returns :
      {E : Cmd → Type 0} → Triple P (delete_workspace_if_needed c) (Always P) E P
  unfolding delete_workspace_if_needed
  delete_workspace_if_needed-Returns = Triple-bind _ _ (Triple-gets _) λ needed.
      Triple-if needed _ _
        (Triple-bind _ _
          (Triple-catch _ _ (Triple-kept _ (λ s h. h) (λ s h. h) select_workspace-keeps)
            λ e. Triple-pure "")
          λ ws.
            Triple-catch _ _ (Triple-kept _ (λ s h. h) (λ s h. h) (delete_selected-keeps ws))
              λ e. Triple-pure tt)
        (Triple-pure tt)
