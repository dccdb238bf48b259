-- ===== src/TfCmd/Workspace.antt =====
-- tfcmd.go: the workspace of a building block.
pub mod Invariants
pub mod Laws
mod Tests
use building_block_runner.Prelude.{
  String, Option, none, some, List, [], ◌∷◌, is_empty, has_suffix, if◌then◌else◌,
}
use building_block_runner.TfCmd.Outside.{
  workspace_list, workspace_select, workspace_new, workspace_delete,
}
use building_block_runner.TfCmd.Exec.{Exec, ◌>>=◌, ◌>>◌, pure, catch, gets, ask}
use building_block_runner.TfCmd.Params.{GenericTfCmd}

-- The first workspace whose name ends with the building block's id.
unfoldable pub find_workspace : String → List String → Option String
find_workspace id [] = none
find_workspace id (ws ∷ r) =
    let rest = find_workspace id r in if has_suffix ws id then some ws else rest

-- A failing switch is answered by the empty name and no error.
select_found : GenericTfCmd → Option String → Exec String
select_found c none = pure ""
select_found c (some ws) =
    catch
      (do
        ask (workspace_select ws) (λ h. c.outside.select_workspace h ws)
        pure c.building_block_id)
      (λ e. pure "")

select_listed : GenericTfCmd → List String × String → Exec String
select_listed c (available, current) =
    if has_suffix current c.building_block_id
    then pure current
    else select_found c (find_workspace c.building_block_id available)

-- GenericTfCmd.selectWorkspace
unfoldable pub select_workspace : GenericTfCmd → Exec String
unfolding select_listed select_found
select_workspace c = do l ← ask workspace_list c.outside.list_workspaces; select_listed c l

select_or_create : GenericTfCmd → Exec (Unit {0})
select_or_create c = do
  workspace ← select_workspace c
  if is_empty workspace
      then ask (workspace_new c.suggested_workspace)
          (λ h. c.outside.new_workspace h c.suggested_workspace)
      else pure tt

-- GenericTfCmd.useWorkspaceIfNeeded
unfoldable pub use_workspace_if_needed : GenericTfCmd → Exec (Unit {0})
unfolding select_or_create
use_workspace_if_needed c = do
  needed ← gets (λ s. s.use_workspaces)
  if needed then select_or_create c else pure tt

delete_selected : GenericTfCmd → String → Exec (Unit {0})
delete_selected c workspace = do
  ask (workspace_select "default") (λ h. c.outside.select_workspace h "default")
  ask (workspace_delete workspace) (λ h. c.outside.delete_workspace h workspace)

-- Errors are logged and dropped. One of `selectWorkspace` does not stop the deletion, which then
-- goes on with the empty name.
-- GenericTfCmd.deleteWorkspaceIfNeeded
unfoldable pub delete_workspace_if_needed : GenericTfCmd → Exec (Unit {0})
unfolding delete_selected
delete_workspace_if_needed c = do
  needed ← gets (λ s. s.use_workspaces)
  if needed
      then (do
        workspace ← catch (select_workspace c) (λ e. pure "")
        catch (delete_selected c workspace) (λ e. pure tt))
      else pure tt
