-- ===== src/TfCmd/Source.antt =====
-- gitsource.go, as `createFreshCommandWd` of tfcmd.go calls it.
pub mod Invariants
use building_block_runner.Prelude.{
  String, Bool, Option, none, some, ◌<>◌, contains, trim_left_slashes, if◌then◌else◌,
}
use building_block_runner.TfCmd.Outside.{
  Stat, exists, not_exist, stat_failed, prepare_auth, make_dir, remove_all, git_clone, git_checkout,
  azure_clone, azure_checkout, stat, move_dir_content,
}
use building_block_runner.TfCmd.Exec.{
  Exec, ◌>>=◌, ◌>>◌, pure, raise, raise_panic, gets, ask, when_some, note, deferred, modify_state,
  println_to_update_logs,
}
use building_block_runner.TfCmd.Params.{GenericTfCmd, GitSource}

abbrev azure_devops_domain : String
azure_devops_domain = "dev.azure.com"

abbrev temp_clone_dir_path : String
temp_clone_dir_path = "tmp-clone-meshstack"

source_text : GitSource → String
source_text g = elim g.path [ none ↦ g.url | some p ↦ g.url <> "/" <> trim_left_slashes p ]

azure_source : GenericTfCmd → String → String → Exec (Unit {0})
azure_source c dir tmp = do
  ask (azure_clone c.source.url) (λ h. c.outside.azure_clone_repository h dir c.source.url)
  when_some c.source.ref_name
      λ ref. ask (azure_checkout ref) (λ h. c.outside.azure_checkout_ref h tmp ref)

git_source : GenericTfCmd → String → Exec (Unit {0})
git_source c tmp = do
  ask (git_clone c.source.url) (λ h. c.outside.clone_repository h c.source.url tmp)
  when_some c.source.ref_name λ ref. ask (git_checkout ref) (λ h. c.outside.checkout_ref h ref)

-- The message quotes `*g.path`, which panics where no path is configured.
missing_path : Option String → Exec (Unit {0})
missing_path none = raise_panic
missing_path (some p) = do
  println_to_update_logs
      ("The specified path '" <> p <> "' does not exist, please check repository configuration.")
  raise "specified path does not exist"

is_there : Stat → Bool
is_there exists = Bool.true
is_there not_exist = Bool.false
is_there (stat_failed e) = Bool.false

unfoldable pub stat_path : GenericTfCmd → String → Exec Stat
stat_path c p = do
  h ← gets (λ s. c.outside.stat_path s.events p)
  modify_state (note (stat p))
  pure h

move_sources : GenericTfCmd → String → String → Exec (Unit {0})
move_sources c source_dir dir = do
  ask (move_dir_content source_dir dir) (λ h. c.outside.move_files h source_dir dir)
  println_to_update_logs "Successfully copied files from your repository to the working directory."

source_dir_in : GenericTfCmd → String → String
source_dir_in c tmp = elim c.source.path [ none ↦ tmp | some p ↦ c.path_join tmp p ]

clone_and_move : GenericTfCmd → String → String → Exec (Unit {0})
unfolding azure_source git_source source_dir_in missing_path is_there stat_path move_sources
clone_and_move c dir tmp = do
  if contains c.source.url azure_devops_domain then azure_source c dir tmp else git_source c tmp
  println_to_update_logs "Successfully cloned sources from your repository."
  let source_dir = source_dir_in c tmp
  found ← stat_path c source_dir
  if is_there found then move_sources c source_dir dir else missing_path c.source.path

-- GitSource.CopyToTargetDir
unfoldable pub copy_to_target_dir : GenericTfCmd → String → Exec (Unit {0})
unfolding clone_and_move source_text
copy_to_target_dir c dir = do
  println_to_update_logs (
      "Attempt to copy sources from "
      <> source_text c.source
      <> " "
      <> (if c.skip_host_key_validation then "(insecure)" else ""))
  ask (prepare_auth dir) (λ h. c.outside.auth_prepare h dir)
  let tmp = c.path_join dir temp_clone_dir_path
  ask (make_dir tmp) (λ h. c.outside.mkdir h tmp)
  deferred (remove_all tmp) (clone_and_move c dir tmp)

-- GenericTfCmd.createFreshCommandWd
unfoldable pub create_fresh_command_wd : GenericTfCmd → Exec (Unit {0})
unfolding copy_to_target_dir
create_fresh_command_wd c = copy_to_target_dir c c.working_directory
