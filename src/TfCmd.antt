-- ===== src/TfCmd.antt =====
-- tf-block-runner/tfrun: tfcmd.go and the three commands built on it. The modules follow the order
-- of the work: what a command can ask of the world, its state, its step keeping, and `execute`.
pub mod Outside
pub mod Exec
pub mod Keeps
pub mod Params
pub mod Progress
pub mod Triple
pub mod Example
pub mod Source
pub mod Init
pub mod Workspace
pub mod Env
pub mod Inputs
pub mod Script
pub mod Vars
pub mod Execute
