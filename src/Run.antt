-- ===== src/Run.antt =====
-- tf-block-runner/tfrun: what a run is, and the status that is reported of it.
pub mod Kinds
pub mod Status
