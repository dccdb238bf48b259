-- ===== src/Worker.antt =====
-- tf-block-runner/tfrun: the goroutines around a command, and the manager of the workers.
pub mod Delivery
pub mod Observer
pub mod Tokens
