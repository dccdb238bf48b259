-- ===== src/Controller.antt =====
-- run-controller/controller: the program that claims runs and places each as a job in Kubernetes.
pub mod Config
pub mod Subject
pub mod Pod
pub mod World
pub mod Exec
pub mod Cluster
pub mod Job
pub mod Capacity
pub mod Rules
pub mod RunDetails
pub mod Decryption
pub mod Dispatch
pub mod Loop
pub mod Example
mod Tests
