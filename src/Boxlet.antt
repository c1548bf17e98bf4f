-- ===== src/Boxlet.antt =====
-- internal/boxlet/server: the service that creates, runs and removes sandboxes.
pub mod Types
pub mod Spec
pub mod Exec
pub mod Rootfs
pub mod Steps
pub mod Sandboxes
pub mod Create
pub mod Holds
pub mod Logic
pub mod Quiet
pub mod BringUp
pub mod Running
pub mod Files
pub mod Launch
pub mod Creating
pub mod Ending
pub mod Acting
