-- ===== src/State.antt =====
-- src/state: what the scheduler knows of its tasks and of its hosts.
pub mod TaskState
pub mod HostConfig
pub mod StateMachine
