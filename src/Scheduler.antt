-- ===== src/Scheduler.antt =====
-- src/scheduler: the framework scheduler that Mesos calls back.
pub mod Driver
pub mod EventLoop
pub mod Agent
pub mod Framework
