-- ===== src/Executor.antt =====
-- src/executor: the two executors that the scheduler launches on the hosts.
pub mod Driver
pub mod Shell
pub mod Disk
pub mod Waiting
pub mod Ceph
pub mod System
