-- ===== src/Executor/Disk/Callbacks.antt =====
-- The callbacks that Mesos makes on the executor of src/executor/DiskExecutor.cpp, one after the other.
pub mod Silent
pub mod Finished
use ceph_mesos.Prelude.{List, Text, [], ◌∷◌}
use ceph_mesos.Common.World.{World}
use ceph_mesos.Executor.Disk.{DiskExecutor}
use ceph_mesos.Executor.Disk.Launch.{◌>>=◌}
use ceph_mesos.Executor.Disk.Report.{launch_task}
use ceph_mesos.Executor.Driver.{
  ExecutorCallback, call_disconnected, call_error, call_kill, call_launch, call_message,
  call_registered, call_reregistered, call_shutdown,
}
use ceph_mesos.Scheduler.Driver.{Outcome, done}

-- `registered`
unfoldable pub disk_registered : Text → DiskExecutor → DiskExecutor
disk_registered hostname d = record d { my_hostname = hostname }

module _ (w : World) where
  -- All but `registered` and `launchTask` have empty bodies.
  unfoldable pub disk_callback : ExecutorCallback → DiskExecutor → Outcome DiskExecutor
  unfolding disk_registered
  disk_callback (call_registered hostname cwd) d = done (disk_registered hostname d)
  disk_callback call_reregistered d = done d
  disk_callback call_disconnected d = done d
  disk_callback (call_launch task) d = launch_task w task d
  disk_callback (call_kill task_id) d = done d
  disk_callback (call_message text) d = done d
  disk_callback call_shutdown d = done d
  disk_callback (call_error text) d = done d

  -- An exception ends the process, and with it the run.
  unfoldable pub disk_run : List ExecutorCallback → DiskExecutor → Outcome DiskExecutor
  unfolding disk_callback
  disk_run [] d = done d
  disk_run (c ∷ cs) d = disk_callback c d >>= disk_run cs
