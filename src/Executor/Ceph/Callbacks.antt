-- ===== src/Executor/Ceph/Callbacks.antt =====
-- The callbacks that Mesos makes on the executor of src/executor/CephExecutor.cpp, one after the other.
pub mod Sound
pub mod Runs
pub mod Heard
use ceph_mesos.Prelude.{List, [], ℕ, ◌∷◌}
use ceph_mesos.Common.World.{World}
use ceph_mesos.Executor.Ceph.{CephExecutor, Handled, finished_with, ◌>>=◌}
use ceph_mesos.Executor.Ceph.Message.{executor_message}
use ceph_mesos.Executor.Ceph.Start.{executor_launch, executor_registered, executor_shutdown}
use ceph_mesos.Executor.Driver.{
  ExecutorCallback, call_disconnected, call_error, call_kill, call_launch, call_message,
  call_registered, call_reregistered, call_shutdown,
}

module _ (w : World) (fuel : ℕ) where
  -- `reregistered` only logs; `disconnected`, `killTask` and `error` have empty bodies.
  unfoldable pub executor_callback : ExecutorCallback → CephExecutor → Handled CephExecutor
  executor_callback (call_registered hostname cwd) e =
      finished_with (executor_registered hostname cwd e)
  executor_callback call_reregistered e = finished_with e
  executor_callback call_disconnected e = finished_with e
  executor_callback (call_launch task) e = executor_launch w fuel task e
  executor_callback (call_kill task_id) e = finished_with e
  executor_callback (call_message text) e = executor_message w fuel text e
  executor_callback call_shutdown e = finished_with (executor_shutdown e)
  executor_callback (call_error text) e = finished_with e

  -- An exception ends the process, and with it the run.
  unfoldable pub executor_run : List ExecutorCallback → CephExecutor → Handled CephExecutor
  unfolding executor_callback
  executor_run [] e = finished_with e
  executor_run (c ∷ cs) e = executor_callback c e >>= executor_run cs
