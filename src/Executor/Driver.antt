-- ===== src/Executor/Driver.antt =====
-- What Mesos' driver does with the executors of src/executor: the callbacks that it makes, and the `main` of
-- both programs.
use ceph_mesos.Prelude.{List, Option, Text, [], ℕ, ◌∷◌}
use ceph_mesos.Scheduler.Driver.{TaskInfo}

-- Each with what an executor looks at.
pub data ExecutorCallback : Type 0 where
  call_registered : Text → Option Text → ExecutorCallback
  call_reregistered call_disconnected : ExecutorCallback
  call_launch : TaskInfo → ExecutorCallback
  call_kill : Text → ExecutorCallback
  call_message : Text → ExecutorCallback
  call_shutdown : ExecutorCallback
  call_error : Text → ExecutorCallback

-- The ids of the tasks that are launched.
abbrev pub launched_ids : List ExecutorCallback → List Text
launched_ids [] = []
launched_ids (call_launch task ∷ cs) = task.task_id ∷ launched_ids cs
launched_ids (_ ∷ cs) = launched_ids cs

-- What `driver.run()` gives.
pub data DriverStatus : Type 0 where
  driver_stopped driver_aborted driver_not_started driver_running : DriverStatus

-- The exit code of both programs.
unfoldable pub exit_code : DriverStatus → ℕ
exit_code driver_stopped = 0
exit_code _ = 1
