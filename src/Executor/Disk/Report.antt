-- ===== src/Executor/Disk/Report.antt =====
-- `prepareReturnValue` and `launchTask` of src/executor/DiskExecutor.cpp.
use ceph_mesos.Prelude.{List, Text, [], codes, none, some, ◌++◌, ◌∷◌}
use ceph_mesos.Common.TaskType.{disk_ready, to_scheduler_code}
use ceph_mesos.Common.World.{World}
use ceph_mesos.Executor.Disk.{DiskExecutor}
use ceph_mesos.Executor.Disk.Launch.{add_labels, prepare_disks, send_update, ◌>>=◌}
use ceph_mesos.Scheduler.Driver.{Outcome, TaskInfo, done, task_failed, task_finished}

-- The first loop: each failed OSD device with a comma behind it.
unfoldable pub list_osds : List Text → Text
list_osds [] = []
list_osds (dev ∷ devs) = dev ++ codes "," ++ list_osds devs

-- The second loop: the comma stands behind the last failed journal device only.
unfoldable pub list_jnls : List Text → Text
list_jnls [] = []
list_jnls (dev ∷ []) = dev ++ codes ","
list_jnls (dev ∷ next ∷ devs) = dev ++ list_jnls (next ∷ devs)

abbrev pub dash_if_empty : Text → Text
dash_if_empty [] = codes "-"
dash_if_empty (c ∷ s) = c ∷ s

unfoldable pub listed_devs : List Text → List Text → Text
unfolding list_osds list_jnls
listed_devs osds jnls = dash_if_empty (list_osds osds ++ list_jnls jnls)

module _ (w : World) where
  unfoldable pub prepare_return_value : DiskExecutor → Text
  unfolding listed_devs
  prepare_return_value d =
      w.print_int (to_scheduler_code disk_ready)
      ++ codes "."
      ++ d.my_hostname
      ++ codes ":"
      ++ listed_devs d.failed_osd_devs d.failed_jnl_devs

  -- `launchTask` after the labels have been read.
  unfoldable pub finish_task : DiskExecutor → Outcome DiskExecutor
  unfolding prepare_return_value
  finish_task d0 = do
    d ← prepare_disks w d0
    done (send_update task_finished (some (prepare_return_value d)) d)

  -- A task without labels is reported as failed, and then finished like any other.
  unfoldable pub launch_task : TaskInfo → DiskExecutor → Outcome DiskExecutor
  unfolding finish_task
  launch_task task d0 =
      let d = record d0 { my_task_id = task.task_id } in
      elim task.labels [
        | [] ↦ finish_task (send_update task_failed none d)
        | l ∷ ls ↦ add_labels w (l ∷ ls) d >>= finish_task
      ]
