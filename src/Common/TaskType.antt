-- ===== src/Common/TaskType.antt =====
-- src/common/TaskType.hpp and src/common/FrameworkMessage.hpp: the enumerations that travel in
-- messages, with the numbers that `static_cast<int>` gives them, and the label keys.
use ceph_mesos.Prelude.{Text, codes, pos, ℤ}

pub data TaskType : Type 0 where
  mon osd radosgw : TaskType

unfoldable pub task_type_code : TaskType → ℤ
task_type_code mon = pos 0
task_type_code osd = pos 1
task_type_code radosgw = pos 2

pub data MessageToScheduler : Type 0 where
  waiting_for_osd_num consumed_osd_id disk_ready : MessageToScheduler

unfoldable pub to_scheduler_code : MessageToScheduler → ℤ
to_scheduler_code waiting_for_osd_num = pos 0
to_scheduler_code consumed_osd_id = pos 1
to_scheduler_code disk_ready = pos 2

pub data MessageToExecutor : Type 0 where
  register_osd launch_osd : MessageToExecutor

unfoldable pub to_executor_code : MessageToExecutor → ℤ
to_executor_code register_osd = pos 20
to_executor_code launch_osd = pos 21

abbrev pub mgmtdev_key : Text
mgmtdev_key = codes "mgmtdev"

abbrev pub datadev_key : Text
datadev_key = codes "datadev"

abbrev pub osddevs_key : Text
osddevs_key = codes "osddevs"

abbrev pub jnldevs_key : Text
jnldevs_key = codes "jnldevs"

abbrev pub jnl_partition_count_key : Text
jnl_partition_count_key = codes "jnlpartitioncount"
