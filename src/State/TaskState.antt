-- ===== src/State/TaskState.antt =====
-- src/state/Status.hpp, Phase.hpp and TaskState.hpp.
use ceph_mesos.Prelude.{Bool, Text, codes, false, true, ℕ, ◌++◌, ◌==◌}
use ceph_mesos.Common.TaskType.{TaskType, mon, osd, radosgw}

pub data Status : Type 0 where
  staging waiting_osdid starting running failed finished unknown : Status

pub data Phase : Type 0 where
  reconciling_tasks bootstrap_mon bootstrap_osd bootstrap_radosgw wainting_request : Phase

pub record TaskState : Type 0 where
  pub task_id : Text
  pub executor_id : Text
  pub task_type : TaskType
  pub host_name : Text
  pub slave_id : Text
  pub current_status : Status

unfoldable pub status_code : Status → ℕ
status_code staging = 0
status_code waiting_osdid = 1
status_code starting = 2
status_code running = 3
status_code failed = 4
status_code finished = 5
status_code unknown = 6

-- `a == b` on two values of `enum class Status : int`
unfoldable pub status_eq : Status → Status → Bool
unfolding status_code
status_eq a b = status_code a == status_code b

unfoldable pub is_osd : TaskType → Bool
is_osd osd = true
is_osd _ = false

unfoldable pub is_mon : TaskType → Bool
is_mon mon = true
is_mon _ = false

unfoldable pub type_name : TaskType → Text
type_name mon = codes "MON"
type_name osd = codes "OSD"
type_name radosgw = codes "RADOSGW"

unfoldable pub status_name : Status → Text
status_name staging = codes "STAGING"
status_name waiting_osdid = codes "WAITING_OSDID"
status_name starting = codes "STARTING"
status_name running = codes "RUNNING"
status_name failed = codes "FAILED"
status_name finished = codes "FINISHED"
status_name unknown = codes "UNKNOWN"

unfoldable pub to_string : TaskState → Text
unfolding type_name status_name
to_string t =
    codes "taskId: "
    ++ t.task_id
    ++ codes ", executorId: "
    ++ t.executor_id
    ++ codes ", taskType: "
    ++ type_name t.task_type
    ++ codes ", hostName: "
    ++ t.host_name
    ++ codes ", slaveId: "
    ++ t.slave_id
    ++ codes ", currentStatus: "
    ++ status_name t.current_status
