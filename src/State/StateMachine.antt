-- ===== src/State/StateMachine.antt =====
-- src/state/StateMachine.hpp and StateMachine.cpp.
pub mod Phases
pub mod Progress
pub mod Counting
pub mod Places
pub mod Orders
use ceph_mesos.Prelude.{
  Bool, List, Option, Table, Text, [], codes, dec, find, if◌then◌else◌, inc, insert, length, ltb_ℤ,
  none, pos, push_back, some, take, text_eq, ℤ, ◌&&◌, ◌+ℤ◌, ◌||◌, ◌∷◌,
}
use ceph_mesos.Common.Config.{Config}
use ceph_mesos.Common.TaskType.{TaskType, mon, osd, radosgw}
use ceph_mesos.Common.World.{World}
use ceph_mesos.State.HostConfig.{HostConfig, default_host_config, new_host_config}
use ceph_mesos.State.TaskState.{
  Phase, Status, TaskState, bootstrap_mon, bootstrap_osd, bootstrap_radosgw, failed, is_osd,
  reconciling_tasks, running, staging, starting, status_eq, unknown, wainting_request,
  waiting_osdid,
}

pub record StateMachine : Type 0 where
  pub task_map : Table TaskState
  pub host_config_map : Table HostConfig
  pub pending_osdid : List ℤ
  pub current_phase : Phase
  pub mon_running_num : ℤ
  pub mon_staging_num : ℤ
  pub mon_index : ℤ
  pub osd_running_num : ℤ
  pub osd_staging_num : ℤ
  pub osd_index : ℤ
  pub radosgw_running_num : ℤ
  pub radosgw_staging_num : ℤ
  pub radosgw_index : ℤ
  pub config : Config
  pub default_config : HostConfig

-- `StateMachine(Config*)`
unfoldable pub init : World → Config → StateMachine
init w config = record {
  task_map = [];
  host_config_map = [];
  pending_osdid = [];
  current_phase = bootstrap_mon;
  mon_running_num = pos 0;
  mon_staging_num = pos 0;
  mon_index = pos 0;
  osd_running_num = pos 0;
  osd_staging_num = pos 0;
  osd_index = pos 0;
  radosgw_running_num = pos 0;
  radosgw_staging_num = pos 0;
  radosgw_index = pos 0;
  config = config;
  default_config = default_host_config w config;
}

unfoldable pub increase_staging : TaskType → StateMachine → StateMachine
increase_staging mon m = record m { mon_staging_num = inc m.mon_staging_num }
increase_staging osd m = record m { osd_staging_num = inc m.osd_staging_num }
increase_staging radosgw m = record m { radosgw_staging_num = inc m.radosgw_staging_num }

unfoldable pub add_staging_task : Text → Text → TaskType → Text → Text → StateMachine → StateMachine
unfolding increase_staging
add_staging_task task_id executor_id task_type hostname slave_id m =
    let m' = increase_staging task_type m in
    record m' { task_map = insert task_id task_state m'.task_map }
  where
    task_state : TaskState
    task_state = record {
      task_id = task_id;
      executor_id = executor_id;
      task_type = task_type;
      host_name = hostname;
      slave_id = slave_id;
      current_status = staging;
    }

-- The bodies of the three `switch`es of `updateCounters`.
unfoldable pub staging_to_running : TaskType → StateMachine → StateMachine
staging_to_running mon m = record m {
  mon_running_num = inc m.mon_running_num;
  mon_staging_num = dec m.mon_staging_num;
}
staging_to_running osd m = record m {
  osd_running_num = inc m.osd_running_num;
  osd_staging_num = dec m.osd_staging_num;
}
staging_to_running radosgw m = record m {
  radosgw_running_num = inc m.radosgw_running_num;
  radosgw_staging_num = dec m.radosgw_staging_num;
}

unfoldable pub decrease_staging : TaskType → StateMachine → StateMachine
decrease_staging mon m = record m { mon_staging_num = dec m.mon_staging_num }
decrease_staging osd m = record m { osd_staging_num = dec m.osd_staging_num }
decrease_staging radosgw m = record m { radosgw_staging_num = dec m.radosgw_staging_num }

unfoldable pub decrease_running : TaskType → StateMachine → StateMachine
decrease_running mon m = record m { mon_running_num = dec m.mon_running_num }
decrease_running osd m = record m { osd_running_num = dec m.osd_running_num }
decrease_running radosgw m = record m { radosgw_running_num = dec m.radosgw_running_num }

unfoldable pub update_counters : TaskType → Status → Status → StateMachine → StateMachine
unfolding status_eq staging_to_running decrease_staging decrease_running
update_counters task_type old new m0 =
    let m1 =
      if (status_eq old staging || status_eq old starting) && status_eq new running
      then staging_to_running task_type m0
      else m0 in
    let m2 =
      if status_eq old staging && status_eq new failed then decrease_staging task_type m1 else m1 in
    if status_eq old running && status_eq new failed then decrease_running task_type m2 else m2

-- What `moveState` makes of the counters.
unfoldable pub phase_of : ℤ → ℤ → ℤ → Phase
phase_of mons osds radosgws =
    if ltb_ℤ mons (pos 1)
    then bootstrap_mon
    else if ltb_ℤ osds (pos 3)
    then bootstrap_osd
    else if ltb_ℤ radosgws (pos 1)
    then bootstrap_radosgw
    else wainting_request

unfoldable pub move_state : StateMachine → StateMachine
unfolding phase_of
move_state m = record m {
  current_phase = phase_of m.mon_running_num m.osd_running_num m.radosgw_running_num;
}

unfoldable pub decrease_osd_index : StateMachine → StateMachine
decrease_osd_index m = record m { osd_index = dec m.osd_index }

-- What the four `updateTaskTo…` do with a task that they find.
unfoldable pub set_status : Text → TaskState → Status → StateMachine → StateMachine
unfolding update_counters
set_status task_id t new m =
    let m' = update_counters t.task_type t.current_status new m in
    record m' { task_map = insert task_id (record t { current_status = new }) m'.task_map }

unfoldable pub update_task_to_running : Text → StateMachine → StateMachine
unfolding set_status move_state
update_task_to_running task_id m = elim (find task_id m.task_map) [
  | some t ↦ move_state (set_status task_id t running m)
  | none ↦ m
]

unfoldable pub update_task_to_waiting_osdid : Text → StateMachine → StateMachine
unfolding set_status
update_task_to_waiting_osdid task_id m = elim (find task_id m.task_map) [
  | some t ↦ set_status task_id t waiting_osdid m
  | none ↦ m
]

unfoldable pub update_task_to_starting : Text → StateMachine → StateMachine
unfolding set_status
update_task_to_starting task_id m = elim (find task_id m.task_map) [
  | some t ↦ set_status task_id t starting m
  | none ↦ m
]

unfoldable pub update_task_to_failed : Text → StateMachine → StateMachine
unfolding set_status move_state
update_task_to_failed task_id m = elim (find task_id m.task_map) [
  | some t ↦ move_state (set_status task_id t failed m)
  | none ↦ m
]

-- `getConfig`: the host's entry, or the default one
unfoldable pub get_config : Text → StateMachine → HostConfig
get_config hostname m = elim (find hostname m.host_config_map) [
  | some hc ↦ hc
  | none ↦ m.default_config
]

-- A write through the pointer that `getConfig` returns.
unfoldable pub put_config : Text → HostConfig → StateMachine → StateMachine
put_config hostname hc m = elim (find hostname m.host_config_map) [
  | some old ↦ record m { host_config_map = insert hostname hc m.host_config_map }
  | none ↦ record m { default_config = hc }
]

-- `none` is an exception from reading the host's configuration. An entry that is there is copied,
-- and the copy reloaded.
unfoldable pub add_config : World → Text → StateMachine → Option StateMachine
add_config w hostname m = elim (find hostname m.host_config_map) [
  | some hc ↦ some m
  | none ↦ elim (new_host_config w hostname) [
    | none ↦ none
    | some hc ↦ some (record m { host_config_map = insert hostname hc m.host_config_map })
  ]
]

-- The case that `RECONCILING_TASKS` falls through to.
unfoldable pub next_mon_move : StateMachine → Option (TaskType × ℤ) × StateMachine
next_mon_move m =
    if ltb_ℤ m.mon_staging_num (pos 1) && ltb_ℤ (m.mon_staging_num +ℤ m.mon_running_num) (pos 1)
    then (some (mon, m.mon_index), record m { mon_index = inc m.mon_index })
    else (none, m)

-- The `switch` of `nextMove`. `some (taskType, token)` is `true` with the two out-parameters.
unfoldable pub next_move_in : Phase → StateMachine → Option (TaskType × ℤ) × StateMachine
unfolding next_mon_move
next_move_in reconciling_tasks m = next_mon_move m
next_move_in bootstrap_mon m = next_mon_move m
next_move_in bootstrap_osd m =
    if ltb_ℤ m.osd_staging_num (pos 3) && ltb_ℤ (m.osd_staging_num +ℤ m.osd_running_num) (pos 3)
    then (some (osd, m.osd_index), record m { osd_index = inc m.osd_index })
    else (none, m)
next_move_in bootstrap_radosgw m =
    if ltb_ℤ m.radosgw_staging_num (pos 1)
    then (some (radosgw, m.radosgw_index), record m { radosgw_index = inc m.radosgw_index })
    else (none, m)
next_move_in wainting_request m =
    (some (osd, m.osd_index), record m { osd_index = inc m.osd_index })

unfoldable pub next_move : Text → StateMachine → Option (TaskType × ℤ) × StateMachine
unfolding next_move_in get_config
next_move hostname m =
    if (get_config hostname m).is_preparing_disk then (none, m) else next_move_in m.current_phase m

abbrev mon0 : Text
mon0 = codes "mon0"

-- `taskId.substr(0, prefix.size()) == prefix`
unfoldable pub is_initial_mon : TaskState → Bool
is_initial_mon t = text_eq (take (length mon0) t.task_id) mon0

-- The loop of `getInitialMon`: without a match it returns the last task that it looked at.
unfoldable pub initial_mon_from : TaskState → Table TaskState → TaskState
unfolding is_initial_mon
initial_mon_from last [] = last
initial_mon_from last ((k, t) ∷ rest) = if is_initial_mon t then t else initial_mon_from t rest

-- A default-constructed `TaskState`; its type and status are not initialised, and callers do not
-- read them.
abbrev pub blank_task : TaskState
blank_task = record {
  task_id = [];
  executor_id = [];
  task_type = mon;
  host_name = [];
  slave_id = [];
  current_status = unknown;
}

unfoldable pub get_initial_mon : StateMachine → TaskState
unfolding initial_mon_from
get_initial_mon m = initial_mon_from blank_task m.task_map

unfoldable pub is_waiting_osd : TaskState → Bool
unfolding status_eq is_osd
is_waiting_osd t = is_osd t.task_type && status_eq t.current_status waiting_osdid

unfoldable pub waiting_osd_tasks : Table TaskState → List TaskState
unfolding is_waiting_osd
waiting_osd_tasks [] = []
waiting_osd_tasks ((k, t) ∷ rest) =
    if is_waiting_osd t then t ∷ waiting_osd_tasks rest else waiting_osd_tasks rest

unfoldable pub get_waiting_osd_task : StateMachine → List TaskState
unfolding waiting_osd_tasks
get_waiting_osd_task m = waiting_osd_tasks m.task_map

unfoldable pub add_pending_osdid : ℤ → StateMachine → StateMachine
add_pending_osdid id m = record m { pending_osdid = push_back m.pending_osdid id }
