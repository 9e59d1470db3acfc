-- ===== src/Examples/Machines.antt =====
-- The state machine on a small history: a MON is staged, runs, and OSDs follow.
use mathlib.Core.List.{Permᴰ}
use ceph_mesos.Prelude.{
  List, Text, [], arith, codes, find, inr, insert, pos, refl, some, text_eq, ◌∷◌, ◌≡◌, ◌⊎◌,
}
use ceph_mesos.Common.Config.{
  contains_text, directory, get_config_by_hostname, get_config_path_by_hostname, get_file_contents,
  is_host_config, load_config, parse_config_string,
}
use ceph_mesos.Common.TaskType.{TaskType, mon, osd, radosgw}
use ceph_mesos.Examples.Site.{site, site_config}
use ceph_mesos.State.HostConfig.{default_host_config, new_host_config}
use ceph_mesos.State.StateMachine.{
  StateMachine, add_config, add_staging_task, get_initial_mon, get_waiting_osd_task,
  increase_staging, init, is_initial_mon, move_state, phase_of, set_status, update_counters,
  update_task_to_failed, update_task_to_running, update_task_to_starting,
  update_task_to_waiting_osdid,
}
use ceph_mesos.State.StateMachine.Counting.{
  IsCounted, count, pending_of, running_num, running_of, staging_num,
}
use ceph_mesos.State.StateMachine.Counting.Histories.{IsLawfulRun, history-IsCounted}
use ceph_mesos.State.StateMachine.Counting.Unaccounted.{set_status-not-IsCounted}
use ceph_mesos.State.StateMachine.Orders.{picked, task_map_order}
use ceph_mesos.State.StateMachine.Phases.{
  Operation, adds, adds_config, apply, apply_all, fails, runs, settled_phase, starts, waits,
}
use ceph_mesos.State.TaskState.{TaskState, failed, running, staging, starting}

abbrev mon_task : Operation
mon_task = adds (codes "mon.0") (codes "e0") mon (codes "node1") (codes "s1")

abbrev osd_task : Text → Operation
osd_task id = adds id (codes "e1") osd (codes "node1") (codes "s1")

-- A MON runs, one OSD waits for its id, and one has failed while staging.
abbrev history : List Operation
history =
    adds_config (codes "node1")
    ∷ mon_task
    ∷ runs (codes "mon.0")
    ∷ osd_task (codes "osd.0")
    ∷ waits (codes "osd.0")
    ∷ osd_task (codes "osd.1")
    ∷ fails (codes "osd.1")
    ∷ starts (codes "osd.0")
    ∷ []

abbrev new_machine : StateMachine
new_machine = init site site_config

history-IsLawful : IsLawfulRun site history new_machine
unfolding add_config new_host_config get_config_by_hostname load_config get_file_contents
    parse_config_string get_config_path_by_hostname directory is_host_config contains_text apply
    init add_staging_task increase_staging update_task_to_running update_task_to_waiting_osdid
    update_task_to_failed update_task_to_starting set_status update_counters move_state find insert
    text_eq default_host_config phase_of
history-IsLawful = (tt, (refl, (refl, (refl, (refl, (refl, (refl, (refl, tt))))))))

history-IsCounted_example : IsCounted (apply_all site history new_machine)
history-IsCounted_example = history-IsCounted site site_config history history-IsLawful

settled_phase_example :
    let m = apply_all site history (init site site_config) in
    m.current_phase ≡ phase_of m.mon_running_num m.osd_running_num m.radosgw_running_num
settled_phase_example = settled_phase site site_config history

-- A machine with one staging OSD, and its counters right.
abbrev staging_osd : TaskState
staging_osd = record {
  task_id = codes "osd.0";
  executor_id = codes "e1";
  task_type = osd;
  host_name = codes "node1";
  slave_id = codes "s1";
  current_status = staging;
}

abbrev starting_osd : TaskState
starting_osd = record staging_osd { current_status = starting }

abbrev one_osd : TaskState → StateMachine
one_osd t = record new_machine { task_map = (codes "osd.0", t) ∷ []; osd_staging_num = pos 1 }

abbrev starting_machine : StateMachine
starting_machine = one_osd starting_osd

one_osd-IsCounted : (t : TaskState) → (t ≡ staging_osd) ⊎ (t ≡ starting_osd) → IsCounted (one_osd t)
unfolding count init
one_osd-IsCounted t is = record { pending = pending_nums; running_tasks = running_nums }
  where
    pending_nums :
        (ty : TaskType)
        → staging_num ty (one_osd t) ≡ pos (count (pending_of ty) (one_osd t).task_map)
    pending_nums mon = ground arith
    pending_nums osd = ground arith
    pending_nums radosgw = ground arith

    running_nums :
        (ty : TaskType)
        → running_num ty (one_osd t) ≡ pos (count (running_of ty) (one_osd t).task_map)
    running_nums mon = ground arith
    running_nums osd = ground arith
    running_nums radosgw = ground arith

find-starting : find (codes "osd.0") starting_machine.task_map ≡ some starting_osd
unfolding find text_eq
find-starting = refl

set_status-not-IsCounted_example :
    ¬ IsCounted (set_status (codes "osd.0") starting_osd failed starting_machine)
set_status-not-IsCounted_example =
    set_status-not-IsCounted (codes "osd.0") starting_osd failed starting_machine find-starting refl
      refl (one_osd-IsCounted starting_osd (inr refl))

-- A MON and an OSD, in both orders.
abbrev first_mon : TaskState
first_mon = record staging_osd {
  task_id = codes "mon0.node1.s1";
  task_type = mon;
  current_status = running;
}

abbrev mon_then_osd : StateMachine
mon_then_osd = record new_machine {
  task_map = (first_mon.task_id, first_mon) ∷ (codes "osd1", staging_osd) ∷ [];
}

abbrev osd_then_mon : StateMachine
osd_then_mon = record new_machine {
  task_map = (codes "osd1", staging_osd) ∷ (first_mon.task_id, first_mon) ∷ [];
}

only_mon0 : picked is_initial_mon mon_then_osd.task_map ≡ first_mon ∷ []
unfolding is_initial_mon text_eq
only_mon0 = refl

task_map_order_example :
    (get_initial_mon mon_then_osd ≡ first_mon)
    × (get_initial_mon osd_then_mon ≡ first_mon)
    × Permᴰ (get_waiting_osd_task mon_then_osd) (get_waiting_osd_task osd_then_mon)
task_map_order_example =
    task_map_order mon_then_osd osd_then_mon first_mon (Permᴰ.swap refl refl) only_mon0
