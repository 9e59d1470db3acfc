-- ===== src/Examples/Bootstrap.antt =====
-- A machine whose first MON runs, and an idle host.
use ceph_mesos.Prelude.{
  List, [], codes, false, find, insert, refl, some, text_eq, ℤ, ◌+ℤ◌, ◌∷◌, ◌≡◌,
}
use ceph_mesos.Common.Config.{
  contains_text, directory, get_config_by_hostname, get_config_path_by_hostname, get_file_contents,
  is_host_config, load_config, parse_config_string,
}
use ceph_mesos.Common.TaskType.{mon}
use ceph_mesos.Examples.Site.{site, site_config}
use ceph_mesos.State.HostConfig.{default_host_config, host_config_of, new_host_config}
use ceph_mesos.State.StateMachine.{
  StateMachine, add_config, add_staging_task, get_config, increase_staging, init, move_state,
  next_mon_move, next_move, next_move_in, phase_of, set_status, update_counters,
  update_task_to_running,
}
use ceph_mesos.State.StateMachine.Counting.{count, pending_of}
use ceph_mesos.State.StateMachine.Counting.Histories.{IsLawfulRun}
use ceph_mesos.State.StateMachine.Phases.{
  Operation, adds, adds_config, apply, apply_all, moves, runs,
}
use ceph_mesos.State.StateMachine.Progress.{next_move-next_type, next_type}
use ceph_mesos.State.TaskState.{bootstrap_osd}

abbrev mon_history : List Operation
mon_history =
    adds_config (codes "node1")
    ∷ moves (codes "node1")
    ∷ adds (codes "mon0.node1.s1") (codes "e1") mon (codes "node1") (codes "s1")
    ∷ runs (codes "mon0.node1.s1")
    ∷ []

abbrev mon_machine : StateMachine
mon_machine = apply_all site mon_history (init site site_config)

mon_history-IsLawful : IsLawfulRun site mon_history (init site site_config)
unfolding add_config new_host_config get_config_by_hostname load_config get_file_contents
    parse_config_string get_config_path_by_hostname directory is_host_config contains_text ◌+ℤ◌
    apply init add_staging_task increase_staging find insert text_eq next_move get_config
    next_move_in next_mon_move default_host_config
mon_history-IsLawful = (tt, (tt, (refl, (refl, tt))))

mon_phase : mon_machine.current_phase ≡ bootstrap_osd
unfolding add_config new_host_config get_config_by_hostname load_config get_file_contents
    parse_config_string get_config_path_by_hostname directory is_host_config contains_text ◌+ℤ◌
    apply_all apply init add_staging_task increase_staging update_task_to_running set_status
    update_counters move_state find insert text_eq next_move get_config next_move_in next_mon_move
    phase_of default_host_config
mon_phase = refl

host_kept : (get_config (codes "node1") mon_machine).hostname ≡ codes "node1"
unfolding add_config new_host_config get_config_by_hostname load_config get_file_contents
    parse_config_string get_config_path_by_hostname directory is_host_config contains_text ◌+ℤ◌
    apply_all apply init add_staging_task increase_staging update_task_to_running set_status
    update_counters move_state find insert text_eq next_move get_config next_move_in next_mon_move
    phase_of default_host_config host_config_of
host_kept = refl

node_idle : (get_config (codes "node1") mon_machine).is_preparing_disk ≡ false
unfolding add_config new_host_config get_config_by_hostname load_config get_file_contents
    parse_config_string get_config_path_by_hostname directory is_host_config contains_text ◌+ℤ◌
    apply_all apply init add_staging_task increase_staging update_task_to_running set_status
    update_counters move_state find insert text_eq next_move get_config next_move_in next_mon_move
    default_host_config
node_idle = refl

no_osd_pending : count (pending_of (next_type mon_machine.current_phase)) mon_machine.task_map ≡ 0
unfolding add_config new_host_config get_config_by_hostname load_config get_file_contents
    parse_config_string get_config_path_by_hostname directory is_host_config contains_text ◌+ℤ◌
    apply_all apply init add_staging_task increase_staging update_task_to_running set_status
    update_counters move_state find insert text_eq next_move get_config next_move_in next_mon_move
    phase_of default_host_config count
no_osd_pending = refl

next_move-next_type_example :
    (token : ℤ) × ((next_move (codes "node1") mon_machine).0
      ≡ some (next_type mon_machine.current_phase, token))
next_move-next_type_example =
    next_move-next_type site site_config mon_history (codes "node1") mon_history-IsLawful node_idle
      no_osd_pending
