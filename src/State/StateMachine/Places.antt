-- ===== src/State/StateMachine/Places.antt =====
-- The three places for OSDs in the bootstrap phase, and who gives one back by failing.
use ceph_mesos.Prelude.{
  Bool-cases, Text, arith, dec, false, find, inl, inr, none, pos, some, ℤ, ◌+ℤ◌, ◌≡◌, ◌≤ℤ◌, ◌⊎◌,
}
use ceph_mesos.Common.TaskType.{osd}
use ceph_mesos.State.StateMachine.{
  StateMachine, get_config, move_state, next_move, phase_of, set_status, update_task_to_failed,
}
use ceph_mesos.State.StateMachine.Phases.{IsSettled}
use ceph_mesos.State.TaskState.{
  Status, TaskState, bootstrap_osd, failed, staging, starting, waiting_osdid,
}

-- The machine wants OSDs, and three are on their way or running.
pub record IsFull (m : StateMachine) : Type 0 where
  pub settled : IsSettled m
  pub phase : m.current_phase ≡ bootstrap_osd
  pub running_osds : pos 0 ≤ℤ m.osd_running_num
  pub places : m.osd_staging_num +ℤ m.osd_running_num ≡ pos 3

abbrev pub IsOsdWith : Status → TaskState → Type 0
IsOsdWith s t = (t.task_type ≡ osd) × (t.current_status ≡ s)

failed-machine :
    (id : Text) (t : TaskState) (m : StateMachine)
    → find id m.task_map ≡ some t
    → update_task_to_failed id m ≡ move_state (set_status id t failed m)
unfolding update_task_to_failed
failed-machine id t m h = rw (h, update_task_to_failed)

get_config-failed :
    (id host : Text) (t : TaskState) (m : StateMachine)
    → get_config host (move_state (set_status id t failed m)) ≡ get_config host m
unfolding move_state get_config set_status
get_config-failed id host t m = ground arith

-- What the failure of an OSD task does to the counters, by its status.
record AfterFailure (staging_num : ℤ) (m n : StateMachine) : Type 0 where
  phase : n.current_phase ≡ bootstrap_osd
  staging_osds : n.osd_staging_num ≡ staging_num
  running_osds : n.osd_running_num ≡ m.osd_running_num
  index : n.osd_index ≡ m.osd_index

module _ (id : Text) (t : TaskState) (m : StateMachine) (full : IsFull m) where
  failed_staging :
      IsOsdWith staging t
      → AfterFailure (dec m.osd_staging_num) m (move_state (set_status id t failed m))
  unfolding move_state set_status phase_of
  failed_staging is = record {
    phase = ground (arith, full.settled);
    staging_osds = ground arith;
    running_osds = ground arith;
    index = ground arith;
  }

  failed_late :
      IsOsdWith waiting_osdid t ⊎ IsOsdWith starting t
      → AfterFailure m.osd_staging_num m (move_state (set_status id t failed m))
  unfolding move_state set_status phase_of
  failed_late is = record {
    phase = ground (arith, full.settled);
    staging_osds = ground arith;
    running_osds = ground arith;
    index = ground arith;
  }

next_move_frees :
    (host : Text) (m n : StateMachine)
    → IsFull m
    → AfterFailure (dec m.osd_staging_num) m n
    → (get_config host n).is_preparing_disk ≡ false
    → (next_move host n).0 ≡ some (osd, m.osd_index)
unfolding next_move ◌+ℤ◌
next_move_frees host m n full after idle = rw (idle, after.phase) (ground (arith, full, after))

next_move_refuses :
    (host : Text) (m n : StateMachine)
    → IsFull m
    → AfterFailure m.osd_staging_num m n
    → (next_move host n).0 ≡ none
unfolding next_move ◌+ℤ◌
next_move_refuses host m n full after = elim (Bool-cases (get_config host n).is_preparing_disk) [
  | inl busy ↦ rw busy
  | inr idle ↦ rw (idle, after.phase) (ground (arith, full, after))
]

-- With three OSDs on their way or running in the OSD bootstrap phase, the failure of an OSD task that
-- is still staging makes room: the next offer of a host that prepares no disks is accepted for an OSD.
pub staging_failure_frees :
    (id host : Text) (t : TaskState) (m : StateMachine)
    → find id m.task_map ≡ some t
    → IsOsdWith staging t
    → IsFull m
    → (get_config host m).is_preparing_disk ≡ false
    → (next_move host (update_task_to_failed id m)).0 ≡ some (osd, m.osd_index)
staging_failure_frees id host t m h is full idle = rw (failed-machine id t m h) (
    next_move_frees host m _ full (failed_staging id t m full is)
      (rw (get_config-failed id host t m) idle))

-- In the same situation the failure of an OSD task that waits for its OSD id, or that is starting,
-- makes no room: every offer of every host is still refused.
pub late_failure_keeps_place :
    (id host : Text) (t : TaskState) (m : StateMachine)
    → find id m.task_map ≡ some t
    → IsOsdWith waiting_osdid t ⊎ IsOsdWith starting t
    → IsFull m
    → (next_move host (update_task_to_failed id m)).0 ≡ none
late_failure_keeps_place id host t m h is full =
    rw (failed-machine id t m h) (next_move_refuses host m _ full (failed_late id t m full is))
