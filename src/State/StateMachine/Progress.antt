-- ===== src/State/StateMachine/Progress.antt =====
-- When `nextMove` of src/state/StateMachine.cpp accepts a host: the bootstrap does not get stuck by itself.
use ceph_mesos.Prelude.{
  List, Text, ap, arith, false, ltb_ℤ, pos, refl, some, subst, sym, true, ℤ, ◌+ℤ◌, ◌∙◌, ◌≡◌,
}
use ceph_mesos.Common.Config.{Config}
use ceph_mesos.Common.TaskType.{TaskType, mon, osd, radosgw}
use ceph_mesos.Common.World.{World}
use ceph_mesos.State.StateMachine.{
  StateMachine, get_config, init, next_mon_move, next_move, next_move_in, phase_of,
}
use ceph_mesos.State.StateMachine.Counting.{count, pending_of, staging_num}
use ceph_mesos.State.StateMachine.Counting.Histories.{IsLawfulRun, history-IsCounted}
use ceph_mesos.State.StateMachine.Phases.{Operation, apply_all, settled_phase}
use ceph_mesos.State.TaskState.{
  Phase, bootstrap_mon, bootstrap_osd, bootstrap_radosgw, reconciling_tasks, wainting_request,
}

-- The type of the tasks that a phase launches.
abbrev pub next_type : Phase → TaskType
next_type reconciling_tasks = mon
next_type bootstrap_mon = mon
next_type bootstrap_osd = osd
next_type bootstrap_radosgw = radosgw
next_type wainting_request = osd

zero-add : (n : ℤ) → pos 0 +ℤ n ≡ n
unfolding ◌+ℤ◌
zero-add n = ground arith

-- What each phase says of the counters of running tasks.
abbrev Room : Phase → ℤ → ℤ → Type 0
Room reconciling_tasks mons osds = ⊥
Room bootstrap_mon mons osds = ltb_ℤ mons (pos 1) ≡ true
Room bootstrap_osd mons osds = ltb_ℤ osds (pos 3) ≡ true
Room bootstrap_radosgw mons osds = Unit
Room wainting_request mons osds = Unit

phase_of-Room : (mons osds radosgws : ℤ) → Room (phase_of mons osds radosgws) mons osds
unfolding phase_of
phase_of-Room mons osds radosgws = ground arith

abbrev Accepts : Phase → StateMachine → Type 0
Accepts phase m = (token : ℤ) × ((next_move_in phase m).0 ≡ some (next_type phase, token))

Room-Accepts :
    (phase : Phase) (m : StateMachine)
    → Room phase m.mon_running_num m.osd_running_num
    → staging_num (next_type phase) m ≡ pos 0
    → Accepts phase m
unfolding next_move_in next_mon_move
Room-Accepts reconciling_tasks m room none_staging = absurd room
Room-Accepts bootstrap_mon m room none_staging =
    (m.mon_index, rw (next_mon_move, none_staging, zero-add, room) refl)
Room-Accepts bootstrap_osd m room none_staging =
    (m.osd_index, rw (none_staging, zero-add, room) refl)
Room-Accepts bootstrap_radosgw m room none_staging = (m.radosgw_index, rw none_staging refl)
Room-Accepts wainting_request m room none_staging = (m.osd_index, refl)

-- After any sequence of operations on a new machine, additions of hosts among them, for which the counters are right: a host whose disks are
-- not being prepared is given a task of the type of the current phase, unless a task of this type is on
-- its way to running.
pub next_move-next_type :
    (w : World) (config : Config) (os : List Operation) (host : Text)
    → IsLawfulRun w os (init w config)
    → (get_config host (apply_all w os (init w config))).is_preparing_disk ≡ false
    → count
        (pending_of (next_type (apply_all w os (init w config)).current_phase))
        (apply_all w os (init w config)).task_map
      ≡ 0
    → let m = apply_all w os (init w config) in
      (token : ℤ) × ((next_move host m).0 ≡ some (next_type m.current_phase, token))
unfolding next_move
next_move-next_type w config os host lawful idle none_pending =
    let m = apply_all w os (init w config) in
    let counted = history-IsCounted w config os lawful in
    let room =
      subst (λ p. Room p m.mon_running_num m.osd_running_num) (sym (settled_phase w config os))
        (phase_of-Room _ _ m.radosgw_running_num) in
    let (token, e) =
      Room-Accepts m.current_phase m room
        (counted.pending (next_type m.current_phase) ∙ ap pos none_pending) in
    (token, rw (next_move, idle) e)
