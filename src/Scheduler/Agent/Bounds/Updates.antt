-- ===== src/Scheduler/Agent/Bounds/Updates.antt =====
-- The bounds across `statusUpdate` and `frameworkMessage`.
use ceph_mesos.Prelude.{
  List, Option, Option-cases, Text, [], arith, find, inl, inr, none, some, ◌∷◌,
}
use ceph_mesos.Common.StringUtil.{explode}
use ceph_mesos.Common.World.{World}
use ceph_mesos.Scheduler.Agent.{Agent}
use ceph_mesos.Scheduler.Agent.Bounds.{
  IsBounded, IsBounded-of_SameNumbers, move_state_of_status, put_config-SameNumbers,
}
use ceph_mesos.Scheduler.Agent.Runs.{Leaves}
use ceph_mesos.Scheduler.Agent.Updates.{
  consumed_message, disk_ready_fields, disk_ready_message, finish_disks, framework_message,
  status_update, update_state,
}
use ceph_mesos.Scheduler.Driver.{
  TaskStateCode, TaskStatus, task_failed, task_finished, task_killed, task_other, task_running,
  task_starting,
}
use ceph_mesos.State.HostConfig.Partitions.{listed}
use ceph_mesos.State.StateMachine.{
  StateMachine, add_pending_osdid, update_task_to_failed, update_task_to_running,
  update_task_to_starting, update_task_to_waiting_osdid,
}
use ceph_mesos.State.StateMachine.Phases.{starting-KeepsRunning, waiting-KeepsRunning}
use ceph_mesos.State.TaskState.{failed, running}

abbrev pub Bounded : Agent → Type 0
Bounded a = IsBounded a.machine

module _ (id : Text) (m : StateMachine) (b : IsBounded m) where
  pub running-IsBounded : IsBounded (update_task_to_running id m)
  unfolding update_task_to_running
  running-IsBounded = elim (Option-cases (find id m.task_map)) [
    | inl e ↦ rw (e, update_task_to_running) b
    | inr (t, e) ↦ rw (e, update_task_to_running) (move_state_of_status id t running m b)
  ]

  pub failed-IsBounded : IsBounded (update_task_to_failed id m)
  unfolding update_task_to_failed
  failed-IsBounded = elim (Option-cases (find id m.task_map)) [
    | inl e ↦ rw (e, update_task_to_failed) b
    | inr (t, e) ↦ rw (e, update_task_to_failed) (move_state_of_status id t failed m b)
  ]

  pub waiting-IsBounded : IsBounded (update_task_to_waiting_osdid id m)
  unfolding update_task_to_waiting_osdid
  waiting-IsBounded =
      IsBounded-of_SameNumbers
        (record { kept = waiting-KeepsRunning id m; mons = ground arith; radosgws = ground arith })
        b

  pub starting-IsBounded : IsBounded (update_task_to_starting id m)
  unfolding update_task_to_starting
  starting-IsBounded =
      IsBounded-of_SameNumbers
        (record { kept = starting-KeepsRunning id m; mons = ground arith; radosgws = ground arith })
        b

module _ (w : World) where
  consumed-Bounded :
      (tokens : List Text) (a : Agent) → Bounded a → Leaves Bounded (consumed_message w tokens a)
  unfolding consumed_message
  consumed-Bounded [] a b = tt
  consumed-Bounded (token ∷ rest) a b = ground (arith, b)

  fields-Bounded :
      (tokens : List Text) (a : Agent) → Bounded a → Leaves Bounded (disk_ready_fields w tokens a)
  unfolding disk_ready_fields finish_disks
  fields-Bounded [] a b = tt
  fields-Bounded (host ∷ []) a b = tt
  fields-Bounded (host ∷ listed ∷ rest) a b =
      IsBounded-of_SameNumbers (put_config-SameNumbers host _ a.machine) b

  ready-Bounded :
      (tokens : List Text) (a : Agent) → Bounded a → Leaves Bounded (disk_ready_message w tokens a)
  unfolding disk_ready_message
  ready-Bounded [] a b = tt
  ready-Bounded (token ∷ []) a b = ground (arith, b)
  ready-Bounded (token ∷ listed ∷ rest) a b =
      ground (arith, b, fields-Bounded (explode listed b':') a b)

  update_state-Bounded :
      (state : TaskStateCode) (id : Text) (msg : Option Text) (a : Agent)
      → Bounded a
      → Leaves Bounded (update_state w state id msg a)
  unfolding update_state
  update_state-Bounded task_running id none a b = running-IsBounded id a.machine b
  update_state-Bounded task_running id (some msg) a b =
      consumed-Bounded (explode msg b'.') _ (running-IsBounded id a.machine b)
  update_state-Bounded task_starting id msg a b = waiting-IsBounded id a.machine b
  update_state-Bounded task_failed id msg a b = failed-IsBounded id a.machine b
  update_state-Bounded task_finished id none a b = b
  update_state-Bounded task_finished id (some msg) a b = ready-Bounded (explode msg b'.') a b
  update_state-Bounded task_killed id msg a b = b
  update_state-Bounded task_other id msg a b = b

  pub status_update-Bounded :
      (s : TaskStatus) (a : Agent) → Bounded a → Leaves Bounded (status_update w s a)
  unfolding status_update
  status_update-Bounded s a b = update_state-Bounded s.state s.task_id s.message a b

  pub framework_message-Bounded :
      (executor payload : Text) (a : Agent)
      → Bounded a
      → Leaves Bounded (framework_message w executor payload a)
  unfolding framework_message add_pending_osdid
  framework_message-Bounded executor payload a b = ground (arith, b)
