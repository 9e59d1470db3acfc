-- ===== src/Executor/Ceph/Told.antt =====
-- A node from the scheduler's launch (src/scheduler/CephSchedulerAgent.hpp) to the report of its executor
-- (src/executor/CephExecutor.cpp) and back.
use ceph_mesos.Prelude.{Bool, Text, find, find-insert_self, none, push_back, refl, some, ℕ, ℤ, ◌≡◌}
use ceph_mesos.Common.TaskType.{TaskType}
use ceph_mesos.Common.World.{World}
use ceph_mesos.Executor.Ceph.{CephExecutor}
use ceph_mesos.Executor.Ceph.Lifecycle.{find-running}
use ceph_mesos.Executor.Ceph.Outcomes.{Holds, Holds-map, IsLaunchState, OneReport}
use ceph_mesos.Executor.Ceph.Reports.{executor_launch-OneReport}
use ceph_mesos.Executor.Ceph.Start.{executor_launch}
use ceph_mesos.Scheduler.Agent.{Agent}
use ceph_mesos.Scheduler.Agent.Launch.{launch_node}
use ceph_mesos.Scheduler.Agent.Offers.{stage_node}
use ceph_mesos.Scheduler.Agent.Updates.{status_update, update_state}
use ceph_mesos.Scheduler.Driver.{
  Offer, TaskInfo, TaskStateCode, TaskStatus, done, task_failed, task_finished, task_killed,
  task_other, task_running, task_starting,
}
use ceph_mesos.State.StateMachine.{
  StateMachine, add_staging_task, move_state, set_status, update_task_to_failed,
  update_task_to_waiting_osdid,
}
use ceph_mesos.State.TaskState.{Status, TaskState, failed, running, staging, waiting_osdid}

-- The status that the scheduler gives a task on a report of the state.
abbrev pub told_status : TaskStateCode → Status
told_status task_running = running
told_status task_starting = waiting_osdid
told_status _ = failed

-- The task of a node as the scheduler enters it.
abbrev pub staged_task : TaskInfo → TaskType → Offer → TaskState
staged_task task ty offer = record {
  task_id = task.task_id;
  executor_id = task.executor.executor_id;
  task_type = ty;
  host_name = offer.hostname;
  slave_id = offer.slave_id;
  current_status = staging;
}

module _ (id : Text) (t : TaskState) (m : StateMachine) (found : find id m.task_map ≡ some t) where
  find-failed :
      find id (update_task_to_failed id m).task_map ≡ some (record t { current_status = failed })
  unfolding update_task_to_failed set_status move_state
  find-failed =
      rw (update_task_to_failed, found)
        (find-insert_self id (record t { current_status = failed }) _)

  find-waiting :
      find id (update_task_to_waiting_osdid id m).task_map
      ≡ some (record t { current_status = waiting_osdid })
  unfolding update_task_to_waiting_osdid set_status
  find-waiting =
      rw (update_task_to_waiting_osdid, found)
        (find-insert_self id (record t { current_status = waiting_osdid }) _)

module _ (w : World) where
  update_told :
      (state : TaskStateCode) (id : Text) (t : TaskState) (a : Agent)
      → IsLaunchState state
      → find id a.machine.task_map ≡ some t
      → (b : Agent) × (update_state w state id none a ≡ done b)
        × (find id b.machine.task_map ≡ some (record t { current_status = told_status state }))
  unfolding update_state
  update_told task_running id t a is found = (_, refl, find-running id t a.machine found)
  update_told task_starting id t a is found = (_, refl, find-waiting id t a.machine found)
  update_told task_failed id t a is found = (_, refl, find-failed id t a.machine found)
  update_told task_finished id t a is found = absurd is
  update_told task_killed id t a is found = absurd is
  update_told task_other id t a is found = absurd is

  staged-found :
      (offer : Offer) (ty : TaskType) (token : ℤ) (initial : Bool) (a : Agent)
      → let task = (launch_node w offer ty token initial a).0 in
        find task.task_id (stage_node w offer ty token initial a).machine.task_map
        ≡ some (staged_task task ty offer)
  unfolding stage_node add_staging_task
  staged-found offer ty token initial a = find-insert_self _ _ _

  -- The executor has sent one report more on the task, and the scheduler sets the task's status by it.
  abbrev pub Told : TaskInfo → TaskState → Agent → CephExecutor → CephExecutor → Type 0
  Told task t c e e' =
      (s : TaskStatus) × (b : Agent) × (e'.sent ≡ push_back e.sent s)
      × (s.task_id ≡ task.task_id)
      × IsLaunchState s.state
      × (status_update w s c ≡ done b)
      × (find task.task_id b.machine.task_map
          ≡ some (record t { current_status = told_status s.state }))

  report-Told :
      (task : TaskInfo) (t : TaskState) (c : Agent) (e e' : CephExecutor)
      → find task.task_id c.machine.task_map ≡ some t
      → OneReport task.task_id e e'
      → Told task t c e e'
  unfolding status_update
  report-Told task t c e e' found r =
      let (s, sent, on, plain, is, _, _) = r in
      let (b, hears, sets) = update_told s.state task.task_id t c is found in
      (s, b, sent, on, is, rw (on, plain) hears, sets)

  -- A node of any type, from its launch on an offer to its executor's report. The scheduler builds the task
  -- and enters it as staging; an executor, in whatever state, that launches this task and returns has sent
  -- one report more, on this task; and the scheduler handles that report without an exception and changes
  -- the task's status only: to RUNNING, WAITING_OSDID or FAILED as the report says RUNNING, STARTING or
  -- FAILED.
  pub executor_launch-Told :
      (fuel : ℕ) (offer : Offer) (ty : TaskType) (token : ℤ) (initial : Bool) (a : Agent)
      (e : CephExecutor)
      → let task = (launch_node w offer ty token initial a).0 in
        Holds
          (Told task (staged_task task ty offer) (stage_node w offer ty token initial a) e)
          (executor_launch w fuel task e)
  executor_launch-Told fuel offer ty token initial a e =
      let task = (launch_node w offer ty token initial a).0 in
      let c = stage_node w offer ty token initial a in
      let t = staged_task task ty offer in
      Holds-map (OneReport task.task_id e) (Told task t c e) (executor_launch w fuel task e)
        (executor_launch-OneReport w fuel task e)
        (λ e'. report-Told task t c e e' (staged-found offer ty token initial a))
