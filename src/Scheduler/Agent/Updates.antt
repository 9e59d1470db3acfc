-- ===== src/Scheduler/Agent/Updates.antt =====
-- `statusUpdate` and `frameworkMessage` of src/scheduler/CephSchedulerAgent.hpp, with the exceptions
-- of `lexical_cast` and the reads out of range of the token vectors.
use ceph_mesos.Prelude.{
  Bool, List, Option, Text, [], eqb_ℤ, false, if◌then◌else◌, none, some, text_eq, true, ◌∷◌,
}
use ceph_mesos.Common.StringUtil.{explode}
use ceph_mesos.Common.TaskType.{MessageToScheduler, consumed_osd_id, disk_ready, to_scheduler_code}
use ceph_mesos.Common.World.{World}
use ceph_mesos.Scheduler.Agent.{Agent, with_machine}
use ceph_mesos.Scheduler.Driver.{
  Outcome, TaskStateCode, TaskStatus, done, task_failed, task_finished, task_killed, task_other,
  task_running, task_starting, thrown, undefined,
}
use ceph_mesos.State.HostConfig.{set_disk_preparation_done, update_disk_partition}
use ceph_mesos.State.HostConfig.Partitions.{listed}
use ceph_mesos.State.StateMachine.{
  add_pending_osdid, get_config, get_initial_mon, put_config, update_task_to_failed,
  update_task_to_running, update_task_to_waiting_osdid,
}

-- `devs` as the source leaves it. Where the listed devices are not "-", their split is assigned to
-- an inner variable of the same name, which goes out of scope with the `if`.
unfoldable pub outer_devs : Text → List Text
outer_devs listed = []

module _ (w : World) where
  -- Whether the first token of a message is the code. `lexical_cast<int>` may throw.
  unfoldable pub has_code : MessageToScheduler → Text → Option Bool
  has_code m token = elim (w.parse_int token) [
    | none ↦ none
    | some n ↦ some (eqb_ℤ n (to_scheduler_code m))
  ]

  -- The message of a running task: its OSD id is only logged.
  unfoldable pub consumed_message : List Text → Agent → Outcome Agent
  unfolding has_code
  consumed_message [] a = undefined
  consumed_message (token ∷ rest) a = elim (has_code consumed_osd_id token) [
    | none ↦ thrown a
    | some false ↦ done a
    | some true ↦ elim rest [ [] ↦ undefined | id ∷ _ ↦ done a ]
  ]

  unfoldable pub finish_disks : Text → List Text → Agent → Agent
  finish_disks hostname devs a =
      let hc = get_config hostname a.machine in
      let hc1 = update_disk_partition w devs hc.jnl_parts_count hc in
      with_machine (put_config hostname (set_disk_preparation_done hc1) a.machine) a

  unfoldable pub disk_ready_fields : List Text → Agent → Outcome Agent
  unfolding outer_devs finish_disks
  disk_ready_fields [] a = undefined
  disk_ready_fields (hostname ∷ []) a = undefined
  disk_ready_fields (hostname ∷ listed ∷ _) a = done (finish_disks hostname (outer_devs listed) a)

  unfoldable pub disk_ready_message : List Text → Agent → Outcome Agent
  unfolding has_code disk_ready_fields
  disk_ready_message [] a = undefined
  disk_ready_message (token ∷ rest) a = elim (has_code disk_ready token) [
    | none ↦ thrown a
    | some false ↦ done a
    | some true ↦ elim rest [
      | [] ↦ undefined
      | failed_devs ∷ _ ↦ disk_ready_fields (explode failed_devs b':') a
    ]
  ]

  abbrev with_message : (List Text → Agent → Outcome Agent) → Option Text → Agent → Outcome Agent
  with_message f none a = done a
  with_message f (some msg) a = f (explode msg b'.') a

  unfoldable pub update_state : TaskStateCode → Text → Option Text → Agent → Outcome Agent
  unfolding consumed_message disk_ready_message
  update_state task_running id msg a =
      with_message consumed_message msg (with_machine (update_task_to_running id a.machine) a)
  update_state task_starting id msg a =
      done (with_machine (update_task_to_waiting_osdid id a.machine) a)
  update_state task_failed id msg a = done (with_machine (update_task_to_failed id a.machine) a)
  update_state task_finished id msg a = with_message disk_ready_message msg a
  update_state task_killed id msg a = done a
  update_state task_other id msg a = done a

  unfoldable pub status_update : TaskStatus → Agent → Outcome Agent
  unfolding update_state
  status_update s a = update_state s.state s.task_id s.message a

  unfoldable pub framework_message : Text → Text → Agent → Outcome Agent
  framework_message executor_id payload a =
      if text_eq (get_initial_mon a.machine).executor_id executor_id
      then (elim (w.parse_int payload) [
        | none ↦ thrown a
        | some id ↦ done (with_machine (add_pending_osdid id a.machine) a)
      ])
      else done a
