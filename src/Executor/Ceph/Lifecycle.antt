-- ===== src/Executor/Ceph/Lifecycle.antt =====
-- An OSD from its executor's first report to the scheduler's last, over both programs.
use ceph_mesos.Prelude.{List, Text, [], find, find-insert_self, some, ℤ, ◌∷◌, ◌≡◌}
use ceph_mesos.Common.World.{World}
use ceph_mesos.Executor.Ceph.Osd.{plain_report}
use ceph_mesos.Scheduler.Agent.{Agent, handle_waiting_osd_tasks, with_machine}
use ceph_mesos.Scheduler.Agent.Offers.{resource_offers}
use ceph_mesos.Scheduler.Agent.Runs.{Callback, on_message, on_offers, on_update}
use ceph_mesos.Scheduler.Driver.{Offer, done, task_starting}
use ceph_mesos.State.StateMachine.{
  StateMachine, add_pending_osdid, get_initial_mon, move_state, set_status, update_task_to_running,
  update_task_to_waiting_osdid,
}
use ceph_mesos.State.TaskState.{Status, TaskState, running}

module _ (id : Text) (t : TaskState) (m : StateMachine) (found : find id m.task_map ≡ some t) where
  abbrev with_status : Status → TaskState
  with_status s = record t { current_status = s }

  pub find-running : find id (update_task_to_running id m).task_map ≡ some (with_status running)
  unfolding update_task_to_running set_status move_state
  find-running = rw (update_task_to_running, found) (find-insert_self id (with_status running) _)

-- No task that is launched on the offers takes the given id.
abbrev pub KeepsTask : World → Text → List Offer → Agent → Type 0
KeepsTask w id offers a =
    (b : Agent)
    → resource_offers w offers a ≡ done b
    → find id b.machine.task_map ≡ find id (handle_waiting_osd_tasks w a).machine.task_map

module _ (w : World) (n : ℤ) (t : TaskState) (offers : List Offer) (a : Agent) where
  -- The OSD's executor starts, the initial MON sends an id, and `resourceOffers` is called.
  abbrev pub osd_callbacks : List Callback
  osd_callbacks =
      on_update (plain_report t.task_id task_starting)
      ∷ on_message (get_initial_mon (update_task_to_waiting_osdid t.task_id a.machine)).executor_id
          (w.print_int n)
      ∷ on_offers offers
      ∷ []

  -- The agent once the two messages have been handled.
  abbrev pub with_id : Agent
  with_id = with_machine (add_pending_osdid n (update_task_to_waiting_osdid t.task_id a.machine)) a
