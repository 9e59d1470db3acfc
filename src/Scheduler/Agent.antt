-- ===== src/Scheduler/Agent.antt =====
-- src/scheduler/CephSchedulerAgent.hpp: the state of the agent and the steps of its handlers. The
-- handlers themselves are in the children `Offers` and `Updates`.
pub mod Launch
pub mod Offers
pub mod Updates
pub mod Assign
pub mod Bounds
pub mod Runs
pub mod Survival
pub mod Answers
pub mod InitialMon
pub mod Disks
pub mod Ids
use ceph_mesos.Prelude.{
  Bool, List, Text, [], codes, false, none, not, pos, push_back, some, text_eq, true, unsnoc, ℕ, ℤ,
  ◌++◌, ◌||◌, ◌∷◌,
}
use ceph_mesos.Common.Config.{Config}
use ceph_mesos.Common.TaskType.{launch_osd, register_osd, to_executor_code}
use ceph_mesos.Common.World.{Resource, World}
use ceph_mesos.Scheduler.Driver.{DriverCall, Offer, send_framework_message}
use ceph_mesos.Scheduler.EventLoop.{fetch_pending_request}
use ceph_mesos.State.StateMachine.{
  StateMachine, get_waiting_osd_task, init, update_task_to_starting,
}
use ceph_mesos.State.TaskState.{TaskState}

pub record Agent : Type 0 where
  pub config : Config
  pub machine : StateMachine
  -- the event loop's `pendingOSD`
  pub pending_osd : List ℤ
  -- how often the clock has been read
  pub readings : ℕ
  -- the calls on the driver, oldest first
  pub calls : List DriverCall

-- `CephSchedulerAgent(Config*)`
unfoldable pub new_agent : World → Config → Agent
new_agent w config = record {
  config = config;
  machine = init w config;
  pending_osd = [];
  readings = 0;
  calls = [];
}

abbrev pub call : DriverCall → Agent → Agent
call c a = record a { calls = push_back a.calls c }

abbrev pub with_machine : StateMachine → Agent → Agent
with_machine m a = record a { machine = m }

unfoldable pub has_role : List Resource → Text → Bool
has_role [] role = false
has_role (r ∷ res) role = text_eq role r.role || has_role res role

-- One cpu and 1024 MB, whatever the task type.
unfoldable pub offer_not_enough_resources : World → Text → Offer → Bool
offer_not_enough_resources w role offer = not (w.has_resources offer.resources role 1000 1024000)

-- `isInitialMonNode`, an `int` that is 0 or 1
unfoldable pub flag_code : Bool → ℤ
flag_code true = pos 1
flag_code false = pos 0

unfoldable pub fetch_pending_restful_request : Agent → Bool × Agent
fetch_pending_restful_request a =
    let (accept, rest) = fetch_pending_request a.pending_osd in
    (accept, record a { pending_osd = rest })

module _ (w : World) where
  -- The message that gives a waiting OSD task its id.
  unfoldable pub launch_osd_message : ℤ → Text
  launch_osd_message id = w.print_int (to_executor_code launch_osd) ++ codes "." ++ w.print_int id

  unfoldable pub register_osd_message : Text
  register_osd_message = w.print_int (to_executor_code register_osd)

  unfoldable pub assign_osd_id : TaskState → List ℤ → ℤ → Agent → Agent
  unfolding launch_osd_message
  assign_osd_id t rest id a =
      let a1 = with_machine (record a.machine { pending_osdid = rest }) a in
      let a2 = call (send_framework_message t.executor_id t.slave_id (launch_osd_message id)) a1 in
      with_machine (update_task_to_starting t.task_id a2.machine) a2

  -- The loop of `handleWaitingOSDTasks` over the waiting tasks; it breaks when no id is left.
  unfoldable pub assign_osd_ids : List TaskState → Agent → Agent
  unfolding assign_osd_id
  assign_osd_ids [] a = a
  assign_osd_ids (t ∷ ts) a = elim (unsnoc a.machine.pending_osdid) [
    | none ↦ a
    | some (rest, id) ↦ assign_osd_ids ts (assign_osd_id t rest id a)
  ]

  unfoldable pub handle_waiting_osd_tasks : Agent → Agent
  unfolding assign_osd_ids
  handle_waiting_osd_tasks a = assign_osd_ids (get_waiting_osd_task a.machine) a
