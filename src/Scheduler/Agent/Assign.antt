-- ===== src/Scheduler/Agent/Assign.antt =====
-- `handleWaitingOSDTasks`: which task gets which OSD id.
use mathlib.Core.List.{zip, reverse, reverse-cons, reverse-reverse}
use ceph_mesos.Prelude.{
  List, Table, Text, [], ap, append-nil, append_assoc, arith, find, insert, map, none, refl, some,
  sym, unsnoc, unsnoc-push_back, ℤ, ◌++◌, ◌∙◌, ◌∷◌, ◌≡◌,
}
use ceph_mesos.Common.World.{World}
use ceph_mesos.Scheduler.Agent.{
  Agent, assign_osd_id, assign_osd_ids, handle_waiting_osd_tasks, launch_osd_message,
}
use ceph_mesos.Scheduler.Driver.{DriverCall, send_framework_message}
use ceph_mesos.State.StateMachine.{StateMachine, get_waiting_osd_task, update_task_to_starting}
use ceph_mesos.State.TaskState.{TaskState, starting}

-- The ids that are left when each of the tasks has taken one from the top of the stack.
abbrev pub leftover : List TaskState → List ℤ → List ℤ
leftover [] stack = stack
leftover (t ∷ ts) [] = []
leftover (t ∷ ts) (id ∷ stack) = leftover ts stack

abbrev pub assigned_call : World → TaskState × ℤ → DriverCall
assigned_call w p =
    send_framework_message (p.0).executor_id (p.0).slave_id (launch_osd_message w p.1)

abbrev pub set_starting : Text → Table TaskState → Table TaskState
set_starting id tasks = elim (find id tasks) [
  | none ↦ tasks
  | some t ↦ insert id (record t { current_status = starting }) tasks
]

-- The tasks that get an id are set to STARTING.
abbrev pub start_all : List (TaskState × ℤ) → Table TaskState → Table TaskState
start_all [] tasks = tasks
start_all (p ∷ ps) tasks = start_all ps (set_starting (p.0).task_id tasks)

unsnoc-reverse_cons :
    (id : ℤ) (stack : List ℤ) → unsnoc (reverse (id ∷ stack)) ≡ some (reverse stack, id)
unsnoc-reverse_cons id stack = rw (reverse-cons id stack) (unsnoc-push_back (reverse stack) id)

pending_osdid-starting :
    (id : Text) (m : StateMachine) → (update_task_to_starting id m).pending_osdid ≡ m.pending_osdid
unfolding update_task_to_starting
pending_osdid-starting id m = ground arith

task_map-starting :
    (id : Text) (m : StateMachine)
    → (update_task_to_starting id m).task_map ≡ set_starting id m.task_map
unfolding update_task_to_starting
task_map-starting id m = ground arith

-- What becomes of an agent whose stack of ids is given, its top first.
record Assigned (w : World) (ts : List TaskState) (stack : List ℤ) (a b : Agent) : Type 0 where
  calls : b.calls ≡ a.calls ++ map (assigned_call w) (zip ts stack)
  ids : b.machine.pending_osdid ≡ reverse (leftover ts stack)
  tasks : b.machine.task_map ≡ start_all (zip ts stack) a.machine.task_map

Assigned-next :
    (w : World) (t : TaskState) (ts : List TaskState) (id : ℤ) (stack : List ℤ) (a b : Agent)
    → Assigned w ts stack (assign_osd_id w t (reverse stack) id a) b
    → Assigned w (t ∷ ts) (id ∷ stack) a b
unfolding assign_osd_id zip
Assigned-next w t ts id stack a b r = record {
  calls = r.calls ∙ append_assoc a.calls _ _;
  ids = r.ids;
  tasks = r.tasks ∙ ap (start_all (zip ts stack)) (task_map-starting t.task_id _);
}

assign_step :
    (w : World) (t : TaskState) (ts : List TaskState) (a : Agent) (id : ℤ) (rest : List ℤ)
    → unsnoc a.machine.pending_osdid ≡ some (rest, id)
    → assign_osd_ids w (t ∷ ts) a ≡ assign_osd_ids w ts (assign_osd_id w t rest id a)
unfolding assign_osd_ids
assign_step w t ts a id rest h = rw (h, assign_osd_ids)

assign_osd_ids-Assigned :
    (w : World) (ts : List TaskState) (stack : List ℤ) (a : Agent)
    → a.machine.pending_osdid ≡ reverse stack
    → Assigned w ts stack a (assign_osd_ids w ts a)
unfolding assign_osd_ids
assign_osd_ids-Assigned w [] stack a h =
    unfold zip in record { calls = sym (append-nil a.calls); ids = h; tasks = refl }
assign_osd_ids-Assigned w (t ∷ ts) [] a h =
    unfold zip in
    rw (h, assign_osd_ids) (record { calls = sym (append-nil a.calls); ids = h; tasks = refl })
assign_osd_ids-Assigned w (t ∷ ts) (id ∷ stack) a h =
    rw (assign_step w t ts a id (reverse stack) (rw h (unsnoc-reverse_cons id stack))) (
      Assigned-next w t ts id stack a _ (
        assign_osd_ids-Assigned w ts stack (assign_osd_id w t (reverse stack) id a)
          (unfold assign_osd_id in pending_osdid-starting t.task_id _)))

-- The waiting OSD tasks and the pending ids, newest first, are paired until one of them runs out: each
-- pair sends that id to that task's executor, in this order, and sets the task to STARTING; the ids
-- that are left over stay pending, and no other call is made.
pub handle_waiting_osd_tasks_lem :
    (w : World) (a : Agent)
    → let ts = get_waiting_osd_task a.machine in
      let ids = reverse a.machine.pending_osdid in
      let b = handle_waiting_osd_tasks w a in
      (b.calls ≡ a.calls ++ map (assigned_call w) (zip ts ids))
      × (b.machine.pending_osdid ≡ reverse (leftover ts ids))
      × (b.machine.task_map ≡ start_all (zip ts ids) a.machine.task_map)
unfolding handle_waiting_osd_tasks
handle_waiting_osd_tasks_lem w a = (r.calls, r.ids, r.tasks)
  where
    ts : List TaskState
    ts = get_waiting_osd_task a.machine

    ids : List ℤ
    ids = reverse a.machine.pending_osdid

    r : Assigned w ts ids a (assign_osd_ids w ts a)
    r = assign_osd_ids-Assigned w ts ids a (sym (reverse-reverse a.machine.pending_osdid))
