-- ===== src/Scheduler/Agent/Ids/Always.antt =====
-- The OSD ids over every run of the agent.
use ceph_mesos.Prelude.{
  Bool-cases, List, Option, Option-cases, Text, [], arith, false, if◌then◌else◌, inl, inr, none,
  refl, some, text_eq, unsnoc, ℤ, ◌++◌, ◌+◌, ◌∙◌, ◌∷◌, ◌≡◌,
}
use ceph_mesos.Common.Config.{Config}
use ceph_mesos.Common.StringUtil.{explode}
use ceph_mesos.Common.World.{IsLexical, World}
use ceph_mesos.Scheduler.Agent.{
  Agent, assign_osd_id, assign_osd_ids, handle_waiting_osd_tasks, new_agent,
}
use ceph_mesos.Scheduler.Agent.Ids.{
  SameIds, SameIds-refl, given_ids, given_ids-call, id_count, id_count-append, machine-SameIds,
  tally, tally-SameIds, unsnoc-push,
}
use ceph_mesos.Scheduler.Agent.Ids.Offers.{
  Leaves-then, handle_offers-SameIds, launch_gives, pending-put_config, pending-starting,
}
use ceph_mesos.Scheduler.Agent.Offers.{resource_offers}
use ceph_mesos.Scheduler.Agent.Runs.{
  Callback, Leaves, Leaves-map, handle, on_message, on_offers, on_request, on_update, run,
}
use ceph_mesos.Scheduler.Agent.Updates.{
  consumed_message, disk_ready_fields, disk_ready_message, finish_disks, framework_message,
  status_update, update_state,
}
use ceph_mesos.Scheduler.Driver.{
  Outcome, TaskStateCode, done, task_failed, task_finished, task_killed, task_other, task_running,
  task_starting, thrown, undefined,
}
use ceph_mesos.State.HostConfig.Partitions.{listed}
use ceph_mesos.State.StateMachine.{
  StateMachine, add_pending_osdid, get_initial_mon, get_waiting_osd_task, init, move_state,
  set_status, update_task_to_failed, update_task_to_running, update_task_to_waiting_osdid,
}
use ceph_mesos.State.TaskState.{TaskState}

pending-running :
    (id : Text) (m : StateMachine) → (update_task_to_running id m).pending_osdid ≡ m.pending_osdid
unfolding update_task_to_running move_state set_status
pending-running id m = ground arith

pending-failed :
    (id : Text) (m : StateMachine) → (update_task_to_failed id m).pending_osdid ≡ m.pending_osdid
unfolding update_task_to_failed move_state set_status
pending-failed id m = ground arith

pub pending-waiting :
    (id : Text) (m : StateMachine)
    → (update_task_to_waiting_osdid id m).pending_osdid ≡ m.pending_osdid
unfolding update_task_to_waiting_osdid
pending-waiting id m = ground arith

module _ (w : World) where
  -- The id that a callback brings: a message of the initial MON's executor that is a number.
  unfoldable pub received_ids : Callback → Agent → List ℤ
  received_ids (on_message executor payload) a =
      if text_eq (get_initial_mon a.machine).executor_id executor
      then (elim (w.parse_int payload) [ none ↦ [] | some id ↦ id ∷ [] ])
      else []
  received_ids _ a = []

  -- The ids that the callbacks of a run bring, in order.
  unfoldable pub run_ids : List Callback → Agent → List ℤ
  run_ids [] a = []
  run_ids (c ∷ cs) a =
      received_ids c a
      ++ (elim (handle w c a) [ done b ↦ run_ids cs b | thrown b ↦ [] | undefined ↦ [] ])

  consumed-SameIds :
      (tokens : List Text) (a : Agent) → Leaves (SameIds w a) (consumed_message w tokens a)
  unfolding consumed_message
  consumed-SameIds [] a = tt
  consumed-SameIds (token ∷ rest) a = ground (arith, SameIds-refl w a)

  fields-SameIds :
      (tokens : List Text) (a : Agent) → Leaves (SameIds w a) (disk_ready_fields w tokens a)
  unfolding disk_ready_fields finish_disks
  fields-SameIds [] a = tt
  fields-SameIds (host ∷ []) a = tt
  fields-SameIds (host ∷ listed ∷ rest) a =
      machine-SameIds w _ a (pending-put_config host _ a.machine)

  ready-SameIds :
      (tokens : List Text) (a : Agent) → Leaves (SameIds w a) (disk_ready_message w tokens a)
  unfolding disk_ready_message
  ready-SameIds [] a = tt
  ready-SameIds (token ∷ []) a = ground (arith, SameIds-refl w a)
  ready-SameIds (token ∷ listed ∷ rest) a =
      ground (arith, SameIds-refl w a, fields-SameIds (explode listed b':') a)

  update_state-SameIds :
      (state : TaskStateCode) (id : Text) (msg : Option Text) (a : Agent)
      → Leaves (SameIds w a) (update_state w state id msg a)
  unfolding update_state
  update_state-SameIds task_running id none a = machine-SameIds w _ a (pending-running id a.machine)
  update_state-SameIds task_running id (some msg) a =
      Leaves-then w (machine-SameIds w _ a (pending-running id a.machine)) _
        (consumed-SameIds (explode msg b'.') _)
  update_state-SameIds task_starting id msg a = machine-SameIds w _ a (pending-waiting id a.machine)
  update_state-SameIds task_failed id msg a = machine-SameIds w _ a (pending-failed id a.machine)
  update_state-SameIds task_finished id none a = SameIds-refl w a
  update_state-SameIds task_finished id (some msg) a = ready-SameIds (explode msg b'.') a
  update_state-SameIds task_killed id msg a = SameIds-refl w a
  update_state-SameIds task_other id msg a = SameIds-refl w a

  module _ (lex : IsLexical w) (n : ℤ) where
    assign-tally :
        (t : TaskState) (rest : List ℤ) (id : ℤ) (a : Agent)
        → unsnoc a.machine.pending_osdid ≡ some (rest, id)
        → tally w n (assign_osd_id w t rest id a) ≡ tally w n a
    unfolding assign_osd_id
    assign-tally t rest id a h =
        rw
          (
            pending-starting t.task_id (record a.machine { pending_osdid = rest }),
            unsnoc-push a.machine.pending_osdid rest id h,
            given_ids-call w _ a.calls,
            launch_gives w lex t.executor_id t.slave_id id,
            id_count-append,
          )
          (omega (arith, id_count-append n rest (id ∷ [])))

    assign_osd_ids-tally :
        (ts : List TaskState) (a : Agent) → tally w n (assign_osd_ids w ts a) ≡ tally w n a
    unfolding assign_osd_ids
    assign_osd_ids-tally [] a = refl
    assign_osd_ids-tally (t ∷ ts) a = elim (Option-cases (unsnoc a.machine.pending_osdid)) [
      | inl e ↦ rw (e, assign_osd_ids) refl
      | inr ((rest, id), e) ↦
          rw (e, assign_osd_ids) (assign_osd_ids-tally ts _ ∙ assign-tally t rest id a e)
    ]

    SameIds-tally :
        (a b : Agent)
        → tally w n b ≡ tally w n a
        → (o : Outcome Agent) → Leaves (SameIds w b) o
        → Leaves (λ c. tally w n c ≡ tally w n a + 0) o
    SameIds-tally a b h (done c) l = omega (arith, tally-SameIds w n l, h)
    SameIds-tally a b h (thrown c) l = omega (arith, tally-SameIds w n l, h)
    SameIds-tally a b h undefined l = tt

    handle-tally :
        (c : Callback) (a : Agent)
        → Leaves (λ b. tally w n b ≡ tally w n a + id_count n (received_ids c a)) (handle w c a)
    unfolding handle received_ids resource_offers handle_waiting_osd_tasks status_update
        framework_message add_pending_osdid
    handle-tally (on_offers offers) a =
        SameIds-tally a (handle_waiting_osd_tasks w a)
          (assign_osd_ids-tally (get_waiting_osd_task a.machine) a) (resource_offers w offers a)
          (handle_offers-SameIds w lex _ offers false (handle_waiting_osd_tasks w a))
    handle-tally (on_update s) a =
        SameIds-tally a a refl (status_update w s a)
          (update_state-SameIds s.state s.task_id s.message a)
    handle-tally (on_message executor payload) a =
        elim (Bool-cases (text_eq (get_initial_mon a.machine).executor_id executor)) [
          | inr other ↦ rw other (omega arith)
          | inl first ↦ rw first (elim (Option-cases (w.parse_int payload)) [
            | inl e ↦ rw e (omega arith)
            | inr (id, e) ↦
                rw e (omega (arith, id_count-append n a.machine.pending_osdid (id ∷ [])))
          ])
        ]
    handle-tally (on_request r) a = omega arith

    run-tally :
        (cs : List Callback) (a : Agent)
        → Leaves (λ b. tally w n b ≡ tally w n a + id_count n (run_ids cs a)) (run w cs a)
    unfolding run run_ids
    run-tally [] a = omega arith
    run-tally (c ∷ cs) a = next (handle w c a) (handle-tally c a) (run-tally cs)
      where
        before : List ℤ
        before = received_ids c a

        after : Outcome Agent → List ℤ
        after o = elim o [ done b ↦ run_ids cs b | thrown b ↦ [] | undefined ↦ [] ]

        next :
            (o : Outcome Agent)
            → Leaves (λ b. tally w n b ≡ tally w n a + id_count n before) o
            → ((b : Agent)
                → Leaves (λ d. tally w n d ≡ tally w n b + id_count n (run_ids cs b)) (run w cs b))
            → Leaves
                (λ d. tally w n d ≡ tally w n a + id_count n (before ++ after o))
                (elim o [ done b ↦ run w cs b | thrown b ↦ thrown b | undefined ↦ undefined ])
        next (done b) l rest =
            Leaves-map _ _ (λ d h. omega (arith, h, l, id_count-append n before (run_ids cs b)))
              (run w cs b) (rest b)
        next (thrown b) l rest = omega (arith, l, id_count-append n before [])
        next undefined l rest = tt

-- As long as lexical_cast reads back what it prints: in every run of callbacks that does not read
-- a vector out of range, also one that an exception ends, the OSD ids that executors have been
-- given and those that are still pending are together exactly the ids that the initial MON's
-- executor has sent, each as often as it was sent: none is lost or made up, and none is given
-- twice unless it came twice.
pub run_ids-given :
    (w : World) (lex : IsLexical w) (config : Config) (cs : List Callback) (n : ℤ)
    → Leaves
        (λ b.
          id_count n (given_ids w b.calls) + id_count n b.machine.pending_osdid
          ≡ id_count n (run_ids w cs (new_agent w config)))
        (run w cs (new_agent w config))
unfolding new_agent init given_ids
run_ids-given w lex config cs n =
    Leaves-map _ _ (λ b h. omega (arith, h)) (run w cs _)
      (run-tally w lex n cs (new_agent w config))
