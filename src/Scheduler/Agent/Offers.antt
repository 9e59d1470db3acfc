-- ===== src/Scheduler/Agent/Offers.antt =====
-- `resourceOffers` of src/scheduler/CephSchedulerAgent.hpp.
use ceph_mesos.Prelude.{
  Bool, Bool-cases, List, Option, Option-cases, [], eqb_ℤ, false, if◌then◌else◌, inl, inr, none,
  not, pos, some, true, ℕ, ℤ, ◌&&◌, ◌||◌, ◌∷◌, ◌≡◌, ◌⊎◌,
}
use ceph_mesos.Common.TaskType.{TaskType}
use ceph_mesos.Common.World.{World}
use ceph_mesos.Scheduler.Agent.{
  Agent, call, fetch_pending_restful_request, handle_waiting_osd_tasks, has_role,
  offer_not_enough_resources, register_osd_message, with_machine,
}
use ceph_mesos.Scheduler.Agent.Launch.{launch_node, try_launch_disk_task}
use ceph_mesos.Scheduler.Driver.{
  Offer, Outcome, decline_offer, done, send_framework_message, thrown,
}
use ceph_mesos.State.StateMachine.{
  StateMachine, add_config, add_staging_task, decrease_osd_index, get_initial_mon, next_move,
}
use ceph_mesos.State.TaskState.{Phase, is_mon, is_osd, wainting_request}

-- `refuse_seconds` of an offer in another role: a day
abbrev pub refuse_role : ℕ
refuse_role = 86400

abbrev pub is_waiting_request : Phase → Bool
is_waiting_request wainting_request = true
is_waiting_request _ = false

module _ (w : World) where
  -- The node is launched, and its task is entered as staging.
  unfoldable pub stage_node : Offer → TaskType → ℤ → Bool → Agent → Agent
  stage_node offer task_type token is_initial a =
      let (task, a1) = launch_node w offer task_type token is_initial a in
      with_machine
        (add_staging_task task.task_id task.executor.executor_id task_type offer.hostname
          offer.slave_id a1.machine)
        a1

  -- An OSD that is not launched as the initial MON makes the initial MON register an OSD.
  unfoldable pub ask_osd_id : TaskType → Bool → Agent → Agent
  ask_osd_id task_type is_initial a =
      let first = get_initial_mon a.machine in
      if not is_initial && is_osd task_type
      then call (send_framework_message first.executor_id first.slave_id (register_osd_message w)) a
      else a

  -- `isInitialMonNode` is set for the first MON, and never reset within a call of `resourceOffers`.
  unfoldable pub start_node : Offer → TaskType → ℤ → Bool → Agent → Agent × Bool
  unfolding stage_node ask_osd_id
  start_node offer task_type token initial a =
      let is_initial = (is_mon task_type && eqb_ℤ token (pos 0)) || initial in
      (ask_osd_id task_type is_initial (stage_node offer task_type token is_initial a), is_initial)

  -- What happens to an offer that `nextMove` accepted: it is declined for want of resources or of a
  -- request, or a node is launched on it.
  unfoldable pub accept_move : Phase → Offer → TaskType → ℤ → Bool → Agent → Agent × Bool
  unfolding start_node
  accept_move phase offer task_type token initial a =
      let (fetched, b) = fetch_pending_restful_request a in
      let declined = call (decline_offer offer.id none) b in
      if offer_not_enough_resources w a.config.role offer
      then (call (decline_offer offer.id none) a, initial)
      else if is_waiting_request phase
      then (if fetched
          then start_node offer task_type token initial b
          else (with_machine (decrease_osd_index declined.machine) declined, initial))
      else start_node offer task_type token initial a

  -- From `nextMove` on.
  unfoldable pub try_next : Phase → Offer → Bool → Agent → Agent × Bool
  unfolding accept_move
  try_next phase offer initial a =
      let (move, m) = next_move offer.hostname a.machine in
      elim move [
        | none ↦ (call (decline_offer offer.id none) (with_machine m a), initial)
        | some (task_type, token) ↦
            accept_move phase offer task_type token initial (with_machine m a)
      ]

  -- From `tryLaunchDiskTask` on, once the offer's host is known.
  unfoldable pub use_offer : Phase → Offer → Bool → Agent → Agent × Bool
  unfolding try_next
  use_offer phase offer initial a = try_next phase offer initial (try_launch_disk_task w offer a)

  -- One round of the loop over the offers; `none` is an exception from `addConfig`, at which the
  -- agent is as it was.
  unfoldable pub handle_offer : Phase → Offer → Bool → Agent → Option (Agent × Bool)
  unfolding use_offer
  handle_offer phase offer initial a =
      if has_role offer.resources a.config.role
      then (elim (add_config w offer.hostname a.machine) [
        | none ↦ none
        | some m ↦ some (use_offer phase offer initial (with_machine m a))
      ])
      else some (call (decline_offer offer.id (some refuse_role)) a, initial)

  unfoldable pub handle_offers : Phase → List Offer → Bool → Agent → Outcome Agent
  unfolding handle_offer
  handle_offers phase [] initial a = done a
  handle_offers phase (offer ∷ offers) initial a = elim (handle_offer phase offer initial a) [
    | none ↦ thrown a
    | some (a', initial') ↦ handle_offers phase offers initial' a'
  ]

  -- The phase is read once, before the loop.
  unfoldable pub resource_offers : List Offer → Agent → Outcome Agent
  unfolding handle_offers
  resource_offers offers a =
      let a1 = handle_waiting_osd_tasks w a in
      handle_offers a1.machine.current_phase offers false a1

  -- What a round that throws nothing leaves: the offer is declined for its role, or used.
  abbrev pub Round : Phase → Offer → Bool → Agent → Agent × Bool → Type 0
  Round phase offer initial a r =
      ((has_role offer.resources a.config.role ≡ false)
        × (r ≡ (call (decline_offer offer.id (some refuse_role)) a, initial)))
      ⊎ ((m : StateMachine) × (has_role offer.resources a.config.role ≡ true)
          × (add_config w offer.hostname a.machine ≡ some m)
          × (r ≡ use_offer phase offer initial (with_machine m a)))

  module _ (phase : Phase) (offer : Offer) (initial : Bool) (a : Agent) where
    pub handle_offer_other :
        has_role offer.resources a.config.role ≡ false
        → handle_offer phase offer initial a
          ≡ some (call (decline_offer offer.id (some refuse_role)) a, initial)
    unfolding handle_offer
    handle_offer_other other = rw (other, handle_offer)

    pub handle_offer_throws :
        has_role offer.resources a.config.role ≡ true
        → add_config w offer.hostname a.machine ≡ none
        → handle_offer phase offer initial a ≡ none
    unfolding handle_offer
    handle_offer_throws ours e = rw (ours, e, handle_offer)

    pub handle_offer_uses :
        (m : StateMachine)
        → has_role offer.resources a.config.role ≡ true
        → add_config w offer.hostname a.machine ≡ some m
        → handle_offer phase offer initial a
          ≡ some (use_offer phase offer initial (with_machine m a))
    unfolding handle_offer
    handle_offer_uses m ours e = rw (ours, e, handle_offer)

    pub handle_offer-Round :
        (r : Agent × Bool)
        → handle_offer phase offer initial a ≡ some r
        → Round phase offer initial a r
    handle_offer-Round r h = elim (Bool-cases (has_role offer.resources a.config.role)) [
      | inl ours ↦ elim (Option-cases (add_config w offer.hostname a.machine)) [
        | inl e ↦ cc (handle_offer_throws ours e)
        | inr (m, e) ↦ inr (m, ours, e, cc (handle_offer_uses m ours e))
      ]
      | inr other ↦ inl (other, cc (handle_offer_other other))
    ]
