-- ===== src/Scheduler/Agent/Answers.antt =====
-- How each offer of `resourceOffers` is answered.
use ceph_mesos.Prelude.{
  Bool, Bool-cases, List, Option, Option-cases, Text, [], ap, append_assoc, arith, false,
  find-insert_self, inl, inr, none, not, push_back, refl, some, subst, sym, true, ℕ, ℤ, ◌&&◌, ◌++◌,
  ◌∙◌, ◌∷◌, ◌≡◌,
}
use ceph_mesos.Common.TaskType.{TaskType}
use ceph_mesos.Common.World.{World}
use ceph_mesos.Scheduler.Agent.{
  Agent, call, fetch_pending_restful_request, has_role, offer_not_enough_resources,
  register_osd_message, with_machine,
}
use ceph_mesos.Scheduler.Agent.Launch.{
  disk_task, launch_node, node_task, try_launch_disk_task, wants_disk_task,
}
use ceph_mesos.Scheduler.Agent.Offers.{
  accept_move, ask_osd_id, handle_offer, handle_offer-Round, handle_offer_uses, is_waiting_request,
  refuse_role, stage_node, start_node, try_next, use_offer,
}
use ceph_mesos.Scheduler.Driver.{
  DriverCall, Offer, TaskInfo, decline_offer, launch_tasks, send_framework_message,
}
use ceph_mesos.Scheduler.EventLoop.{fetch_pending_request}
use ceph_mesos.State.HostConfig.{HostConfig, set_disk_preparation_on_going}
use ceph_mesos.State.StateMachine.{
  StateMachine, add_config, get_config, get_initial_mon, next_move, put_config,
}
use ceph_mesos.State.TaskState.{Phase, is_osd}

-- The calls with which one offer is answered.
pub data Answered (offer : Offer) : List DriverCall → Type 0 where
  -- it is declined
  by_refusal : (refuse : Option ℕ) → Answered offer (decline_offer offer.id refuse ∷ [])
  -- one task is launched on it
  by_launch :
      (task : TaskInfo)
      → task.slave_id ≡ offer.slave_id
      → Answered offer (launch_tasks offer.id (task ∷ []) ∷ [])
  -- one task is launched on it, and a message sent to an executor
  by_registration :
      (task : TaskInfo) (executor slave message : Text)
      → task.slave_id ≡ offer.slave_id
      → Answered offer
          (launch_tasks offer.id (task ∷ []) ∷ send_framework_message executor slave message ∷ [])
  -- a disk task is launched on it, and then it is declined all the same
  by_preparation :
      (task : TaskInfo)
      → task.slave_id ≡ offer.slave_id
      → Answered offer (launch_tasks offer.id (task ∷ []) ∷ decline_offer offer.id none ∷ [])

-- The calls from one state of the agent to the next answer the offer.
abbrev pub Answers : Offer → Agent → Agent → Type 0
Answers offer a b = (cs : List DriverCall) × (b.calls ≡ a.calls ++ cs) × Answered offer cs

pub get-put-config :
    (host : Text) (hc : HostConfig) (m : StateMachine) → get_config host (put_config host hc m) ≡ hc
unfolding get_config put_config
get-put-config host hc m = ground (arith, find-insert_self host hc m.host_config_map)

next_move_busy :
    (host : Text) (m : StateMachine)
    → (get_config host m).is_preparing_disk ≡ true
    → next_move host m ≡ (none, m)
unfolding next_move
next_move_busy host m busy = rw (busy, next_move)

module _ (w : World) where
  ask_osd_id-Answers :
      (offer : Offer) (ty : TaskType) (initial : Bool) (task : TaskInfo) (a b : Agent)
      → task.slave_id ≡ offer.slave_id
      → b.calls ≡ push_back a.calls (launch_tasks offer.id (task ∷ []))
      → Answers offer a (ask_osd_id w ty initial b)
  unfolding ask_osd_id
  ask_osd_id-Answers offer ty initial task a b slave e =
      let first = get_initial_mon b.machine in
      let asking =
        send_framework_message first.executor_id first.slave_id (register_osd_message w) in
      elim (Bool-cases (not initial && is_osd ty)) [
        | inl asks ↦ rw asks (
          launch_tasks offer.id (task ∷ []) ∷ asking ∷ [],
          ap (λ cs. push_back cs asking) e ∙ append_assoc a.calls _ _,
          by_registration task first.executor_id first.slave_id (register_osd_message w) slave,
        )
        | inr plain ↦ rw plain (launch_tasks offer.id (task ∷ []) ∷ [], e, by_launch task slave)
      ]

  start_node-Answers :
      (offer : Offer) (ty : TaskType) (token : ℤ) (initial : Bool) (a : Agent)
      → Answers offer a (start_node w offer ty token initial a).0
  unfolding start_node stage_node launch_node node_task
  start_node-Answers offer ty token initial a = ask_osd_id-Answers offer ty _ _ a _ refl refl

  accept_move-Answers :
      (phase : Phase) (offer : Offer) (ty : TaskType) (token : ℤ) (initial : Bool) (a : Agent)
      → Answers offer a (accept_move w phase offer ty token initial a).0
  unfolding accept_move fetch_pending_restful_request
  accept_move-Answers phase offer ty token initial a =
      elim (Bool-cases (offer_not_enough_resources w a.config.role offer)) [
        | inl scarce ↦ rw scarce (_, refl, by_refusal none)
        | inr enough ↦ rw enough (elim (Bool-cases (is_waiting_request phase)) [
          | inl waiting ↦ rw waiting (elim (Bool-cases (fetch_pending_request a.pending_osd).0) [
            | inl fetched ↦ rw fetched (
                start_node-Answers offer ty token initial
                  (record a { pending_osd = (fetch_pending_request a.pending_osd).1 }))
            | inr refused ↦ rw refused (_, refl, by_refusal none)
          ])
          | inr other ↦ rw other (start_node-Answers offer ty token initial a)
        ])
      ]

  try_next-Answers :
      (phase : Phase) (offer : Offer) (initial : Bool) (a : Agent)
      → Answers offer a (try_next w phase offer initial a).0
  unfolding try_next
  try_next-Answers phase offer initial a =
      elim (Option-cases (next_move offer.hostname a.machine).0) [
        | inl e ↦ rw (e, try_next) (_, refl, by_refusal none)
        | inr ((ty, token), e) ↦
            rw (e, try_next) (accept_move-Answers phase offer ty token initial _)
      ]

  try_next_busy :
      (phase : Phase) (offer : Offer) (initial : Bool) (a : Agent)
      → (get_config offer.hostname a.machine).is_preparing_disk ≡ true
      → try_next w phase offer initial a ≡ (call (decline_offer offer.id none) a, initial)
  unfolding try_next
  try_next_busy phase offer initial a busy =
      let refused = next_move_busy offer.hostname a.machine busy in
      rw (refused, try_next) (rw refused)

  abbrev wanted : Offer → Agent → Bool
  wanted offer a = wants_disk_task w a offer (get_config offer.hostname a.machine)

  -- The disk task that an agent builds for an offer.
  abbrev pub built_disk_task : Offer → Agent → TaskInfo
  built_disk_task offer a =
      disk_task w a.config offer (get_config offer.hostname a.machine) (w.time a.readings)

  pub try_launch_busy :
      (offer : Offer) (a : Agent)
      → wanted offer a ≡ true
      → ((get_config offer.hostname (try_launch_disk_task w offer a).machine).is_preparing_disk
          ≡ true)
        × ((try_launch_disk_task w offer a).calls
            ≡ push_back a.calls (launch_tasks offer.id (built_disk_task offer a ∷ [])))
  unfolding try_launch_disk_task
  try_launch_busy offer a wants =
      (rw (wants, get-put-config) (unfold set_disk_preparation_on_going in refl), rw wants)

  try_launch_idle :
      (offer : Offer) (a : Agent) → wanted offer a ≡ false → try_launch_disk_task w offer a ≡ a
  unfolding try_launch_disk_task
  try_launch_idle offer a idle = rw (idle, try_launch_disk_task)

  -- Where the disk task is wanted, the offer is given to it and declined right after.
  use_offer_busy :
      (phase : Phase) (offer : Offer) (initial : Bool) (a : Agent)
      → wanted offer a ≡ true
      → ((use_offer w phase offer initial a).0.calls
          ≡ a.calls
            ++ launch_tasks offer.id (built_disk_task offer a ∷ [])
              ∷ decline_offer offer.id none
              ∷ [])
        × ((use_offer w phase offer initial a).1 ≡ initial)
  unfolding use_offer
  use_offer_busy phase offer initial a wants =
      let (busy, made) = try_launch_busy offer a wants in
      rw (try_next_busy phase offer initial (try_launch_disk_task w offer a) busy) (
        ap (λ cs. push_back cs (decline_offer offer.id none)) made ∙ append_assoc a.calls _ _,
        refl,
      )

  use_offer-Answers :
      (phase : Phase) (offer : Offer) (initial : Bool) (a : Agent)
      → Answers offer a (use_offer w phase offer initial a).0
  unfolding use_offer
  use_offer-Answers phase offer initial a = elim (Bool-cases (wanted offer a)) [
    | inl wants ↦ (
      _,
      (use_offer_busy phase offer initial a wants).0,
      by_preparation (built_disk_task offer a) (unfold disk_task in refl),
    )
    | inr idle ↦
        subst (λ b. Answers offer a (try_next w phase offer initial b).0)
          (sym (try_launch_idle offer a idle)) (try_next-Answers phase offer initial a)
  ]

  -- A round over an offer that throws nothing answers that offer, and no other: the offer is declined
  -- once, or one task is launched on it on its own agent, followed at most by one message to an
  -- executor or by a refusal of the same offer.
  pub handle_offer-Answers :
      (phase : Phase) (offer : Offer) (initial : Bool) (a : Agent) (r : Agent × Bool)
      → handle_offer w phase offer initial a ≡ some r
      → Answers offer a r.0
  handle_offer-Answers phase offer initial a r h =
      elim (handle_offer-Round w phase offer initial a r h) [
        | inl (other, e) ↦
            subst (λ x. Answers offer a x.0) (sym e) (_, refl, by_refusal (some refuse_role))
        | inr (m, ours, added, e) ↦
            subst (λ x. Answers offer a x.0) (sym e)
              (use_offer-Answers phase offer initial (with_machine m a))
      ]

  -- An offer of the right role, on a host with raw disks that are not being prepared and with enough
  -- resources, is given to a disk task and then declined, although it has been used.
  pub disk_offer_declined :
      (phase : Phase) (offer : Offer) (initial : Bool) (a : Agent) (m : StateMachine)
      → has_role offer.resources a.config.role ≡ true
      → add_config w offer.hostname a.machine ≡ some m
      → wants_disk_task w (with_machine m a) offer (get_config offer.hostname m) ≡ true
      → (r : Agent × Bool) × (handle_offer w phase offer initial a ≡ some r)
        × (r.0.calls
            ≡ a.calls
              ++ launch_tasks offer.id (built_disk_task offer (with_machine m a) ∷ [])
                ∷ decline_offer offer.id none
                ∷ [])
  disk_offer_declined phase offer initial a m ours added wants = (
    use_offer w phase offer initial (with_machine m a),
    handle_offer_uses w phase offer initial a m ours added,
    (use_offer_busy phase offer initial (with_machine m a) wants).0,
  )
