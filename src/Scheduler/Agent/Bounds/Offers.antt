-- ===== src/Scheduler/Agent/Bounds/Offers.antt =====
-- The bounds across `resourceOffers`.
use ceph_mesos.Prelude.{
  Bool, Bool-cases, List, Option-cases, [], arith, false, inl, inr, some, subst, sym, unsnoc, ℤ,
  ◌∷◌, ◌≡◌,
}
use ceph_mesos.Common.TaskType.{TaskType}
use ceph_mesos.Common.World.{World}
use ceph_mesos.Scheduler.Agent.{
  Agent, assign_osd_id, assign_osd_ids, fetch_pending_restful_request, handle_waiting_osd_tasks,
  offer_not_enough_resources, with_machine,
}
use ceph_mesos.Scheduler.Agent.Bounds.{
  IsBounded, IsBounded-of_SameNumbers, Room, Room-of_SameNumbers, SameNumbers, SameNumbers-refl,
  add_config-SameNumbers, add_staging_task-IsBounded, next_move-Room, next_move-SameNumbers,
  put_config-SameNumbers,
}
use ceph_mesos.Scheduler.Agent.Bounds.Updates.{Bounded, starting-IsBounded}
use ceph_mesos.Scheduler.Agent.Launch.{launch_node, try_launch_disk_task, wants_disk_task}
use ceph_mesos.Scheduler.Agent.Offers.{
  accept_move, ask_osd_id, handle_offer, handle_offer-Round, handle_offers, is_waiting_request,
  resource_offers, stage_node, start_node, try_next, use_offer,
}
use ceph_mesos.Scheduler.Agent.Runs.{Leaves}
use ceph_mesos.Scheduler.Driver.{Offer}
use ceph_mesos.Scheduler.EventLoop.{fetch_pending_request}
use ceph_mesos.State.StateMachine.{
  StateMachine, decrease_osd_index, get_config, get_waiting_osd_task, next_move,
}
use ceph_mesos.State.TaskState.{Phase, TaskState}

module _ (w : World) where
  assign_osd_ids-Bounded :
      (ts : List TaskState) (a : Agent) → Bounded a → Bounded (assign_osd_ids w ts a)
  unfolding assign_osd_ids assign_osd_id
  assign_osd_ids-Bounded [] a b = b
  assign_osd_ids-Bounded (t ∷ ts) a b = elim (Option-cases (unsnoc a.machine.pending_osdid)) [
    | inl e ↦ rw (e, assign_osd_ids) b
    | inr ((rest, id), e) ↦
        rw (e, assign_osd_ids)
          (assign_osd_ids-Bounded ts (assign_osd_id w t rest id a) (
            starting-IsBounded t.task_id (record a.machine { pending_osdid = rest })
              (record { settled = b.settled; one_mon = b.one_mon; one_radosgw = b.one_radosgw })))
  ]

  handle_waiting-Bounded : (a : Agent) → Bounded a → Bounded (handle_waiting_osd_tasks w a)
  unfolding handle_waiting_osd_tasks
  handle_waiting-Bounded a b = assign_osd_ids-Bounded (get_waiting_osd_task a.machine) a b

  launch_node-SameNumbers :
      (offer : Offer) (ty : TaskType) (token : ℤ) (initial : Bool) (a : Agent)
      → SameNumbers a.machine (launch_node w offer ty token initial a).1.machine
  unfolding launch_node
  launch_node-SameNumbers offer ty token initial a =
      put_config-SameNumbers offer.hostname _ a.machine

  stage_node-Bounded :
      (offer : Offer) (ty : TaskType) (token : ℤ) (initial : Bool) (a : Agent)
      → Bounded a
      → Room ty a.machine
      → Bounded (stage_node w offer ty token initial a)
  unfolding stage_node
  stage_node-Bounded offer ty token initial a b r =
      let same = launch_node-SameNumbers offer ty token initial a in
      add_staging_task-IsBounded _ _ ty offer.hostname offer.slave_id _
        (IsBounded-of_SameNumbers same b) (Room-of_SameNumbers ty same r)

  machine-ask_osd_id :
      (ty : TaskType) (initial : Bool) (a : Agent) → (ask_osd_id w ty initial a).machine ≡ a.machine
  unfolding ask_osd_id
  machine-ask_osd_id ty initial a = ground arith

  start_node-Bounded :
      (offer : Offer) (ty : TaskType) (token : ℤ) (initial : Bool) (a : Agent)
      → Bounded a
      → Room ty a.machine
      → Bounded (start_node w offer ty token initial a).0
  unfolding start_node
  start_node-Bounded offer ty token initial a b r =
      subst IsBounded (sym (machine-ask_osd_id ty _ _)) (stage_node-Bounded offer ty token _ a b r)

  decrease_osd_index-IsBounded : (m : StateMachine) → IsBounded m → IsBounded (decrease_osd_index m)
  unfolding decrease_osd_index
  decrease_osd_index-IsBounded m b = record {
    settled = b.settled;
    one_mon = b.one_mon;
    one_radosgw = b.one_radosgw;
  }

  accept_move-Bounded :
      (phase : Phase) (offer : Offer) (ty : TaskType) (token : ℤ) (initial : Bool) (a : Agent)
      → Bounded a
      → Room ty a.machine
      → Bounded (accept_move w phase offer ty token initial a).0
  unfolding accept_move fetch_pending_restful_request
  accept_move-Bounded phase offer ty token initial a b r =
      elim (Bool-cases (offer_not_enough_resources w a.config.role offer)) [
        | inl scarce ↦ rw scarce b
        | inr enough ↦ rw enough (elim (Bool-cases (is_waiting_request phase)) [
          | inl waiting ↦ rw waiting (elim (Bool-cases (fetch_pending_request a.pending_osd).0) [
            | inl fetched ↦ rw fetched (start_node-Bounded offer ty token initial _ b r)
            | inr refused ↦ rw refused (decrease_osd_index-IsBounded a.machine b)
          ])
          | inr other ↦ rw other (start_node-Bounded offer ty token initial a b r)
        ])
      ]

  try_launch-SameNumbers :
      (offer : Offer) (a : Agent) → SameNumbers a.machine (try_launch_disk_task w offer a).machine
  unfolding try_launch_disk_task
  try_launch-SameNumbers offer a =
      elim (Bool-cases (wants_disk_task w a offer (get_config offer.hostname a.machine))) [
        | inl launch ↦ rw launch (put_config-SameNumbers offer.hostname _ a.machine)
        | inr leave ↦ rw leave (SameNumbers-refl a.machine)
      ]

  try_next-Bounded :
      (phase : Phase) (offer : Offer) (initial : Bool) (a : Agent)
      → Bounded a
      → Bounded (try_next w phase offer initial a).0
  unfolding try_next
  try_next-Bounded phase offer initial a b =
      let same = next_move-SameNumbers offer.hostname a.machine in
      elim (Option-cases (next_move offer.hostname a.machine).0) [
        | inl e ↦ rw (e, try_next) (IsBounded-of_SameNumbers same b)
        | inr ((ty, token), e) ↦
            rw (e, try_next)
              (accept_move-Bounded phase offer ty token initial _ (IsBounded-of_SameNumbers same b)
                (Room-of_SameNumbers ty same
                  (next_move-Room offer.hostname a.machine ty token b.settled e)))
      ]

  use_offer-Bounded :
      (phase : Phase) (offer : Offer) (initial : Bool) (a : Agent)
      → Bounded a
      → Bounded (use_offer w phase offer initial a).0
  unfolding use_offer
  use_offer-Bounded phase offer initial a b =
      try_next-Bounded phase offer initial _
        (IsBounded-of_SameNumbers (try_launch-SameNumbers offer a) b)

  handle_offer-Bounded :
      (phase : Phase) (offer : Offer) (initial : Bool) (a : Agent) (r : Agent × Bool)
      → handle_offer w phase offer initial a ≡ some r
      → Bounded a
      → Bounded r.0
  handle_offer-Bounded phase offer initial a r h b =
      elim (handle_offer-Round w phase offer initial a r h) [
        | inl (other, e) ↦ subst (λ x. Bounded x.0) (sym e) b
        | inr (m, ours, added, e) ↦
            subst (λ x. Bounded x.0) (sym e)
              (use_offer-Bounded phase offer initial (with_machine m a) (
                IsBounded-of_SameNumbers (add_config-SameNumbers w offer.hostname a.machine m added)
                  b))
      ]

  handle_offers-Bounded :
      (phase : Phase) (offers : List Offer) (initial : Bool) (a : Agent)
      → Bounded a
      → Leaves Bounded (handle_offers w phase offers initial a)
  unfolding handle_offers
  handle_offers-Bounded phase [] initial a b = b
  handle_offers-Bounded phase (offer ∷ offers) initial a b =
      elim (Option-cases (handle_offer w phase offer initial a)) [
        | inl e ↦ rw (e, handle_offers, Leaves) b
        | inr ((c, i), e) ↦
            rw (e, handle_offers)
              (handle_offers-Bounded phase offers i c
                (handle_offer-Bounded phase offer initial a (c, i) e b))
      ]

  pub resource_offers-Bounded :
      (offers : List Offer) (a : Agent) → Bounded a → Leaves Bounded (resource_offers w offers a)
  unfolding resource_offers
  resource_offers-Bounded offers a b =
      handle_offers-Bounded _ offers false _ (handle_waiting-Bounded a b)
