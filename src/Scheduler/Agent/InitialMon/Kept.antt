-- ===== src/Scheduler/Agent/InitialMon/Kept.antt =====
-- Once the token 0 is drawn and lost, no callback launches an initial MON.
use ceph_mesos.Prelude.{
  All-append, Bool, Bool-cases, List, Option-cases, [], false, inl, inr, not, refl, some, subst,
  sym, unsnoc, ℤ, ◌&&◌, ◌∷◌, ◌≡◌,
}
use ceph_mesos.Common.TaskType.{TaskType}
use ceph_mesos.Common.World.{World}
use ceph_mesos.Scheduler.Agent.{
  Agent, assign_osd_id, assign_osd_ids, fetch_pending_restful_request, handle_waiting_osd_tasks,
  offer_not_enough_resources, with_machine,
}
use ceph_mesos.Scheduler.Agent.InitialMon.{
  IsPast, IsPast-call, NotInitial, is_first, mon_index-add, mon_index-add_config, mon_index-put,
  mon_index-starting, next_move_drawn, next_move_not_first,
}
use ceph_mesos.Scheduler.Agent.Launch.{
  disk_task, launch_node, node_task, try_launch_disk_task, wants_disk_task,
}
use ceph_mesos.Scheduler.Agent.Offers.{
  accept_move, ask_osd_id, handle_offer, handle_offer-Round, handle_offers, is_waiting_request,
  resource_offers, stage_node, start_node, try_next, use_offer,
}
use ceph_mesos.Scheduler.Agent.Runs.{Leaves}
use ceph_mesos.Scheduler.Driver.{Offer, decline_offer, send_framework_message}
use ceph_mesos.Scheduler.EventLoop.{fetch_pending_request}
use ceph_mesos.State.StateMachine.{decrease_osd_index, get_config, get_waiting_osd_task, next_move}
use ceph_mesos.State.TaskState.{Phase, TaskState, is_osd}

module _ (w : World) where
  assign_osd_ids-IsPast :
      (ts : List TaskState) (a : Agent) → IsPast w a → IsPast w (assign_osd_ids w ts a)
  unfolding assign_osd_ids assign_osd_id
  assign_osd_ids-IsPast [] a p = p
  assign_osd_ids-IsPast (t ∷ ts) a p = elim (Option-cases (unsnoc a.machine.pending_osdid)) [
    | inl e ↦ rw (e, assign_osd_ids) p
    | inr ((rest, id), e) ↦
        rw (e, assign_osd_ids)
          (assign_osd_ids-IsPast ts (assign_osd_id w t rest id a) (record {
            drawn = rw (mon_index-starting t.task_id) p.drawn;
            none_initial = All-append (NotInitial w) a.calls _ p.none_initial (tt, tt);
          }))
  ]

  stage_node-IsPast :
      (offer : Offer) (ty : TaskType) (token : ℤ) (a : Agent)
      → IsPast w a
      → IsPast w (stage_node w offer ty token false a)
  unfolding stage_node launch_node node_task
  stage_node-IsPast offer ty token a p = record {
    drawn =
        rw (mon_index-add _ _ ty offer.hostname offer.slave_id _)
          (rw (mon_index-put offer.hostname _ a.machine) p.drawn);
    none_initial = All-append (NotInitial w) a.calls _ p.none_initial ((inr (ty, refl), tt), tt);
  }

  ask_osd_id-IsPast :
      (ty : TaskType) (initial : Bool) (a : Agent)
      → IsPast w a
      → IsPast w (ask_osd_id w ty initial a)
  unfolding ask_osd_id
  ask_osd_id-IsPast ty initial a p = elim (Bool-cases (not initial && is_osd ty)) [
    | inl asks ↦ rw (asks, ask_osd_id) (IsPast-call w (send_framework_message _ _ _) a tt p)
    | inr plain ↦ rw (plain, ask_osd_id) p
  ]

  -- A round that leaves `isInitialMonNode` at 0.
  abbrev pub Kept : Agent × Bool → Type 0
  Kept r = IsPast w r.0 × (r.1 ≡ false)

  start_node-Kept :
      (offer : Offer) (ty : TaskType) (token : ℤ) (a : Agent)
      → is_first ty token ≡ false
      → IsPast w a
      → Kept (start_node w offer ty token false a)
  unfolding start_node
  start_node-Kept offer ty token a later p =
      rw (later, start_node)
        (ask_osd_id-IsPast ty false _ (stage_node-IsPast offer ty token a p), refl)

  accept_move-Kept :
      (phase : Phase) (offer : Offer) (ty : TaskType) (token : ℤ) (a : Agent)
      → is_first ty token ≡ false
      → IsPast w a
      → Kept (accept_move w phase offer ty token false a)
  unfolding accept_move fetch_pending_restful_request decrease_osd_index
  accept_move-Kept phase offer ty token a later p =
      elim (Bool-cases (offer_not_enough_resources w a.config.role offer)) [
        | inl scarce ↦ rw (scarce, accept_move) (IsPast-call w (decline_offer _ _) a tt p, refl)
        | inr enough ↦ elim (Bool-cases (is_waiting_request phase)) [
          | inl waiting ↦ elim (Bool-cases (fetch_pending_request a.pending_osd).0) [
            | inl fetched ↦
                rw (enough, waiting, fetched, accept_move)
                  (start_node-Kept offer ty token
                    (record a { pending_osd = (fetch_pending_request a.pending_osd).1 }) later
                    (record { drawn = p.drawn; none_initial = p.none_initial }))
            | inr refused ↦
                rw (enough, waiting, refused, accept_move)
                  (
                    record {
                      drawn = p.drawn;
                      none_initial =
                          All-append (NotInitial w) a.calls (decline_offer _ _ ∷ []) p.none_initial
                            (tt, tt);
                    },
                    refl,
                  )
          ]
          | inr other ↦ rw (enough, other, accept_move) (start_node-Kept offer ty token a later p)
        ]
      ]

  try_next-Kept :
      (phase : Phase) (offer : Offer) (a : Agent)
      → IsPast w a
      → Kept (try_next w phase offer false a)
  unfolding try_next
  try_next-Kept phase offer a p =
      let moved = next_move_drawn offer.hostname a.machine p.drawn in
      let q : IsPast w (with_machine (next_move offer.hostname a.machine).1 a) = record {
        drawn = moved;
        none_initial = p.none_initial;
      } in
      elim (Option-cases (next_move offer.hostname a.machine).0) [
        | inl e ↦ rw (e, try_next) (IsPast-call w (decline_offer _ _) _ tt q, refl)
        | inr ((ty, token), e) ↦
            rw (e, try_next)
              (accept_move-Kept phase offer ty token _
                (next_move_not_first offer.hostname a.machine ty token p.drawn e) q)
      ]

  try_launch-IsPast :
      (offer : Offer) (a : Agent) → IsPast w a → IsPast w (try_launch_disk_task w offer a)
  unfolding try_launch_disk_task disk_task
  try_launch-IsPast offer a p =
      elim (Bool-cases (wants_disk_task w a offer (get_config offer.hostname a.machine))) [
        | inl launch ↦
            rw (launch, try_launch_disk_task)
              (record {
                drawn = rw (mon_index-put offer.hostname _ a.machine) p.drawn;
                none_initial =
                    All-append (NotInitial w) a.calls _ p.none_initial ((inl refl, tt), tt);
              })
        | inr leave ↦ rw (leave, try_launch_disk_task) p
      ]

  pub handle_offer-Kept :
      (phase : Phase) (offer : Offer) (a : Agent) (r : Agent × Bool)
      → handle_offer w phase offer false a ≡ some r
      → IsPast w a
      → Kept r
  unfolding use_offer
  handle_offer-Kept phase offer a r h p = elim (handle_offer-Round w phase offer false a r h) [
    | inl (other, e) ↦ subst Kept (sym e) (IsPast-call w (decline_offer _ _) a tt p, refl)
    | inr (m, ours, added, e) ↦ subst Kept (sym e) (
        try_next-Kept phase offer _ (
          try_launch-IsPast offer (with_machine m a) (record {
            drawn = rw (mon_index-add_config w offer.hostname a.machine m added) p.drawn;
            none_initial = p.none_initial;
          })))
  ]

  pub handle_offers-IsPast :
      (phase : Phase) (offers : List Offer) (a : Agent)
      → IsPast w a
      → Leaves (IsPast w) (handle_offers w phase offers false a)
  unfolding handle_offers
  handle_offers-IsPast phase [] a p = p
  handle_offers-IsPast phase (offer ∷ offers) a p =
      elim (Option-cases (handle_offer w phase offer false a)) [
        | inl e ↦ rw (e, handle_offers, Leaves) p
        | inr ((c, i), e) ↦
            let kept = handle_offer-Kept phase offer a (c, i) e p in
            rw (e, handle_offers) (rw kept.1 (handle_offers-IsPast phase offers c kept.0))
      ]

  pub resource_offers-IsPast :
      (offers : List Offer) (a : Agent)
      → IsPast w a
      → Leaves (IsPast w) (resource_offers w offers a)
  unfolding resource_offers handle_waiting_osd_tasks
  resource_offers-IsPast offers a p =
      handle_offers-IsPast _ offers _ (assign_osd_ids-IsPast (get_waiting_osd_task a.machine) a p)
