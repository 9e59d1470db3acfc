-- ===== src/Scheduler/Agent/Ids/Offers.antt =====
-- The OSD ids across `resourceOffers`.
use ceph_mesos.Prelude.{
  Bool, Bool-cases, List, Option-cases, Text, [], arith, inl, inr, none, not, pos, refl, some,
  subst, sym, ℤ, ◌&&◌, ◌∷◌, ◌≡◌,
}
use ceph_mesos.Common.StringUtil.{explode}
use ceph_mesos.Common.StringUtil.Explode.{explode_single}
use ceph_mesos.Common.TaskType.{TaskType, register_osd, to_executor_code}
use ceph_mesos.Common.World.{IsLexical, World}
use ceph_mesos.Executor.Ceph.Handshake.{message_tokens}
use ceph_mesos.Scheduler.Agent.{
  Agent, fetch_pending_restful_request, launch_osd_message, offer_not_enough_resources,
  register_osd_message, with_machine,
}
use ceph_mesos.Scheduler.Agent.Ids.{
  SameIds, SameIds-refl, SameIds-then, call-SameIds, given_ids-quiet, id_of_tokens, launched_id,
  machine-SameIds,
}
use ceph_mesos.Scheduler.Agent.Launch.{
  create_executor, launch_node, try_launch_disk_task, wants_disk_task,
}
use ceph_mesos.Scheduler.Agent.Offers.{
  accept_move, ask_osd_id, handle_offer, handle_offer-Round, handle_offers, is_waiting_request,
  stage_node, start_node, try_next, use_offer,
}
use ceph_mesos.Scheduler.Agent.Runs.{Leaves}
use ceph_mesos.Scheduler.Driver.{
  Offer, Outcome, decline_offer, done, send_framework_message, thrown, undefined,
}
use ceph_mesos.Scheduler.EventLoop.{fetch_pending_request}
use ceph_mesos.State.HostConfig.{HostConfig}
use ceph_mesos.State.StateMachine.{
  StateMachine, add_config, add_staging_task, decrease_osd_index, get_config, get_initial_mon,
  next_move, put_config, update_task_to_starting,
}
use ceph_mesos.State.TaskState.{Phase, is_osd}

pub pending-starting :
    (id : Text) (m : StateMachine) → (update_task_to_starting id m).pending_osdid ≡ m.pending_osdid
unfolding update_task_to_starting
pending-starting id m = ground arith

pending-next_move :
    (host : Text) (m : StateMachine) → (next_move host m).1.pending_osdid ≡ m.pending_osdid
unfolding next_move
pending-next_move host m = ground arith

pending-staging :
    (id executor : Text) (ty : TaskType) (host slave : Text) (m : StateMachine)
    → (add_staging_task id executor ty host slave m).pending_osdid ≡ m.pending_osdid
unfolding add_staging_task
pending-staging id executor ty host slave m = ground arith

pending-add_config :
    (w : World) (host : Text) (m n : StateMachine)
    → add_config w host m ≡ some n
    → n.pending_osdid ≡ m.pending_osdid
unfolding add_config
pending-add_config w host m n h = ground arith

pub pending-put_config :
    (host : Text) (hc : HostConfig) (m : StateMachine)
    → (put_config host hc m).pending_osdid ≡ m.pending_osdid
unfolding put_config
pending-put_config host hc m = ground arith

module _ (w : World) where
  launch_node-SameIds :
      (offer : Offer) (ty : TaskType) (token : ℤ) (initial : Bool) (a : Agent)
      → SameIds w a (launch_node w offer ty token initial a).1
  unfolding launch_node create_executor
  launch_node-SameIds offer ty token initial a = record {
    given = given_ids-quiet w _ a.calls refl;
    pending = pending-put_config offer.hostname _ a.machine;
  }

  stage_node-SameIds :
      (offer : Offer) (ty : TaskType) (token : ℤ) (initial : Bool) (a : Agent)
      → SameIds w a (stage_node w offer ty token initial a)
  unfolding stage_node
  stage_node-SameIds offer ty token initial a =
      SameIds-then w (launch_node-SameIds offer ty token initial a)
        (machine-SameIds w _ _ (pending-staging _ _ ty offer.hostname offer.slave_id _))

  pub Leaves-then :
      {a b : Agent}
      → SameIds w a b
      → (o : Outcome Agent) → Leaves (SameIds w b) o
      → Leaves (SameIds w a) o
  Leaves-then h (done c) l = SameIds-then w h l
  Leaves-then h (thrown c) l = SameIds-then w h l
  Leaves-then h undefined l = tt

  module _ (lex : IsLexical w) where
    explode_printed : (n : ℤ) → explode (w.print_int n) b'.' ≡ w.print_int n ∷ []
    explode_printed n = explode_single (w.print_int n) b'.' (lex.print-Lacks n) (lex.print-ne-nil n)

    -- The message that registers an OSD gives no id, the one that launches an OSD gives its id.
    register_gives :
        (executor slave : Text)
        → launched_id w (send_framework_message executor slave (register_osd_message w)) ≡ []
    unfolding register_osd_message
    register_gives executor slave = rw (explode_printed (to_executor_code register_osd)) refl

    pub launch_gives :
        (executor slave : Text) (id : ℤ)
        → launched_id w (send_framework_message executor slave (launch_osd_message w id)) ≡ id ∷ []
    unfolding launch_osd_message to_executor_code
    launch_gives executor slave id =
        rw
          (
            message_tokens (w.print_int (pos 21)) (w.print_int id) (lex.print-Lacks (pos 21)),
            explode_printed id,
            id_of_tokens,
            lex.parse-print (pos 21),
            lex.parse-print id,
          )
          refl

    ask_osd_id-SameIds :
        (ty : TaskType) (initial : Bool) (a : Agent) → SameIds w a (ask_osd_id w ty initial a)
    unfolding ask_osd_id
    ask_osd_id-SameIds ty initial a =
        let first = get_initial_mon a.machine in
        elim (Bool-cases (not initial && is_osd ty)) [
          | inl asks ↦
              rw asks (call-SameIds w _ a (register_gives first.executor_id first.slave_id))
          | inr silent ↦ rw silent (SameIds-refl w a)
        ]

    start_node-SameIds :
        (offer : Offer) (ty : TaskType) (token : ℤ) (initial : Bool) (a : Agent)
        → SameIds w a (start_node w offer ty token initial a).0
    unfolding start_node
    start_node-SameIds offer ty token initial a =
        SameIds-then w (stage_node-SameIds offer ty token _ a) (ask_osd_id-SameIds ty _ _)

    accept_move-SameIds :
        (phase : Phase) (offer : Offer) (ty : TaskType) (token : ℤ) (initial : Bool) (a : Agent)
        → SameIds w a (accept_move w phase offer ty token initial a).0
    unfolding accept_move fetch_pending_restful_request decrease_osd_index
    accept_move-SameIds phase offer ty token initial a =
        let b = (fetch_pending_restful_request a).1 in
        let declines = call-SameIds w (decline_offer offer.id none) in
        elim (Bool-cases (offer_not_enough_resources w a.config.role offer)) [
          | inl scarce ↦ rw scarce (declines a refl)
          | inr enough ↦ rw enough (elim (Bool-cases (is_waiting_request phase)) [
            | inl waiting ↦ rw waiting (elim (Bool-cases (fetch_pending_request a.pending_osd).0) [
              | inl fetched ↦
                  let same = start_node-SameIds offer ty token initial b in
                  rw fetched (record { given = same.given; pending = same.pending })
              | inr refused ↦
                  let same = declines b refl in
                  rw refused (record { given = same.given; pending = same.pending })
            ])
            | inr other ↦ rw other (start_node-SameIds offer ty token initial a)
          ])
        ]

    try_next-SameIds :
        (phase : Phase) (offer : Offer) (initial : Bool) (a : Agent)
        → SameIds w a (try_next w phase offer initial a).0
    unfolding try_next
    try_next-SameIds phase offer initial a =
        let m = (next_move offer.hostname a.machine).1 in
        let moved = machine-SameIds w m a (pending-next_move offer.hostname a.machine) in
        elim (Option-cases (next_move offer.hostname a.machine).0) [
          | inl e ↦
              rw (e, try_next) (SameIds-then w moved (call-SameIds w _ (with_machine m a) refl))
          | inr ((ty, token), e) ↦
              rw (e, try_next)
                (SameIds-then w moved (accept_move-SameIds phase offer ty token initial _))
        ]

    try_launch-SameIds : (offer : Offer) (a : Agent) → SameIds w a (try_launch_disk_task w offer a)
    unfolding try_launch_disk_task
    try_launch-SameIds offer a =
        elim (Bool-cases (wants_disk_task w a offer (get_config offer.hostname a.machine))) [
          | inl launch ↦ rw launch (record {
            given = given_ids-quiet w _ a.calls refl;
            pending = pending-put_config offer.hostname _ a.machine;
          })
          | inr leave ↦ rw leave (SameIds-refl w a)
        ]

    use_offer-SameIds :
        (phase : Phase) (offer : Offer) (initial : Bool) (a : Agent)
        → SameIds w a (use_offer w phase offer initial a).0
    unfolding use_offer
    use_offer-SameIds phase offer initial a =
        SameIds-then w (try_launch-SameIds offer a) (try_next-SameIds phase offer initial _)

    handle_offer-SameIds :
        (phase : Phase) (offer : Offer) (initial : Bool) (a : Agent) (r : Agent × Bool)
        → handle_offer w phase offer initial a ≡ some r
        → SameIds w a r.0
    handle_offer-SameIds phase offer initial a r h =
        elim (handle_offer-Round w phase offer initial a r h) [
          | inl (other, e) ↦ subst (λ x. SameIds w a x.0) (sym e) (call-SameIds w _ a refl)
          | inr (m, ours, added, e) ↦
              subst (λ x. SameIds w a x.0) (sym e)
                (SameIds-then w
                  (machine-SameIds w m a (pending-add_config w offer.hostname a.machine m added))
                  (use_offer-SameIds phase offer initial (with_machine m a)))
        ]

    pub handle_offers-SameIds :
        (phase : Phase) (offers : List Offer) (initial : Bool) (a : Agent)
        → Leaves (SameIds w a) (handle_offers w phase offers initial a)
    unfolding handle_offers
    handle_offers-SameIds phase [] initial a = SameIds-refl w a
    handle_offers-SameIds phase (offer ∷ offers) initial a =
        elim (Option-cases (handle_offer w phase offer initial a)) [
          | inl e ↦ rw (e, handle_offers, Leaves) (SameIds-refl w a)
          | inr ((c, i), e) ↦
              rw (e, handle_offers)
                (Leaves-then (handle_offer-SameIds phase offer initial a (c, i) e)
                  (handle_offers w phase offers i c) (handle_offers-SameIds phase offers i c))
        ]
