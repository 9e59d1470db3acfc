-- ===== src/Scheduler/Agent/Survival/Offers.antt =====
-- All offers of one call of `resourceOffers` of src/scheduler/CephSchedulerAgent.hpp, and how they are answered.
use ceph_mesos.Prelude.{
  Bool, List, [], append-nil, append_assoc, false, refl, sym, ◌++◌, ◌∙◌, ◌∷◌, ◌≡◌,
}
use ceph_mesos.Common.World.{World}
use ceph_mesos.Scheduler.Agent.{Agent, handle_waiting_osd_tasks}
use ceph_mesos.Scheduler.Agent.Answers.{Answered, handle_offer-Answers}
use ceph_mesos.Scheduler.Agent.Offers.{handle_offers, resource_offers}
use ceph_mesos.Scheduler.Agent.Survival.{HasConfigs, handle_offer-returns}
use ceph_mesos.Scheduler.Driver.{DriverCall, Offer, done}
use ceph_mesos.State.TaskState.{Phase}

-- The calls with which the offers are answered, one offer after the other.
pub data AnsweredAll : List Offer → List DriverCall → Type 0 where
  no_offers : AnsweredAll [] []
  one_offer :
      (offer : Offer) (offers : List Offer) (cs ds : List DriverCall)
      → Answered offer cs
      → AnsweredAll offers ds
      → AnsweredAll (offer ∷ offers) (cs ++ ds)

module _ (w : World) (configs : HasConfigs w) where
  handle_offers-AnsweredAll :
      (phase : Phase) (offers : List Offer) (initial : Bool) (a : Agent)
      → (b : Agent) × (ds : List DriverCall) × (handle_offers w phase offers initial a ≡ done b)
        × (b.calls ≡ a.calls ++ ds)
        × AnsweredAll offers ds
  unfolding handle_offers
  handle_offers-AnsweredAll phase [] initial a = (a, [], refl, sym (append-nil a.calls), no_offers)
  handle_offers-AnsweredAll phase (offer ∷ offers) initial a =
      let (r, e) = handle_offer-returns w configs phase offer initial a in
      let (cs, made, answers) = handle_offer-Answers w phase offer initial a r e in
      let (b, ds, rest, more, answers') = handle_offers-AnsweredAll phase offers r.1 r.0 in
      (
        b,
        cs ++ ds,
        rw (e, handle_offers) rest,
        more ∙ rw made (append_assoc a.calls cs ds),
        one_offer offer offers cs ds answers answers',
      )

  -- Every host has a configuration that can be read. Then `resourceOffers` returns, and after the messages
  -- to waiting OSD tasks its calls on the driver answer each of the offers, in their order, and nothing
  -- else: an offer is declined once, or one task is launched on it on its own agent, followed at most by
  -- one message to an executor or by a refusal of the same offer.
  pub resource_offers-AnsweredAll :
      (offers : List Offer) (a : Agent)
      → (b : Agent) × (ds : List DriverCall) × (resource_offers w offers a ≡ done b)
        × (b.calls ≡ (handle_waiting_osd_tasks w a).calls ++ ds)
        × AnsweredAll offers ds
  unfolding resource_offers
  resource_offers-AnsweredAll offers a =
      handle_offers-AnsweredAll _ offers false (handle_waiting_osd_tasks w a)
