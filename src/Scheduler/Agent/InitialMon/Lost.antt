-- ===== src/Scheduler/Agent/InitialMon/Lost.antt =====
-- The initial MON is lost when its offer is too small.
use ceph_mesos.Prelude.{
  All, Bool, List, Option, Text, [], ap, arith, false, none, pos, refl, some, true, ◌+ℤ◌, ◌∙◌, ◌∷◌,
  ◌≡◌,
}
use ceph_mesos.Common.Config.{Config}
use ceph_mesos.Common.StringUtil.{explode}
use ceph_mesos.Common.TaskType.{mon}
use ceph_mesos.Common.World.{World}
use ceph_mesos.Scheduler.Agent.{
  Agent, assign_osd_ids, call, handle_waiting_osd_tasks, has_role, new_agent,
  offer_not_enough_resources, with_machine,
}
use ceph_mesos.Scheduler.Agent.InitialMon.{
  IsPast, IsPast-of_SameIndex, NotInitial, mon_index-failed, mon_index-put, mon_index-running,
  mon_index-waiting,
}
use ceph_mesos.Scheduler.Agent.InitialMon.Kept.{resource_offers-IsPast}
use ceph_mesos.Scheduler.Agent.Launch.{try_launch_disk_task, wants_disk_task}
use ceph_mesos.Scheduler.Agent.Offers.{
  accept_move, handle_offer, handle_offer_uses, handle_offers, resource_offers, try_next, use_offer,
}
use ceph_mesos.Scheduler.Agent.Runs.{
  Callback, Leaves, handle, on_message, on_offers, on_request, on_update, run, run-Leaves, run_done,
}
use ceph_mesos.Scheduler.Agent.Updates.{
  consumed_message, disk_ready_fields, disk_ready_message, finish_disks, framework_message,
  status_update, update_state,
}
use ceph_mesos.Scheduler.Driver.{
  Offer, Outcome, TaskStateCode, decline_offer, done, task_failed, task_finished, task_killed,
  task_other, task_running, task_starting, thrown, undefined,
}
use ceph_mesos.State.HostConfig.{HostConfig}
use ceph_mesos.State.HostConfig.Partitions.{listed}
use ceph_mesos.State.StateMachine.{
  StateMachine, add_config, add_pending_osdid, get_config, get_waiting_osd_task, init, next_move,
}
use ceph_mesos.State.TaskState.{Phase, bootstrap_mon}

module _ (w : World) where
  consumed-IsPast :
      (tokens : List Text) (a : Agent)
      → IsPast w a
      → Leaves (IsPast w) (consumed_message w tokens a)
  unfolding consumed_message
  consumed-IsPast [] a p = tt
  consumed-IsPast (token ∷ rest) a p = ground (arith, p)

  fields-IsPast :
      (tokens : List Text) (a : Agent)
      → IsPast w a
      → Leaves (IsPast w) (disk_ready_fields w tokens a)
  unfolding disk_ready_fields finish_disks
  fields-IsPast [] a p = tt
  fields-IsPast (host ∷ []) a p = tt
  fields-IsPast (host ∷ listed ∷ rest) a p =
      IsPast-of_SameIndex w (record { index = mon_index-put host _ a.machine; calls = refl }) p

  ready-IsPast :
      (tokens : List Text) (a : Agent)
      → IsPast w a
      → Leaves (IsPast w) (disk_ready_message w tokens a)
  unfolding disk_ready_message
  ready-IsPast [] a p = tt
  ready-IsPast (token ∷ []) a p = ground (arith, p)
  ready-IsPast (token ∷ listed ∷ rest) a p =
      ground (arith, p, fields-IsPast (explode listed b':') a p)

  moved-IsPast :
      (m : StateMachine) (a : Agent)
      → m.mon_index ≡ a.machine.mon_index
      → IsPast w a
      → IsPast w (with_machine m a)
  moved-IsPast m a e p = IsPast-of_SameIndex w (record { index = e; calls = refl }) p

  update_state-IsPast :
      (state : TaskStateCode) (id : Text) (msg : Option Text) (a : Agent)
      → IsPast w a
      → Leaves (IsPast w) (update_state w state id msg a)
  unfolding update_state
  update_state-IsPast task_running id none a p = moved-IsPast _ a (mon_index-running id a.machine) p
  update_state-IsPast task_running id (some msg) a p =
      consumed-IsPast (explode msg b'.') _ (moved-IsPast _ a (mon_index-running id a.machine) p)
  update_state-IsPast task_starting id msg a p = moved-IsPast _ a (mon_index-waiting id a.machine) p
  update_state-IsPast task_failed id msg a p = moved-IsPast _ a (mon_index-failed id a.machine) p
  update_state-IsPast task_finished id none a p = p
  update_state-IsPast task_finished id (some msg) a p = ready-IsPast (explode msg b'.') a p
  update_state-IsPast task_killed id msg a p = p
  update_state-IsPast task_other id msg a p = p

  framework_message-IsPast :
      (executor payload : Text) (a : Agent)
      → IsPast w a
      → Leaves (IsPast w) (framework_message w executor payload a)
  unfolding framework_message add_pending_osdid
  framework_message-IsPast executor payload a p = ground (arith, p)

  handle-IsPast : (c : Callback) (a : Agent) → IsPast w a → Leaves (IsPast w) (handle w c a)
  unfolding handle status_update
  handle-IsPast (on_offers offers) a p = resource_offers-IsPast w offers a p
  handle-IsPast (on_update s) a p = update_state-IsPast s.state s.task_id s.message a p
  handle-IsPast (on_message executor payload) a p = framework_message-IsPast executor payload a p
  handle-IsPast (on_request r) a p = IsPast-of_SameIndex w (record { index = refl; calls = refl }) p

  -- The first offer: of the right role, from a host that prepares no disks, and too small.
  pub record ScarceOffer (offer : Offer) (a : Agent) (m : StateMachine) : Type 0 where
    pub ours : has_role offer.resources a.config.role ≡ true
    pub added : add_config w offer.hostname a.machine ≡ some m
    pub idle : (get_config offer.hostname m).is_preparing_disk ≡ false
    pub scarce : offer_not_enough_resources w a.config.role offer ≡ true

  scarce-wants :
      (offer : Offer) (a : Agent) (hc : HostConfig)
      → offer_not_enough_resources w a.config.role offer ≡ true
      → wants_disk_task w a offer hc ≡ false
  unfolding wants_disk_task
  scarce-wants offer a hc scarce = ground arith

  try_launch_scarce :
      (offer : Offer) (a : Agent)
      → offer_not_enough_resources w a.config.role offer ≡ true
      → try_launch_disk_task w offer a ≡ a
  unfolding try_launch_disk_task
  try_launch_scarce offer a scarce = rw (scarce-wants offer a _ scarce, try_launch_disk_task)

  -- A machine that wants its first MON.
  record WantsFirstMon (host : Text) (m : StateMachine) : Type 0 where
    phase : m.current_phase ≡ bootstrap_mon
    staged : m.mon_staging_num ≡ pos 0
    started : m.mon_running_num ≡ pos 0
    index : m.mon_index ≡ pos 0
    idle : (get_config host m).is_preparing_disk ≡ false

  first_move :
      (host : Text) (m : StateMachine)
      → WantsFirstMon host m
      → next_move host m ≡ (some (mon, pos 0), record m { mon_index = pos 1 })
  unfolding next_move ◌+ℤ◌
  first_move host m f = rw (f.idle, next_move) (ground (arith, f))

  try_next_scarce :
      (phase : Phase) (offer : Offer) (a : Agent)
      → WantsFirstMon offer.hostname a.machine
      → offer_not_enough_resources w a.config.role offer ≡ true
      → try_next w phase offer false a ≡ (
        call
            (decline_offer offer.id none)
            (with_machine (record a.machine { mon_index = pos 1 }) a),
        false,
      )
  unfolding try_next accept_move
  try_next_scarce phase offer a f scarce =
      let first = first_move offer.hostname a.machine f in
      rw (first, try_next) (rw first (rw (scarce, accept_move)))

  added_wants :
      (config : Config) (host : Text) (m : StateMachine)
      → add_config w host (init w config) ≡ some m
      → (get_config host m).is_preparing_disk ≡ false
      → WantsFirstMon host m
  unfolding add_config init
  added_wants config host m h idle = record {
    phase = ground arith;
    staged = ground arith;
    started = ground arith;
    index = ground arith;
    idle = idle;
  }

  waiting_new :
      (config : Config) → handle_waiting_osd_tasks w (new_agent w config) ≡ new_agent w config
  unfolding handle_waiting_osd_tasks assign_osd_ids get_waiting_osd_task new_agent init
  waiting_new config = refl

  handle_offers_one :
      (phase : Phase) (offer : Offer) (a b : Agent) (i : Bool)
      → handle_offer w phase offer false a ≡ some (b, i)
      → handle_offers w phase (offer ∷ []) false a ≡ done b
  unfolding handle_offers
  handle_offers_one phase offer a b i h = rw (h, handle_offers)

  use_offer_scarce :
      (phase : Phase) (offer : Offer) (a : Agent)
      → WantsFirstMon offer.hostname a.machine
      → offer_not_enough_resources w a.config.role offer ≡ true
      → use_offer w phase offer false a ≡ (
        call
            (decline_offer offer.id none)
            (with_machine (record a.machine { mon_index = pos 1 }) a),
        false,
      )
  unfolding use_offer
  use_offer_scarce phase offer a f scarce =
      rw (try_launch_scarce offer a scarce) (try_next_scarce phase offer a f scarce)

  -- A new agent after it has looked at such an offer.
  abbrev past_agent : Config → Offer → StateMachine → Agent
  past_agent config offer m =
      call (decline_offer offer.id none)
        (with_machine (record m { mon_index = pos 1 }) (new_agent w config))

  scarce_offer :
      (config : Config) (offer : Offer) (m : StateMachine)
      → ScarceOffer offer (new_agent w config) m
      → resource_offers w (offer ∷ []) (new_agent w config) ≡ done (past_agent config offer m)
  unfolding resource_offers
  scarce_offer config offer m s =
      let a = new_agent w config in
      let used = handle_offer_uses w a.machine.current_phase offer false a m s.ours s.added in
      let wants = added_wants config offer.hostname m (unfold new_agent in s.added) s.idle in
      rw (waiting_new config) (
        handle_offers_one _ offer a _ _
          (used ∙ ap some (use_offer_scarce _ offer (with_machine m a) wants s.scarce)))

  past_agent-IsPast :
      (config : Config) (offer : Offer) (m : StateMachine) → IsPast w (past_agent config offer m)
  unfolding new_agent
  past_agent-IsPast config offer m = record { drawn = omega arith; none_initial = (tt, tt) }

-- If the first that a new agent gets is one offer of the right role, from a host whose configuration
-- can be read and that prepares no disks, with too few resources, then whatever follows, no task
-- that the scheduler ever launches is marked as the initial MON.
pub initial_mon_lost :
    (w : World) (config : Config) (offer : Offer) (m : StateMachine) (cs : List Callback)
    → ScarceOffer w offer (new_agent w config) m
    → Leaves
        (λ a. All (NotInitial w) a.calls)
        (run w (on_offers (offer ∷ []) ∷ cs) (new_agent w config))
unfolding handle
initial_mon_lost w config offer m cs s =
    rw
      (run_done w (on_offers (offer ∷ [])) cs _ _
        (unfold handle in scarce_offer w config offer m s))
      (none_of (run w cs (past_agent w config offer m)) (
        run-Leaves (IsPast w) w (handle-IsPast w) cs (past_agent w config offer m)
          (past_agent-IsPast w config offer m)))
  where
    none_of : (o : Outcome Agent) → Leaves (IsPast w) o → Leaves (λ a. All (NotInitial w) a.calls) o
    none_of (done a) l = l.none_initial
    none_of (thrown a) l = l.none_initial
    none_of undefined l = tt
