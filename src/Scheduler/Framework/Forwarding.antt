-- ===== src/Scheduler/Framework/Forwarding.antt =====
-- The class that Mesos calls back against the agent behind it.
use mathlib.Core.Path.{fun_ext}
use ceph_mesos.Prelude.{List, Option, [], ap, refl, ◌∷◌, ◌≡◌}
use ceph_mesos.Common.World.{World}
use ceph_mesos.Scheduler.Agent.{Agent}
use ceph_mesos.Scheduler.Agent.Offers.{resource_offers}
use ceph_mesos.Scheduler.Agent.Runs.{
  Callback, handle, on_message, on_offers, on_request, on_update, run,
}
use ceph_mesos.Scheduler.Agent.Updates.{framework_message, status_update}
use ceph_mesos.Scheduler.Driver.{Outcome, done, thrown, undefined}
use ceph_mesos.Scheduler.EventLoop.{Request, serve_request}
use ceph_mesos.Scheduler.Framework.{
  MesosCallback, on_disconnected, on_error, on_executor_lost, on_framework_message,
  on_offer_rescinded, on_registered, on_reregistered, on_resource_offers, on_slave_lost,
  on_status_update, scheduler_callback,
}

-- A callback of Mesos, or a request that reaches the event loop's list.
pub data SchedulerEvent : Type 0 where
  from_mesos : MesosCallback → SchedulerEvent
  from_rest : Option Request → SchedulerEvent

unfoldable pub scheduler_step : World → SchedulerEvent → Agent → Outcome Agent
unfolding scheduler_callback
scheduler_step w (from_mesos c) a = scheduler_callback w c a
scheduler_step w (from_rest r) a = done (record a { pending_osd = serve_request r a.pending_osd })

-- An exception that leaves a callback ends the scheduler.
unfoldable pub scheduler_run : World → List SchedulerEvent → Agent → Outcome Agent
unfolding scheduler_step
scheduler_run w [] a = done a
scheduler_run w (event ∷ events) a = elim (scheduler_step w event a) [
  | done b ↦ scheduler_run w events b
  | thrown b ↦ thrown b
  | undefined ↦ undefined
]

-- The events that the agent hears of: offers, status updates, messages and requests.
abbrev pub heard : List SchedulerEvent → List Callback
heard [] = []
heard (from_mesos (on_resource_offers offers) ∷ es) = on_offers offers ∷ heard es
heard (from_mesos (on_status_update s) ∷ es) = on_update s ∷ heard es
heard (from_mesos (on_framework_message executor payload) ∷ es) =
    on_message executor payload ∷ heard es
heard (from_mesos c ∷ es) = heard es
heard (from_rest r ∷ es) = on_request r ∷ heard es

abbrev go_on : Outcome Agent → (Agent → Outcome Agent) → Outcome Agent
go_on o f = elim o [ done b ↦ f b | thrown b ↦ thrown b | undefined ↦ undefined ]

-- Whatever Mesos calls, and however the REST requests fall between the callbacks: the scheduler does
-- what its agent does on the offers, the status updates, the messages and the requests alone, so a
-- lost slave or executor, a rescinded offer, a reconnection or an error changes nothing that it knows.
pub scheduler_run-run :
    (w : World) (events : List SchedulerEvent) (a : Agent)
    → scheduler_run w events a ≡ run w (heard events) a
unfolding scheduler_run scheduler_step scheduler_callback run handle
scheduler_run-run w [] a = refl
scheduler_run-run w (from_rest r ∷ es) a = scheduler_run-run w es _
scheduler_run-run w (from_mesos (on_resource_offers offers) ∷ es) a =
    ap (go_on (resource_offers w offers a)) (fun_ext (scheduler_run-run w es))
scheduler_run-run w (from_mesos (on_status_update s) ∷ es) a =
    ap (go_on (status_update w s a)) (fun_ext (scheduler_run-run w es))
scheduler_run-run w (from_mesos (on_framework_message executor payload) ∷ es) a =
    ap (go_on (framework_message w executor payload a)) (fun_ext (scheduler_run-run w es))
scheduler_run-run w (from_mesos (on_registered id) ∷ es) a = scheduler_run-run w es a
scheduler_run-run w (from_mesos on_reregistered ∷ es) a = scheduler_run-run w es a
scheduler_run-run w (from_mesos on_disconnected ∷ es) a = scheduler_run-run w es a
scheduler_run-run w (from_mesos (on_offer_rescinded id) ∷ es) a = scheduler_run-run w es a
scheduler_run-run w (from_mesos (on_slave_lost id) ∷ es) a = scheduler_run-run w es a
scheduler_run-run w (from_mesos (on_executor_lost id slave status) ∷ es) a =
    scheduler_run-run w es a
scheduler_run-run w (from_mesos (on_error message) ∷ es) a = scheduler_run-run w es a
