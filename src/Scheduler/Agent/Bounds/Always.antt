-- ===== src/Scheduler/Agent/Bounds/Always.antt =====
-- The bounds over every run of the agent.
use ceph_mesos.Prelude.{List, arith, refl, ◌+ℤ◌}
use ceph_mesos.Common.Config.{Config}
use ceph_mesos.Common.World.{World}
use ceph_mesos.Scheduler.Agent.{Agent, new_agent}
use ceph_mesos.Scheduler.Agent.Bounds.{IsBounded}
use ceph_mesos.Scheduler.Agent.Bounds.Offers.{resource_offers-Bounded}
use ceph_mesos.Scheduler.Agent.Bounds.Updates.{
  Bounded, framework_message-Bounded, status_update-Bounded,
}
use ceph_mesos.Scheduler.Agent.Runs.{
  Callback, Leaves, handle, on_message, on_offers, on_request, on_update, run, run-Leaves,
}
use ceph_mesos.State.StateMachine.{init, phase_of}

new_agent-Bounded : (w : World) (config : Config) → Bounded (new_agent w config)
unfolding new_agent init phase_of ◌+ℤ◌
new_agent-Bounded w config = record {
  settled = refl;
  one_mon = omega arith;
  one_radosgw = omega arith;
}

handle-Bounded : (w : World) (c : Callback) (a : Agent) → Bounded a → Leaves Bounded (handle w c a)
unfolding handle
handle-Bounded w (on_offers offers) a b = resource_offers-Bounded w offers a b
handle-Bounded w (on_update s) a b = status_update-Bounded w s a b
handle-Bounded w (on_message executor payload) a b =
    framework_message-Bounded w executor payload a b
handle-Bounded w (on_request r) a b = b

-- From a new agent on, whatever Mesos offers and reports, whatever its executors send and the REST
-- server accepts, in any order: the machine's counters of staging and of running MONs are together at
-- most one, and so are those of RADOSGWs, and the phase is the one that the running counters call
-- for. This is said of the counters, not of the tasks in the map.
pub run-IsBounded :
    (w : World) (config : Config) (cs : List Callback)
    → Leaves (λ a. IsBounded a.machine) (run w cs (new_agent w config))
run-IsBounded w config cs =
    run-Leaves Bounded w (handle-Bounded w) cs (new_agent w config) (new_agent-Bounded w config)
