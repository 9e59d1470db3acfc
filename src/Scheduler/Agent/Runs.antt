-- ===== src/Scheduler/Agent/Runs.antt =====
-- Runs of the agent: Mesos' callbacks and the event loop's requests, in any order, and the bounds
-- over all of them.
use ceph_mesos.Prelude.{List, Option, Text, [], ◌∷◌, ◌≡◌}
use ceph_mesos.Common.World.{World}
use ceph_mesos.Scheduler.Agent.{Agent}
use ceph_mesos.Scheduler.Agent.Offers.{resource_offers}
use ceph_mesos.Scheduler.Agent.Updates.{framework_message, status_update}
use ceph_mesos.Scheduler.Driver.{Offer, Outcome, TaskStatus, done, thrown, undefined}
use ceph_mesos.Scheduler.EventLoop.{Request, serve_request}

-- `on_request` is a request that reaches the event loop's list between two callbacks.
pub data Callback : Type 0 where
  on_offers : List Offer → Callback
  on_update : TaskStatus → Callback
  on_message : Text → Text → Callback
  on_request : Option Request → Callback

unfoldable pub handle : World → Callback → Agent → Outcome Agent
handle w (on_offers offers) a = resource_offers w offers a
handle w (on_update s) a = status_update w s a
handle w (on_message executor payload) a = framework_message w executor payload a
handle w (on_request r) a = done (record a { pending_osd = serve_request r a.pending_osd })

-- An exception that leaves a callback ends the scheduler.
unfoldable pub run : World → List Callback → Agent → Outcome Agent
run w [] a = done a
run w (c ∷ cs) a = elim (handle w c a) [
  | done b ↦ run w cs b
  | thrown b ↦ thrown b
  | undefined ↦ undefined
]

-- The agent is in the state when the handler returns or lets an exception out.
abbrev pub Leaves {ℓ} : (Agent → Type ℓ) → Outcome Agent → Type ℓ
Leaves P (done a) = P a
Leaves P (thrown a) = P a
Leaves P undefined = Unit

pub Leaves-map :
    (P Q : Agent → Type 0)
    → ((b : Agent) → P b → Q b)
    → (o : Outcome Agent) → Leaves P o
    → Leaves Q o
Leaves-map P Q f (done b) l = f b l
Leaves-map P Q f (thrown b) l = f b l
Leaves-map P Q f undefined l = tt

-- A property that every handler keeps holds after every run.
pub run-Leaves :
    (P : Agent → Type 0) (w : World)
    → ((c : Callback) (a : Agent) → P a → Leaves P (handle w c a))
    → (cs : List Callback) (a : Agent) → P a
    → Leaves P (run w cs a)
unfolding run
run-Leaves P w step [] a h = h
run-Leaves P w step (c ∷ cs) a h = next (handle w c a) (step c a h) (run-Leaves P w step cs)
  where
    next :
        (o : Outcome Agent)
        → Leaves P o
        → ((b : Agent) → P b → Leaves P (run w cs b))
        → Leaves P (elim o [ done b ↦ run w cs b | thrown b ↦ thrown b | undefined ↦ undefined ])
    next (done b) l rest = rest b l
    next (thrown b) l rest = l
    next undefined l rest = tt

pub run_done :
    (w : World) (c : Callback) (cs : List Callback) (a b : Agent)
    → handle w c a ≡ done b
    → run w (c ∷ cs) a ≡ run w cs b
unfolding run
run_done w c cs a b h = rw (h, run)
