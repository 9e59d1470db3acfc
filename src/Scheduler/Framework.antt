-- ===== src/Scheduler/Framework.antt =====
-- src/scheduler/CephScheduler.cpp and src/scheduler/main.cpp: the class that Mesos calls back, the
-- framework that it registers, and the threads of the program. Mesos' driver is a parameter: here is
-- what it is given, and the callbacks that it makes.
pub mod Forwarding
pub mod Startup
pub mod Shutdown
use ceph_mesos.Prelude.{Bool, List, Option, Text, [], codes, none, some, true, ℤ, ◌∷◌}
use ceph_mesos.Common.Config.{Config, get_config}
use ceph_mesos.Common.World.{World}
use ceph_mesos.Scheduler.Agent.{Agent}
use ceph_mesos.Scheduler.Agent.Offers.{resource_offers}
use ceph_mesos.Scheduler.Agent.Updates.{framework_message, status_update}
use ceph_mesos.Scheduler.Driver.{Offer, Outcome, TaskStatus, done}

-- The callbacks of the class, with what the agent's handlers look at.
pub data MesosCallback : Type 0 where
  on_registered : Text → MesosCallback
  on_reregistered on_disconnected : MesosCallback
  on_resource_offers : List Offer → MesosCallback
  on_offer_rescinded : Text → MesosCallback
  on_status_update : TaskStatus → MesosCallback
  on_framework_message : Text → Text → MesosCallback
  on_slave_lost : Text → MesosCallback
  on_executor_lost : Text → Text → ℤ → MesosCallback
  on_error : Text → MesosCallback

-- The methods of `CephScheduler`: they pass on to the agent, whose `registered` only logs, or have an
-- empty body.
unfoldable pub scheduler_callback : World → MesosCallback → Agent → Outcome Agent
scheduler_callback w (on_registered framework_id) a = done a
scheduler_callback w on_reregistered a = done a
scheduler_callback w on_disconnected a = done a
scheduler_callback w (on_resource_offers offers) a = resource_offers w offers a
scheduler_callback w (on_offer_rescinded offer_id) a = done a
scheduler_callback w (on_status_update status) a = status_update w status a
scheduler_callback w (on_framework_message executor_id payload) a =
    framework_message w executor_id payload a
scheduler_callback w (on_slave_lost slave_id) a = done a
scheduler_callback w (on_executor_lost executor_id slave_id status) a = done a
scheduler_callback w (on_error message) a = done a

pub record FrameworkInfo : Type 0 where
  pub user : Text
  pub name : Text
  pub role : Text
  pub checkpoint : Bool

-- What `framework` hands to the driver: the framework and the master.
unfoldable pub framework : Config → FrameworkInfo × Text
framework config = (
  record { user = codes "root"; name = config.id; role = config.role; checkpoint = true },
  config.master,
)

-- The threads that `main` starts.
pub data ProgramThread : Type 0 where
  file_server : ℤ → Text → ProgramThread
  rest_server : ℤ → ProgramThread
  framework_thread : FrameworkInfo → Text → ProgramThread

-- `main`, with `none` for an exception before the threads start.
unfoldable pub main : World → Option (List ProgramThread)
unfolding framework
main w = elim (get_config w) [
  | none ↦ none
  | some config ↦ some (
      file_server config.fileport config.fileroot
      ∷ rest_server config.restport
      ∷ framework_thread (framework config).0 (framework config).1
      ∷ [])
]
