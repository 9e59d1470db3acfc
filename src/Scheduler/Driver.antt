-- ===== src/Scheduler/Driver.antt =====
-- The Mesos messages that src/scheduler/CephSchedulerAgent.hpp reads and builds, and the calls that
-- it makes on the driver. Amounts of resources are in thousandths, as Mesos keeps them.
use ceph_mesos.Prelude.{Bool, List, Option, Text, ℕ}
use ceph_mesos.Common.World.{Resource}

pub record Offer : Type 0 where
  pub id : Text
  pub hostname : Text
  pub slave_id : Text
  pub resources : List Resource

pub record ExecutorInfo : Type 0 where
  pub executor_id : Text
  -- each with its `executable` flag
  pub uris : List (Text × Bool)
  pub command : Text
  pub name : Text

pub record Label : Type 0 where
  pub key : Text
  pub value : Text

pub record TaskInfo : Type 0 where
  pub name : Text
  pub task_id : Text
  pub slave_id : Text
  pub executor : ExecutorInfo
  pub labels : List Label
  -- `none` where `set_data` is not called
  pub info : Option Text
  pub resources : List Resource

pub data DriverCall : Type 0 where
  -- with the `refuse_seconds` of a filter, if one is given
  decline_offer : Text → Option ℕ → DriverCall
  launch_tasks : Text → List TaskInfo → DriverCall
  -- executor, slave, message
  send_framework_message : Text → Text → Text → DriverCall

pub data TaskStateCode : Type 0 where
  task_running task_starting task_failed task_finished task_killed task_other : TaskStateCode

pub record TaskStatus : Type 0 where
  pub task_id : Text
  pub state : TaskStateCode
  pub message : Option Text

-- What a handler does: it returns, it lets an exception out (what it had written stays written), or
-- it indexes a vector out of range, which C++ leaves undefined.
pub data Outcome {ℓ} (S : Type ℓ) : Type ℓ where
  done : S → Outcome S
  thrown : S → Outcome S
  undefined : Outcome S
