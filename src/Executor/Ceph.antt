-- ===== src/Executor/Ceph.antt =====
-- src/executor/CephExecutor.cpp: the executor of one MON, OSD or RADOSGW. Each shell command is
-- logged; its output is the world's. A child process that `fork` makes is logged with the arguments
-- that it starts docker with, and not followed.
pub mod Commands
pub mod Message
pub mod Start
pub mod Handshake
pub mod Outcomes
pub mod Reports
pub mod Osd
pub mod Arguments
pub mod Lifecycle
pub mod Callbacks
pub mod Told
use ceph_mesos.Prelude.{List, Option, Text, codes, push_back, ℕ, ◌++◌}
use ceph_mesos.Common.StringUtil.{explode_args}
use ceph_mesos.Common.World.{World}
use ceph_mesos.Executor.Shell.{run_shell_command}
use ceph_mesos.Scheduler.Driver.{TaskStateCode, TaskStatus}

pub record CephExecutor : Type 0 where
  pub container_name : Text
  pub my_task_id : Text
  pub my_hostname : Text
  pub config_dir_root : Text
  pub sandbox : Text
  pub osd_dir : Text
  pub jnl_dir : Text
  pub mgmt_nic : Text
  pub data_nic : Text
  pub osddisk : Text
  pub jnldisk : Text
  -- the shell commands run so far
  pub commands : List Text
  -- the arguments of the child processes, oldest first
  pub children : List (List Text)
  -- the file servers that have been started: their ports and directories
  pub file_servers : List (ℕ × Text)
  -- the status updates and the messages to the scheduler, oldest first
  pub sent : List TaskStatus
  pub messages : List Text

-- What an operation does: it returns, an exception leaves it, it reads beyond the end of a vector, it
-- still waits for a container when the fuel is used up, or it writes through a pointer that was never
-- set.
pub data Handled {ℓ} (A : Type ℓ) : Type ℓ where
  finished_with : A → Handled A
  uncaught out_of_vector unfinished wild_write : Handled A

infixl 5 ◌>>=◌
abbrev pub ◌>>=◌ {ℓ κ} : {A : Type ℓ} {B : Type κ} → Handled A → (A → Handled B) → Handled B
finished_with a >>= f = f a
uncaught >>= f = uncaught
out_of_vector >>= f = out_of_vector
unfinished >>= f = unfinished
wild_write >>= f = wild_write

abbrev pub config_dir_name : Text
config_dir_name = codes "ceph_config_root"

-- `localSharedConfigDirRoot + "/" + localConfigDirName`
abbrev pub config_dir : CephExecutor → Text
config_dir e = e.config_dir_root ++ (codes "/" ++ config_dir_name)

abbrev pub run_command : Text → CephExecutor → CephExecutor
run_command cmd e = record e { commands = push_back e.commands cmd }

-- A command whose output is looked at.
abbrev pub ask_shell : World → Text → CephExecutor → Text × CephExecutor
ask_shell w cmd e = (run_shell_command w e.commands cmd, run_command cmd e)

-- A status update on the given task.
abbrev pub report_on : Text → TaskStateCode → Option Text → CephExecutor → CephExecutor
report_on task state msg e = record e {
  sent = push_back e.sent (record { task_id = task; state = state; message = msg });
}

-- `startLongRunning` in the child process: the arguments that it gives to docker, none for an empty
-- command, where it does nothing.
unfoldable pub start_long_running : Text → CephExecutor → CephExecutor
start_long_running cmd e = record e { children = push_back e.children (explode_args cmd b' ') }
