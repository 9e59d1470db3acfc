-- ===== src/Executor/Waiting.antt =====
-- `block_until_started` of src/executor/CephExecutor.cpp. The clock is read before the loop only, so
-- that the loop's condition stays what it is: the loop is on fuel, one unit for each poll.
pub mod Endless
pub mod Commands
use ceph_mesos.Prelude.{
  Bool, List, Option, Text, codes, false, if◌then◌else◌, ltb_ℤ, none, pos, push_back, some, suc,
  text_eq, zero, ℕ, ◌++◌,
}
use ceph_mesos.Common.World.{World}
use ceph_mesos.Executor.Shell.{run_shell_command}

-- Its answer with the commands run so far, the exception of `lexical_cast`, or no end yet.
pub data Waited : Type 0 where
  answered : Bool → List Text → Waited
  bad_timeout still_waiting : Waited

unfoldable pub poll_command : Text → Text
poll_command container = codes "docker ps |grep " ++ container ++ codes " > /dev/null ;echo $?"

unfoldable pub daemon_command : Text → Text → Text
daemon_command container timeout =
    codes "docker exec "
    ++ container
    ++ codes " timeout "
    ++ timeout
    ++ codes " ceph mon stat > /dev/null 2>&1; echo $?"

abbrev pub zero_code : Text
zero_code = codes "0"

module _ (w : World) where
  -- The loop: the commands run when the poll has found the container, `none` without fuel.
  unfoldable pub poll : ℕ → Text → List Text → Option (List Text)
  poll zero cmd before = none
  poll (suc fuel) cmd before =
      let later = poll fuel cmd (push_back before cmd) in
      if text_eq zero_code (run_shell_command w before cmd)
      then some (push_back before cmd)
      else later

  unfoldable pub check_daemon : Text → Text → List Text → Waited
  check_daemon container timeout before =
      let cmd = daemon_command container timeout in
      answered (text_eq zero_code (run_shell_command w before cmd)) (push_back before cmd)

  unfoldable pub block_until_started : ℕ → Text → Text → List Text → Waited
  unfolding poll check_daemon
  block_until_started fuel container timeout before = elim (w.parse_int timeout) [
    | none ↦ bad_timeout
    | some seconds ↦
        if ltb_ℤ (pos 0) seconds
        then (elim (poll fuel (poll_command container) before) [
          | none ↦ still_waiting
          | some after ↦ check_daemon container timeout after
        ])
        else answered false before
  ]
