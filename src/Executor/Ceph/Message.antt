-- ===== src/Executor/Ceph/Message.antt =====
-- `frameworkMessage` of src/executor/CephExecutor.cpp, and the mounting of an OSD's disks.
use ceph_mesos.Prelude.{
  Bool, List, Text, [], codes, eqb_ℤ, false, if◌then◌else◌, none, push_back, some, true, ℕ, ◌++◌,
  ◌∷◌,
}
use ceph_mesos.Common.StringUtil.{explode}
use ceph_mesos.Common.TaskType.{
  consumed_osd_id, launch_osd, register_osd, to_executor_code, to_scheduler_code,
}
use ceph_mesos.Common.World.{World}
use ceph_mesos.Executor.Ceph.{
  CephExecutor, Handled, ask_shell, config_dir, finished_with, out_of_vector, report_on,
  run_command, start_long_running, uncaught, unfinished,
}
use ceph_mesos.Executor.Ceph.Commands.{construct_osd_command}
use ceph_mesos.Executor.Waiting.{Waited, answered, bad_timeout, block_until_started, still_waiting}
use ceph_mesos.Scheduler.Driver.{task_failed, task_running}

abbrev pub mount_flags : Text
mount_flags = codes " -o inode64,noatime,logbsize=256k"

-- `mountDisk` looks at no output, and its result is always true.
unfoldable pub mount_disk : Text → Text → CephExecutor → Bool × CephExecutor
mount_disk diskname dir e = (
  true,
  run_command (codes "mount" ++ mount_flags ++ codes " " ++ diskname ++ codes " " ++ dir) e,
)

-- No disk given stands for the system disk.
unfoldable pub mount_given : Text → Text → CephExecutor → Bool × CephExecutor
unfolding mount_disk
mount_given [] dir e = (true, e)
mount_given (c ∷ disk) dir e = mount_disk (codes "/dev/" ++ (c ∷ disk)) dir e

unfoldable pub prepare_osd_disks : CephExecutor → Bool × CephExecutor
unfolding mount_given
prepare_osd_disks e0 =
    let e1 = run_command (codes "mkdir -p " ++ e0.osd_dir) e0 in
    let e2 = run_command (codes "mkdir -p " ++ e1.jnl_dir) e1 in
    let (osd_mounted, e3) = mount_given e2.osddisk e2.osd_dir e2 in
    if osd_mounted then mount_given e3.jnldisk e3.jnl_dir e3 else (false, e3)

-- The executor with the directories of the OSD set, and its disks mounted.
unfoldable pub mounted : Text → CephExecutor → Bool × CephExecutor
unfolding prepare_osd_disks
mounted osd_id e = prepare_osd_disks (record e {
  osd_dir = config_dir e ++ codes "/var/lib/ceph/osd/ceph-" ++ osd_id;
  jnl_dir = config_dir e ++ codes "/var/lib/ceph/osd/jnl-" ++ osd_id;
})

-- `fork`, and the docker command of the child.
unfoldable pub fork_osd : Text → Text → CephExecutor → CephExecutor
unfolding start_long_running construct_osd_command
fork_osd dir osd_id e = start_long_running (construct_osd_command dir osd_id e.container_name) e

module _ (w : World) where
  unfoldable pub register_osd_id : CephExecutor → Text × CephExecutor
  register_osd_id e =
      ask_shell w (codes "docker exec " ++ e.container_name ++ codes " ceph osd create") e

  -- What the scheduler is told of an OSD that is running.
  unfoldable pub consumed_osd_message : Text → Text
  consumed_osd_message osd_id =
      w.print_int (to_scheduler_code consumed_osd_id) ++ codes "." ++ osd_id

  -- The parent's branch behind `fork`, once the container has been waited for.
  unfoldable pub report_started : Text → Waited → CephExecutor → Handled CephExecutor
  report_started osd_id bad_timeout e = uncaught
  report_started osd_id still_waiting e = unfinished
  report_started osd_id (answered true after) e = finished_with (
      report_on e.my_task_id task_running (some (consumed_osd_message osd_id))
        (record e { commands = after }))
  report_started osd_id (answered false after) e =
      finished_with (report_on e.my_task_id task_failed none (record e { commands = after }))

  unfoldable pub launch_osd_container : ℕ → Text → CephExecutor → Handled CephExecutor
  unfolding mounted report_started fork_osd
  launch_osd_container fuel osd_id e =
      let (prepared, e1) = mounted osd_id e in
      let e2 = fork_osd (config_dir e) osd_id e1 in
      if prepared
      then report_started osd_id
          (block_until_started w fuel e2.container_name (codes "30") e2.commands) e2
      else finished_with (report_on e1.my_task_id task_failed none e1)

  -- The case of LAUNCH_OSD, with the tokens behind the code.
  unfoldable pub launch_osd_tokens : ℕ → List Text → CephExecutor → Handled CephExecutor
  unfolding launch_osd_container
  launch_osd_tokens fuel [] e = finished_with e
  launch_osd_tokens fuel (osd_id ∷ []) e = launch_osd_container fuel osd_id e
  launch_osd_tokens fuel (osd_id ∷ next ∷ rest) e = finished_with e

  -- The case of REGISTER_OSD.
  unfoldable pub register_new_osd : CephExecutor → CephExecutor
  unfolding register_osd_id
  register_new_osd e =
      let (osd_id, e1) = register_osd_id e in record e1 { messages = push_back e1.messages osd_id }

  unfoldable pub executor_message : ℕ → Text → CephExecutor → Handled CephExecutor
  unfolding register_new_osd launch_osd_tokens
  executor_message fuel text e = elim (explode text b'.') [
    | [] ↦ out_of_vector
    | token ∷ rest ↦ elim (w.parse_int token) [
      | none ↦ uncaught
      | some code ↦
          if eqb_ℤ code (to_executor_code register_osd)
          then finished_with (register_new_osd e)
          else if eqb_ℤ code (to_executor_code launch_osd)
          then launch_osd_tokens fuel rest e
          else finished_with e
    ]
  ]
