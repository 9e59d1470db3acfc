-- ===== src/Executor/Ceph/Start.antt =====
-- `registered`, `launchTask` and `shutdown` of src/executor/CephExecutor.cpp.
use ceph_mesos.Prelude.{
  Bool, List, Option, Text, [], codes, eqb_ℤ, false, if◌then◌else◌, none, not, push_back, some,
  text_eq, true, ℕ, ℤ, ◌++◌, ◌∷◌,
}
use ceph_mesos.Common.Config.{or_else}
use ceph_mesos.Common.StringUtil.{c_str, explode}
use ceph_mesos.Common.TaskType.{
  datadev_key, jnldevs_key, mgmtdev_key, mon, osd, osddevs_key, radosgw, task_type_code,
}
use ceph_mesos.Common.World.{World}
use ceph_mesos.Executor.Ceph.{
  CephExecutor, Handled, ask_shell, config_dir, finished_with, out_of_vector, report_on,
  run_command, start_long_running, uncaught, unfinished, wild_write, ◌>>=◌,
}
use ceph_mesos.Executor.Ceph.Commands.{
  construct_mon_command, construct_radosgw_command, copy_shared_config_files,
  create_local_shared_config_dir, delete_config_dir, zero_answer,
}
use ceph_mesos.Executor.Waiting.{Waited, answered, bad_timeout, block_until_started, still_waiting}
use ceph_mesos.Scheduler.Driver.{
  Label, TaskInfo, task_failed, task_killed, task_running, task_starting,
}

-- The executor as its class makes it.
unfoldable pub new_ceph_executor : CephExecutor
new_ceph_executor = record {
  container_name = [];
  my_task_id = [];
  my_hostname = [];
  config_dir_root = [];
  sandbox = [];
  osd_dir = [];
  jnl_dir = [];
  mgmt_nic = [];
  data_nic = [];
  osddisk = [];
  jnldisk = [];
  commands = [];
  children = [];
  file_servers = [];
  sent = [];
  messages = [];
}

-- `registered`, with the directory that `getcwd` gives, if it gives one.
unfoldable pub executor_registered : Text → Option Text → CephExecutor → CephExecutor
executor_registered hostname cwd e = record e { my_hostname = hostname; sandbox = or_else cwd [] }

-- One label, compared by `strcmp`; the four tests are on different keys.
unfoldable pub parse_label : Label → CephExecutor → CephExecutor
unfolding c_str
parse_label l e =
    if text_eq mgmtdev_key (c_str l.key)
    then record e { mgmt_nic = l.value }
    else if text_eq datadev_key (c_str l.key)
    then record e { data_nic = l.value }
    else if text_eq osddevs_key (c_str l.key)
    then record e { osddisk = l.value }
    else if text_eq jnldevs_key (c_str l.key)
    then record e { jnldisk = l.value }
    else e

unfoldable pub parse_labels : List Label → CephExecutor → CephExecutor
unfolding parse_label
parse_labels [] e = e
parse_labels (l ∷ ls) e = parse_labels ls (parse_label l e)

unfoldable pub parse_host_config : List Label → CephExecutor → Bool × CephExecutor
unfolding parse_labels
parse_host_config [] e = (false, e)
parse_host_config (l ∷ ls) e = (true, parse_labels (l ∷ ls) e)

abbrev root_of_answer : Text → Text
root_of_answer [] = []
root_of_answer (c ∷ s) = codes "/root"

unfoldable pub get_container_name : Text → Handled Text
get_container_name task_id = elim (explode task_id b'.') [
  | [] ↦ out_of_vector
  | name ∷ _ ↦ finished_with name
]

abbrev pub image_name : Text
image_name = codes "ceph/daemon"

module _ (w : World) where
  -- `localSharedConfigDirRoot = r == "" ? r : "/root"`; `remove_if` keeps the length of `r`.
  unfoldable pub set_config_root : CephExecutor → CephExecutor
  set_config_root e =
      let (r, e1) = ask_shell w (codes "echo ~") e in
      record e1 { config_dir_root = root_of_answer r }

  -- Whether the configuration has to be copied, and the number of the task type, which without data
  -- was never set.
  unfoldable pub read_task_data : Option Text → CephExecutor → Handled ((Bool × ℤ) × CephExecutor)
  unfolding delete_config_dir
  read_task_data none e = finished_with ((true, w.indeterminate), e)
  read_task_data (some info) e = elim (explode info b'.') [
    | [] ↦ out_of_vector
    | flag ∷ rest ↦
        let initial = text_eq flag (codes "1") in
        let e1 = if initial then delete_config_dir e else e in
        elim rest [
          | [] ↦ out_of_vector
          | number ∷ _ ↦ elim (w.parse_int number) [
            | none ↦ uncaught
            | some n ↦ finished_with ((not initial, n), e1)
          ]
        ]
  ]

  -- Without the image a child pulls it, and the parent waits for it with a status pointer that was
  -- never set.
  unfoldable pub download_docker_image : Text → CephExecutor → Handled (Bool × CephExecutor)
  download_docker_image image e =
      let (r, e1) =
        ask_shell w (codes "docker images|grep " ++ (image ++ codes " > /dev/null 2>&1;echo $?"))
          e in
      if zero_answer r then finished_with (true, e1) else wild_write

  -- A MON that runs publishes its configuration and keyrings; the outcome is only logged.
  unfoldable pub publish_keyrings : CephExecutor → CephExecutor
  publish_keyrings e =
      let etc = config_dir e ++ codes "/etc/ceph/" in
      let lib = config_dir e ++ codes "/var/lib/ceph/" in
      let e1 =
        run_command (codes "sed -i '/osd journal size/d' " ++ (etc ++ codes "ceph.conf; echo $?"))
          e in
      let e2 =
        run_command
          (codes "cp "
            ++ (lib
                ++ (codes "bootstrap-osd/ceph.keyring "
                    ++ (etc
                        ++ (codes "ceph.keyring.osd;cp "
                            ++ (lib
                                ++ (codes "bootstrap-rgw/ceph.keyring "
                                    ++ (etc
                                        ++ (codes "ceph.keyring.rgw;cp "
                                            ++ (lib
                                                ++ (codes "bootstrap-mds/ceph.keyring "
                                                    ++ (etc
                                                        ++ codes
                                                            "ceph.keyring.mds;echo $?"))))))))))))
          e1 in
      record e2 { file_servers = push_back e2.file_servers (7777, etc) }

  -- The parent, once the container has been waited for.
  unfoldable pub report_waited : Text → Bool → Waited → CephExecutor → Handled CephExecutor
  unfolding publish_keyrings
  report_waited task_id shares bad_timeout e = uncaught
  report_waited task_id shares still_waiting e = unfinished
  report_waited task_id shares (answered false after) e =
      finished_with (report_on task_id task_failed none (record e { commands = after }))
  report_waited task_id shares (answered true after) e =
      let e1 : CephExecutor = record e { commands = after } in
      finished_with
        (report_on task_id task_running none (if shares then publish_keyrings e1 else e1))

  -- From `fork` on: the child starts the container, the parent waits for it and reports.
  unfoldable pub launch_container : ℕ → Text → Bool → Text → CephExecutor → Handled CephExecutor
  unfolding start_long_running report_waited
  launch_container fuel task_id shares cmd e =
      let e1 = start_long_running cmd e in
      report_waited task_id shares
        (block_until_started w fuel e1.container_name (codes "60") e1.commands) e1

  -- The `switch` over the task type, and what follows it.
  unfoldable pub launch_by_type : ℕ → Text → ℤ → CephExecutor → Handled CephExecutor
  unfolding download_docker_image launch_container construct_mon_command construct_radosgw_command
  launch_by_type fuel task_id n e0 =
      if eqb_ℤ n (task_type_code mon)
      then (do
        (cmd, e1) ← construct_mon_command w (config_dir e0) e0.container_name e0
        (fetched, e2) ← download_docker_image image_name e1
        launch_container fuel task_id true cmd e2)
      else if eqb_ℤ n (task_type_code osd)
      then (do
        (fetched, e1) ← download_docker_image image_name e0
        finished_with (report_on task_id task_starting none e1))
      else if eqb_ℤ n (task_type_code radosgw)
      then (do
        (fetched, e1) ← download_docker_image image_name e0
        launch_container fuel task_id false
            (construct_radosgw_command (config_dir e1) e1.container_name) e1)
      else launch_container fuel task_id false [] e0

  -- From the copying of the shared configuration on.
  unfoldable pub launch_in_tree : ℕ → Text → ℤ → CephExecutor → Handled CephExecutor
  unfolding get_container_name launch_by_type
  launch_in_tree fuel task_id n e0 = do
    name ← get_container_name task_id
    let e1 : CephExecutor = record e0 { container_name = name; my_task_id = task_id }
    launch_by_type fuel task_id n (run_command (codes "docker rm -f " ++ e1.container_name) e1)

  -- From `parseHostConfig` on, with the three early returns.
  unfoldable pub launch_configured : ℕ → TaskInfo → Bool → ℤ → CephExecutor → Handled CephExecutor
  unfolding parse_host_config create_local_shared_config_dir copy_shared_config_files launch_in_tree
  launch_configured fuel task need_copy n e0 =
      let (parsed, e1) = parse_host_config task.labels e0 in
      let (made, e2) = create_local_shared_config_dir w e1 in
      let (copied, e3) = copy_shared_config_files w e2 in
      if not parsed
      then finished_with (report_on task.task_id task_failed none e1)
      else if not made
      then finished_with (report_on task.task_id task_failed none e2)
      else if not need_copy
      then launch_in_tree fuel task.task_id n e2
      else if not copied
      then finished_with (report_on task.task_id task_failed none e3)
      else launch_in_tree fuel task.task_id n e3

  unfoldable pub executor_launch : ℕ → TaskInfo → CephExecutor → Handled CephExecutor
  unfolding set_config_root read_task_data launch_configured
  executor_launch fuel task e0 = do
    ((need_copy, n), e1) ← read_task_data task.info (set_config_root e0)
    launch_configured fuel task need_copy n e1

abbrev pub umount : Text → CephExecutor → CephExecutor
umount [] e = e
umount (c ∷ dir) e = run_command (codes "umount -f " ++ (c ∷ dir)) e

unfoldable pub executor_shutdown : CephExecutor → CephExecutor
executor_shutdown e0 =
    let e1 = umount e0.osd_dir e0 in
    let e2 = umount e1.jnl_dir e1 in
    let e3 = run_command (codes "docker rm -f " ++ e2.container_name) e2 in
    report_on e3.my_task_id task_killed none e3
