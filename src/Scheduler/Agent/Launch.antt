-- ===== src/Scheduler/Agent/Launch.antt =====
-- What the agent sends to Mesos when it launches a node or a disk executor:
-- `createTaskName`, `createExecutor`, `addHostConfig`, `launchNode` and `tryLaunchDiskTask`.
use ceph_mesos.Prelude.{
  Bool, List, Text, [], codes, false, if◌then◌else◌, map, none, not, some, suc, true, ℕ, ℤ, ◌&&◌,
  ◌++◌, ◌||◌, ◌∷◌,
}
use ceph_mesos.Common.Config.{Config}
use ceph_mesos.Common.TaskType.{
  TaskType, datadev_key, jnl_partition_count_key, jnldevs_key, mgmtdev_key, mon, osd, osddevs_key,
  radosgw, task_type_code,
}
use ceph_mesos.Common.World.{Resource, World}
use ceph_mesos.Scheduler.Agent.{Agent, call, flag_code, offer_not_enough_resources, with_machine}
use ceph_mesos.Scheduler.Driver.{ExecutorInfo, Label, Offer, TaskInfo, launch_tasks}
use ceph_mesos.State.HostConfig.{
  HostConfig, have_pending_jnl_devs, have_pending_osd_devs, pop_journal_partition,
  pop_osd_partition, set_disk_preparation_on_going,
}
use ceph_mesos.State.StateMachine.{get_config, get_initial_mon, put_config}

unfoldable pub name_prefix : TaskType → Text
name_prefix mon = codes "mon"
name_prefix osd = codes "osd"
name_prefix radosgw = codes "radosgw"

-- `shared config` of the initial MON, which its file server hands out
abbrev pub shared_files : List Text
shared_files =
    codes "ceph.client.admin.keyring"
    ∷ codes "ceph.conf"
    ∷ codes "ceph.mon.keyring"
    ∷ codes "monmap"
    ∷ codes "ceph.keyring.osd"
    ∷ codes "ceph.keyring.rgw"
    ∷ codes "ceph.keyring.mds"
    ∷ []

abbrev pub executor_binary : Text
executor_binary = codes "ceph-mesos-executor"

abbrev pub disk_binary : Text
disk_binary = codes "ceph-mesos-disk-executor"

abbrev pub scalar : Text → Text → ℕ → Resource
scalar name role amount = record { name = name; role = role; amount = amount }

abbrev pub label : Text → Text → Label
label key value = record { key = key; value = value }

module _ (w : World) where
  unfoldable pub create_task_name : TaskType → ℤ → Text
  unfolding name_prefix
  create_task_name task_type token = name_prefix task_type ++ w.print_int token

  unfoldable pub binary_uri : Config → Text → Text
  binary_uri config binary =
      codes "http://"
      ++ w.local_ip
      ++ codes ":"
      ++ w.print_int config.fileport
      ++ codes "/"
      ++ binary

  unfoldable pub shared_uris : Text → List (Text × Bool)
  shared_uris host = map (λ f. (codes "http://" ++ host ++ codes ":7777/" ++ f, false)) shared_files

  -- The executor of a node; the clock is read once.
  unfoldable pub create_executor : Text → TaskType → ℤ → Bool → Agent → ExecutorInfo × Agent
  unfolding binary_uri shared_uris
  create_executor executor_name task_type token is_initial a =
      let name : Text =
        executor_name
        ++ codes "."
        ++ w.print_int (task_type_code task_type)
        ++ codes "."
        ++ w.print_int token in
      let shared : List (Text × Bool) =
        if is_initial then [] else shared_uris (get_initial_mon a.machine).host_name in
      (
        record {
          executor_id = name ++ codes "." ++ w.print_int (w.time a.readings);
          uris = (binary_uri a.config executor_name, true) ∷ shared;
          command = codes "./" ++ executor_name;
          name = name;
        },
        record a { readings = suc a.readings },
      )

-- The labels of a node: an OSD also takes an OSD partition and a journal partition from the host.
unfoldable pub add_host_config : TaskType → HostConfig → List Label × HostConfig
add_host_config osd hc =
    let (osd_disk, hc1) = pop_osd_partition hc in
    let (journal_disk, hc2) = pop_journal_partition hc1 in
    (
      label mgmtdev_key hc.original_config.mgmtdev
          ∷ label datadev_key hc.original_config.datadev
          ∷ label osddevs_key osd_disk
          ∷ label jnldevs_key journal_disk
          ∷ [],
      hc2,
    )
add_host_config _ hc = (
  label mgmtdev_key hc.original_config.mgmtdev ∷ label datadev_key hc.original_config.datadev ∷ [],
  hc,
)

module _ (w : World) where
  -- `task.data`, from which the executor learns what it runs.
  unfoldable pub node_data : Bool → TaskType → Text
  node_data is_initial task_type =
      w.print_int (flag_code is_initial) ++ codes "." ++ w.print_int (task_type_code task_type)

  unfoldable pub node_task :
      Text → Offer → TaskType → ℤ → Bool → ExecutorInfo → List Label → TaskInfo
  unfolding create_task_name
  node_task role offer task_type token is_initial executor labels = record {
    name = create_task_name w task_type token;
    task_id =
        create_task_name w task_type token
        ++ codes "."
        ++ offer.hostname
        ++ codes "."
        ++ offer.slave_id;
    slave_id = offer.slave_id;
    executor = executor;
    labels = labels;
    info = some (node_data is_initial task_type);
    resources = scalar (codes "cpus") role 1000 ∷ scalar (codes "mem") role 1024000 ∷ [];
  }

  -- The task is returned for its two ids, the out-parameters of the source.
  unfoldable pub launch_node : Offer → TaskType → ℤ → Bool → Agent → TaskInfo × Agent
  unfolding create_executor add_host_config node_task
  launch_node offer task_type token is_initial a =
      let (executor, a1) = create_executor w executor_binary task_type token is_initial a in
      let (labels, hc) = add_host_config task_type (get_config offer.hostname a1.machine) in
      let a2 = with_machine (put_config offer.hostname hc a1.machine) a1 in
      let task = node_task a.config.role offer task_type token is_initial executor labels in
      (task, call (launch_tasks offer.id (task ∷ [])) a2)

  unfoldable pub disk_task : Config → Offer → HostConfig → ℤ → TaskInfo
  unfolding binary_uri
  disk_task config offer hc now =
      let id = disk_binary ++ codes "." ++ w.print_int now in
      record {
        name = id;
        task_id = id ++ codes "." ++ offer.hostname ++ codes "." ++ offer.slave_id;
        slave_id = offer.slave_id;
        executor = record {
          executor_id = id;
          uris = (binary_uri w config disk_binary, true) ∷ [];
          command = codes "./" ++ disk_binary;
          name = id;
        };
        labels =
            map (label osddevs_key) hc.pending_osd_devs
            ++ map (label jnldevs_key) hc.pending_jnl_devs
            ++ label jnl_partition_count_key (w.print_int hc.jnl_parts_count) ∷ [];
        info = none;
        resources =
            scalar (codes "cpus") config.role 1000 ∷ scalar (codes "mem") config.role 256000 ∷ [];
      }

  -- The test by which `tryLaunchDiskTask` gets past its early returns.
  unfoldable pub wants_disk_task : Agent → Offer → HostConfig → Bool
  wants_disk_task a offer hc =
      not hc.is_preparing_disk
      && (have_pending_osd_devs hc || have_pending_jnl_devs hc)
      && not (offer_not_enough_resources w a.config.role offer)

  unfoldable pub try_launch_disk_task : Offer → Agent → Agent
  unfolding wants_disk_task disk_task
  try_launch_disk_task offer a =
      let hc = get_config offer.hostname a.machine in
      let task = disk_task a.config offer hc (w.time a.readings) in
      let launched : Agent =
        call (launch_tasks offer.id (task ∷ [])) (record a { readings = suc a.readings }) in
      if wants_disk_task a offer hc
      then with_machine (put_config offer.hostname (set_disk_preparation_on_going hc) a.machine)
          launched
      else a
