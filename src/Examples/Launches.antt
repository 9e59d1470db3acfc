-- ===== src/Examples/Launches.antt =====
-- Tasks of the scheduler, launched by the executors of a host where all goes well.
use ceph_mesos.Prelude.{All, List, Text, [], codes, false, pos, refl, ◌∷◌, ◌≡◌}
use ceph_mesos.Common.StringUtil.{explode_args}
use ceph_mesos.Common.StringUtil.Words.{All-of_Words, IsWord, literals, no_words}
use ceph_mesos.Common.TaskType.{osd}
use ceph_mesos.Examples.Ceph.{osd_site, osd_site-IsLexical}
use ceph_mesos.Examples.Site.{site, site-IsLexical, site_config}
use ceph_mesos.Executor.Ceph.Arguments.{
  docker_arguments, mon_arguments, osd_arguments, radosgw_arguments,
}
use ceph_mesos.Executor.Ceph.Commands.{
  construct_osd_command, construct_radosgw_command, mon_command,
}
use ceph_mesos.Executor.Ceph.Osd.{OsdLaunch, executor_launch-osd}
use ceph_mesos.Executor.Ceph.Outcomes.{Holds}
use ceph_mesos.Executor.Ceph.Start.{executor_launch, new_ceph_executor}
use ceph_mesos.Executor.Ceph.Told.{Told, executor_launch-Told, staged_task}
use ceph_mesos.Executor.Disk.{new_disk_executor}
use ceph_mesos.Executor.Disk.Labels.{launch-disk_task}
use ceph_mesos.Executor.Disk.Report.{finish_task, launch_task}
use ceph_mesos.Scheduler.Agent.{Agent, new_agent}
use ceph_mesos.Scheduler.Agent.Launch.{
  add_host_config, create_task_name, disk_task, launch_node, node_task,
}
use ceph_mesos.Scheduler.Agent.Offers.{stage_node}
use ceph_mesos.Scheduler.Driver.{ExecutorInfo, Offer, TaskInfo}
use ceph_mesos.State.HostConfig.{
  HostConfig, add_jnl_partition, add_osd_partition, host_config_of, pop_journal_partition,
  pop_osd_partition,
}

abbrev osd_host : HostConfig
osd_host =
    add_jnl_partition (codes "sdc1")
      (add_osd_partition (codes "sdb1") (host_config_of (codes "node1") site_config))

abbrev osd_offer : Offer
osd_offer = record {
  id = codes "o1";
  hostname = codes "node1";
  slave_id = codes "s1";
  resources = [];
}

abbrev some_executor : ExecutorInfo
some_executor = record {
  executor_id = codes "x1";
  uris = [];
  command = codes "./ceph-mesos-executor";
  name = codes "ceph-mesos-executor";
}

abbrev pub osd_task : TaskInfo
osd_task =
    node_task osd_site (codes "*") osd_offer osd (pos 3) false some_executor
      (add_host_config osd osd_host).0

executor_launch-osd_example :
    OsdLaunch osd_task.task_id new_ceph_executor.sent
      (pop_osd_partition osd_host).0
      (pop_journal_partition (pop_osd_partition osd_host).1).0
      (create_task_name osd_site osd (pos 3))
      (executor_launch osd_site 1 osd_task new_ceph_executor)
executor_launch-osd_example =
    executor_launch-osd osd_site osd_site-IsLexical 1 (codes "*") osd_offer osd_host (pos 3) false
      some_executor new_ceph_executor

launch-disk_task_example :
    let task = disk_task site site_config osd_offer osd_host (pos 7) in
    launch_task site task (new_disk_executor (codes "node1"))
    ≡ finish_task site (record (new_disk_executor (codes "node1")) {
      my_task_id = task.task_id;
      pending_osd_devs = osd_host.pending_osd_devs;
      pending_jnl_devs = osd_host.pending_jnl_devs;
      jnl_partition_count = osd_host.jnl_parts_count;
    })
launch-disk_task_example =
    launch-disk_task site site-IsLexical site_config osd_offer osd_host (pos 7) (codes "node1")

abbrev six_texts : List Text
six_texts =
    codes "/root/c"
    ∷ codes "osd3"
    ∷ codes "3"
    ∷ codes "10.0.0.1"
    ∷ codes "10.0.0.0/8"
    ∷ codes "10.0.0.0/8"
    ∷ []

six_words : All IsWord six_texts
six_words = All-of_Words {ts = six_texts} (literals 6 refl no_words)

docker_arguments_example :
    (explode_args (construct_osd_command (codes "/root/c") (codes "3") (codes "osd3")) b' '
      ≡ osd_arguments (codes "/root/c") (codes "3") (codes "osd3"))
    × (explode_args (construct_radosgw_command (codes "/root/c") (codes "osd3")) b' '
        ≡ radosgw_arguments (codes "/root/c") (codes "osd3"))
    × (explode_args
          (mon_command
            (codes "/root/c")
            (codes "osd3")
            (codes "10.0.0.1")
            (codes "10.0.0.0/8")
            (codes "10.0.0.0/8"))
          b' '
        ≡ mon_arguments
            (codes "/root/c")
            (codes "osd3")
            (codes "10.0.0.1")
            (codes "10.0.0.0/8")
            (codes "10.0.0.0/8"))
docker_arguments_example =
    docker_arguments (codes "/root/c") (codes "osd3") (codes "3") (codes "10.0.0.1")
      (codes "10.0.0.0/8") (codes "10.0.0.0/8") six_words

abbrev osd_scheduler : Agent
osd_scheduler = new_agent osd_site site_config

executor_launch-Told_example :
    let task = (launch_node osd_site osd_offer osd (pos 3) false osd_scheduler).0 in
    Holds
      (Told osd_site task
        (staged_task task osd osd_offer)
        (stage_node osd_site osd_offer osd (pos 3) false osd_scheduler)
        new_ceph_executor)
      (executor_launch osd_site 1 task new_ceph_executor)
executor_launch-Told_example =
    executor_launch-Told osd_site 1 osd_offer osd (pos 3) false osd_scheduler new_ceph_executor
