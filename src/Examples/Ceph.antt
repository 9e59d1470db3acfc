-- ===== src/Examples/Ceph.antt =====
-- An OSD that the scheduler gives the id 3, on a host where all goes well.
use ceph_mesos.Prelude.{
  List, Option, Text, [], codes, find, if◌then◌else◌, negsuc, pos, push_back, refl, some, text_eq,
  true, ℤ, ◌++◌, ◌∷◌, ◌≡◌,
}
use ceph_mesos.Common.Config.{
  config_of_document, contains_text, directory, get_config_by_hostname, get_config_path_by_hostname,
  get_file_contents, is_host_config, load_config, merge_config, parse_config_string,
}
use ceph_mesos.Common.TaskType.{osd}
use ceph_mesos.Common.World.{IsLexical, World}
use ceph_mesos.Examples.Site.{empty_document, site, site_config, site_document}
use ceph_mesos.Examples.Tally.{
  parse-print_tally, parse_tally, print_tally, print_tally-Lacks, print_tally-ne-nil,
}
use ceph_mesos.Executor.Ceph.{CephExecutor, config_dir, finished_with, start_long_running}
use ceph_mesos.Executor.Ceph.Handshake.{after_start, mounting_all, osd_handshake}
use ceph_mesos.Executor.Ceph.Lifecycle.{with_id}
use ceph_mesos.Executor.Ceph.Message.{
  executor_message, fork_osd, mount_disk, mount_given, mounted, prepare_osd_disks,
}
use ceph_mesos.Executor.Shell.{run_shell_command, trim_newlines}
use ceph_mesos.Executor.Waiting.{
  answered, block_until_started, check_daemon, daemon_command, poll, poll_command,
}
use ceph_mesos.Scheduler.Agent.{Agent, launch_osd_message, new_agent, with_machine}
use ceph_mesos.Scheduler.Agent.Survival.{HasConfigs}
use ceph_mesos.Scheduler.Agent.Updates.{status_update}
use ceph_mesos.Scheduler.Driver.{Offer, Outcome, TaskStatus, done, thrown, undefined}
use ceph_mesos.State.HostConfig.{host_config_of, new_host_config}
use ceph_mesos.State.TaskState.{TaskState, staging, starting}

-- The site, with one decimal number, and commands that succeed.
abbrev parse_thirty : Text → Option ℤ
parse_thirty s = if text_eq s (codes "30") then some (pos 30) else parse_tally s

abbrev pub osd_site : World
osd_site = record site { parse_int = parse_thirty; popen = λ before cmd. some (codes "0") }

read_printed : (n : ℤ) → parse_thirty (print_tally n) ≡ some n
unfolding text_eq
read_printed (pos n) = parse-print_tally (pos n)
read_printed (negsuc n) = parse-print_tally (negsuc n)

pub osd_site-IsLexical : IsLexical osd_site
osd_site-IsLexical = record {
  parse-print = read_printed;
  print-ne-nil = print_tally-ne-nil;
  print-Lacks = print_tally-Lacks;
}

abbrev osd_executor : CephExecutor
osd_executor = record {
  container_name = codes "osd3";
  my_task_id = codes "osd3.node1.s1";
  my_hostname = codes "node1";
  config_dir_root = codes "/root";
  sandbox = [];
  osd_dir = [];
  jnl_dir = [];
  mgmt_nic = [];
  data_nic = [];
  osddisk = codes "sdb1";
  jnldisk = codes "sdc1";
  commands = [];
  children = [];
  file_servers = [];
  sent = [];
  messages = [];
}

abbrev osd_ready : CephExecutor
osd_ready =
    fork_osd (config_dir osd_executor) (osd_site.print_int (pos 3))
      (mounted (osd_site.print_int (pos 3)) osd_executor).1

abbrev commands_after : List Text
commands_after =
    push_back (push_back osd_ready.commands (poll_command (codes "osd3")))
      (daemon_command (codes "osd3") (codes "30"))

started :
    block_until_started osd_site 1 osd_ready.container_name (codes "30") osd_ready.commands
    ≡ answered true commands_after
unfolding block_until_started poll check_daemon run_shell_command trim_newlines text_eq mounted
    prepare_osd_disks mount_given mount_disk fork_osd start_long_running
started = refl

abbrev osd_agent : Agent
osd_agent = new_agent site site_config

osd_handshake_example :
    (e' : CephExecutor) × (s : TaskStatus) × (executor_message osd_site 1
        (launch_osd_message osd_site (pos 3))
        osd_executor
      ≡ finished_with e')
    × (e'.sent ≡ push_back osd_executor.sent s)
    × ((waiting : List Text) × (e'.commands
          ≡ osd_executor.commands
            ++ mounting_all (osd_site.print_int (pos 3)) osd_executor
            ++ waiting))
    × (status_update osd_site s osd_agent
        ≡ done
            (with_machine (after_start true (codes "osd3.node1.s1") osd_agent.machine) osd_agent))
osd_handshake_example =
    osd_handshake osd_site osd_site-IsLexical 1 (pos 3) osd_executor true commands_after osd_agent
      started

-- The task of this OSD, staged, on an agent that knows no other.
abbrev osd3_task : TaskState
osd3_task = record {
  task_id = codes "osd3.node1.s1";
  executor_id = codes "e1";
  task_type = osd;
  host_name = codes "node1";
  slave_id = codes "s1";
  current_status = staging;
}

abbrev osd3_agent : Agent
osd3_agent =
    with_machine (record osd_agent.machine { task_map = (osd3_task.task_id, osd3_task) ∷ [] })
      osd_agent

pub osd_site-HasConfigs : HasConfigs osd_site
unfolding new_host_config get_config_by_hostname load_config get_file_contents parse_config_string
    is_host_config contains_text get_config_path_by_hostname directory text_eq
osd_site-HasConfigs hostname = (
  host_config_of hostname (
      merge_config osd_site (config_of_document osd_site site_document)
        (config_of_document osd_site empty_document)),
  refl,
)

-- An offer of too few resources, and one for another role.
abbrev small_offer : Offer
small_offer = record {
  id = codes "o1";
  hostname = codes "n1";
  slave_id = codes "s";
  resources = record { name = codes "cpus"; role = codes "storage"; amount = 10 } ∷ [];
}

abbrev foreign_offer : Offer
foreign_offer = record small_offer {
  id = codes "o2";
  resources = record { name = codes "cpus"; role = codes "web"; amount = 4000 } ∷ [];
}

abbrev two_offers : List Offer
two_offers = small_offer ∷ foreign_offer ∷ []

abbrev osd3_with_id : Agent
osd3_with_id = with_id osd_site (pos 3) osd3_task two_offers osd3_agent

abbrev osd3_starting : TaskState
osd3_starting = record osd3_task { current_status = starting }

-- The OSD is starting at the end.
abbrev StartsOsd3 : Outcome Agent → Type 0
StartsOsd3 (done b) = find osd3_task.task_id b.machine.task_map ≡ some osd3_starting
StartsOsd3 (thrown b) = ⊥
StartsOsd3 undefined = ⊥
