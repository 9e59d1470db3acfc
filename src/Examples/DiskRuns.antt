-- ===== src/Examples/DiskRuns.antt =====
-- The disks of one host from the offer to the report, and what is logged of the host.
use ceph_mesos.Prelude.{
  Lacks, List, Text, [], arith, codes, false, find, inl, inr, none, pos, push_back, refl, subst,
  sym, text_eq, true, ℕ, ℤ, ◌∷◌, ◌≡◌, ◌⊎◌,
}
use ceph_mesos.Common.Config.{config_of_document, override_by_flags}
use ceph_mesos.Examples.Site.{site, site-IsLexical, site_config}
use ceph_mesos.Executor.Disk.{DiskExecutor, jnl_label, new_disk_executor, osd_label}
use ceph_mesos.Executor.Disk.Callbacks.{disk_run}
use ceph_mesos.Executor.Disk.Callbacks.Finished.{disk_run-finished_ids, finished_ids}
use ceph_mesos.Executor.Disk.Callbacks.Silent.{IfDone}
use ceph_mesos.Executor.Disk.Failed.{rejected}
use ceph_mesos.Executor.Disk.Lifecycle.{IsPlainHost, disk_lifecycle}
use ceph_mesos.Executor.Disk.Prepared.{CountsLines}
use ceph_mesos.Executor.Disk.Report.{launch_task}
use ceph_mesos.Executor.Driver.{
  ExecutorCallback, call_launch, call_registered, call_reregistered, launched_ids,
}
use ceph_mesos.Executor.Shell.{run_shell_command, trim_newlines}
use ceph_mesos.Scheduler.Agent.{Agent, new_agent, offer_not_enough_resources, with_machine}
use ceph_mesos.Scheduler.Agent.Answers.{built_disk_task}
use ceph_mesos.Scheduler.Agent.Disks.{IsReady}
use ceph_mesos.Scheduler.Agent.Launch.{try_launch_disk_task, wants_disk_task}
use ceph_mesos.Scheduler.Agent.Updates.{status_update}
use ceph_mesos.Scheduler.Driver.{Offer, TaskInfo, TaskStatus, done, launch_tasks}
use ceph_mesos.State.HostConfig.{
  HostConfig, have_pending_jnl_devs, have_pending_osd_devs, host_config_of,
}
use ceph_mesos.State.StateMachine.{get_config, init}

abbrev disk_offer : Offer
disk_offer = record {
  id = codes "offer";
  hostname = codes "node1";
  slave_id = codes "slave1";
  resources =
      record { name = codes "cpus"; role = codes "storage"; amount = 2000 }
      ∷ record { name = codes "mem"; role = codes "storage"; amount = 2048000 }
      ∷ [];
}

abbrev raw_node : HostConfig
raw_node = host_config_of (codes "node1") site_config

abbrev raw_agent : Agent
raw_agent =
    with_machine
      (record (init site site_config) { host_config_map = (codes "node1", raw_node) ∷ [] })
      (new_agent site site_config)

raw_node-found : get_config (codes "node1") raw_agent.machine ≡ raw_node
unfolding get_config find text_eq init
raw_node-found = refl

disks_wanted :
    wants_disk_task site raw_agent disk_offer (get_config (codes "node1") raw_agent.machine) ≡ true
unfolding wants_disk_task offer_not_enough_resources get_config find text_eq have_pending_osd_devs
    have_pending_jnl_devs new_agent host_config_of init config_of_document override_by_flags
disks_wanted = refl

site-CountsLines : CountsLines site
unfolding run_shell_command trim_newlines
site-CountsLines = record { counted = λ before diskname line. (pos 1, refl) }

plain_names :
    (c : ℕ)
    → (c ≡ b'.') ⊎ (c ≡ b':')
    → Lacks c (codes "sdb") × Lacks c (codes "sdc") × Lacks c (codes "node1")
plain_names c is = ground arith

raw_node-IsPlainHost : IsPlainHost (codes "node1") raw_node
unfolding host_config_of config_of_document override_by_flags
raw_node-IsPlainHost =
    let (dot_b, dot_c, dot_host) = plain_names b'.' (inl refl) in
    let (colon_b, colon_c, colon_host) = plain_names b':' (inr refl) in
    record {
      name = (dot_host, colon_host);
      osds = ((dot_b, colon_b), tt);
      jnls = ((dot_c, colon_c), tt);
      some_parts = λ e. ground arith;
    }

disk_lifecycle_example :
    let hc = get_config (codes "node1") raw_agent.machine in
    let task = built_disk_task site disk_offer raw_agent in
    let b = try_launch_disk_task site disk_offer raw_agent in
    (d : DiskExecutor) × (s : TaskStatus) × (c : Agent) × (b.calls
      ≡ push_back raw_agent.calls (launch_tasks (codes "offer") (task ∷ [])))
    × ((get_config (codes "node1") b.machine).is_preparing_disk ≡ true)
    × (launch_task site task (new_disk_executor (codes "node1")) ≡ done d)
    × (d.sent ≡ s ∷ [])
    × (s.task_id ≡ task.task_id)
    × (status_update site s b ≡ done c)
    × IsReady hc (get_config (codes "node1") c.machine)
    × ((later : Offer)
        → wants_disk_task site c later (get_config (codes "node1") c.machine) ≡ false)
disk_lifecycle_example =
    disk_lifecycle site site-IsLexical site-CountsLines disk_offer raw_agent disks_wanted
      (subst (IsPlainHost (codes "node1")) (sym raw_node-found) raw_node-IsPlainHost)

abbrev bare_task : TaskInfo
bare_task = record (built_disk_task site disk_offer raw_agent) { labels = [] }

abbrev two_disk_tasks : List ExecutorCallback
two_disk_tasks =
    call_registered (codes "node1") none
    ∷ call_launch (built_disk_task site disk_offer raw_agent)
    ∷ call_reregistered
    ∷ call_launch bare_task
    ∷ []

disk_run-finished_ids_example :
    IfDone
      (λ e. finished_ids e.sent ≡ launched_ids two_disk_tasks)
      (disk_run site two_disk_tasks (new_disk_executor (codes "node1")))
unfolding new_disk_executor
disk_run-finished_ids_example =
    disk_run-finished_ids site two_disk_tasks (new_disk_executor (codes "node1"))

-- One line is counted, whatever is asked.
abbrev one_line : Text → Text → ℤ
one_line diskname line = pos 1

abbrev raw_executor : DiskExecutor
raw_executor = record (new_disk_executor (codes "node1")) {
  pending_osd_devs = codes "sdb" ∷ [];
  pending_jnl_devs = codes "sdc" ∷ [];
  jnl_partition_count = pos 2;
}

-- The OSD's disk passes, and that of the journals, which has one partition instead of two, does not.
one_rejected :
    (rejected one_line (pos 1) osd_label raw_executor.pending_osd_devs ≡ [])
    × (rejected one_line (pos 2) jnl_label raw_executor.pending_jnl_devs ≡ codes "sdc" ∷ [])
one_rejected = (refl, refl)
