-- ===== src/Examples/Disks.antt =====
-- The disks of one host, their executor's report, and the configuration they come from.
use ceph_mesos.Prelude.{
  All, Lacks, Text, [], arith, codes, find, inl, inr, insert, length, refl, some, text_eq, ℕ, ◌∷◌,
  ◌≡◌, ◌≤◌, ◌⊎◌,
}
use ceph_mesos.Examples.Site.{site, site-IsLexical, site_config}
use ceph_mesos.Executor.Disk.{DiskExecutor, new_disk_executor, partition_ranges, ranges_from}
use ceph_mesos.Executor.Disk.Ranges.{Consecutive, partition_ranges_lem}
use ceph_mesos.Scheduler.Agent.{Agent, new_agent, with_machine}
use ceph_mesos.Scheduler.Agent.Disks.{IsPlainReport, IsReady, failed_disks_ignored, finished_report}
use ceph_mesos.Scheduler.Agent.Updates.{status_update}
use ceph_mesos.Scheduler.Driver.{done}
use ceph_mesos.State.HostConfig.{HostConfig, host_config_of}

-- Two disks have failed.
abbrev failed_executor : Text → DiskExecutor
failed_executor host = record (new_disk_executor host) {
  failed_osd_devs = codes "sdb" ∷ [];
  failed_jnl_devs = codes "sdc" ∷ [];
}

abbrev some_agent : Agent
some_agent = new_agent site site_config

no_delimiter :
    (c : ℕ)
    → (c ≡ b'.') ⊎ (c ≡ b':')
    → Lacks c (codes "sdb") × Lacks c (codes "sdc") × Lacks c (codes "node1")
no_delimiter c is = ground arith

report-IsPlain : IsPlainReport (failed_executor (codes "node1"))
unfolding new_disk_executor
report-IsPlain =
    let (dot_b, dot_c, dot_host) = no_delimiter b'.' (inl refl) in
    let (colon_b, colon_c, colon_host) = no_delimiter b':' (inr refl) in
    record {
      host = (dot_host, colon_host);
      osds = ((dot_b, colon_b), tt);
      jnls = ((dot_c, colon_c), tt);
    }

abbrev raw_host : HostConfig
raw_host = host_config_of (codes "node1") site_config

-- An agent that knows the host, whose disks are pending.
abbrev host_agent : Agent
host_agent =
    with_machine (record some_agent.machine { host_config_map = (codes "node1", raw_host) ∷ [] })
      some_agent

host_known : find (codes "node1") host_agent.machine.host_config_map ≡ some raw_host
unfolding find text_eq
host_known = refl

failed_disks_ignored_example :
    let d = failed_executor (codes "node1") in
    (b : Agent) × (after : HostConfig) × (status_update site
        (finished_report site (codes "disk") d)
        host_agent
      ≡ done b)
    × (b
        ≡ with_machine
            (record host_agent.machine {
              host_config_map = insert (codes "node1") after host_agent.machine.host_config_map;
            })
            host_agent)
    × IsReady raw_host after
unfolding new_disk_executor
failed_disks_ignored_example =
    failed_disks_ignored site site-IsLexical (codes "disk") (failed_executor (codes "node1"))
      host_agent raw_host report-IsPlain host_known

partition_ranges_lem_example :
    let rest = ranges_from 2 1 33 66 33 in
    (partition_ranges 3 ≡ record { number = 0; first = 1; last = 33 } ∷ rest)
    × Consecutive 33 33 rest
    × All (λ r. r.last ≤ 100) (partition_ranges 3)
    × (length (partition_ranges 3) ≡ 3)
    × (1 ≤ 33)
partition_ranges_lem_example = partition_ranges_lem 2 (omega arith)
