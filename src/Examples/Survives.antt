-- ===== src/Examples/Survives.antt =====
-- A run of the scheduler at the site, where every host gets the default configuration.
use ceph_mesos.Prelude.{
  Lacks, List, [], arith, codes, inl, inr, pos, refl, some, text_eq, ℕ, ◌++◌, ◌∷◌, ◌≡◌, ◌≢◌, ◌⊎◌,
}
use ceph_mesos.Common.JsonUtil.{instances, profile, read}
use ceph_mesos.Common.StringUtil.{cut, explode, explode_loop, get_line}
use ceph_mesos.Common.TaskType.{to_executor_code}
use ceph_mesos.Examples.Ceph.{osd_site, osd_site-HasConfigs, osd_site-IsLexical}
use ceph_mesos.Examples.ExecutorRuns.{after_osd, osd_callbacks_made, osd_returns}
use ceph_mesos.Examples.Json.{small_json}
use ceph_mesos.Examples.Site.{site_config}
use ceph_mesos.Executor.Ceph.{start_long_running}
use ceph_mesos.Executor.Ceph.Callbacks.{executor_callback, executor_run}
use ceph_mesos.Executor.Ceph.Message.{
  consumed_osd_message, executor_message, fork_osd, launch_osd_container, launch_osd_tokens,
  mount_disk, mount_given, mounted, prepare_osd_disks, report_started,
}
use ceph_mesos.Executor.Ceph.Start.{executor_registered, new_ceph_executor}
use ceph_mesos.Executor.Disk.{new_disk_executor}
use ceph_mesos.Executor.Shell.{run_shell_command, trim_newlines}
use ceph_mesos.Executor.System.{SentReport, by_disks, by_node, run-IsFromSystem}
use ceph_mesos.Executor.Waiting.{block_until_started, check_daemon, poll}
use ceph_mesos.Scheduler.Agent.{Agent, handle_waiting_osd_tasks, launch_osd_message, new_agent}
use ceph_mesos.Scheduler.Agent.Disks.{finished_report}
use ceph_mesos.Scheduler.Agent.Offers.{resource_offers}
use ceph_mesos.Scheduler.Agent.Runs.{Callback, on_message, on_offers, on_request, on_update, run}
use ceph_mesos.Scheduler.Agent.Survival.Offers.{AnsweredAll, resource_offers-AnsweredAll}
use ceph_mesos.Scheduler.Driver.{DriverCall, Offer, TaskStatus, done, task_running}
use ceph_mesos.Scheduler.EventLoop.Json.{check_text, check_value, escapes, request_of}

-- The report of the OSD that has started, and that of a disk executor.
abbrev osd_report : TaskStatus
osd_report = record {
  task_id = [];
  state = task_running;
  message = some (consumed_osd_message osd_site (osd_site.print_int (pos 3)));
}

abbrev disk_report : TaskStatus
disk_report = finished_report osd_site (codes "disk") (new_disk_executor (codes "n1"))

abbrev any_offer : Offer
any_offer = record {
  id = codes "o";
  hostname = codes "n1";
  slave_id = codes "s";
  resources = record { name = codes "cpus"; role = codes "storage"; amount = 4000 } ∷ [];
}

-- Two offers on one host, an OSD that runs, an OSD id, and prepared disks.
abbrev busy_day : List Callback
busy_day =
    on_offers (any_offer ∷ any_offer ∷ [])
    ∷ on_update osd_report
    ∷ on_message (codes "x") (osd_site.print_int (pos 4))
    ∷ on_update disk_report
    ∷ on_request (request_of small_json (codes "osds"))
    ∷ []

n1-IsPlain : (c : ℕ) → (c ≡ b'.') ⊎ (c ≡ b':') → Lacks c (codes "n1")
n1-IsPlain c is = ground arith

osd_report-sent : after_osd.sent ≡ osd_report ∷ []
unfolding executor_run executor_callback executor_message explode explode_loop launch_osd_message
    get_line cut launch_osd_tokens launch_osd_container executor_registered new_ceph_executor
    report_started block_until_started poll check_daemon run_shell_command trim_newlines text_eq
    mounted prepare_osd_disks mount_given mount_disk fork_osd start_long_running to_executor_code
osd_report-sent = refl

disk_report-SentReport : SentReport osd_site disk_report
unfolding new_disk_executor
disk_report-SentReport =
    by_disks (codes "disk") (new_disk_executor (codes "n1"))
      (record {
        host = (n1-IsPlain b'.' (inl refl), n1-IsPlain b':' (inr refl));
        osds = tt;
        jnls = tt;
      })
      refl

osds-calm : check_text small_json (codes "osds") ≢ escapes
unfolding check_text check_value read instances profile text_eq
osds-calm e = ground arith

run-IsFromSystem_example :
    (b : Agent) × (run osd_site busy_day (new_agent osd_site site_config) ≡ done b)
run-IsFromSystem_example =
    run-IsFromSystem osd_site small_json osd_site-IsLexical osd_site-HasConfigs busy_day
      (new_agent osd_site site_config)
      (
        tt,
        (
          by_node 1 osd_callbacks_made after_osd [] [] (tt, (inr (pos 3, refl), tt)) osd_returns
              osd_report-sent,
          (
            (pos 4, osd_site-IsLexical.parse-print (pos 4)),
            (disk_report-SentReport, ((codes "osds", osds-calm, refl), tt)),
          ),
        ),
      )

resource_offers-AnsweredAll_example :
    let a = new_agent osd_site site_config in
    (b : Agent) × (ds : List DriverCall) × (resource_offers osd_site (any_offer ∷ any_offer ∷ []) a
      ≡ done b)
    × (b.calls ≡ (handle_waiting_osd_tasks osd_site a).calls ++ ds)
    × AnsweredAll (any_offer ∷ any_offer ∷ []) ds
resource_offers-AnsweredAll_example =
    resource_offers-AnsweredAll osd_site osd_site-HasConfigs (any_offer ∷ any_offer ∷ [])
      (new_agent osd_site site_config)
