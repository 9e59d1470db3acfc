-- ===== src/Executor/Disk/Lifecycle.antt =====
-- The disks of one host over both programs: the scheduler's disk task
-- (src/scheduler/CephSchedulerAgent.hpp), the executor's work (src/executor/DiskExecutor.cpp), and the
-- scheduler's reading of its report.
use ceph_mesos.Prelude.{
  All, Text, [], arith, false, pos, push_back, refl, some, subst, sym, true, ◌∙◌, ◌∷◌, ◌≡◌, ◌≢◌,
}
use ceph_mesos.Common.World.{IsLexical, World}
use ceph_mesos.Executor.Disk.{DiskExecutor, new_disk_executor}
use ceph_mesos.Executor.Disk.Labels.{launch-disk_task}
use ceph_mesos.Executor.Disk.Launch.{send_update}
use ceph_mesos.Executor.Disk.Prepared.{CountsLines, prepare_disks-Prepares}
use ceph_mesos.Executor.Disk.Report.{finish_task, launch_task, prepare_return_value}
use ceph_mesos.Scheduler.Agent.{Agent}
use ceph_mesos.Scheduler.Agent.Answers.{built_disk_task, get-put-config, try_launch_busy}
use ceph_mesos.Scheduler.Agent.Disks.{
  IsPlain, IsPlainReport, IsReady, finished_report, report_finishes,
}
use ceph_mesos.Scheduler.Agent.Launch.{try_launch_disk_task, wants_disk_task}
use ceph_mesos.Scheduler.Agent.Updates.{status_update}
use ceph_mesos.Scheduler.Driver.{Offer, TaskInfo, TaskStatus, done, launch_tasks, task_finished}
use ceph_mesos.State.HostConfig.{
  HostConfig, have_pending_jnl_devs, have_pending_osd_devs, set_disk_preparation_on_going,
}
use ceph_mesos.State.StateMachine.{get_config}

-- What the names of a host and of its disks, and its number of journal partitions, must be.
pub record IsPlainHost (host : Text) (hc : HostConfig) : Type 0 where
  pub name : IsPlain host
  pub osds : All IsPlain hc.pending_osd_devs
  pub jnls : All IsPlain hc.pending_jnl_devs
  pub some_parts : hc.jnl_parts_count ≢ pos 0

none_wanted :
    (w : World) (a : Agent) (offer : Offer) (hc : HostConfig)
    → hc.pending_osd_devs ≡ []
    → hc.pending_jnl_devs ≡ []
    → wants_disk_task w a offer hc ≡ false
unfolding wants_disk_task have_pending_osd_devs have_pending_jnl_devs
none_wanted w a offer hc e e' = rw (e, e') (ground arith)

begun-IsReady :
    (before after : HostConfig)
    → IsReady (set_disk_preparation_on_going before) after
    → IsReady before after
unfolding set_disk_preparation_on_going
begun-IsReady before after r = record {
  idle = r.idle;
  finished = r.finished;
  osds = r.osds;
  no_failed_osds = r.no_failed_osds;
  no_failed_jnls = r.no_failed_jnls;
  no_pending_osds = r.no_pending_osds;
  no_pending_jnls = r.no_pending_jnls;
}

module _ (w : World) where
  begun_config :
      (offer : Offer) (a : Agent)
      → wants_disk_task w a offer (get_config offer.hostname a.machine) ≡ true
      → get_config offer.hostname (try_launch_disk_task w offer a).machine
        ≡ set_disk_preparation_on_going (get_config offer.hostname a.machine)
  unfolding try_launch_disk_task
  begun_config offer a wants = rw (wants, get-put-config) refl

  -- The executor with what it is to prepare.
  abbrev ordered : TaskInfo → Text → HostConfig → DiskExecutor
  ordered task host hc = record (new_disk_executor host) {
    my_task_id = task.task_id;
    pending_osd_devs = hc.pending_osd_devs;
    pending_jnl_devs = hc.pending_jnl_devs;
    jnl_partition_count = hc.jnl_parts_count;
  }

  finish_task-reports :
      (counting : CountsLines w) (task : TaskInfo) (host : Text) (hc : HostConfig)
      → IsPlainHost host hc
      → (d : DiskExecutor) × (finish_task w (ordered task host hc) ≡ done d)
        × (d.my_hostname ≡ host)
        × IsPlainReport d
        × (d.sent ≡ finished_report w task.task_id d ∷ [])
  unfolding finish_task new_disk_executor prepare_return_value
  finish_task-reports counting task host hc tame =
      let begun = ordered task host hc in
      let (d, e, k) =
        prepare_disks-Prepares w counting IsPlain begun tame.some_parts tame.osds tame.jnls in
      (
        send_update task_finished (some (prepare_return_value w d)) d,
        rw e refl,
        k.host,
        record { host = subst IsPlain (sym k.host) tame.name; osds = k.osds tt; jnls = k.jnls tt },
        rw (k.sent, k.id) refl,
      )

-- The disks of one host, over both programs. An offer wants a disk task; the names of the host and of its
-- pending disks hold no dot and no colon, the number of journal partitions is not 0, lexical_cast reads
-- back what it prints, and the shell's counts of lines are numbers. Then the scheduler launches one task on
-- the offer and marks the host as being prepared; the disk executor of that host runs this task to its end
-- and sends one report on it; and the scheduler reads the report without an error, after which the host is
-- ready and no offer wants a disk task for it.
pub disk_lifecycle :
    (w : World) (lex : IsLexical w) (counting : CountsLines w) (offer : Offer) (a : Agent)
    → wants_disk_task w a offer (get_config offer.hostname a.machine) ≡ true
    → IsPlainHost offer.hostname (get_config offer.hostname a.machine)
    → let host = offer.hostname in
      let hc = get_config host a.machine in
      let task = built_disk_task w offer a in
      let b = try_launch_disk_task w offer a in
      (d : DiskExecutor) × (s : TaskStatus) × (c : Agent) × (b.calls
        ≡ push_back a.calls (launch_tasks offer.id (task ∷ [])))
      × ((get_config host b.machine).is_preparing_disk ≡ true)
      × (launch_task w task (new_disk_executor host) ≡ done d)
      × (d.sent ≡ s ∷ [])
      × (s.task_id ≡ task.task_id)
      × (status_update w s b ≡ done c)
      × IsReady hc (get_config host c.machine)
      × ((later : Offer) → wants_disk_task w c later (get_config host c.machine) ≡ false)
disk_lifecycle w lex counting offer a wants tame =
    let host = offer.hostname in
    let hc = get_config host a.machine in
    let task = built_disk_task w offer a in
    let b = try_launch_disk_task w offer a in
    let (busy, made) = try_launch_busy w offer a wants in
    let (d, finishes, named, plain, reports) = finish_task-reports w counting task host hc tame in
    let (c, hears, same, ready) = report_finishes w lex task.task_id d b plain in
    let done_host = begun-IsReady hc (get_config host c.machine) (
      subst (λ x. IsReady x (get_config host c.machine)) (begun_config w offer a wants)
        (subst (λ x. IsReady (get_config x b.machine) (get_config x c.machine)) named ready)) in
    (
      d,
      finished_report w task.task_id d,
      c,
      made,
      busy,
      launch-disk_task w lex a.config offer hc (w.time a.readings) host ∙ finishes,
      reports,
      refl,
      hears,
      done_host,
      λ later.
          none_wanted w c later (get_config host c.machine) done_host.no_pending_osds
            done_host.no_pending_jnls,
    )
