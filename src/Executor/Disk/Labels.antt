-- ===== src/Executor/Disk/Labels.antt =====
-- The labels of the scheduler's disk task, as the disk executor reads them.
use mathlib.Core.Path.{fun_ext}
use ceph_mesos.Prelude.{
  List, Text, [], ap, append-nil, append_assoc, arith, map, push_back, refl, sym, text_eq, ℤ, ◌++◌,
  ◌∙◌, ◌∷◌, ◌≡◌, ◌≢◌,
}
use ceph_mesos.Common.Config.{Config}
use ceph_mesos.Common.StringUtil.{c_str}
use ceph_mesos.Common.TaskType.{jnl_partition_count_key, jnldevs_key, osddevs_key}
use ceph_mesos.Common.World.{IsLexical, World}
use ceph_mesos.Executor.Disk.{DiskExecutor, new_disk_executor}
use ceph_mesos.Executor.Disk.Launch.{add_label, add_labels, ◌>>=◌}
use ceph_mesos.Executor.Disk.Report.{finish_task, launch_task}
use ceph_mesos.Scheduler.Agent.Launch.{disk_task, label}
use ceph_mesos.Scheduler.Driver.{Label, Offer, Outcome, TaskInfo, done, thrown, undefined}
use ceph_mesos.State.HostConfig.{HostConfig}

module _ (w : World) where
  done_bind :
      (o : Outcome DiskExecutor) (f g : DiskExecutor → Outcome DiskExecutor)
      → ((o >>= f) >>= g) ≡ (o >>= λ d. f d >>= g)
  done_bind (done d) f g = refl
  done_bind (thrown d) f g = refl
  done_bind undefined f g = refl

  add_labels-append :
      (ls ms : List Label) (d : DiskExecutor)
      → add_labels w (ls ++ ms) d ≡ (add_labels w ls d >>= add_labels w ms)
  unfolding add_labels
  add_labels-append [] ms d = refl
  add_labels-append (l ∷ ls) ms d =
      ap (λ f. add_label w l d >>= f) (fun_ext (add_labels-append ls ms))
      ∙ sym (done_bind (add_label w l d) (add_labels w ls) (add_labels w ms))

  osd_labels :
      (devs : List Text) (d : DiskExecutor)
      → add_labels w (map (label osddevs_key) devs) d
        ≡ done (record d { pending_osd_devs = d.pending_osd_devs ++ devs })
  unfolding add_labels add_label text_eq c_str
  osd_labels [] d = rw append-nil refl
  osd_labels (dev ∷ devs) d =
      osd_labels devs (record d { pending_osd_devs = push_back d.pending_osd_devs dev })
      ∙ simp append_assoc

  jnl_labels :
      (devs : List Text) (d : DiskExecutor)
      → add_labels w (map (label jnldevs_key) devs) d
        ≡ done (record d { pending_jnl_devs = d.pending_jnl_devs ++ devs })
  unfolding add_labels add_label text_eq c_str
  jnl_labels [] d = rw append-nil refl
  jnl_labels (dev ∷ devs) d =
      jnl_labels devs (record d { pending_jnl_devs = push_back d.pending_jnl_devs dev })
      ∙ simp append_assoc

  count_label :
      (lex : IsLexical w) (n : ℤ) (d : DiskExecutor)
      → add_labels w (label jnl_partition_count_key (w.print_int n) ∷ []) d
        ≡ done (record d { jnl_partition_count = n })
  unfolding add_labels add_label text_eq c_str
  count_label lex n d = rw (lex.parse-print n) refl

  disk_labels :
      (lex : IsLexical w) (config : Config) (offer : Offer) (hc : HostConfig) (now : ℤ)
      (d : DiskExecutor)
      → add_labels w (disk_task w config offer hc now).labels d
        ≡ done (record d {
          pending_osd_devs = d.pending_osd_devs ++ hc.pending_osd_devs;
          pending_jnl_devs = d.pending_jnl_devs ++ hc.pending_jnl_devs;
          jnl_partition_count = hc.jnl_parts_count;
        })
  unfolding disk_task
  disk_labels lex config offer hc now d =
      rw
        (
          add_labels-append,
          add_labels-append,
          osd_labels hc.pending_osd_devs,
          jnl_labels hc.pending_jnl_devs,
          count_label lex hc.jnl_parts_count,
        )
        refl

  labelled :
      (task : TaskInfo) (d : DiskExecutor) (ls : List Label)
      → task.labels ≡ ls
      → ls ≢ []
      → launch_task w task d
        ≡ (add_labels w ls (record d { my_task_id = task.task_id }) >>= finish_task w)
  unfolding launch_task
  labelled task d [] e ne = absurd (ne refl)
  labelled task d (l ∷ ls) e ne = rw (e, launch_task) refl

  snoc-ne-nil : (ls : List Label) (l : Label) → ls ++ l ∷ [] ≢ []
  snoc-ne-nil [] l e = ground arith
  snoc-ne-nil (x ∷ ls) l e = ground arith

  -- As long as lexical_cast reads back what it prints, the disk task that the scheduler builds for
  -- a host is read by that host's disk executor as it was meant: it prepares exactly the host's
  -- pending devices, with the host's number of journal partitions, and reports on that task.
  pub launch-disk_task :
      (lex : IsLexical w) (config : Config) (offer : Offer) (hc : HostConfig) (now : ℤ)
      (host : Text)
      → let task = disk_task w config offer hc now in
        launch_task w task (new_disk_executor host)
        ≡ finish_task w (record (new_disk_executor host) {
          my_task_id = task.task_id;
          pending_osd_devs = hc.pending_osd_devs;
          pending_jnl_devs = hc.pending_jnl_devs;
          jnl_partition_count = hc.jnl_parts_count;
        })
  unfolding new_disk_executor
  launch-disk_task lex config offer hc now host =
      let task = disk_task w config offer hc now in
      labelled task (new_disk_executor host) task.labels refl (unfold disk_task in snoc-ne-nil _ _)
      ∙ rw (disk_labels lex config offer hc now) refl
