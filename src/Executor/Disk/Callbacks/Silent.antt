-- ===== src/Executor/Disk/Callbacks/Silent.antt =====
-- The steps of the executor of src/executor/DiskExecutor.cpp that report nothing.
use ceph_mesos.Prelude.{
  Bool, List, Option, Text, [], arith, false, negsuc, none, pos, pos_part, some, suc, true, zero, ℕ,
  ℤ, ◌∷◌, ◌≡◌,
}
use ceph_mesos.Common.World.{World}
use ceph_mesos.Executor.Disk.{
  DiskExecutor, check_success, count_lines, jnl_label, mkfs_disk, osd_label, partition_disk,
}
use ceph_mesos.Executor.Disk.Launch.{
  add_label, add_labels, fail_jnl, fail_osd, mkfs_all, prepare_disks, prepare_each, prepare_jnl,
  prepare_osd, record_check, ◌>>=◌,
}
use ceph_mesos.Scheduler.Driver.{Label, Outcome, TaskStatus, done, thrown, undefined}

-- What holds of a result, if there is one.
abbrev pub IfDone : (DiskExecutor → Type 0) → Outcome DiskExecutor → Type 0
IfDone P (done d) = P d
IfDone P (thrown d) = Unit
IfDone P undefined = Unit

pub bind-IfDone :
    (P Q : DiskExecutor → Type 0) (o : Outcome DiskExecutor)
    (f : DiskExecutor → Outcome DiskExecutor)
    → IfDone P o
    → ((d : DiskExecutor) → P d → IfDone Q (f d))
    → IfDone Q (o >>= f)
bind-IfDone P Q (done d) f h k = k d h
bind-IfDone P Q (thrown d) f h k = tt
bind-IfDone P Q undefined f h k = tt

-- The same own task and the same reports.
abbrev pub Silent : Text → List TaskStatus → DiskExecutor → Type 0
Silent own sent d = (d.my_task_id ≡ own) × (d.sent ≡ sent)

module _ (w : World) (own : Text) (sent : List TaskStatus) where
  add_label-Silent :
      (l : Label) (d : DiskExecutor)
      → Silent own sent d
      → IfDone (Silent own sent) (add_label w l d)
  unfolding add_label
  add_label-Silent l d h = ground (arith, h)

  pub add_labels-Silent :
      (ls : List Label) (d : DiskExecutor)
      → Silent own sent d
      → IfDone (Silent own sent) (add_labels w ls d)
  unfolding add_labels
  add_labels-Silent [] d h = h
  add_labels-Silent (l ∷ ls) d h =
      bind-IfDone (Silent own sent) (Silent own sent) _ _ (add_label-Silent l d h)
        (add_labels-Silent ls)

  partition_disk-Silent :
      (dev : Text) (count : ℤ) (line : Text) (d : DiskExecutor)
      → Silent own sent d
      → IfDone (Silent own sent) (partition_disk w dev count line d)
  unfolding partition_disk
  partition_disk-Silent dev (pos zero) line d h = tt
  partition_disk-Silent dev (pos (suc n)) line d h = h
  partition_disk-Silent dev (negsuc n) line d h = h

  mkfs_all-Silent :
      (dev : Text) (left j : ℕ) (d : DiskExecutor)
      → Silent own sent d
      → Silent own sent (mkfs_all w dev left j d)
  unfolding mkfs_all mkfs_disk
  mkfs_all-Silent dev zero j d h = h
  mkfs_all-Silent dev (suc left) j d h = mkfs_all-Silent dev left (suc j) _ h

  check_success-Silent :
      (dev : Text) (wanted : ℤ) (line : Text) (d : DiskExecutor)
      → Silent own sent d
      → Silent own sent (check_success w dev wanted line d).1
  unfolding check_success count_lines
  check_success-Silent dev wanted line d h = ground (arith, h)

  checked-Silent :
      (mark : DiskExecutor → DiskExecutor) (r : Option Bool × DiskExecutor)
      → ((x : DiskExecutor) → Silent own sent x → Silent own sent (mark x))
      → Silent own sent r.1
      → IfDone (Silent own sent) (record_check mark r)
  checked-Silent mark (none, d) k h = tt
  checked-Silent mark (some true, d) k h = h
  checked-Silent mark (some false, d) k h = k d h

  record_check-Silent :
      (mark : DiskExecutor → DiskExecutor) (dev : Text) (wanted : ℤ) (line : Text)
      (d : DiskExecutor)
      → ((x : DiskExecutor) → Silent own sent x → Silent own sent (mark x))
      → Silent own sent d
      → IfDone (Silent own sent) (record_check mark (check_success w dev wanted line d))
  record_check-Silent mark dev wanted line d k h =
      checked-Silent mark _ k (check_success-Silent dev wanted line d h)

  prepare_osd-Silent :
      (dev : Text) (d : DiskExecutor)
      → Silent own sent d
      → IfDone (Silent own sent) (prepare_osd w dev d)
  unfolding prepare_osd mkfs_disk
  prepare_osd-Silent dev d h =
      bind-IfDone (Silent own sent) (Silent own sent) _ _
        (partition_disk-Silent dev (pos 1) osd_label d h)
        (λ x l. record_check-Silent (fail_osd dev) dev (pos 1) osd_label _ (λ y m. m) l)

  prepare_jnl-Silent :
      (dev : Text) (d : DiskExecutor)
      → Silent own sent d
      → IfDone (Silent own sent) (prepare_jnl w dev d)
  unfolding prepare_jnl
  prepare_jnl-Silent dev d h =
      let count = d.jnl_partition_count in
      bind-IfDone (Silent own sent) (Silent own sent) _ _
        (partition_disk-Silent dev count jnl_label d h)
        (λ x l.
          record_check-Silent (fail_jnl dev) dev count jnl_label _ (λ y m. m)
            (mkfs_all-Silent dev (pos_part count) 1 x l))

  prepare_each-Silent :
      (prepare : Text → DiskExecutor → Outcome DiskExecutor)
      → ((dev : Text) (d : DiskExecutor)
          → Silent own sent d
          → IfDone (Silent own sent) (prepare dev d))
      → (devs : List Text) (d : DiskExecutor) → Silent own sent d
      → IfDone (Silent own sent) (prepare_each w prepare devs d)
  unfolding prepare_each
  prepare_each-Silent prepare k [] d h = h
  prepare_each-Silent prepare k (dev ∷ devs) d h =
      bind-IfDone (Silent own sent) (Silent own sent) _ _ (k dev d h)
        (prepare_each-Silent prepare k devs)

  pub prepare_disks-Silent :
      (d : DiskExecutor) → Silent own sent d → IfDone (Silent own sent) (prepare_disks w d)
  unfolding prepare_disks
  prepare_disks-Silent d h =
      bind-IfDone (Silent own sent) (Silent own sent) _ _
        (prepare_each-Silent (prepare_osd w) prepare_osd-Silent d.pending_osd_devs d h)
        (λ x. prepare_each-Silent (prepare_jnl w) prepare_jnl-Silent x.pending_jnl_devs x)
