-- ===== src/Executor/Disk/Launch.antt =====
-- `prepareDisks`, `addPendingDisks` and `launchTask` of src/executor/DiskExecutor.cpp.
use ceph_mesos.Prelude.{
  Bool, List, Option, Text, [], codes, false, if◌then◌else◌, none, pos, pos_part, push_back, some,
  suc, text_eq, true, zero, ℕ, ◌++◌, ◌∷◌,
}
use ceph_mesos.Common.StringUtil.{c_str}
use ceph_mesos.Common.TaskType.{jnl_partition_count_key, jnldevs_key, osddevs_key}
use ceph_mesos.Common.World.{World}
use ceph_mesos.Executor.Disk.{
  DiskExecutor, check_success, jnl_label, mkfs_disk, osd_label, partition_disk,
}
use ceph_mesos.Scheduler.Driver.{Label, Outcome, TaskStateCode, done, thrown, undefined}

infixl 5 ◌>>=◌
abbrev pub ◌>>=◌ :
    Outcome DiskExecutor → (DiskExecutor → Outcome DiskExecutor) → Outcome DiskExecutor
done d >>= f = f d
thrown d >>= f = thrown d
undefined >>= f = undefined

abbrev pub fail_osd : Text → DiskExecutor → DiskExecutor
fail_osd dev d = record d { failed_osd_devs = push_back d.failed_osd_devs dev }

abbrev pub fail_jnl : Text → DiskExecutor → DiskExecutor
fail_jnl dev d = record d { failed_jnl_devs = push_back d.failed_jnl_devs dev }

-- What is done with the answer of `checkSuccess`.
abbrev pub record_check :
    (DiskExecutor → DiskExecutor) → Option Bool × DiskExecutor → Outcome DiskExecutor
record_check mark (none, d) = thrown d
record_check mark (some true, d) = done d
record_check mark (some false, d) = done (mark d)

module _ (w : World) where
  unfoldable pub prepare_osd : Text → DiskExecutor → Outcome DiskExecutor
  prepare_osd dev d0 = do
    d1 ← partition_disk w dev (pos 1) osd_label d0
    record_check (fail_osd dev)
        (check_success w dev (pos 1) osd_label (mkfs_disk w (codes "/dev/" ++ dev ++ codes "1") d1))

  -- The inner loop: the rounds left, and the number of this one.
  unfoldable pub mkfs_all : Text → ℕ → ℕ → DiskExecutor → DiskExecutor
  mkfs_all dev zero j d = d
  mkfs_all dev (suc left) j d =
      mkfs_all dev left (suc j) (mkfs_disk w (codes "/dev/" ++ dev ++ w.print_int (pos j)) d)

  unfoldable pub prepare_jnl : Text → DiskExecutor → Outcome DiskExecutor
  unfolding mkfs_all
  prepare_jnl dev d0 = do
    d1 ← partition_disk w dev d0.jnl_partition_count jnl_label d0
    record_check (fail_jnl dev) (
        check_success w dev d0.jnl_partition_count jnl_label
          (mkfs_all dev (pos_part d0.jnl_partition_count) 1 d1))

  unfoldable pub prepare_each :
      (Text → DiskExecutor → Outcome DiskExecutor) → List Text → DiskExecutor → Outcome DiskExecutor
  prepare_each prepare [] d = done d
  prepare_each prepare (dev ∷ devs) d = prepare dev d >>= prepare_each prepare devs

  unfoldable pub prepare_disks : DiskExecutor → Outcome DiskExecutor
  unfolding prepare_osd prepare_jnl prepare_each
  prepare_disks d0 = do
    d1 ← prepare_each prepare_osd d0.pending_osd_devs d0
    prepare_each prepare_jnl d1.pending_jnl_devs d1

  -- One label of the task, compared by `strcmp`; the three tests are on different keys.
  unfoldable pub add_label : Label → DiskExecutor → Outcome DiskExecutor
  unfolding c_str
  add_label l d =
      if text_eq osddevs_key (c_str l.key)
      then done (record d { pending_osd_devs = push_back d.pending_osd_devs l.value })
      else if text_eq jnldevs_key (c_str l.key)
      then done (record d { pending_jnl_devs = push_back d.pending_jnl_devs l.value })
      else if text_eq jnl_partition_count_key (c_str l.key)
      then (elim (w.parse_int l.value) [
        | none ↦ thrown d
        | some n ↦ done (record d { jnl_partition_count = n })
      ])
      else done d

  unfoldable pub add_labels : List Label → DiskExecutor → Outcome DiskExecutor
  unfolding add_label
  add_labels [] d = done d
  add_labels (l ∷ ls) d = add_label l d >>= add_labels ls

abbrev pub send_update : TaskStateCode → Option Text → DiskExecutor → DiskExecutor
send_update state msg d = record d {
  sent = push_back d.sent (record { task_id = d.my_task_id; state = state; message = msg });
}
