-- ===== src/Executor/Disk/Failed.antt =====
-- Which disks `prepareDisks` of src/executor/DiskExecutor.cpp takes for failed ones.
use ceph_mesos.Prelude.{Bool, List, Text, eqb_ℤ, not, select, some, ℤ, ◌&&◌, ◌++◌, ◌≡◌}
use ceph_mesos.Common.World.{World}
use ceph_mesos.Executor.Disk.{DiskExecutor, count_command, fs_type}
use ceph_mesos.Executor.Shell.{run_shell_command}
use ceph_mesos.Scheduler.Driver.{Outcome, done}

-- The shell can be started, and once a disk has been partitioned, what is counted on it depends on the disk
-- and the word alone.
pub record IsSteady (w : World) (lines : Text → Text → ℤ) : Type 0 where
  pub steady :
      (before : List Text) (diskname word : Text)
      → w.parse_int (run_shell_command w before (count_command w diskname word))
        ≡ some (lines diskname word)

-- As many partitions with the label as wanted, and as many file systems.
abbrev pub passes : (Text → Text → ℤ) → ℤ → Text → Text → Bool
passes lines wanted line dev = eqb_ℤ wanted (lines dev line) && eqb_ℤ wanted (lines dev fs_type)

abbrev pub rejected : (Text → Text → ℤ) → ℤ → Text → List Text → List Text
rejected lines wanted line = select (λ dev. not (passes lines wanted line dev))

-- The result is an executor with these devices added to the failed ones, and the same pending journal
-- devices and count.
abbrev pub Marks : List Text → List Text → DiskExecutor → Outcome DiskExecutor → Type 0
Marks osds jnls d o =
    (e : DiskExecutor) × (o ≡ done e)
    × (e.failed_osd_devs ≡ d.failed_osd_devs ++ osds)
    × (e.failed_jnl_devs ≡ d.failed_jnl_devs ++ jnls)
    × (e.pending_jnl_devs ≡ d.pending_jnl_devs)
    × (e.jnl_partition_count ≡ d.jnl_partition_count)
