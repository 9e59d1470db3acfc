-- ===== src/Executor/Disk.antt =====
-- src/executor/DiskExecutor.cpp and DiskExecutor.hpp: partitions the raw disks of a host, and reports
-- those that failed. Each shell command is logged; its output is the world's.
pub mod Launch
pub mod Report
pub mod RoundTrip
pub mod Ranges
pub mod Labels
pub mod Prepared
pub mod Failed
pub mod Lifecycle
pub mod Callbacks
use ceph_mesos.Prelude.{
  Bool, List, Option, Text, [], codes, eqb_ℤ, if◌then◌else◌, map, negsuc, none, pos, push_back,
  some, suc, take, zero, ℕ, ℤ, ◌&&◌, ◌++◌, ◌+◌, ◌/◌, ◌==◌, ◌∷◌,
}
use ceph_mesos.Common.World.{World}
use ceph_mesos.Executor.Shell.{run_shell_command}
use ceph_mesos.Scheduler.Agent.Launch.{label}
use ceph_mesos.Scheduler.Driver.{Outcome, TaskStatus, done, undefined}
use ceph_mesos.State.StateMachine.Counting.{count}

pub record DiskExecutor : Type 0 where
  pub my_task_id : Text
  pub my_hostname : Text
  pub pending_osd_devs : List Text
  pub pending_jnl_devs : List Text
  pub failed_osd_devs : List Text
  pub failed_jnl_devs : List Text
  pub jnl_partition_count : ℤ
  -- the shell commands run so far
  pub commands : List Text
  -- the status updates sent so far
  pub sent : List TaskStatus

-- The executor as it registers on a host.
unfoldable pub new_disk_executor : Text → DiskExecutor
new_disk_executor hostname = record {
  my_task_id = [];
  my_hostname = hostname;
  pending_osd_devs = [];
  pending_jnl_devs = [];
  failed_osd_devs = [];
  failed_jnl_devs = [];
  jnl_partition_count = pos 4;
  commands = [];
  sent = [];
}

abbrev pub fs_type : Text
fs_type = codes "xfs"

abbrev pub mkfs_flags : Text
mkfs_flags = codes " -f -i size=2048 -n size=64k"

abbrev pub osd_label : Text
osd_label = codes "cephosddata"

abbrev pub jnl_label : Text
jnl_label = codes "cephjnldata"

abbrev pub log_command : Text → DiskExecutor → DiskExecutor
log_command cmd d = record d { commands = push_back d.commands cmd }

-- The range of one `mkpart`: its number, its start and its end. The start of the first is in
-- megabytes, the others, and all ends, in percent.
pub record Range : Type 0 where
  pub number : ℕ
  pub first : ℕ
  pub last : ℕ

-- The loop of `partitionDisk`: the rounds left, the number of this one, its start and its end, and
-- the share of each partition, `100 / partitionCount`.
unfoldable pub ranges_from : ℕ → ℕ → ℕ → ℕ → ℕ → List Range
ranges_from zero i start end share = []
ranges_from (suc left) i start end share =
    record { number = i; first = start; last = end }
    ∷ ranges_from left (suc i) end (end + share) share

unfoldable pub partition_ranges : ℕ → List Range
unfolding ranges_from
partition_ranges count = ranges_from count 0 1 (100 / count) (100 / count)

module _ (w : World) where
  unfoldable pub mkpart_command : Text → Text → Range → Text
  mkpart_command diskpath label r =
      codes "parted "
      ++ diskpath
      ++ codes " mkpart "
      ++ label
      ++ codes " "
      ++ w.print_int (pos r.first)
      ++ (if r.number == 0 then [] else codes "%")
      ++ codes " "
      ++ w.print_int (pos r.last)
      ++ codes "%"
      ++ codes " &>/dev/null 2>/dev/null"

  -- The commands of `partitionDisk`; its result is nothing, and no output is looked at.
  unfoldable pub partition_commands : Text → ℕ → Text → List Text
  unfolding mkpart_command partition_ranges
  partition_commands diskname count label =
      let diskpath = codes "/dev/" ++ diskname in
      (codes "dd if=/dev/zero of="
        ++ diskpath
        ++ codes " bs=4M count=1 oflag=direct 2>/dev/null;echo $?")
      ∷ (codes "parted " ++ diskpath ++ codes "  mklabel gpt &>/dev/null 2>/dev/null")
      ∷ map (mkpart_command diskpath label) (partition_ranges count)

  -- A count of 0 divides by zero; with a negative count the loop makes no round.
  unfoldable pub partition_disk : Text → ℤ → Text → DiskExecutor → Outcome DiskExecutor
  unfolding partition_commands
  partition_disk diskname (pos zero) label d = undefined
  partition_disk diskname (pos (suc n)) label d =
      done (record d { commands = d.commands ++ partition_commands diskname (suc n) label })
  partition_disk diskname (negsuc n) label d =
      done (record d { commands = d.commands ++ take 2 (partition_commands diskname 1 label) })

  unfoldable pub mkfs_disk : Text → DiskExecutor → DiskExecutor
  mkfs_disk partition =
      log_command (codes "mkfs." ++ fs_type ++ mkfs_flags ++ codes " " ++ partition)

  unfoldable pub count_command : Text → Text → Text
  count_command diskname word =
      codes "parted /dev/" ++ diskname ++ codes " p |grep " ++ word ++ codes "|wc -l"

  -- One of the two counts of `checkSuccess`; `lexical_cast` may throw.
  unfoldable pub count_lines : Text → Text → DiskExecutor → Option ℤ × DiskExecutor
  unfolding run_shell_command count_command
  count_lines diskname word d =
      let cmd = count_command diskname word in
      (w.parse_int (run_shell_command w d.commands cmd), log_command cmd d)

  unfoldable pub check_success : Text → ℤ → Text → DiskExecutor → Option Bool × DiskExecutor
  unfolding count_lines
  check_success diskname count label d =
      let (partitions, d1) = count_lines diskname label d in
      let (filesystems, d2) = count_lines diskname fs_type d1 in
      elim partitions [
        | none ↦ (none, d1)
        | some p ↦ elim filesystems [
          | none ↦ (none, d2)
          | some f ↦ (some (eqb_ℤ count p && eqb_ℤ count f), d2)
        ]
      ]
