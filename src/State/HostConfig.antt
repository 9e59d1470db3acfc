-- ===== src/State/HostConfig.antt =====
-- src/state/HostConfig.hpp: the devices of one host, from raw disks to partitions.
pub mod Partitions
pub mod Printing
use ceph_mesos.Prelude.{
  Bool, List, Option, Text, [], codes, false, if◌then◌else◌, is_empty, none, not, pos, pos_part,
  push_back, some, suc, text_eq, true, unsnoc, zero, ℕ, ℤ, ◌++◌, ◌||◌, ◌∷◌,
}
use ceph_mesos.Common.Config.{Config, get_config_by_hostname}
use ceph_mesos.Common.World.{World}

pub record HostConfig : Type 0 where
  pub done_disk_preparation : Bool
  pub is_preparing_disk : Bool
  pub pending_osd_devs : List Text
  pub pending_jnl_devs : List Text
  pub jnl_parts_count : ℤ
  pub failed_osd_devs : List Text
  pub failed_jnl_devs : List Text
  pub osd_partitions : List Text
  pub jnl_partitions : List Text
  pub original_config : Config
  pub hostname : Text

-- `HostConfig(Config*)`, which leaves the partition count unset
unfoldable pub default_host_config : World → Config → HostConfig
default_host_config w config = record {
  done_disk_preparation = false;
  is_preparing_disk = false;
  pending_osd_devs = [];
  pending_jnl_devs = [];
  jnl_parts_count = w.indeterminate;
  failed_osd_devs = [];
  failed_jnl_devs = [];
  osd_partitions = [];
  jnl_partitions = [];
  original_config = config;
  hostname = [];
}

unfoldable pub host_config_of : Text → Config → HostConfig
host_config_of name config = record {
  done_disk_preparation = false;
  is_preparing_disk = false;
  pending_osd_devs = config.osddevs;
  pending_jnl_devs = config.jnldevs;
  jnl_parts_count = config.jnlparts;
  failed_osd_devs = [];
  failed_jnl_devs = [];
  osd_partitions = [];
  jnl_partitions = [];
  original_config = config;
  hostname = name;
}

-- `HostConfig(string)`: reads the host's configuration, which may throw
unfoldable pub new_host_config : World → Text → Option HostConfig
unfolding host_config_of
new_host_config w name = elim (get_config_by_hostname w name) [
  | none ↦ none
  | some config ↦ some (host_config_of name config)
]

-- `reload` is empty in the source
unfoldable pub reload : HostConfig → HostConfig
reload hc = hc

unfoldable pub pop_osd_partition : HostConfig → Text × HostConfig
pop_osd_partition hc = elim (unsnoc hc.osd_partitions) [
  | none ↦ ([], hc)
  | some (rest, p) ↦ (p, record hc { osd_partitions = rest })
]

unfoldable pub pop_journal_partition : HostConfig → Text × HostConfig
pop_journal_partition hc = elim (unsnoc hc.jnl_partitions) [
  | none ↦ ([], hc)
  | some (rest, p) ↦ (p, record hc { jnl_partitions = rest })
]

unfoldable pub contains : List Text → Text → Bool
contains [] s = false
contains (x ∷ origin) s = text_eq s x || contains origin s

unfoldable pub add_osd_partition : Text → HostConfig → HostConfig
add_osd_partition par hc = record hc { osd_partitions = push_back hc.osd_partitions par }

unfoldable pub add_jnl_partition : Text → HostConfig → HostConfig
add_jnl_partition par hc = record hc { jnl_partitions = push_back hc.jnl_partitions par }

-- The loop over `pendingOSDDevs`.
unfoldable pub update_osd_devs : List Text → List Text → HostConfig → HostConfig
unfolding add_osd_partition
update_osd_devs failed_devs [] hc = hc
update_osd_devs failed_devs (dev ∷ devs) hc = update_osd_devs failed_devs devs (
    if contains failed_devs dev
    then record hc { failed_osd_devs = push_back hc.failed_osd_devs dev }
    else add_osd_partition (dev ++ codes "1") hc)

-- The rounds of `for (int j = 1; j < count + 1; j++)`.
abbrev pub rounds : ℤ → ℕ
rounds count = pos_part count

module _ (w : World) where
  -- The inner loop, from `j` on for the rounds that are left.
  unfoldable pub add_jnl_partitions : Text → ℕ → ℕ → HostConfig → HostConfig
  unfolding add_jnl_partition
  add_jnl_partitions dev zero j hc = hc
  add_jnl_partitions dev (suc left) j hc =
      add_jnl_partitions dev left (suc j) (add_jnl_partition (dev ++ w.print_int (pos j)) hc)

  -- The loop over `pendingJNLDevs`.
  unfoldable pub update_jnl_devs : List Text → ℤ → List Text → HostConfig → HostConfig
  update_jnl_devs failed_devs count [] hc = hc
  update_jnl_devs failed_devs count (dev ∷ devs) hc = update_jnl_devs failed_devs count devs (
      if contains failed_devs dev
      then record hc { failed_jnl_devs = push_back hc.failed_jnl_devs dev }
      else add_jnl_partitions dev (rounds count) 1 hc)

  unfoldable pub update_disk_partition : List Text → ℤ → HostConfig → HostConfig
  update_disk_partition failed_devs count hc =
      let hc1 = update_osd_devs failed_devs hc.pending_osd_devs hc in
      let hc2 = update_jnl_devs failed_devs count hc1.pending_jnl_devs hc1 in
      record hc2 { pending_osd_devs = []; pending_jnl_devs = [] }

unfoldable pub have_pending_osd_devs : HostConfig → Bool
have_pending_osd_devs hc = not (is_empty hc.pending_osd_devs)

unfoldable pub have_pending_jnl_devs : HostConfig → Bool
have_pending_jnl_devs hc = not (is_empty hc.pending_jnl_devs)

unfoldable pub set_disk_preparation_on_going : HostConfig → HostConfig
set_disk_preparation_on_going hc = record hc {
  is_preparing_disk = true;
  done_disk_preparation = false;
}

unfoldable pub set_disk_preparation_done : HostConfig → HostConfig
set_disk_preparation_done hc = record hc { is_preparing_disk = false; done_disk_preparation = true }
