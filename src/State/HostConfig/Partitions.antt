-- ===== src/State/HostConfig/Partitions.antt =====
-- `updateDiskPartition` of src/state/HostConfig.hpp against a description of it by filters and maps,
-- and the partitions as a stack.
use mathlib.Core.List.{flat_map}
use ceph_mesos.Prelude.{
  Bool-cases, List, Text, [], ap, append-nil, append_assoc, arith, codes, inl, inr, map, negsuc,
  not, pos, refl, select, suc, unsnoc-push_back, zero, ℕ, ℤ, ◌++◌, ◌+◌, ◌∙◌, ◌∷◌, ◌≡◌,
}
use ceph_mesos.Common.World.{World}
use ceph_mesos.State.HostConfig.{
  HostConfig, add_jnl_partition, add_jnl_partitions, add_osd_partition, contains,
  pop_journal_partition, pop_osd_partition, rounds, update_disk_partition, update_jnl_devs,
  update_osd_devs,
}
use ceph_mesos.State.StateMachine.Counting.{count}

abbrev pub healthy : List Text → List Text → List Text
healthy failed_devs = select (λ dev. not (contains failed_devs dev))

abbrev pub listed : List Text → List Text → List Text
listed failed_devs = select (contains failed_devs)

-- The only partition of an OSD device.
abbrev first_partition : Text → Text
first_partition dev = dev ++ codes "1"

-- The partitions of a journal device, from number `j` on.
abbrev pub numbered : World → Text → ℕ → ℕ → List Text
numbered w dev zero j = []
numbered w dev (suc left) j = (dev ++ w.print_int (pos j)) ∷ numbered w dev left (suc j)

-- The partitions of a journal device whose numbers are 1, 2 and so on up to the count.
abbrev pub one_to : World → Text → ℕ → List Text
one_to w dev zero = []
one_to w dev (suc n) = one_to w dev n ++ (dev ++ w.print_int (pos (suc n))) ∷ []

-- A count that is not positive gives none.
abbrev pub journals_of : World → ℤ → Text → List Text
journals_of w (pos n) dev = one_to w dev n
journals_of w (negsuc _) dev = []

numbered_last :
    (w : World) (dev : Text) (n j last : ℕ)
    → last ≡ j + n
    → numbered w dev (suc n) j ≡ numbered w dev n j ++ (dev ++ w.print_int (pos last)) ∷ []
numbered_last w dev zero j last e = ground arith
numbered_last w dev (suc n) j last e =
    ap (◌∷◌ (dev ++ w.print_int (pos j))) (numbered_last w dev n (suc j) last (omega arith))

numbered-one_to : (w : World) (dev : Text) (n : ℕ) → numbered w dev n 1 ≡ one_to w dev n
numbered-one_to w dev zero = refl
numbered-one_to w dev (suc n) =
    numbered_last w dev n 1 (suc n) (omega arith)
    ∙ ap (λ t. t ++ (dev ++ w.print_int (pos (suc n))) ∷ []) (numbered-one_to w dev n)

numbered-journals_of :
    (w : World) (count : ℤ) (dev : Text) → numbered w dev (rounds count) 1 ≡ journals_of w count dev
numbered-journals_of w (pos n) dev = numbered-one_to w dev n
numbered-journals_of w (negsuc n) dev = refl

update_osd_devs_lem :
    (failed_devs devs : List Text) (hc : HostConfig)
    → update_osd_devs failed_devs devs hc ≡ record hc {
      osd_partitions = hc.osd_partitions ++ map first_partition (healthy failed_devs devs);
      failed_osd_devs = hc.failed_osd_devs ++ listed failed_devs devs;
    }
unfolding update_osd_devs
update_osd_devs_lem failed_devs [] hc = simp append-nil
update_osd_devs_lem failed_devs (dev ∷ devs) hc = elim (Bool-cases (contains failed_devs dev)) [
  | inl bad ↦ rw (bad, update_osd_devs_lem failed_devs devs) (simp append_assoc)
  | inr good ↦ rw (good, update_osd_devs_lem failed_devs devs) (simp append_assoc)
]

add_jnl_partitions_lem :
    (w : World) (dev : Text) (left j : ℕ) (hc : HostConfig)
    → add_jnl_partitions w dev left j hc
      ≡ record hc { jnl_partitions = hc.jnl_partitions ++ numbered w dev left j }
unfolding add_jnl_partitions
add_jnl_partitions_lem w dev zero j hc = simp append-nil
add_jnl_partitions_lem w dev (suc left) j hc =
    rw (add_jnl_partitions_lem w dev left (suc j)) (simp append_assoc)

update_jnl_devs_lem :
    (w : World) (failed_devs : List Text) (count : ℤ) (devs : List Text) (hc : HostConfig)
    → update_jnl_devs w failed_devs count devs hc ≡ record hc {
      jnl_partitions =
          hc.jnl_partitions ++ flat_map (journals_of w count) (healthy failed_devs devs);
      failed_jnl_devs = hc.failed_jnl_devs ++ listed failed_devs devs;
    }
unfolding update_jnl_devs flat_map
update_jnl_devs_lem w failed_devs count [] hc = simp append-nil
update_jnl_devs_lem w failed_devs count (dev ∷ devs) hc =
    elim (Bool-cases (contains failed_devs dev)) [
      | inl bad ↦ rw (bad, update_jnl_devs_lem w failed_devs count devs) (simp append_assoc)
      | inr good ↦
          rw
            (
              good,
              add_jnl_partitions_lem,
              numbered-journals_of,
              update_jnl_devs_lem w failed_devs count devs,
            )
            (simp append_assoc)
    ]

pub update_disk_partition_lem :
    (w : World) (failed_devs : List Text) (count : ℤ) (hc : HostConfig)
    → update_disk_partition w failed_devs count hc ≡ record hc {
      osd_partitions =
          hc.osd_partitions ++ map first_partition (healthy failed_devs hc.pending_osd_devs);
      failed_osd_devs = hc.failed_osd_devs ++ listed failed_devs hc.pending_osd_devs;
      jnl_partitions =
          hc.jnl_partitions
          ++ flat_map (journals_of w count) (healthy failed_devs hc.pending_jnl_devs);
      failed_jnl_devs = hc.failed_jnl_devs ++ listed failed_devs hc.pending_jnl_devs;
      pending_osd_devs = [];
      pending_jnl_devs = [];
    }
unfolding update_disk_partition
update_disk_partition_lem w failed_devs count hc =
    rw (update_osd_devs_lem failed_devs hc.pending_osd_devs hc, update_jnl_devs_lem)

-- A pop gives back the partition that was added last, and the host as it was before.
pub pop-add-partition :
    (par : Text) (hc : HostConfig)
    → (pop_osd_partition (add_osd_partition par hc) ≡ (par, hc))
      × (pop_journal_partition (add_jnl_partition par hc) ≡ (par, hc))
unfolding pop_osd_partition pop_journal_partition add_osd_partition add_jnl_partition
pop-add-partition par hc = (
  rw (unsnoc-push_back hc.osd_partitions par, pop_osd_partition),
  rw (unsnoc-push_back hc.jnl_partitions par, pop_journal_partition),
)
