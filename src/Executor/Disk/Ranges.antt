-- ===== src/Executor/Disk/Ranges.antt =====
-- The percentages of `partitionDisk`: consecutive, and within the disk.
use native.Mathlib.Nat.{div-mul-le_self, le-div_iff_mul-le}
use ceph_mesos.Prelude.{
  All, List, [], ap, arith, length, refl, suc, zero, ℕ, ◌*◌, ◌+◌, ◌/◌, ◌∷◌, ◌≡◌, ◌≤◌,
}
use ceph_mesos.Executor.Disk.{Range, partition_ranges, ranges_from}

-- Each range starts where the one before it ended, and has the given size.
abbrev pub Consecutive : ℕ → ℕ → List Range → Type 0
Consecutive share end [] = Unit
Consecutive share end (r ∷ rs) =
    (r.first ≡ end) × (r.last ≡ end + share) × Consecutive share (end + share) rs

later-Consecutive :
    (left i end share : ℕ) → Consecutive share end (ranges_from left i end (end + share) share)
unfolding ranges_from
later-Consecutive zero i end share = tt
later-Consecutive (suc left) i end share =
    (refl, refl, later-Consecutive left (suc i) (end + share) share)

later-Within :
    (left i start end share n : ℕ)
    → end + left * share ≤ n + share
    → All (λ r. r.last ≤ n) (ranges_from left i start end share)
unfolding ranges_from
later-Within zero i start end share n h = tt
later-Within (suc left) i start end share n h =
    (omega arith, later-Within left (suc i) end (end + share) share n (omega arith))

later-length : (left i start end share : ℕ) → length (ranges_from left i start end share) ≡ left
unfolding ranges_from
later-length zero i start end share = refl
later-length (suc left) i start end share =
    omega (arith, later-length left (suc i) end (end + share) share)

-- With a count from 1 to 100, `partitionDisk` makes that many partitions: the first one begins at the
-- first megabyte, each further one where the one before it ends, all have the same share of the disk,
-- which is at least one percent, and none ends beyond the end of the disk.
pub partition_ranges_lem :
    (n : ℕ)
    → suc n ≤ 100
    → let share = 100 / suc n in
      let rest = ranges_from n 1 share (share + share) share in
      (partition_ranges (suc n) ≡ record { number = 0; first = 1; last = share } ∷ rest)
      × Consecutive share share rest
      × All (λ r. r.last ≤ 100) (partition_ranges (suc n))
      × (length (partition_ranges (suc n)) ≡ suc n)
      × (1 ≤ share)
unfolding partition_ranges ranges_from
partition_ranges_lem n few =
    let share = 100 / suc n in
    let whole = div-mul-le_self 100 (suc n) in
    (
      refl,
      later-Consecutive n 1 share share,
      (
        omega (arith, whole),
        later-Within n 1 share (share + share) share 100 (omega (arith, whole)),
      ),
      ap suc (later-length n 1 share (share + share) share),
      (le-div_iff_mul-le {x = 1} {y = 100} (omega arith)).1 (omega arith),
    )
