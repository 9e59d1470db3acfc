-- ===== src/State/StateMachine/Counting.antt =====
-- The counters of `StateMachine` against the task map: which status changes `updateCounters`
-- accounts for, and that it accounts for no other.
pub mod Account
pub mod Unaccounted
pub mod Histories
use ceph_mesos.Prelude.{
  Bool, Bool-cases, Table, Text, [], arith, bit, false, find, inl, inr, insert, none, pos, some,
  text_eq, true, ℕ, ℤ, ◌&&◌, ◌+◌, ◌∷◌, ◌≡◌,
}
use ceph_mesos.Common.TaskType.{TaskType, mon, osd, radosgw}
use ceph_mesos.State.StateMachine.{StateMachine}
use ceph_mesos.State.TaskState.{
  Status, TaskState, failed, finished, running, staging, starting, unknown, waiting_osdid,
}

-- The number of entries that pass a test.
unfoldable pub count : (TaskState → Bool) → Table TaskState → ℕ
count p [] = 0
count p ((k, t) ∷ m) = bit (p t) + count p m

pub count-insert_found :
    (p : TaskState → Bool) (id : Text) (t new : TaskState) (m : Table TaskState)
    → find id m ≡ some t
    → count p (insert id new m) + bit (p t) ≡ count p m + bit (p new)
unfolding count find insert
count-insert_found p id t new [] h = cc
count-insert_found p id t new ((k, s) ∷ m) h = elim (Bool-cases (text_eq k id)) [
  | inl here ↦ rw here (ground arith)
  | inr there ↦ rw there (ground (arith, count-insert_found p id t new m))
]

pub count-insert_new :
    (p : TaskState → Bool) (id : Text) (new : TaskState) (m : Table TaskState)
    → find id m ≡ none
    → count p (insert id new m) ≡ count p m + bit (p new)
unfolding count find insert
count-insert_new p id new [] h = omega arith
count-insert_new p id new ((k, s) ∷ m) h = ground (arith, count-insert_new p id new m)

abbrev pub same_type : TaskType → TaskType → Bool
same_type mon mon = true
same_type osd osd = true
same_type radosgw radosgw = true
same_type _ _ = false

-- On its way to running.
abbrev pub is_pending : Status → Bool
is_pending staging = true
is_pending waiting_osdid = true
is_pending starting = true
is_pending _ = false

abbrev pub is_running : Status → Bool
is_running running = true
is_running _ = false

abbrev pub pending_of : TaskType → TaskState → Bool
pending_of ty t = same_type ty t.task_type && is_pending t.current_status

abbrev pub running_of : TaskType → TaskState → Bool
running_of ty t = same_type ty t.task_type && is_running t.current_status

abbrev pub staging_num : TaskType → StateMachine → ℤ
staging_num mon m = m.mon_staging_num
staging_num osd m = m.osd_staging_num
staging_num radosgw m = m.radosgw_staging_num

abbrev pub running_num : TaskType → StateMachine → ℤ
running_num mon m = m.mon_running_num
running_num osd m = m.osd_running_num
running_num radosgw m = m.radosgw_running_num

-- The counters of each type are the numbers of its pending and of its running tasks.
pub record IsCounted (m : StateMachine) : Type 0 where
  pub pending : (ty : TaskType) → staging_num ty m ≡ pos (count (pending_of ty) m.task_map)
  pub running_tasks : (ty : TaskType) → running_num ty m ≡ pos (count (running_of ty) m.task_map)

-- The changes, from a status to one that the program sets, for which `updateCounters` does what the
-- counts of tasks do.
abbrev pub is_accounted : Status → Status → Bool
is_accounted staging running = true
is_accounted starting running = true
is_accounted running running = true
is_accounted staging waiting_osdid = true
is_accounted waiting_osdid waiting_osdid = true
is_accounted starting waiting_osdid = true
is_accounted staging starting = true
is_accounted waiting_osdid starting = true
is_accounted starting starting = true
is_accounted staging failed = true
is_accounted running failed = true
is_accounted failed failed = true
is_accounted finished failed = true
is_accounted unknown failed = true
is_accounted _ _ = false

-- The four statuses that the program ever sets.
abbrev pub is_set : Status → Bool
is_set running = true
is_set waiting_osdid = true
is_set starting = true
is_set failed = true
is_set _ = false
