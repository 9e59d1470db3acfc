-- ===== src/State/StateMachine/Counting/Unaccounted.antt =====
-- A change of status that `updateCounters` does not account for leaves some counter wrong.
use ceph_mesos.Prelude.{Text, arith, bit, false, find, pos, refl, some, sym, true, ℕ, ◌+◌, ◌∙◌, ◌≡◌}
use ceph_mesos.Common.TaskType.{TaskType, mon, osd, radosgw}
use ceph_mesos.State.StateMachine.{StateMachine, set_status, update_counters}
use ceph_mesos.State.StateMachine.Counting.{
  IsCounted, is_accounted, is_pending, is_running, is_set, pending_of, running_num, running_of,
  same_type, staging_num,
}
use ceph_mesos.State.StateMachine.Counting.Account.{
  count-set_status, running_num-set_status, staging_num-set_status,
}
use ceph_mesos.State.TaskState.{Status, TaskState}

-- The counter that goes wrong: of running tasks, where running is entered or left, else of staging.
wrong_counter :
    (tt : TaskType) (old new : Status) (m : StateMachine) (c c' r r' : ℕ)
    → is_set new ≡ true
    → is_accounted old new ≡ false
    → staging_num tt m ≡ pos c
    → running_num tt m ≡ pos r
    → c' + bit (is_pending old) ≡ c + bit (is_pending new)
    → r' + bit (is_running old) ≡ r + bit (is_running new)
    → staging_num tt (update_counters tt old new m) ≡ pos c'
    → running_num tt (update_counters tt old new m) ≡ pos r'
    → ⊥
unfolding update_counters
wrong_counter mon old new m c c' r r' set ok hc hr ec er gc gr = ground arith
wrong_counter osd old new m c c' r r' set ok hc hr ec er gc gr = ground arith
wrong_counter radosgw old new m c c' r r' set ok hc hr ec er gc gr = ground arith

abbrev same_type_refl : (ty : TaskType) → same_type ty ty ≡ true
same_type_refl mon = refl
same_type_refl osd = refl
same_type_refl radosgw = refl

-- Where the counters are right, and a task is found whose change of status is not accounted for, the
-- counters are wrong afterwards.
pub set_status-not-IsCounted :
    (id : Text) (t : TaskState) (new : Status) (m : StateMachine)
    → find id m.task_map ≡ some t
    → is_set new ≡ true
    → is_accounted t.current_status new ≡ false
    → IsCounted m
    → ¬ IsCounted (set_status id t new m)
set_status-not-IsCounted id t new m h set bad c d =
    wrong_counter ty t.current_status new m _ _ _ _ set bad (c.pending ty) (c.running_tasks ty)
      (rw (same_type_refl ty) at (count-set_status id t new m (pending_of ty) h))
      (rw (same_type_refl ty) at (count-set_status id t new m (running_of ty) h))
      (sym (staging_num-set_status id t new m ty) ∙ d.pending ty)
      (sym (running_num-set_status id t new m ty) ∙ d.running_tasks ty)
  where
    ty : TaskType
    ty = t.task_type
