-- ===== src/State/StateMachine/Counting/Account.antt =====
-- What `update_counters` does to the counters, against what a change of status does to the counts.
use ceph_mesos.Prelude.{Bool, Text, arith, bit, find, pos, refl, some, true, ℕ, ◌&&◌, ◌+◌, ◌∙◌, ◌≡◌}
use ceph_mesos.Common.TaskType.{TaskType, mon, osd, radosgw}
use ceph_mesos.State.StateMachine.{StateMachine, set_status, update_counters}
use ceph_mesos.State.StateMachine.Counting.{
  IsCounted, count, count-insert_found, is_accounted, is_pending, is_running, pending_of,
  running_num, running_of, same_type, staging_num,
}
use ceph_mesos.State.TaskState.{Status, TaskState}

-- One counter of one type.
staging_step :
    (ty tt : TaskType) (old new : Status) (m : StateMachine) (c c' : ℕ)
    → is_accounted old new ≡ true
    → staging_num ty m ≡ pos c
    → c' + bit (same_type ty tt && is_pending old) ≡ c + bit (same_type ty tt && is_pending new)
    → staging_num ty (update_counters tt old new m) ≡ pos c'
unfolding update_counters
staging_step mon tt old new m c c' ok h e = ground arith
staging_step osd tt old new m c c' ok h e = ground arith
staging_step radosgw tt old new m c c' ok h e = ground arith

running_step :
    (ty tt : TaskType) (old new : Status) (m : StateMachine) (c c' : ℕ)
    → is_accounted old new ≡ true
    → running_num ty m ≡ pos c
    → c' + bit (same_type ty tt && is_running old) ≡ c + bit (same_type ty tt && is_running new)
    → running_num ty (update_counters tt old new m) ≡ pos c'
unfolding update_counters
running_step mon tt old new m c c' ok h e = ground arith
running_step osd tt old new m c c' ok h e = ground arith
running_step radosgw tt old new m c c' ok h e = ground arith

pub task_map-update_counters :
    (tt : TaskType) (old new : Status) (m : StateMachine)
    → (update_counters tt old new m).task_map ≡ m.task_map
unfolding update_counters
task_map-update_counters tt old new m = ground arith

abbrev pub with_status : TaskState → Status → TaskState
with_status t new = record t { current_status = new }

module _ (id : Text) (t : TaskState) (new : Status) (m : StateMachine) where
  pub count-set_status :
      (p : TaskState → Bool)
      → find id m.task_map ≡ some t
      → count p (set_status id t new m).task_map + bit (p t)
        ≡ count p m.task_map + bit (p (with_status t new))
  unfolding set_status
  count-set_status p h =
      rw (task_map-update_counters t.task_type t.current_status new m)
        (count-insert_found p id t (with_status t new) m.task_map h)

  abbrev pub counted_machine : StateMachine
  counted_machine = update_counters t.task_type t.current_status new m

  pub staging_num-set_status :
      (ty : TaskType) → staging_num ty (set_status id t new m) ≡ staging_num ty counted_machine
  unfolding set_status
  staging_num-set_status mon = refl
  staging_num-set_status osd = refl
  staging_num-set_status radosgw = refl

  pub running_num-set_status :
      (ty : TaskType) → running_num ty (set_status id t new m) ≡ running_num ty counted_machine
  unfolding set_status
  running_num-set_status mon = refl
  running_num-set_status osd = refl
  running_num-set_status radosgw = refl

  -- A change of status that is accounted for keeps the counters right.
  pub set_status-IsCounted :
      find id m.task_map ≡ some t
      → is_accounted t.current_status new ≡ true
      → IsCounted m
      → IsCounted (set_status id t new m)
  set_status-IsCounted h ok c = record {
    pending = λ ty.
        staging_num-set_status ty
        ∙ staging_step ty t.task_type t.current_status new m (count (pending_of ty) m.task_map) _ ok
            (c.pending ty) (count-set_status (pending_of ty) h);
    running_tasks = λ ty.
        running_num-set_status ty
        ∙ running_step ty t.task_type t.current_status new m (count (running_of ty) m.task_map) _ ok
            (c.running_tasks ty) (count-set_status (running_of ty) h);
  }
