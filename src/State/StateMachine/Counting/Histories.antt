-- ===== src/State/StateMachine/Counting/Histories.antt =====
-- The counters over whole histories of the machine's operations.
use ceph_mesos.Prelude.{
  List, Option, Text, [], arith, bit, false, find, insert, none, pos, refl, some, true, ℕ, ℤ, ◌&&◌,
  ◌+◌, ◌∷◌, ◌≡◌,
}
use ceph_mesos.Common.Config.{Config, or_else}
use ceph_mesos.Common.TaskType.{TaskType, mon, osd, radosgw}
use ceph_mesos.Common.World.{World}
use ceph_mesos.State.HostConfig.{HostConfig}
use ceph_mesos.State.StateMachine.{
  StateMachine, add_config, add_pending_osdid, add_staging_task, decrease_osd_index, init,
  move_state, next_move, put_config, set_status, update_task_to_failed, update_task_to_running,
  update_task_to_starting, update_task_to_waiting_osdid,
}
use ceph_mesos.State.StateMachine.Counting.{
  IsCounted, count, count-insert_new, is_accounted, pending_of, running_num, running_of, same_type,
  staging_num,
}
use ceph_mesos.State.StateMachine.Counting.Account.{set_status-IsCounted}
use ceph_mesos.State.StateMachine.Phases.{
  Operation, adds, adds_config, apply, apply_all, configures, fails, gives_back, learns, moves,
  pends, runs, starts, waits,
}
use ceph_mesos.State.TaskState.{
  Status, TaskState, failed, running, staging, starting, waiting_osdid,
}

abbrev staged : Text → Text → TaskType → Text → Text → TaskState
staged id executor tt host slave = record {
  task_id = id;
  executor_id = executor;
  task_type = tt;
  host_name = host;
  slave_id = slave;
  current_status = staging;
}

module _ (id executor : Text) (tt : TaskType) (host slave : Text) (m : StateMachine) where
  abbrev added : StateMachine
  added = add_staging_task id executor tt host slave m

  task_map-added : added.task_map ≡ insert id (staged id executor tt host slave) m.task_map
  unfolding add_staging_task
  task_map-added = ground arith

  staging_num-added :
      (ty : TaskType) (c c' : ℕ)
      → staging_num ty m ≡ pos c
      → c' ≡ c + bit (same_type ty tt && true)
      → staging_num ty added ≡ pos c'
  unfolding add_staging_task
  staging_num-added mon c c' h e = ground arith
  staging_num-added osd c c' h e = ground arith
  staging_num-added radosgw c c' h e = ground arith

  running_num-added :
      (ty : TaskType) (c c' : ℕ)
      → running_num ty m ≡ pos c
      → c' ≡ c + bit (same_type ty tt && false)
      → running_num ty added ≡ pos c'
  unfolding add_staging_task
  running_num-added mon c c' h e = ground arith
  running_num-added osd c c' h e = ground arith
  running_num-added radosgw c c' h e = ground arith

  add_staging_task-IsCounted : find id m.task_map ≡ none → IsCounted m → IsCounted added
  add_staging_task-IsCounted fresh c = record {
    pending = λ ty.
        staging_num-added ty _ _ (c.pending ty)
          (rw task_map-added (count-insert_new (pending_of ty) id _ m.task_map fresh));
    running_tasks = λ ty.
        running_num-added ty _ _ (c.running_tasks ty)
          (rw task_map-added (count-insert_new (running_of ty) id _ m.task_map fresh));
  }

-- What the reports of Mesos must respect for the counters to stay right: a status change of a task
-- that is known is one that `updateCounters` accounts for.
abbrev pub Accounts : Option TaskState → Status → Type 0
Accounts none new = Unit
Accounts (some t) new = is_accounted t.current_status new ≡ true

abbrev pub IsLawful : Operation → StateMachine → Type 0
IsLawful (adds id executor ty host slave) m = find id m.task_map ≡ none
IsLawful (runs id) m = Accounts (find id m.task_map) running
IsLawful (waits id) m = Accounts (find id m.task_map) waiting_osdid
IsLawful (starts id) m = Accounts (find id m.task_map) starting
IsLawful (fails id) m = Accounts (find id m.task_map) failed
IsLawful _ m = Unit

abbrev pub IsLawfulRun : World → List Operation → StateMachine → Type 0
IsLawfulRun w [] m = Unit
IsLawfulRun w (o ∷ os) m = IsLawful o m × IsLawfulRun w os (apply w o m)

-- The same tasks and the same counters.
record SameCounts (m n : StateMachine) : Type 0 where
  tasks : n.task_map ≡ m.task_map
  staging_nums : (ty : TaskType) → staging_num ty n ≡ staging_num ty m
  running_nums : (ty : TaskType) → running_num ty n ≡ running_num ty m

IsCounted-of_SameCounts : {m n : StateMachine} → SameCounts m n → IsCounted m → IsCounted n
IsCounted-of_SameCounts s c = record {
  pending = λ ty. rw (s.staging_nums ty, s.tasks) (c.pending ty);
  running_tasks = λ ty. rw (s.running_nums ty, s.tasks) (c.running_tasks ty);
}

move_state-SameCounts : (m : StateMachine) → SameCounts m (move_state m)
unfolding move_state
move_state-SameCounts m = record {
  tasks = refl;
  staging_nums = λ ty. ground arith;
  running_nums = λ ty. ground arith;
}

next_move-SameCounts : (host : Text) (m : StateMachine) → SameCounts m (next_move host m).1
unfolding next_move
next_move-SameCounts host m = record {
  tasks = ground arith;
  staging_nums = λ ty. ground arith;
  running_nums = λ ty. ground arith;
}

put_config-SameCounts :
    (host : Text) (hc : HostConfig) (m : StateMachine) → SameCounts m (put_config host hc m)
unfolding put_config
put_config-SameCounts host hc m = record {
  tasks = ground arith;
  staging_nums = λ ty. ground arith;
  running_nums = λ ty. ground arith;
}

pends-SameCounts :
    (ids : List ℤ) (m : StateMachine) → SameCounts m (record m { pending_osdid = ids })
pends-SameCounts ids m = record {
  tasks = refl;
  staging_nums = λ ty. ground arith;
  running_nums = λ ty. ground arith;
}

add_config-SameCounts :
    (w : World) (host : Text) (m : StateMachine) → SameCounts m (or_else (add_config w host m) m)
unfolding add_config
add_config-SameCounts w host m = record {
  tasks = ground arith;
  staging_nums = λ ty. ground arith;
  running_nums = λ ty. ground arith;
}

-- One of the four `updateTaskTo…`, given what it does to a task that it finds.
module _ (id : Text) (new : Status) (m : StateMachine) (c : IsCounted m) where
  update-IsCounted :
      (found : Option TaskState) (after : TaskState → StateMachine) (n : StateMachine)
      → find id m.task_map ≡ found
      → Accounts found new
      → ((t : TaskState) → SameCounts (set_status id t new m) (after t))
      → n ≡ elim found [ none ↦ m | some t ↦ after t ]
      → IsCounted n
  update-IsCounted none after n h ok same e = rw e c
  update-IsCounted (some t) after n h ok same e =
      rw e (IsCounted-of_SameCounts (same t) (set_status-IsCounted id t new m h ok c))

same-SameCounts : (m : StateMachine) → SameCounts m m
same-SameCounts m = record { tasks = refl; staging_nums = λ ty. refl; running_nums = λ ty. refl }

decrease_osd_index-SameCounts : (m : StateMachine) → SameCounts m (decrease_osd_index m)
unfolding decrease_osd_index
decrease_osd_index-SameCounts m = record {
  tasks = refl;
  staging_nums = λ ty. ground arith;
  running_nums = λ ty. ground arith;
}

add_pending_osdid-SameCounts : (i : ℤ) (m : StateMachine) → SameCounts m (add_pending_osdid i m)
unfolding add_pending_osdid
add_pending_osdid-SameCounts i m = record {
  tasks = refl;
  staging_nums = λ ty. ground arith;
  running_nums = λ ty. ground arith;
}

apply-IsCounted :
    (w : World) (o : Operation) (m : StateMachine)
    → IsLawful o m
    → IsCounted m
    → IsCounted (apply w o m)
unfolding apply update_task_to_running update_task_to_waiting_osdid update_task_to_starting
    update_task_to_failed
apply-IsCounted w (adds_config host) m ok c =
    IsCounted-of_SameCounts (add_config-SameCounts w host m) c
apply-IsCounted w (adds id executor ty host slave) m ok c =
    add_staging_task-IsCounted id executor ty host slave m ok c
apply-IsCounted w (runs id) m ok c =
    update-IsCounted id running m c _ (λ t. move_state (set_status id t running m)) _ refl ok
      (λ t. move_state-SameCounts _) refl
apply-IsCounted w (waits id) m ok c =
    update-IsCounted id waiting_osdid m c _ (λ t. set_status id t waiting_osdid m) _ refl ok
      (λ t. same-SameCounts _) refl
apply-IsCounted w (starts id) m ok c =
    update-IsCounted id starting m c _ (λ t. set_status id t starting m) _ refl ok
      (λ t. same-SameCounts _) refl
apply-IsCounted w (fails id) m ok c =
    update-IsCounted id failed m c _ (λ t. move_state (set_status id t failed m)) _ refl ok
      (λ t. move_state-SameCounts _) refl
apply-IsCounted w (moves host) m ok c = IsCounted-of_SameCounts (next_move-SameCounts host m) c
apply-IsCounted w gives_back m ok c = IsCounted-of_SameCounts (decrease_osd_index-SameCounts m) c
apply-IsCounted w (learns i) m ok c = IsCounted-of_SameCounts (add_pending_osdid-SameCounts i m) c
apply-IsCounted w (pends ids) m ok c = IsCounted-of_SameCounts (pends-SameCounts ids m) c
apply-IsCounted w (configures host hc) m ok c =
    IsCounted-of_SameCounts (put_config-SameCounts host hc m) c

apply_all-IsCounted :
    (w : World) (os : List Operation) (m : StateMachine)
    → IsLawfulRun w os m
    → IsCounted m
    → IsCounted (apply_all w os m)
unfolding apply_all
apply_all-IsCounted w [] m ok c = c
apply_all-IsCounted w (o ∷ os) m ok c =
    apply_all-IsCounted w os (apply w o m) ok.1 (apply-IsCounted w o m ok.0 c)

init-IsCounted : (w : World) (config : Config) → IsCounted (init w config)
unfolding init count
init-IsCounted w config = record {
  pending = λ ty. ground arith;
  running_tasks = λ ty. ground arith;
}

-- From a new machine on, with hosts added whenever the scheduler adds them, for as long as new tasks have new ids and no task that waits for its OSD id
-- or is starting fails, no task that has failed or waits for its id reports that it runs, and no
-- task goes back from running or from a failure: for each task type the staging counter is the
-- number of tasks of that type in the map that are on their way to running, and the running counter
-- the number of those that run. `IsLawfulRun` states this condition, operation by operation.
pub history-IsCounted :
    (w : World) (config : Config) (os : List Operation)
    → IsLawfulRun w os (init w config)
    → IsCounted (apply_all w os (init w config))
history-IsCounted w config os ok =
    apply_all-IsCounted w os (init w config) ok (init-IsCounted w config)
