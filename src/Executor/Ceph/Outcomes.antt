-- ===== src/Executor/Ceph/Outcomes.antt =====
-- What may be said of a result of `launchTask`, and of the reports that it sends.
use ceph_mesos.Prelude.{List, Text, ap, codes, inl, none, push_back, refl, ℕ, ◌++◌, ◌≡◌, ◌⊎◌}
use ceph_mesos.Executor.Ceph.{
  CephExecutor, Handled, config_dir, finished_with, out_of_vector, report_on, uncaught, unfinished,
  wild_write, ◌>>=◌,
}
use ceph_mesos.Scheduler.Driver.{
  TaskStateCode, TaskStatus, task_failed, task_finished, task_killed, task_other, task_running,
  task_starting,
}

-- What holds of a result, if there is one.
abbrev pub Holds {ℓ κ} : {A : Type ℓ} → (A → Type κ) → Handled A → Type κ
Holds P (finished_with a) = P a
Holds P uncaught = Unit
Holds P out_of_vector = Unit
Holds P unfinished = Unit
Holds P wild_write = Unit

pub bind-Holds {ℓ κ μ} :
    {A : Type ℓ} {B : Type κ} (P : A → Type μ) (Q : B → Type μ) (h : Handled A) (f : A → Handled B)
    → Holds P h
    → ((a : A) → P a → Holds Q (f a))
    → Holds Q (h >>= f)
bind-Holds P Q (finished_with a) f p q = q a p
bind-Holds P Q uncaught f p q = tt
bind-Holds P Q out_of_vector f p q = tt
bind-Holds P Q unfinished f p q = tt
bind-Holds P Q wild_write f p q = tt

pub Holds-map {ℓ κ} :
    {A : Type ℓ} (P Q : A → Type κ) (h : Handled A) → Holds P h → ((a : A) → P a → Q a) → Holds Q h
Holds-map P Q (finished_with a) p f = f a p
Holds-map P Q uncaught p f = tt
Holds-map P Q out_of_vector p f = tt
Holds-map P Q unfinished p f = tt
Holds-map P Q wild_write p f = tt

-- The states that `launchTask` reports.
abbrev pub IsLaunchState : TaskStateCode → Type 0
IsLaunchState task_failed = Unit
IsLaunchState task_starting = Unit
IsLaunchState task_running = Unit
IsLaunchState task_finished = ⊥
IsLaunchState task_killed = ⊥
IsLaunchState task_other = ⊥

-- The same file servers as before, or one more, on the executor's own directory, where it reports RUNNING.
abbrev pub SharesOnce : List (ℕ × Text) → TaskStateCode → CephExecutor → Type 0
SharesOnce roots state e =
    (e.file_servers ≡ roots)
    ⊎ ((state ≡ task_running)
        × (e.file_servers ≡ push_back roots (7777, config_dir e ++ codes "/etc/ceph/")))

-- What `launchTask` on a task leaves alone: the directories of an OSD, the messages, and the id of the own
-- task, unless it becomes the given one.
abbrev pub SameRest : Text → CephExecutor → CephExecutor → Type 0
SameRest task start e =
    (e.osd_dir ≡ start.osd_dir)
    × (e.jnl_dir ≡ start.jnl_dir)
    × (e.messages ≡ start.messages)
    × ((e.my_task_id ≡ start.my_task_id) ⊎ (e.my_task_id ≡ task))

-- One report more than before, on the task, and at most one file server more.
abbrev pub OneReport : Text → CephExecutor → CephExecutor → Type 0
OneReport task start e =
    (s : TaskStatus) × (e.sent ≡ push_back start.sent s)
    × (s.task_id ≡ task)
    × (s.message ≡ none)
    × IsLaunchState s.state
    × SharesOnce start.file_servers s.state e
    × SameRest task start e

-- The same reports and file servers as before.
abbrev pub Quiet : Text → CephExecutor → CephExecutor → Type 0
Quiet task start e =
    (e.sent ≡ start.sent)
    × (e.file_servers ≡ start.file_servers)
    × (e.osd_dir ≡ start.osd_dir)
    × (e.jnl_dir ≡ start.jnl_dir)
    × (e.messages ≡ start.messages)
    × ((e.my_task_id ≡ start.my_task_id) ⊎ (e.my_task_id ≡ task))

pub Quiet-SameRest :
    (task : Text) (start e : CephExecutor) → Quiet task start e → SameRest task start e
Quiet-SameRest task start e q = (q.2, q.3, q.4, q.5)

pub report_on-OneReport :
    (task : Text) (state : TaskStateCode) (start e : CephExecutor)
    → IsLaunchState state
    → Quiet task start e
    → OneReport task start (report_on task state none e)
report_on-OneReport task state start e is q =
    let s : TaskStatus = record { task_id = task; state = state; message = none } in
    (s, ap (λ sent. push_back sent s) q.0, refl, refl, is, inl q.1, Quiet-SameRest task start e q)
