-- ===== src/Executor/Ceph/Callbacks/Runs.antt =====
-- Runs of the executor of src/executor/CephExecutor.cpp from its registration on, and its end.
use mathlib.Core.List.{Mem, mem-cons_of_mem, mem-cons_self}
use ceph_mesos.Prelude.{
  All, All-imp, List, Text, [], append-nil, append_assoc, codes, none, push_back, refl, subst, sym,
  ℕ, ◌++◌, ◌∷◌, ◌≡◌,
}
use ceph_mesos.Common.World.{World}
use ceph_mesos.Executor.Ceph.{CephExecutor, finished_with, report_on}
use ceph_mesos.Executor.Ceph.Callbacks.{executor_callback, executor_run}
use ceph_mesos.Executor.Ceph.Callbacks.Sound.{
  IsSound, Mounts, both_mounts, jnl_dir_of, launched, message-IsSound, no_mounts, osd_dir_of,
  reported, same_core,
}
use ceph_mesos.Executor.Ceph.Outcomes.{Holds, Holds-map, OneReport, bind-Holds}
use ceph_mesos.Executor.Ceph.Reports.{executor_launch-OneReport}
use ceph_mesos.Executor.Ceph.Start.{
  executor_launch, executor_registered, executor_shutdown, new_ceph_executor, umount,
}
use ceph_mesos.Executor.Driver.{
  ExecutorCallback, call_disconnected, call_error, call_kill, call_launch, call_message,
  call_registered, call_reregistered, call_shutdown, launched_ids,
}
use ceph_mesos.Scheduler.Driver.{TaskInfo, task_killed}

abbrev pub umounts : Text → List Text
umounts [] = []
umounts (c ∷ dir) = (codes "umount -f " ++ (c ∷ dir)) ∷ []

umount-umounts :
    (dir : Text) (e : CephExecutor)
    → umount dir e ≡ record e { commands = e.commands ++ umounts dir }
umount-umounts [] e = rw append-nil refl
umount-umounts (c ∷ dir) e = refl

-- The commands by which `shutdown` takes an OSD's directories off.
pub data Unmounts (e : CephExecutor) : List Text → Type 0 where
  none_mounted : e.osd_dir ≡ [] → e.jnl_dir ≡ [] → Unmounts e []
  both_unmounted :
      (root id : Text)
      → e.osd_dir ≡ osd_dir_of root id
      → e.jnl_dir ≡ jnl_dir_of root id
      → Unmounts e (
          (codes "umount -f " ++ osd_dir_of root id)
          ∷ (codes "umount -f " ++ jnl_dir_of root id)
          ∷ [])

pub executor_shutdown-umounts :
    (e : CephExecutor)
    → executor_shutdown e
      ≡ report_on e.my_task_id task_killed none (record e {
        commands =
            e.commands
            ++ umounts e.osd_dir
            ++ umounts e.jnl_dir
            ++ (codes "docker rm -f " ++ e.container_name) ∷ [];
      })
unfolding executor_shutdown
executor_shutdown-umounts e = rw (umount-umounts, umount-umounts) (simp append_assoc)

umounts_osd :
    (root id : Text)
    → umounts (osd_dir_of root id) ≡ (codes "umount -f " ++ osd_dir_of root id) ∷ []
umounts_osd [] id = refl
umounts_osd (c ∷ root) id = refl

umounts_jnl :
    (root id : Text)
    → umounts (jnl_dir_of root id) ≡ (codes "umount -f " ++ jnl_dir_of root id) ∷ []
umounts_jnl [] id = refl
umounts_jnl (c ∷ root) id = refl

mounted-Unmounts :
    (e : CephExecutor) → Mounts e → Unmounts e (umounts e.osd_dir ++ umounts e.jnl_dir)
mounted-Unmounts e (no_mounts a b) = subst (Unmounts e) (sym (rw (a, b) refl)) (none_mounted a b)
mounted-Unmounts e (both_mounts root id a b) =
    subst (Unmounts e) (sym (rw (a, b, umounts_osd, umounts_jnl) refl)) (both_unmounted root id a b)

shutdown-IsSound :
    (P : Text → Type 0) (e : CephExecutor) → IsSound P e → IsSound P (executor_shutdown e)
shutdown-IsSound P e k =
    rw (executor_shutdown-umounts e)
      (reported P e.my_task_id task_killed none _ k.own (same_core P e _ refl refl refl refl k))

module _ (w : World) (fuel : ℕ) (P : Text → Type 0) where
  launch-IsSound :
      (task : TaskInfo) (e : CephExecutor)
      → P task.task_id
      → IsSound P e
      → Holds (IsSound P) (executor_launch w fuel task e)
  launch-IsSound task e h k =
      Holds-map (OneReport task.task_id e) (IsSound P) (executor_launch w fuel task e)
        (executor_launch-OneReport w fuel task e) (λ a r. launched P task.task_id e a h k r)

  run-IsSound :
      (cs : List ExecutorCallback) (e : CephExecutor)
      → All P (launched_ids cs)
      → IsSound P e
      → Holds (IsSound P) (executor_run w fuel cs e)
  unfolding executor_run executor_callback executor_registered
  run-IsSound [] e h k = k
  run-IsSound (call_registered hostname cwd ∷ cs) e h k =
      run-IsSound cs _ h (same_core P e _ refl refl refl refl k)
  run-IsSound (call_reregistered ∷ cs) e h k = run-IsSound cs e h k
  run-IsSound (call_disconnected ∷ cs) e h k = run-IsSound cs e h k
  run-IsSound (call_launch task ∷ cs) e h k =
      bind-Holds (IsSound P) (IsSound P) _ (executor_run w fuel cs) (launch-IsSound task e h.0 k)
        (λ a. run-IsSound cs a h.1)
  run-IsSound (call_kill task_id ∷ cs) e h k = run-IsSound cs e h k
  run-IsSound (call_message text ∷ cs) e h k =
      bind-Holds (IsSound P) (IsSound P) _ (executor_run w fuel cs)
        (message-IsSound w fuel P text e k) (λ a. run-IsSound cs a h)
  run-IsSound (call_shutdown ∷ cs) e h k = run-IsSound cs _ h (shutdown-IsSound P e k)
  run-IsSound (call_error text ∷ cs) e h k = run-IsSound cs e h k

fresh-IsSound : (P : Text → Type 0) → P [] → IsSound P new_ceph_executor
unfolding new_ceph_executor
fresh-IsSound P h = record { own = h; reports = tt; mounts = no_mounts refl refl }

All-Mem : (xs : List Text) → All (λ t. Mem t xs) xs
All-Mem [] = tt
All-Mem (x ∷ xs) = (
  mem-cons_self,
  All-imp (λ t. Mem t xs) (λ t. Mem t (x ∷ xs)) xs (λ t m. mem-cons_of_mem x m) (All-Mem xs),
)

-- The id that an executor may report on: one of those launched, or the empty one of a new executor.
abbrev pub IsKnown : List ExecutorCallback → Text → Type 0
IsKnown cs t = Mem t ([] ∷ launched_ids cs)

-- A new executor is called back in any way, and every callback returns. Then its own task, and the task of
-- each report, is one that a callback launched, or the empty id of a new executor; and the two directories
-- of an OSD are both unset, or both set, for the same OSD under the same root.
pub executor_run-IsSound :
    (w : World) (fuel : ℕ) (cs : List ExecutorCallback)
    → Holds (IsSound (IsKnown cs)) (executor_run w fuel cs new_ceph_executor)
executor_run-IsSound w fuel cs =
    let known = (All-Mem ([] ∷ launched_ids cs)).1 in
    run-IsSound w fuel (IsKnown cs) cs new_ceph_executor known
      (fresh-IsSound (IsKnown cs) mem-cons_self)

-- Whatever callbacks a new executor has returned from, `shutdown` unmounts nothing if it never prepared an
-- OSD, or else the two directories of the OSD, and then removes the container; and it reports KILLED, on the
-- own task, which is a launched one or the empty id.
pub executor_shutdown-Unmounts :
    (w : World) (fuel : ℕ) (cs : List ExecutorCallback) (e : CephExecutor)
    → executor_run w fuel cs new_ceph_executor ≡ finished_with e
    → (cmds : List Text) × Unmounts e cmds
      × ((executor_shutdown e).commands
          ≡ e.commands ++ cmds ++ (codes "docker rm -f " ++ e.container_name) ∷ [])
      × ((executor_shutdown e).sent
          ≡ push_back e.sent
              (record { task_id = e.my_task_id; state = task_killed; message = none }))
      × IsKnown cs e.my_task_id
executor_shutdown-Unmounts w fuel cs e ran =
    let sound = subst (Holds (IsSound (IsKnown cs))) ran (executor_run-IsSound w fuel cs) in
    (
      umounts e.osd_dir ++ umounts e.jnl_dir,
      mounted-Unmounts e sound.mounts,
      rw (executor_shutdown-umounts e) (simp append_assoc),
      rw (executor_shutdown-umounts e) refl,
      sound.own,
    )
