-- ===== src/Executor/Disk/Callbacks/Finished.antt =====
-- How often, and for which tasks, the executor of src/executor/DiskExecutor.cpp reports FINISHED.
use ceph_mesos.Prelude.{
  Bool, Bool-cases, List, Text, [], ap, append-nil, append_assoc, false, inl, inr, map, none,
  push_back, refl, select, sym, true, ◌++◌, ◌∙◌, ◌∷◌, ◌≡◌,
}
use ceph_mesos.Common.World.{World}
use ceph_mesos.Executor.Disk.{DiskExecutor}
use ceph_mesos.Executor.Disk.Callbacks.{disk_callback, disk_registered, disk_run}
use ceph_mesos.Executor.Disk.Callbacks.Silent.{
  IfDone, Silent, add_labels-Silent, bind-IfDone, prepare_disks-Silent,
}
use ceph_mesos.Executor.Disk.Report.{finish_task, launch_task}
use ceph_mesos.Executor.Driver.{
  ExecutorCallback, call_disconnected, call_error, call_kill, call_launch, call_message,
  call_registered, call_reregistered, call_shutdown, launched_ids,
}
use ceph_mesos.Scheduler.Driver.{
  Label, Outcome, TaskInfo, TaskStateCode, TaskStatus, done, task_failed, task_finished, thrown,
  undefined,
}

abbrev is_finished : TaskStateCode → Bool
is_finished task_finished = true
is_finished _ = false

-- The ids in the reports of the state FINISHED, oldest first.
abbrev pub finished_ids : List TaskStatus → List Text
finished_ids ss = map (λ s. s.task_id) (select (λ s. is_finished s.state) ss)

finished_ids-push_back :
    (ss : List TaskStatus) (s : TaskStatus)
    → is_finished s.state ≡ true
    → finished_ids (push_back ss s) ≡ push_back (finished_ids ss) s.task_id
finished_ids-push_back [] s e = rw e refl
finished_ids-push_back (r ∷ ss) s e = elim (Bool-cases (is_finished r.state)) [
  | inl f ↦ rw f (ap (◌∷◌ r.task_id) (finished_ids-push_back ss s e))
  | inr f ↦ rw f (finished_ids-push_back ss s e)
]

finished_ids-failed :
    (ss : List TaskStatus) (s : TaskStatus)
    → is_finished s.state ≡ false
    → finished_ids (push_back ss s) ≡ finished_ids ss
finished_ids-failed [] s e = rw e refl
finished_ids-failed (r ∷ ss) s e = elim (Bool-cases (is_finished r.state)) [
  | inl f ↦ rw f (ap (◌∷◌ r.task_id) (finished_ids-failed ss s e))
  | inr f ↦ rw f (finished_ids-failed ss s e)
]

module _ (w : World) where
  abbrev Finishes : List Text → DiskExecutor → Type 0
  Finishes ids d = finished_ids d.sent ≡ ids

  finish_task-Finishes :
      (own : Text) (ids : List Text) (d : DiskExecutor)
      → d.my_task_id ≡ own
      → Finishes ids d
      → IfDone (Finishes (push_back ids own)) (finish_task w d)
  unfolding finish_task
  finish_task-Finishes own ids d e h =
      bind-IfDone (Silent own d.sent) (Finishes (push_back ids own)) _ _
        (prepare_disks-Silent w own d.sent d (e, refl))
        (λ x l.
          rw l.1 (finished_ids-push_back d.sent _ refl)
          ∙ ap (λ xs. push_back xs x.my_task_id) h
          ∙ ap (push_back ids) l.0)

  launch_task-Finishes :
      (task : TaskInfo) (ids : List Text) (d : DiskExecutor)
      → Finishes ids d
      → IfDone (Finishes (push_back ids task.task_id)) (launch_task w task d)
  unfolding launch_task
  launch_task-Finishes task ids d h = by_labels task.labels refl
    where
      by_labels :
          (ls : List Label)
          → task.labels ≡ ls
          → IfDone (Finishes (push_back ids task.task_id)) (launch_task w task d)
      by_labels [] e =
          rw (e, launch_task)
            (finish_task-Finishes task.task_id ids _ refl (
              finished_ids-failed d.sent
                (record { task_id = task.task_id; state = task_failed; message = none }) refl
              ∙ h))
      by_labels (l ∷ ls) e =
          rw (e, launch_task)
            (bind-IfDone (Silent task.task_id d.sent) (Finishes (push_back ids task.task_id)) _ _
              (add_labels-Silent w task.task_id d.sent (l ∷ ls) _ (refl, refl))
              (λ x q. finish_task-Finishes task.task_id ids x q.0 (ap finished_ids q.1 ∙ h)))

  -- The disk executor, called back in any way from any state: if every callback returns, it has sent one
  -- more FINISHED report for each task that was launched, in the order of their launches, and no other
  -- FINISHED report; also for a task without labels.
  pub disk_run-finished_ids :
      (cs : List ExecutorCallback) (d : DiskExecutor)
      → IfDone (λ e. finished_ids e.sent ≡ finished_ids d.sent ++ launched_ids cs) (disk_run w cs d)
  unfolding disk_run disk_callback disk_registered
  disk_run-finished_ids [] d = sym (append-nil (finished_ids d.sent))
  disk_run-finished_ids (call_registered hostname cwd ∷ cs) d = disk_run-finished_ids cs _
  disk_run-finished_ids (call_reregistered ∷ cs) d = disk_run-finished_ids cs d
  disk_run-finished_ids (call_disconnected ∷ cs) d = disk_run-finished_ids cs d
  disk_run-finished_ids (call_launch task ∷ cs) d =
      let ids = finished_ids d.sent ++ task.task_id ∷ launched_ids cs in
      bind-IfDone (Finishes (push_back (finished_ids d.sent) task.task_id)) (Finishes ids) _ _
        (launch_task-Finishes task (finished_ids d.sent) d refl)
        (λ x q. then_ids x (disk_run w cs x) q (disk_run-finished_ids cs x))
    where
      then_ids :
          (x : DiskExecutor) (o : Outcome DiskExecutor)
          → finished_ids x.sent ≡ push_back (finished_ids d.sent) task.task_id
          → IfDone (Finishes (finished_ids x.sent ++ launched_ids cs)) o
          → IfDone (Finishes (finished_ids d.sent ++ task.task_id ∷ launched_ids cs)) o
      then_ids x (done e) q h = h ∙ rw q (append_assoc (finished_ids d.sent) _ _)
      then_ids x (thrown e) q h = tt
      then_ids x undefined q h = tt
  disk_run-finished_ids (call_kill task_id ∷ cs) d = disk_run-finished_ids cs d
  disk_run-finished_ids (call_message text ∷ cs) d = disk_run-finished_ids cs d
  disk_run-finished_ids (call_shutdown ∷ cs) d = disk_run-finished_ids cs d
  disk_run-finished_ids (call_error text ∷ cs) d = disk_run-finished_ids cs d
