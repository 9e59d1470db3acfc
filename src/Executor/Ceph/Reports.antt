-- ===== src/Executor/Ceph/Reports.antt =====
-- The reports of `launchTask`.
use ceph_mesos.Prelude.{
  Bool, Bool-cases, List, Option, Text, [], ap, arith, codes, eqb_ℤ, false, inl, inr, none,
  push_back, refl, some, true, ℕ, ℤ, ◌++◌, ◌∷◌,
}
use ceph_mesos.Common.TaskType.{mon, osd, radosgw, task_type_code}
use ceph_mesos.Common.World.{World}
use ceph_mesos.Executor.Ceph.{
  CephExecutor, Handled, config_dir, finished_with, out_of_vector, start_long_running, uncaught,
  unfinished, wild_write, ◌>>=◌,
}
use ceph_mesos.Executor.Ceph.Commands.{
  construct_mon_command, copy_shared_config_files, create_local_shared_config_dir,
  delete_config_dir, exists_config_files, get_public_network_ip,
}
use ceph_mesos.Executor.Ceph.Outcomes.{
  Holds, OneReport, Quiet, Quiet-SameRest, bind-Holds, report_on-OneReport,
}
use ceph_mesos.Executor.Ceph.Start.{
  download_docker_image, executor_launch, get_container_name, image_name, launch_by_type,
  launch_configured, launch_container, launch_in_tree, parse_host_config, parse_label, parse_labels,
  publish_keyrings, read_task_data, report_waited, set_config_root,
}
use ceph_mesos.Executor.Waiting.{Waited, answered, bad_timeout, still_waiting}
use ceph_mesos.Scheduler.Driver.{
  Label, TaskInfo, TaskStatus, task_failed, task_running, task_starting,
}

module _ (w : World) (task : Text) (start : CephExecutor) where
  report_waited-OneReport :
      (shares : Bool) (waited : Waited) (e : CephExecutor)
      → Quiet task start e
      → Holds (OneReport task start) (report_waited w task shares waited e)
  unfolding report_waited publish_keyrings
  report_waited-OneReport shares bad_timeout e q = tt
  report_waited-OneReport shares still_waiting e q = tt
  report_waited-OneReport shares (answered false after) e q =
      report_on-OneReport task task_failed start (record e { commands = after }) tt q
  report_waited-OneReport true (answered true after) e q =
      let s : TaskStatus = record { task_id = task; state = task_running; message = none } in
      (
        s,
        ap (λ sent. push_back sent s) q.0,
        refl,
        refl,
        tt,
        inr (refl, ap (λ r. push_back r (7777, config_dir e ++ codes "/etc/ceph/")) q.1),
        Quiet-SameRest task start e q,
      )
  report_waited-OneReport false (answered true after) e q =
      report_on-OneReport task task_running start (record e { commands = after }) tt q

  launch_container-OneReport :
      (fuel : ℕ) (shares : Bool) (cmd : Text) (e : CephExecutor)
      → Quiet task start e
      → Holds (OneReport task start) (launch_container w fuel task shares cmd e)
  unfolding launch_container start_long_running
  launch_container-OneReport fuel shares cmd e q = report_waited-OneReport shares _ _ q

  download_docker_image-Quiet :
      (image : Text) (e : CephExecutor)
      → Quiet task start e
      → Holds (λ r. Quiet task start r.1) (download_docker_image w image e)
  unfolding download_docker_image
  download_docker_image-Quiet image e q = ground (arith, q)

  get_public_network_ip-Quiet :
      (ips cidr : Text) (e : CephExecutor)
      → Quiet task start e
      → Holds (λ r. Quiet task start r.1) (get_public_network_ip w ips cidr e)
  unfolding get_public_network_ip
  get_public_network_ip-Quiet ips cidr e q = ground (arith, q)

  construct_mon_command-Quiet :
      (dir container : Text) (e : CephExecutor)
      → Quiet task start e
      → Holds (λ r. Quiet task start r.1) (construct_mon_command w dir container e)
  unfolding construct_mon_command
  construct_mon_command-Quiet dir container e q =
      bind-Holds (λ r. Quiet task start r.1) (λ r. Quiet task start r.1) _ _
        (get_public_network_ip-Quiet _ _ _ q) (λ r h. h)

  fetched-Quiet :
      {B : Type 0} (Q : B → Type 0) (e : CephExecutor) (f : Bool × CephExecutor → Handled B)
      → Quiet task start e
      → ((r : Bool × CephExecutor) → Quiet task start r.1 → Holds Q (f r))
      → Holds Q (download_docker_image w image_name e >>= f)
  fetched-Quiet Q e f q =
      bind-Holds (λ r. Quiet task start r.1) Q _ f (download_docker_image-Quiet image_name e q)

  launch_by_type-OneReport :
      (fuel : ℕ) (n : ℤ) (e : CephExecutor)
      → Quiet task start e
      → Holds (OneReport task start) (launch_by_type w fuel task n e)
  unfolding launch_by_type
  launch_by_type-OneReport fuel n e q = elim (Bool-cases (eqb_ℤ n (task_type_code mon))) [
    | inl is_mon_code ↦ rw is_mon_code (
        bind-Holds (λ r. Quiet task start r.1) _ _ _ (construct_mon_command-Quiet _ _ e q)
          (λ r h.
            fetched-Quiet (OneReport task start) r.1 _ h
              (λ t k. launch_container-OneReport fuel true r.0 t.1 k)))
    | inr no_mon ↦ rw no_mon (elim (Bool-cases (eqb_ℤ n (task_type_code osd))) [
      | inl is_osd_code ↦ rw is_osd_code (
          fetched-Quiet (OneReport task start) e _ q
            (λ t k. report_on-OneReport task task_starting start t.1 tt k))
      | inr no_osd ↦ rw no_osd (elim (Bool-cases (eqb_ℤ n (task_type_code radosgw))) [
        | inl is_rgw_code ↦ rw is_rgw_code (
            fetched-Quiet (OneReport task start) e _ q
              (λ t k. launch_container-OneReport fuel false _ t.1 k))
        | inr unknown_code ↦ rw unknown_code (launch_container-OneReport fuel false [] e q)
      ])
    ])
  ]

  launch_in_tree-OneReport :
      (fuel : ℕ) (n : ℤ) (e : CephExecutor)
      → Quiet task start e
      → Holds (OneReport task start) (launch_in_tree w fuel task n e)
  unfolding launch_in_tree
  launch_in_tree-OneReport fuel n e q =
      bind-Holds (λ name. Unit {0}) _ (get_container_name task) _ (named (get_container_name task))
        (λ name h. launch_by_type-OneReport fuel n _ (q.0, q.1, q.2, q.3, q.4, inr refl))
    where
      named : (h : Handled Text) → Holds (λ name. Unit {0}) h
      named (finished_with a) = tt
      named uncaught = tt
      named out_of_vector = tt
      named unfinished = tt
      named wild_write = tt

  parse_labels-Quiet :
      (ls : List Label) (e : CephExecutor)
      → Quiet task start e
      → Quiet task start (parse_labels ls e)
  unfolding parse_labels parse_label
  parse_labels-Quiet [] e q = q
  parse_labels-Quiet (l ∷ ls) e q = parse_labels-Quiet ls (parse_label l e) (ground (arith, q))

  parse_host_config-Quiet :
      (ls : List Label) (e : CephExecutor)
      → Quiet task start e
      → Quiet task start (parse_host_config ls e).1
  unfolding parse_host_config
  parse_host_config-Quiet [] e q = q
  parse_host_config-Quiet (l ∷ ls) e q = parse_labels-Quiet (l ∷ ls) e q

  create-Quiet :
      (e : CephExecutor)
      → Quiet task start e
      → Quiet task start (create_local_shared_config_dir w e).1
  unfolding create_local_shared_config_dir exists_config_files
  create-Quiet e q = ground (arith, q)

  copy-Quiet :
      (e : CephExecutor) → Quiet task start e → Quiet task start (copy_shared_config_files w e).1
  unfolding copy_shared_config_files
  copy-Quiet e q = q

  read_task_data-Quiet :
      (info : Option Text) (e : CephExecutor)
      → Quiet task start e
      → Holds (λ r. Quiet task start r.1) (read_task_data w info e)
  unfolding read_task_data delete_config_dir
  read_task_data-Quiet none e q = q
  read_task_data-Quiet (some info) e q = ground (arith, q)

module _ (w : World) (task : TaskInfo) (start : CephExecutor) where
  launch_configured-OneReport :
      (fuel : ℕ) (need_copy : Bool) (n : ℤ) (e : CephExecutor)
      → Quiet task.task_id start e
      → Holds (OneReport task.task_id start) (launch_configured w fuel task need_copy n e)
  unfolding launch_configured
  launch_configured-OneReport fuel need_copy n e q =
      let e1 = (parse_host_config task.labels e).1 in
      let e2 = (create_local_shared_config_dir w e1).1 in
      let e3 = (copy_shared_config_files w e2).1 in
      let q1 = parse_host_config-Quiet w task.task_id start task.labels e q in
      let q2 = create-Quiet w task.task_id start e1 q1 in
      let q3 = copy-Quiet w task.task_id start e2 q2 in
      elim (Bool-cases (parse_host_config task.labels e).0) [
        | inr bad ↦ rw bad (report_on-OneReport task.task_id task_failed start e1 tt q1)
        | inl parsed ↦ rw parsed (elim (Bool-cases (create_local_shared_config_dir w e1).0) [
          | inr bad ↦ rw bad (report_on-OneReport task.task_id task_failed start e2 tt q2)
          | inl made ↦ rw made (elim (Bool-cases need_copy) [
            | inr fresh ↦ rw fresh (launch_in_tree-OneReport w task.task_id start fuel n e2 q2)
            | inl copies ↦ rw copies (elim (Bool-cases (copy_shared_config_files w e2).0) [
              | inr bad ↦ rw bad (report_on-OneReport task.task_id task_failed start e3 tt q3)
              | inl copied ↦ rw copied (launch_in_tree-OneReport w task.task_id start fuel n e3 q3)
            ])
          ])
        ])
      ]

-- Where `launchTask` returns, it has sent exactly one report more than before: on the task that it was
-- given, without a message, and of the state FAILED, STARTING or RUNNING; so do its early returns and
-- every type of task. It has started at most one file server more, on the executor's own configuration
-- directory, and that only where it reports RUNNING. The directories of an OSD and the messages are as
-- before, and the id of the own task is the one from before or that of the given task.
pub executor_launch-OneReport :
    (w : World) (fuel : ℕ) (task : TaskInfo) (e : CephExecutor)
    → Holds (OneReport task.task_id e) (executor_launch w fuel task e)
unfolding executor_launch set_config_root
executor_launch-OneReport w fuel task e =
    bind-Holds (λ r. Quiet task.task_id e r.1) (OneReport task.task_id e) _ _
      (read_task_data-Quiet w task.task_id e task.info (set_config_root w e)
        (refl, refl, refl, refl, refl, inl refl))
      (λ r q. launch_configured-OneReport w task e fuel r.0.0 r.0.1 r.1 q)
