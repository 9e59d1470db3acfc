-- ===== src/Executor/Ceph/Osd.antt =====
-- An OSD task from the scheduler that builds it to the executor that launches it.
use ceph_mesos.Prelude.{
  Bool, Bool-cases, Lacks, List, Text, [], ap, append_assoc, arith, codes, false, inl, inr, none,
  pos, push_back, refl, some, text_eq, true, ℕ, ℤ, ◌++◌, ◌∙◌, ◌∷◌, ◌≡◌,
}
use ceph_mesos.Common.StringUtil.{c_str, explode}
use ceph_mesos.Common.StringUtil.Explode.{explode_first, explode_single}
use ceph_mesos.Common.TaskType.{osd, task_type_code}
use ceph_mesos.Common.World.{IsLexical, World}
use ceph_mesos.Executor.Ceph.{
  CephExecutor, Handled, finished_with, report_on, run_command, wild_write,
}
use ceph_mesos.Executor.Ceph.Commands.{
  copy_shared_config_files, create_local_shared_config_dir, delete_config_dir, exists_config_files,
  zero_answer,
}
use ceph_mesos.Executor.Ceph.Handshake.{message_tokens}
use ceph_mesos.Executor.Ceph.Start.{
  download_docker_image, executor_launch, get_container_name, image_name, launch_by_type,
  launch_configured, launch_in_tree, parse_host_config, parse_label, parse_labels, read_task_data,
  set_config_root,
}
use ceph_mesos.Executor.Shell.{run_shell_command}
use ceph_mesos.Scheduler.Agent.{flag_code}
use ceph_mesos.Scheduler.Agent.Launch.{
  add_host_config, create_task_name, name_prefix, node_data, node_task,
}
use ceph_mesos.Scheduler.Driver.{
  ExecutorInfo, Label, Offer, TaskInfo, TaskStateCode, TaskStatus, task_failed, task_starting,
}
use ceph_mesos.State.HostConfig.{HostConfig, pop_journal_partition, pop_osd_partition}

abbrev pub plain_report : Text → TaskStateCode → TaskStatus
plain_report task state = record { task_id = task; state = state; message = none }

-- What becomes of an OSD task with the given partitions and container name.
pub data OsdLaunch (task : Text) (before : List TaskStatus) (osd_par jnl_par name : Text)
    : Handled CephExecutor → Type 0 where
  no_image : OsdLaunch task before osd_par jnl_par name wild_write
  fails :
      (e : CephExecutor)
      → e.sent ≡ push_back before (plain_report task task_failed)
      → OsdLaunch task before osd_par jnl_par name (finished_with e)
  starts :
      (e : CephExecutor)
      → e.sent ≡ push_back before (plain_report task task_starting)
      → (e.osddisk ≡ osd_par)
        × (e.jnldisk ≡ jnl_par)
        × (e.container_name ≡ name)
        × (e.my_task_id ≡ task)
      → OsdLaunch task before osd_par jnl_par name (finished_with e)

abbrev image_test : Text
image_test = codes "docker images|grep " ++ (image_name ++ codes " > /dev/null 2>&1;echo $?")

module _ (w : World) (before : List TaskStatus) (osd_par jnl_par : Text) where
  -- The disks are known, and nothing has been reported yet.
  abbrev IsParsed : CephExecutor → Type 0
  IsParsed e = (e.sent ≡ before) × (e.osddisk ≡ osd_par) × (e.jnldisk ≡ jnl_par)

  osd_by_type :
      (fuel : ℕ) (task : Text) (e : CephExecutor)
      → IsParsed e
      → e.my_task_id ≡ task
      → OsdLaunch task before osd_par jnl_par e.container_name
          (launch_by_type w fuel task (pos 1) e)
  unfolding launch_by_type task_type_code download_docker_image
  osd_by_type fuel task e p t =
      elim (Bool-cases (zero_answer (run_shell_command w e.commands image_test))) [
        | inr absent ↦ rw absent no_image
        | inl there ↦ rw there (
            starts (report_on task task_starting none (run_command image_test e)) (rw p.0 refl)
              (p.1, p.2, refl, t))
      ]

  osd_in_tree :
      (fuel : ℕ) (task name : Text) (e : CephExecutor)
      → IsParsed e
      → get_container_name task ≡ finished_with name
      → OsdLaunch task before osd_par jnl_par name (launch_in_tree w fuel task (pos 1) e)
  unfolding launch_in_tree
  osd_in_tree fuel task name e p h = rw h (
      osd_by_type fuel task
        (run_command (codes "docker rm -f " ++ name)
          (record e { container_name = name; my_task_id = task }))
        p refl)

  create-IsParsed :
      (e : CephExecutor) → IsParsed e → IsParsed (create_local_shared_config_dir w e).1
  unfolding create_local_shared_config_dir exists_config_files
  create-IsParsed e p = ground (arith, p.0, p.1, p.2)

  failed :
      (task name : Text) (e : CephExecutor)
      → IsParsed e
      → OsdLaunch task before osd_par jnl_par name
          (finished_with (report_on task task_failed none e))
  failed task name e p = fails (report_on task task_failed none e) (rw p.0 refl)

  osd_configured :
      (fuel : ℕ) (task : TaskInfo) (name : Text) (need_copy : Bool) (e e1 : CephExecutor)
      → parse_host_config task.labels e ≡ (true, e1)
      → IsParsed e1
      → get_container_name task.task_id ≡ finished_with name
      → OsdLaunch task.task_id before osd_par jnl_par name
          (launch_configured w fuel task need_copy (pos 1) e)
  unfolding launch_configured copy_shared_config_files
  osd_configured fuel task name need_copy e e1 parses p named =
      let e2 = (create_local_shared_config_dir w e1).1 in
      let p2 = create-IsParsed e1 p in
      rw parses (elim (Bool-cases (create_local_shared_config_dir w e1).0) [
        | inr bad ↦ rw bad (failed task.task_id name e2 p2)
        | inl made ↦ rw made (elim (Bool-cases need_copy) [
          | inr fresh ↦ rw fresh (osd_in_tree fuel task.task_id name e2 p2 named)
          | inl copies ↦ rw copies (elim (Bool-cases (copy_shared_config_files w e2).0) [
            | inr bad ↦ rw bad (failed task.task_id name (copy_shared_config_files w e2).1 p2)
            | inl copied ↦
                rw copied
                  (osd_in_tree fuel task.task_id name (copy_shared_config_files w e2).1 p2 named)
          ])
        ])
      ])

module _ (w : World) (lex : IsLexical w) where
  create_task_name-Lacks : (token : ℤ) → Lacks b'.' (create_task_name w osd token)
  unfolding create_task_name name_prefix
  create_task_name-Lacks token = (omega arith, (omega arith, (omega arith, lex.print-Lacks token)))

  container_name_first :
      (name rest : Text)
      → Lacks b'.' name
      → get_container_name (name ++ b'.' ∷ rest) ≡ finished_with name
  unfolding get_container_name
  container_name_first name rest h = rw (get_container_name, explode_first name rest b'.' h) refl

  node_task-container :
      (role : Text) (offer : Offer) (token : ℤ) (initial : Bool) (executor : ExecutorInfo)
      (labels : List Label)
      → get_container_name (node_task w role offer osd token initial executor labels).task_id
        ≡ finished_with (create_task_name w osd token)
  unfolding node_task
  node_task-container role offer token initial executor labels =
      let name = create_task_name w osd token in
      let host = offer.hostname in
      ap get_container_name (
        append_assoc (name ++ codes "." ++ host) (codes ".") offer.slave_id
        ∙ ap (λ t. t ++ (codes "." ++ offer.slave_id)) (append_assoc name (codes ".") host)
        ∙ append_assoc name (codes "." ++ host) (codes "." ++ offer.slave_id))
      ∙ container_name_first name (host ++ (codes "." ++ offer.slave_id))
          (create_task_name-Lacks token)

  data_tokens :
      (initial : Bool)
      → explode (node_data w initial osd) b'.'
        ≡ w.print_int (flag_code initial) ∷ w.print_int (pos 1) ∷ []
  unfolding node_data task_type_code
  data_tokens initial =
      message_tokens _ (w.print_int (pos 1)) (lex.print-Lacks (flag_code initial))
      ∙ ap (◌∷◌ (w.print_int (flag_code initial)))
          (explode_single _ b'.' (lex.print-Lacks (pos 1)) (lex.print-ne-nil (pos 1)))

  read_node_data :
      (initial : Bool) (e : CephExecutor)
      → (b : Bool) × (e1 : CephExecutor) × (read_task_data w (some (node_data w initial osd)) e
          ≡ finished_with ((b, pos 1), e1))
        × (e1.sent ≡ e.sent)
  unfolding read_task_data delete_config_dir
  read_node_data initial e =
      rw (read_task_data, data_tokens initial, lex.parse-print (pos 1))
        (elim (Bool-cases (text_eq (w.print_int (flag_code initial)) (codes "1"))) [
          | inl is ↦ rw is (false, delete_config_dir e, refl, refl)
          | inr isnt ↦ rw isnt (true, e, refl, refl)
        ])

launch_read_data :
    (w : World) (fuel : ℕ) (task : TaskInfo) (e e1 : CephExecutor) (b : Bool) (n : ℤ)
    → read_task_data w task.info (set_config_root w e) ≡ finished_with ((b, n), e1)
    → executor_launch w fuel task e ≡ launch_configured w fuel task b n e1
unfolding executor_launch
launch_read_data w fuel task e e1 b n h = rw h refl

labels_read :
    (hc : HostConfig) (e : CephExecutor)
    → parse_host_config (add_host_config osd hc).0 e ≡ (
      true,
      record e {
        mgmt_nic = hc.original_config.mgmtdev;
        data_nic = hc.original_config.datadev;
        osddisk = (pop_osd_partition hc).0;
        jnldisk = (pop_journal_partition (pop_osd_partition hc).1).0;
      },
    )
unfolding add_host_config parse_host_config parse_labels parse_label text_eq c_str
labels_read hc e = refl

-- As long as lexical_cast reads back what it prints, whatever the shell answers and whatever fuel
-- there is: an executor that is given the scheduler's task for an OSD returns from `launchTask`
-- without an exception and without reading beyond a vector, unless the docker image is missing. It
-- then has sent one report more, on that task: FAILED, or STARTING with the partitions that the
-- scheduler took from the host as its disks and the name that the scheduler gave the node as its
-- container's.
pub executor_launch-osd :
    (w : World) (lex : IsLexical w) (fuel : ℕ) (role : Text) (offer : Offer) (hc : HostConfig)
    (token : ℤ) (initial : Bool) (executor : ExecutorInfo) (e : CephExecutor)
    → let osd_popped = pop_osd_partition hc in
      let task = node_task w role offer osd token initial executor (add_host_config osd hc).0 in
      OsdLaunch task.task_id e.sent osd_popped.0
        (pop_journal_partition osd_popped.1).0
        (create_task_name w osd token)
        (executor_launch w fuel task e)
unfolding set_config_root node_task
executor_launch-osd w lex fuel role offer hc token initial executor e =
    let task = node_task w role offer osd token initial executor (add_host_config osd hc).0 in
    let (need_copy, e1, reads, silent) = read_node_data w lex initial (set_config_root w e) in
    rw (launch_read_data w fuel task e e1 need_copy (pos 1) reads) (
      osd_configured w e.sent _ _ fuel task _ need_copy e1 _ (labels_read hc e1)
        (silent, refl, refl)
        (node_task-container w lex role offer token initial executor (add_host_config osd hc).0))
