-- ===== src/Executor/Ceph/Handshake.antt =====
-- The messages that an OSD's start takes, from the scheduler to the executor and back.
use ceph_mesos.Prelude.{
  Bool, Lacks, List, Text, [], ap, append-nil, append_assoc, arith, codes, eqb_ℤ, false,
  if◌then◌else◌, none, pos, push_back, refl, some, true, ℕ, ℤ, ◌++◌, ◌∙◌, ◌∷◌, ◌≡◌, ◌≢◌,
}
use ceph_mesos.Common.StringUtil.{explode}
use ceph_mesos.Common.StringUtil.Explode.{explode_first, explode_single}
use ceph_mesos.Common.TaskType.{to_executor_code, to_scheduler_code}
use ceph_mesos.Common.World.{IsLexical, World}
use ceph_mesos.Executor.Ceph.{CephExecutor, config_dir, finished_with, start_long_running}
use ceph_mesos.Executor.Ceph.Message.{
  consumed_osd_message, executor_message, fork_osd, launch_osd_container, launch_osd_tokens,
  mount_disk, mount_given, mounted, prepare_osd_disks, report_started,
}
use ceph_mesos.Executor.Waiting.{answered, block_until_started}
use ceph_mesos.Executor.Waiting.Commands.{block_until_started-Extends}
use ceph_mesos.Scheduler.Agent.{Agent, launch_osd_message, with_machine}
use ceph_mesos.Scheduler.Agent.Updates.{consumed_message, has_code, status_update, update_state}
use ceph_mesos.Scheduler.Driver.{TaskStatus, done, task_failed, task_running}
use ceph_mesos.State.StateMachine.{StateMachine, update_task_to_failed, update_task_to_running}

-- A mount succeeds, reports nothing, and leaves the task as it is.
pub record IsMounted (e : CephExecutor) (r : Bool × CephExecutor) : Type 0 where
  pub succeeds : r.0 ≡ true
  pub silent : r.1.sent ≡ e.sent
  pub same_task : r.1.my_task_id ≡ e.my_task_id

mount_given-IsMounted : (disk dir : Text) (e : CephExecutor) → IsMounted e (mount_given disk dir e)
unfolding mount_given mount_disk
mount_given-IsMounted [] dir e = record { succeeds = refl; silent = refl; same_task = refl }
mount_given-IsMounted (c ∷ disk) dir e = record { succeeds = refl; silent = refl; same_task = refl }

IsMounted-again :
    (e : CephExecutor) (r : Bool × CephExecutor)
    → IsMounted e r
    → IsMounted e (if r.0 then mount_given r.1.jnldisk r.1.jnl_dir r.1 else (false, r.1))
IsMounted-again e r m =
    let next = mount_given-IsMounted r.1.jnldisk r.1.jnl_dir r.1 in
    rw m.succeeds (record {
      succeeds = next.succeeds;
      silent = next.silent ∙ m.silent;
      same_task = next.same_task ∙ m.same_task;
    })

pub mounted-IsMounted : (osd_id : Text) (e : CephExecutor) → IsMounted e (mounted osd_id e)
unfolding mounted prepare_osd_disks
mounted-IsMounted osd_id e =
    let first = mount_given-IsMounted _ _ _ in
    IsMounted-again e _
      (record { succeeds = first.succeeds; silent = first.silent; same_task = first.same_task })

pub fork_osd-IsMounted :
    (dir osd_id : Text) (e : CephExecutor) → IsMounted e (true, fork_osd dir osd_id e)
unfolding fork_osd start_long_running
fork_osd-IsMounted dir osd_id e = record { succeeds = refl; silent = refl; same_task = refl }

-- The command that mounts a disk on a directory, none where no disk is given.
abbrev pub mounting : Text → Text → List Text
mounting [] dir = []
mounting (c ∷ disk) dir =
    (codes "mount -o inode64,noatime,logbsize=256k /dev/" ++ (c ∷ disk) ++ codes " " ++ dir) ∷ []

-- The commands by which the disks of an OSD are mounted on its two directories.
abbrev pub mounting_all : Text → CephExecutor → List Text
mounting_all osd_id e =
    let osd_dir = config_dir e ++ codes "/var/lib/ceph/osd/ceph-" ++ osd_id in
    let jnl_dir = config_dir e ++ codes "/var/lib/ceph/osd/jnl-" ++ osd_id in
    (codes "mkdir -p " ++ osd_dir) ∷ (codes "mkdir -p " ++ jnl_dir) ∷ mounting e.osddisk osd_dir
    ++ mounting e.jnldisk jnl_dir

mount_given-mounting :
    (disk dir : Text) (e : CephExecutor)
    → mount_given disk dir e ≡ (true, record e { commands = e.commands ++ mounting disk dir })
unfolding mount_given mount_disk
mount_given-mounting [] dir e = simp append-nil
mount_given-mounting (c ∷ disk) dir e = refl

pub mounted-mounting_all :
    (osd_id : Text) (e : CephExecutor)
    → (mounted osd_id e).1.commands ≡ e.commands ++ mounting_all osd_id e
unfolding mounted prepare_osd_disks
mounted-mounting_all osd_id e =
    rw (mount_given-mounting, prepare_osd_disks) (rw mount_given-mounting (simp append_assoc))

fork_osd-commands :
    (dir osd_id : Text) (e : CephExecutor) → (fork_osd dir osd_id e).commands ≡ e.commands
unfolding fork_osd start_long_running
fork_osd-commands dir osd_id e = refl

-- A message of a code and one more field.
pub message_tokens :
    (code rest : Text)
    → Lacks b'.' code
    → explode (code ++ codes "." ++ rest) b'.' ≡ code ∷ explode rest b'.'
message_tokens code rest h =
    rw (append_assoc code (codes ".") rest) (explode_first code rest b'.' h)

codes_apart : eqb_ℤ (pos 21) (pos 20) ≡ false
codes_apart = ground arith

-- What the scheduler's machine makes of an OSD that has started, or not.
abbrev pub after_start : Bool → Text → StateMachine → StateMachine
after_start true task m = update_task_to_running task m
after_start false task m = update_task_to_failed task m

module _ (w : World) (lex : IsLexical w) where
  pub launch_read :
      (fuel : ℕ) (id : ℤ) (e : CephExecutor)
      → executor_message w fuel (launch_osd_message w id) e
        ≡ launch_osd_container w fuel (w.print_int id) e
  unfolding executor_message launch_osd_message launch_osd_tokens to_executor_code
  launch_read fuel id e =
      rw
        (
          message_tokens (w.print_int (pos 21)) (w.print_int id) (lex.print-Lacks (pos 21)),
          executor_message,
          launch_osd_message,
          lex.parse-print (pos 21),
          explode_single (w.print_int id) b'.' (lex.print-Lacks id) (lex.print-ne-nil id),
        )
        refl

  pub report_read :
      (osd_id task : Text) (a : Agent)
      → Lacks b'.' osd_id
      → osd_id ≢ []
      → status_update w
          (record {
            task_id = task;
            state = task_running;
            message = some (consumed_osd_message w osd_id);
          })
          a
        ≡ done (with_machine (update_task_to_running task a.machine) a)
  unfolding status_update update_state consumed_osd_message to_scheduler_code consumed_message
      has_code
  report_read osd_id task a h ne =
      rw
        (
          message_tokens (w.print_int (pos 1)) osd_id (lex.print-Lacks (pos 1)),
          consumed_message,
          has_code,
          lex.parse-print (pos 1),
          explode_single osd_id b'.' h ne,
        )
        refl

  abbrev report_of : Text → ℤ → Bool → TaskStatus
  report_of task id true = record {
    task_id = task;
    state = task_running;
    message = some (consumed_osd_message w (w.print_int id));
  }
  report_of task id false = record { task_id = task; state = task_failed; message = none }

  abbrev reported : ℤ → Bool → List Text → CephExecutor → CephExecutor
  reported id ok after e = record e {
    commands = after;
    sent = push_back e.sent (report_of e.my_task_id id ok);
  }

  report_started-reported :
      (id : ℤ) (ok : Bool) (after : List Text) (e : CephExecutor)
      → report_started w (w.print_int id) (answered ok after) e
        ≡ finished_with (reported id ok after e)
  unfolding report_started
  report_started-reported id true after e = refl
  report_started-reported id false after e = refl

  report_of-read :
      (task : Text) (id : ℤ) (ok : Bool) (a : Agent)
      → status_update w (report_of task id ok) a
        ≡ done (with_machine (after_start ok task a.machine) a)
  unfolding status_update update_state
  report_of-read task id true a =
      report_read (w.print_int id) task a (lex.print-Lacks id) (lex.print-ne-nil id)
  report_of-read task id false a = refl

  -- As long as lexical_cast reads back what it prints, the message by which the scheduler gives an
  -- id to an OSD makes its executor create the two directories of that id and mount its disks on them, each
  -- only if it has been given, before any other command; once the wait for the container has an answer, the
  -- executor sends one report on its own task, which the scheduler reads
  -- without an exception, and which sets the task to RUNNING if the container has started, and to
  -- FAILED if not.
  pub osd_handshake :
      (fuel : ℕ) (id : ℤ) (e : CephExecutor) (ok : Bool) (after : List Text) (a : Agent)
      → let ready = fork_osd (config_dir e) (w.print_int id) (mounted (w.print_int id) e).1 in
        block_until_started w fuel ready.container_name (codes "30") ready.commands
          ≡ answered ok after
        → (e' : CephExecutor) × (s : TaskStatus) × (executor_message w fuel
              (launch_osd_message w id)
              e
            ≡ finished_with e')
          × (e'.sent ≡ push_back e.sent s)
          × ((waiting : List Text) × (e'.commands
                ≡ e.commands ++ mounting_all (w.print_int id) e ++ waiting))
          × (status_update w s a ≡ done (with_machine (after_start ok e.my_task_id a.machine) a))
  unfolding launch_osd_container
  osd_handshake fuel id e ok after a h =
      let osd_id = w.print_int id in
      let m = mounted-IsMounted osd_id e in
      let f = fork_osd-IsMounted (config_dir e) osd_id (mounted osd_id e).1 in
      let ready = fork_osd (config_dir e) osd_id (mounted osd_id e).1 in
      let (more, extends) =
        block_until_started-Extends w fuel ready.container_name (codes "30") ready.commands after ok
          h in
      (
        reported id ok after ready,
        report_of e.my_task_id id ok,
        launch_read fuel id e
            ∙ rw (m.succeeds, launch_osd_container, h) (report_started-reported id ok after ready),
        rw (f.silent, f.same_task, m.silent, m.same_task) refl,
        (
          more,
          extends
              ∙ ap (λ l. l ++ more)
                  (fork_osd-commands (config_dir e) osd_id (mounted osd_id e).1
                    ∙ mounted-mounting_all osd_id e),
        ),
        report_of-read e.my_task_id id ok a,
      )
