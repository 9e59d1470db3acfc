-- ===== src/Executor/Ceph/Callbacks/Heard.antt =====
-- What the scheduler (src/scheduler/CephSchedulerAgent.hpp) makes of the reports and messages of the executor
-- of src/executor/CephExecutor.cpp.
use ceph_mesos.Prelude.{
  All, All-append, List, Option, Text, [], codes, false, inl, inr, none, pos, push_back, refl, some,
  subst, sym, text_eq_refl, true, ℕ, ℤ, ◌++◌, ◌∙◌, ◌∷◌, ◌≡◌, ◌⊎◌,
}
use ceph_mesos.Common.StringUtil.Explode.{explode_single}
use ceph_mesos.Common.TaskType.{to_executor_code}
use ceph_mesos.Common.World.{IsLexical, World}
use ceph_mesos.Executor.Ceph.{CephExecutor, config_dir, finished_with}
use ceph_mesos.Executor.Ceph.Callbacks.{executor_callback, executor_run}
use ceph_mesos.Executor.Ceph.Callbacks.Runs.{executor_shutdown-umounts}
use ceph_mesos.Executor.Ceph.Handshake.{
  fork_osd-IsMounted, launch_read, mounted-IsMounted, report_read,
}
use ceph_mesos.Executor.Ceph.Message.{
  executor_message, fork_osd, launch_osd_container, mounted, register_new_osd, register_osd_id,
  report_started,
}
use ceph_mesos.Executor.Ceph.Outcomes.{Holds, Holds-map, OneReport, bind-Holds}
use ceph_mesos.Executor.Ceph.Reports.{executor_launch-OneReport}
use ceph_mesos.Executor.Ceph.Start.{
  executor_launch, executor_registered, executor_shutdown, new_ceph_executor,
}
use ceph_mesos.Executor.Driver.{
  ExecutorCallback, call_disconnected, call_error, call_kill, call_launch, call_message,
  call_registered, call_reregistered, call_shutdown,
}
use ceph_mesos.Executor.Shell.{run_shell_command}
use ceph_mesos.Executor.Waiting.{Waited, answered, bad_timeout, still_waiting}
use ceph_mesos.Scheduler.Agent.{Agent, launch_osd_message, register_osd_message, with_machine}
use ceph_mesos.Scheduler.Agent.Survival.{Heard}
use ceph_mesos.Scheduler.Agent.Updates.{framework_message, status_update, update_state}
use ceph_mesos.Scheduler.Driver.{
  Outcome, TaskInfo, TaskStateCode, TaskStatus, done, task_failed, task_finished, task_killed,
  task_other, task_running, task_starting, thrown,
}
use ceph_mesos.State.StateMachine.{add_pending_osdid, get_initial_mon}

-- A message, if the callback brings one, is one that the scheduler composes.
abbrev pub FromScheduler : World → ExecutorCallback → Type 0
FromScheduler w (call_message text) =
    (text ≡ register_osd_message w) ⊎ ((n : ℤ) × (text ≡ launch_osd_message w n))
FromScheduler w _ = Unit

-- What an answer to the request for an id does to the scheduler, by the number that is read from it.
abbrev pub id_answer : Option ℤ → Agent → Outcome Agent
id_answer none a = thrown a
id_answer (some n) a = done (with_machine (add_pending_osdid n a.machine) a)

plain-Heard :
    (w : World) (task : Text) (state : TaskStateCode)
    → Heard w (record { task_id = task; state = state; message = none })
unfolding status_update update_state
plain-Heard w task task_running a = (_, refl)
plain-Heard w task task_starting a = (_, refl)
plain-Heard w task task_failed a = (_, refl)
plain-Heard w task task_finished a = (_, refl)
plain-Heard w task task_killed a = (_, refl)
plain-Heard w task task_other a = (_, refl)

silent-Heard : (w : World) (s : TaskStatus) → s.message ≡ none → Heard w s
silent-Heard w s e =
    subst (λ m. Heard w (record s { message = m })) (sym e) (plain-Heard w s.task_id s.state)

module _ (w : World) where
  abbrev AllHeard : CephExecutor → Type 0
  AllHeard e = All (Heard w) e.sent

  one_more :
      (e e' : CephExecutor) (s : TaskStatus)
      → e'.sent ≡ push_back e.sent s
      → Heard w s
      → AllHeard e
      → AllHeard e'
  one_more e e' s sent h k =
      subst (All (Heard w)) (sym sent) (All-append (Heard w) e.sent (s ∷ []) k (h, tt))

  launch-AllHeard :
      (fuel : ℕ) (task : TaskInfo) (e : CephExecutor)
      → AllHeard e
      → Holds AllHeard (executor_launch w fuel task e)
  launch-AllHeard fuel task e k =
      Holds-map (OneReport task.task_id e) AllHeard (executor_launch w fuel task e)
        (executor_launch-OneReport w fuel task e)
        (λ e' r. one_more e e' r.0 r.1 (silent-Heard w r.0 r.3) k)

  shutdown-AllHeard : (e : CephExecutor) → AllHeard e → AllHeard (executor_shutdown e)
  shutdown-AllHeard e k =
      one_more e (executor_shutdown e) _ (rw (executor_shutdown-umounts e) refl)
        (plain-Heard w e.my_task_id task_killed) k

  -- What `ceph osd create` answers to the executor.
  abbrev pub created_id : CephExecutor → Text
  created_id e =
      run_shell_command w e.commands
        (codes "docker exec " ++ e.container_name ++ codes " ceph osd create")

  module _ (lex : IsLexical w) (fuel : ℕ) where
    report_started-AllHeard :
        (n : ℤ) (waited : Waited) (e : CephExecutor)
        → AllHeard e
        → Holds AllHeard (report_started w (w.print_int n) waited e)
    unfolding report_started
    report_started-AllHeard n bad_timeout e k = tt
    report_started-AllHeard n still_waiting e k = tt
    report_started-AllHeard n (answered true after) e k = All-append (Heard w) e.sent _ k (
      λ a. (
        _,
        report_read w lex (w.print_int n) e.my_task_id a (lex.print-Lacks n) (lex.print-ne-nil n),
      ),
      tt,
    )
    report_started-AllHeard n (answered false after) e k =
        All-append (Heard w) e.sent _ k (plain-Heard w e.my_task_id task_failed, tt)

    launched-AllHeard :
        (n : ℤ) (e : CephExecutor)
        → AllHeard e
        → Holds AllHeard (executor_message w fuel (launch_osd_message w n) e)
    unfolding launch_osd_container
    launched-AllHeard n e k =
        let osd_id = w.print_int n in
        let m = mounted-IsMounted osd_id e in
        let f = fork_osd-IsMounted (config_dir e) osd_id (mounted osd_id e).1 in
        let ready = fork_osd (config_dir e) osd_id (mounted osd_id e).1 in
        rw (launch_read w lex fuel n e, launch_osd_container, m.succeeds)
          (report_started-AllHeard n _ ready (subst (All (Heard w)) (sym (f.silent ∙ m.silent)) k))

    register_read :
        (e : CephExecutor)
        → executor_message w fuel (register_osd_message w) e ≡ finished_with (register_new_osd w e)
    unfolding executor_message register_osd_message to_executor_code
    register_read e =
        rw
          (
            explode_single (w.print_int (pos 20)) b'.' (lex.print-Lacks (pos 20))
                (lex.print-ne-nil (pos 20)),
            executor_message,
            lex.parse-print (pos 20),
          )
          refl

    -- The message by which the scheduler asks the initial MON's executor for an OSD id is handled there
    -- without an exception, and the executor answers with what `ceph osd create` prints, and reports
    -- nothing. When the scheduler hears this answer from the initial MON's executor, it adds the number that
    -- lexical_cast reads from it to the pending ids; if lexical_cast reads none, as where the command fails,
    -- the scheduler's handler throws.
    pub register_osd-id_answer :
        (e : CephExecutor) (a : Agent)
        → let first = get_initial_mon a.machine in
          (e' : CephExecutor) × (executor_message w fuel (register_osd_message w) e
            ≡ finished_with e')
          × (e'.messages ≡ push_back e.messages (created_id e))
          × (e'.sent ≡ e.sent)
          × (framework_message w first.executor_id (created_id e) a
              ≡ id_answer (w.parse_int (created_id e)) a)
    unfolding register_new_osd register_osd_id framework_message
    register_osd-id_answer e a = (
      register_new_osd w e,
      register_read e,
      refl,
      refl,
      rw (framework_message, text_eq_refl (get_initial_mon a.machine).executor_id)
          (by_number (w.parse_int (created_id e))),
    )
      where
        by_number :
            (o : Option ℤ)
            → (elim o [
              | none ↦ thrown a
              | some n ↦ done (with_machine (add_pending_osdid n a.machine) a)
            ])
              ≡ id_answer o a
        by_number none = refl
        by_number (some n) = refl

    message-AllHeard :
        (text : Text) (e : CephExecutor)
        → (text ≡ register_osd_message w) ⊎ ((n : ℤ) × (text ≡ launch_osd_message w n))
        → AllHeard e
        → Holds AllHeard (executor_message w fuel text e)
    unfolding register_new_osd register_osd_id
    message-AllHeard text e (inl asks) k =
        subst (λ t. Holds AllHeard (executor_message w fuel t e)) (sym asks)
          (rw (register_read e) k)
    message-AllHeard text e (inr (n, gives)) k =
        subst (λ t. Holds AllHeard (executor_message w fuel t e)) (sym gives)
          (launched-AllHeard n e k)

    run-AllHeard :
        (cs : List ExecutorCallback) (e : CephExecutor)
        → All (FromScheduler w) cs
        → AllHeard e
        → Holds AllHeard (executor_run w fuel cs e)
    unfolding executor_run executor_callback executor_registered
    run-AllHeard [] e h k = k
    run-AllHeard (call_registered hostname cwd ∷ cs) e h k = run-AllHeard cs _ h.1 k
    run-AllHeard (call_reregistered ∷ cs) e h k = run-AllHeard cs e h.1 k
    run-AllHeard (call_disconnected ∷ cs) e h k = run-AllHeard cs e h.1 k
    run-AllHeard (call_launch task ∷ cs) e h k =
        bind-Holds AllHeard AllHeard _ (executor_run w fuel cs) (launch-AllHeard fuel task e k)
          (λ a. run-AllHeard cs a h.1)
    run-AllHeard (call_kill task_id ∷ cs) e h k = run-AllHeard cs e h.1 k
    run-AllHeard (call_message text ∷ cs) e h k =
        bind-Holds AllHeard AllHeard _ (executor_run w fuel cs) (message-AllHeard text e h.0 k)
          (λ a. run-AllHeard cs a h.1)
    run-AllHeard (call_shutdown ∷ cs) e h k = run-AllHeard cs _ h.1 (shutdown-AllHeard e k)
    run-AllHeard (call_error text ∷ cs) e h k = run-AllHeard cs e h.1 k

-- An executor gets only messages that the scheduler composes, and lexical_cast reads back what it prints.
-- Then, whatever callbacks a new executor has returned from, each report it has sent is one that the
-- scheduler handles without an exception and without reading out of range, in any state of the scheduler.
pub executor_run-Heard :
    (w : World) (lex : IsLexical w) (fuel : ℕ) (cs : List ExecutorCallback)
    → All (FromScheduler w) cs
    → Holds (λ e. All (Heard w) e.sent) (executor_run w fuel cs new_ceph_executor)
unfolding new_ceph_executor
executor_run-Heard w lex fuel cs h = run-AllHeard w lex fuel cs new_ceph_executor h tt
