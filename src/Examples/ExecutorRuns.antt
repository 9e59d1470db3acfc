-- ===== src/Examples/ExecutorRuns.antt =====
-- An executor that is registered, prepares and starts an OSD, and is shut down.
use ceph_mesos.Prelude.{List, Text, [], codes, none, pos, push_back, refl, text_eq, ◌++◌, ◌∷◌, ◌≡◌}
use ceph_mesos.Common.StringUtil.{cut, explode, explode_loop, get_line}
use ceph_mesos.Common.TaskType.{to_executor_code}
use ceph_mesos.Examples.Ceph.{osd_site, osd_site-IsLexical}
use ceph_mesos.Examples.Launches.{osd_task}
use ceph_mesos.Examples.Site.{site_config}
use ceph_mesos.Executor.Ceph.{CephExecutor, Handled, finished_with, start_long_running}
use ceph_mesos.Executor.Ceph.Callbacks.{executor_callback, executor_run}
use ceph_mesos.Executor.Ceph.Callbacks.Heard.{created_id, id_answer, register_osd-id_answer}
use ceph_mesos.Executor.Ceph.Callbacks.Runs.{
  IsKnown, Unmounts, executor_run-IsSound, executor_shutdown-Unmounts,
}
use ceph_mesos.Executor.Ceph.Callbacks.Sound.{IsSound}
use ceph_mesos.Executor.Ceph.Message.{
  executor_message, fork_osd, launch_osd_container, launch_osd_tokens, mount_disk, mount_given,
  mounted, prepare_osd_disks, report_started,
}
use ceph_mesos.Executor.Ceph.Outcomes.{Holds}
use ceph_mesos.Executor.Ceph.Start.{executor_registered, executor_shutdown, new_ceph_executor}
use ceph_mesos.Executor.Driver.{
  ExecutorCallback, call_launch, call_message, call_registered, call_shutdown,
}
use ceph_mesos.Executor.Shell.{run_shell_command, trim_newlines}
use ceph_mesos.Executor.Waiting.{block_until_started, check_daemon, poll}
use ceph_mesos.Scheduler.Agent.{launch_osd_message, new_agent, register_osd_message}
use ceph_mesos.Scheduler.Agent.Updates.{framework_message}
use ceph_mesos.Scheduler.Driver.{task_killed}
use ceph_mesos.State.StateMachine.{get_initial_mon}

abbrev pub osd_callbacks_made : List ExecutorCallback
osd_callbacks_made =
    call_registered (codes "node1") none ∷ call_message (launch_osd_message osd_site (pos 3)) ∷ []

abbrev returned : Handled CephExecutor → CephExecutor
returned (finished_with e) = e
returned _ = new_ceph_executor

abbrev pub after_osd : CephExecutor
after_osd = returned (executor_run osd_site 1 osd_callbacks_made new_ceph_executor)

pub osd_returns :
    executor_run osd_site 1 osd_callbacks_made new_ceph_executor ≡ finished_with after_osd
unfolding executor_run executor_callback executor_message explode explode_loop launch_osd_message
    get_line cut launch_osd_tokens launch_osd_container executor_registered new_ceph_executor
    report_started block_until_started poll check_daemon run_shell_command trim_newlines text_eq
    mounted prepare_osd_disks mount_given mount_disk fork_osd start_long_running to_executor_code
osd_returns = refl

abbrev two_launches : List ExecutorCallback
two_launches =
    call_registered (codes "node1") none
    ∷ call_launch osd_task
    ∷ call_shutdown
    ∷ call_launch osd_task
    ∷ []

executor_run-IsSound_example :
    Holds (IsSound (IsKnown two_launches)) (executor_run osd_site 1 two_launches new_ceph_executor)
executor_run-IsSound_example = executor_run-IsSound osd_site 1 two_launches

executor_shutdown-Unmounts_example :
    (cmds : List Text) × Unmounts after_osd cmds
    × ((executor_shutdown after_osd).commands
        ≡ after_osd.commands ++ cmds ++ (codes "docker rm -f " ++ after_osd.container_name) ∷ [])
    × ((executor_shutdown after_osd).sent
        ≡ push_back after_osd.sent
            (record { task_id = after_osd.my_task_id; state = task_killed; message = none }))
    × IsKnown osd_callbacks_made after_osd.my_task_id
executor_shutdown-Unmounts_example =
    executor_shutdown-Unmounts osd_site 1 osd_callbacks_made after_osd osd_returns

register_osd-id_answer_example :
    let a = new_agent osd_site site_config in
    (e' : CephExecutor) × (executor_message osd_site 1 (register_osd_message osd_site) after_osd
      ≡ finished_with e')
    × (e'.messages ≡ push_back after_osd.messages (created_id osd_site after_osd))
    × (e'.sent ≡ after_osd.sent)
    × (framework_message osd_site
          (get_initial_mon a.machine).executor_id
          (created_id osd_site after_osd)
          a
        ≡ id_answer (osd_site.parse_int (created_id osd_site after_osd)) a)
register_osd-id_answer_example =
    register_osd-id_answer osd_site osd_site-IsLexical 1 after_osd (new_agent osd_site site_config)
