-- ===== src/Examples/Servers.antt =====
-- Small files, a MON's host, and the scheduler's program at its start.
use ceph_mesos.Prelude.{
  All, Bool, List, Text, [], codes, false, if◌then◌else◌, map, none, pos, push_back, refl, some,
  text_eq, true, ℕ, ◌++◌, ◌∷◌, ◌≡◌,
}
use ceph_mesos.Common.Config.{Config, get_config}
use ceph_mesos.Common.Config.Laws.{IsComplete}
use ceph_mesos.Common.TaskType.{osd}
use ceph_mesos.Examples.Configs.{site_config-read}
use ceph_mesos.Examples.Site.{site, site_config}
use ceph_mesos.Executor.Ceph.{CephExecutor, config_dir, finished_with}
use ceph_mesos.Executor.Ceph.Start.{new_ceph_executor, report_waited}
use ceph_mesos.Executor.Waiting.{answered}
use ceph_mesos.HttpServer.FileServer.{FileSystem}
use ceph_mesos.HttpServer.FileServer.Shared.{IsServed, cluster_files, started_mon-IsServed, uri_of}
use ceph_mesos.Scheduler.Agent.{new_agent}
use ceph_mesos.Scheduler.Agent.Launch.{create_executor, disk_binary, executor_binary}
use ceph_mesos.Scheduler.Driver.{task_running}
use ceph_mesos.Scheduler.Framework.{
  ProgramThread, file_server, framework, framework_thread, main, rest_server,
}
use ceph_mesos.Scheduler.Framework.Startup.{IsFetched, main_lem}
use ceph_mesos.State.StateMachine.{get_initial_mon}

-- One file, in a memory that is kept.
abbrev one_file : FileSystem
one_file = record {
  text_at = λ t. t;
  size_of = λ t. if text_eq t (codes "/srv/monmap") then some 6 else none;
  open_file = λ t. some (codes "monmap");
  makes_response = true;
}

started_mon-IsServed_example :
    let e = new_ceph_executor in
    let a = new_agent site site_config in
    (e' : CephExecutor) × (server : ℕ × Text) × (binary : Text × Bool) × (report_waited site
        (codes "mon0.node1.s1")
        true
        (answered true [])
        e
      ≡ finished_with e')
    × (e'.sent
        ≡ push_back e.sent
            (record { task_id = codes "mon0.node1.s1"; state = task_running; message = none }))
    × (e'.file_servers ≡ push_back e.file_servers server)
    × (server.1 ≡ config_dir e ++ codes "/etc/ceph/")
    × ((create_executor site (codes "executor") osd (pos 0) false a).0.uris
        ≡ binary ∷ map (uri_of (get_initial_mon a.machine).host_name server) cluster_files)
    × All (IsServed one_file server) cluster_files
started_mon-IsServed_example =
    started_mon-IsServed site one_file (codes "mon0.node1.s1") [] new_ceph_executor (λ t. refl)
      (codes "executor") osd (pos 0) (new_agent site site_config)

abbrev site_threads : List ProgramThread
site_threads =
    file_server site_config.fileport site_config.fileroot
    ∷ rest_server site_config.restport
    ∷ framework_thread
        (record {
          user = codes "root";
          name = site_config.id;
          role = site_config.role;
          checkpoint = true;
        })
        site_config.master
    ∷ []

site_starts : main site ≡ some site_threads
unfolding main framework
site_starts = rw (main, site_config-read) refl

main_lem_example :
    (config : Config) × (get_config site ≡ some config)
    × (site_threads
        ≡ file_server config.fileport config.fileroot
          ∷ rest_server config.restport
          ∷ framework_thread
              (record {
                user = codes "root";
                name = config.id;
                role = config.role;
                checkpoint = true;
              })
              config.master
          ∷ [])
    × IsComplete config
    × IsFetched site one_file config executor_binary
    × IsFetched site one_file config disk_binary
main_lem_example = main_lem site one_file site_threads (λ t. refl) site_starts
