-- ===== src/HttpServer/FileServer/Shared.antt =====
-- The files that a MON's executor shares, from its directory to the uris of the other nodes' tasks.
use ceph_mesos.Prelude.{
  All, Bool, List, Text, [], codes, false, map, none, push_back, refl, text_eq, true, ℕ, ℤ, ◌%◌,
  ◌++◌, ◌+◌, ◌/◌, ◌∷◌, ◌≡◌,
}
use ceph_mesos.Common.TaskType.{TaskType}
use ceph_mesos.Common.World.{World}
use ceph_mesos.Executor.Ceph.{CephExecutor, config_dir, finished_with}
use ceph_mesos.Executor.Ceph.Start.{publish_keyrings, report_waited}
use ceph_mesos.Executor.Waiting.{answered}
use ceph_mesos.HttpServer.FileServer.{FileSystem, file_request, get_method, serve_path}
use ceph_mesos.Scheduler.Agent.{Agent}
use ceph_mesos.Scheduler.Agent.Launch.{create_executor, shared_uris}
use ceph_mesos.Scheduler.Driver.{task_running}
use ceph_mesos.State.StateMachine.{get_initial_mon}

-- What the server is asked for by a request for a file, and where that file is found: in the server's
-- directory, under the given name.
abbrev pub IsServed : FileSystem → ℕ × Text → Text → Type 0
IsServed fs server name =
    file_request fs server.1 get_method (codes "/" ++ name) true
    ≡ record { reply = serve_path fs (server.1 ++ name); marked = false }

files-IsServed :
    (fs : FileSystem) (server : ℕ × Text)
    → ((t : Text) → fs.text_at t ≡ t)
    → (files : List Text) → All (IsServed fs server) files
unfolding file_request text_eq
files-IsServed fs server kept [] = tt
files-IsServed fs server kept (f ∷ files) =
    (rw (kept (server.1 ++ f)) refl, files-IsServed fs server kept files)

abbrev digit : ℕ → ℕ
digit n = b'0' + n % 10

-- A number below 10000 without leading zeros, in decimal.
abbrev pub four_digits : ℕ → Text
four_digits n = digit (n / 1000) ∷ digit (n / 100) ∷ digit (n / 10) ∷ digit n ∷ []

-- The uri of a file on a server of the given host.
abbrev pub uri_of : Text → ℕ × Text → Text → Text × Bool
uri_of host server name =
    (codes "http://" ++ host ++ (codes ":" ++ four_digits server.0 ++ codes "/") ++ name, false)

-- What the other nodes need of the cluster.
abbrev pub cluster_files : List Text
cluster_files =
    codes "ceph.client.admin.keyring"
    ∷ codes "ceph.conf"
    ∷ codes "ceph.mon.keyring"
    ∷ codes "monmap"
    ∷ codes "ceph.keyring.osd"
    ∷ codes "ceph.keyring.rgw"
    ∷ codes "ceph.keyring.mds"
    ∷ []

-- When the container of a MON that shares its files has come up, its executor starts one file server and
-- reports the task RUNNING. The executor that the scheduler describes for any node but the initial one then fetches, next
-- to its binary, the seven files of the cluster from this server's port on the initial MON's host, and the
-- server, asked for one of these files, serves the one of that name in the directory of the MON's
-- configuration, as long as the memory of the file's name is kept.
pub started_mon-IsServed :
    (w : World) (fs : FileSystem) (task : Text) (after : List Text) (e : CephExecutor)
    → ((t : Text) → fs.text_at t ≡ t)
    → (name : Text) (ty : TaskType) (token : ℤ) (a : Agent)
    → (e' : CephExecutor) × (server : ℕ × Text) × (binary : Text × Bool) × (report_waited w task
          true
          (answered true after)
          e
        ≡ finished_with e')
      × (e'.sent
          ≡ push_back e.sent (record { task_id = task; state = task_running; message = none }))
      × (e'.file_servers ≡ push_back e.file_servers server)
      × (server.1 ≡ config_dir e ++ codes "/etc/ceph/")
      × ((create_executor w name ty token false a).0.uris
          ≡ binary ∷ map (uri_of (get_initial_mon a.machine).host_name server) cluster_files)
      × All (IsServed fs server) cluster_files
unfolding report_waited publish_keyrings create_executor shared_uris
started_mon-IsServed w fs task after e kept name ty token a = (
  _,
  (7777, config_dir e ++ codes "/etc/ceph/"),
  _,
  refl,
  refl,
  refl,
  refl,
  refl,
  files-IsServed fs (7777, config_dir e ++ codes "/etc/ceph/") kept cluster_files,
)
