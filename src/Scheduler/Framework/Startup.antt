-- ===== src/Scheduler/Framework/Startup.antt =====
-- What the program starts with, and the executors' binaries that it serves.
use ceph_mesos.Prelude.{
  List, Option-cases, Text, [], append_assoc, arith, codes, false, inl, inr, refl, some, text_eq,
  true, ◌++◌, ◌∷◌, ◌≡◌,
}
use ceph_mesos.Common.Config.{Config, get_config}
use ceph_mesos.Common.Config.Laws.{IsComplete, get_config-IsComplete}
use ceph_mesos.Common.World.{World}
use ceph_mesos.HttpServer.FileServer.{FileSystem, file_request, get_method, serve_path}
use ceph_mesos.Scheduler.Agent.Launch.{binary_uri, disk_binary, executor_binary}
use ceph_mesos.Scheduler.Framework.{
  ProgramThread, file_server, framework, framework_thread, main, rest_server,
}

-- The uri that tasks carry for a binary, and the request that it makes to the file server on the port
-- and directory of the configuration: the file's name is that directory's with the binary's name.
abbrev pub IsFetched : World → FileSystem → Config → Text → Type 0
IsFetched w fs config binary =
    (binary_uri w config binary
      ≡ codes "http://"
        ++ w.local_ip
        ++ codes ":"
        ++ w.print_int config.fileport
        ++ (codes "/" ++ binary))
    × (file_request fs config.fileroot get_method (codes "/" ++ binary) true
        ≡ record { reply = serve_path fs (config.fileroot ++ binary); marked = false })

binary_uri-IsFetched :
    (w : World) (fs : FileSystem) (config : Config) (binary : Text)
    → ((t : Text) → fs.text_at t ≡ t)
    → IsFetched w fs config binary
unfolding binary_uri file_request text_eq
binary_uri-IsFetched w fs config binary kept =
    (simp append_assoc refl, rw (kept (config.fileroot ++ binary)) refl)

-- Where `main` starts its threads, it has a configuration in which nothing is missing; the file server,
-- the REST server and the driver get its ports, directory and master, and the framework is named after
-- its id and has its role. As long as the file name's memory is kept, the file server answers the uris
-- that tasks carry for the two executors' binaries with the files of these names in its directory.
pub main_lem :
    (w : World) (fs : FileSystem) (threads : List ProgramThread)
    → ((t : Text) → fs.text_at t ≡ t)
    → main w ≡ some threads
    → (config : Config) × (get_config w ≡ some config)
      × (threads
          ≡ file_server config.fileport config.fileroot
            ∷ rest_server config.restport
            ∷ framework_thread
                (record {
                  user = codes "root";
                  name = config.id;
                  role = config.role;
                  checkpoint = true;
                })
                config.master
            ∷ [])
      × IsComplete config
      × IsFetched w fs config executor_binary
      × IsFetched w fs config disk_binary
unfolding main framework
main_lem w fs threads kept h = elim (Option-cases (get_config w)) [
  | inl missing ↦ absurd (ground arith)
  | inr (config, found) ↦
      let (f, loads, overrides, complete) = get_config-IsComplete w config found in
      (
        config,
        found,
        ground arith,
        complete,
        binary_uri-IsFetched w fs config executor_binary kept,
        binary_uri-IsFetched w fs config disk_binary kept,
      )
]
