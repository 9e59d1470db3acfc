-- ===== src/Scheduler/Framework/Shutdown.antt =====
-- How the threads of src/scheduler/main.cpp end: `fileServer` of src/httpserver/FileServer.cpp, `restServer` of
-- src/httpserver/RestServer.cpp and `framework` of src/scheduler/CephScheduler.cpp. Whether a daemon starts,
-- and how Mesos' driver ends, are parameters.
use ceph_mesos.Prelude.{
  Bool, List, Option, [], arith, if◌then◌else◌, none, not, some, ℕ, ◌||◌, ◌∷◌, ◌≡◌,
}
use ceph_mesos.Executor.Driver.{DriverStatus, exit_code}

pub data ThreadEnd : Type 0 where
  ends_with : ℕ → ThreadEnd
  never_ends : ThreadEnd

-- `RestServer(int)` keeps the daemon, or a null pointer, and `check` tells which.
unfoldable pub rest_server_end : Bool → ThreadEnd
rest_server_end daemon = if not daemon then ends_with 1 else never_ends

-- With a daemon, the loop behind it sleeps for ever.
unfoldable pub file_server_end : Bool → ThreadEnd
file_server_end daemon = if not daemon then ends_with 1 else never_ends

unfoldable pub framework_end : DriverStatus → ThreadEnd
unfolding exit_code
framework_end status = ends_with (exit_code status)

-- One thread after the other is joined, whatever it returns; `none` where this waits for ever.
unfoldable pub join_all : List ThreadEnd → Option ℕ
join_all [] = some 0
join_all (ends_with code ∷ threads) = join_all threads
join_all (never_ends ∷ threads) = none

unfoldable pub main_end : Bool → Bool → DriverStatus → Option ℕ
unfolding file_server_end rest_server_end framework_end join_all
main_end file_daemon rest_daemon status =
    join_all (file_server_end file_daemon ∷ rest_server_end rest_daemon ∷ framework_end status ∷ [])

-- The program ends only if neither daemon could be started, and then with 0: how the framework ended makes
-- no difference.
pub main_end-daemons :
    (file_daemon rest_daemon : Bool) (status : DriverStatus)
    → main_end file_daemon rest_daemon status
      ≡ (if file_daemon || rest_daemon then none else some 0)
unfolding main_end
main_end-daemons file_daemon rest_daemon status = ground arith
