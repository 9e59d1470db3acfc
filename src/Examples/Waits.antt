-- ===== src/Examples/Waits.antt =====
-- Waiting for a container that shows up at the second poll, and for one that never does.
use ceph_mesos.Prelude.{
  List, Option, Text, [], arith, codes, push_back, refl, some, text_eq, ℕ, ◌∷◌, ◌≡◌, ◌≢◌,
}
use ceph_mesos.Common.World.{World}
use ceph_mesos.Examples.Site.{site}
use ceph_mesos.Executor.Shell.{run_shell_command, trim_newlines}
use ceph_mesos.Executor.Waiting.{
  answered, block_until_started, daemon_command, poll_command, still_waiting, zero_code,
}
use ceph_mesos.Executor.Waiting.Endless.{
  FoundAfter, block_until_started-found, polled, waits_without_end,
}

-- Every command but the first one succeeds.
abbrev late_output : List Text → Text → Option Text
late_output [] cmd = some (codes "1")
late_output (c ∷ before) cmd = some (codes "0")

abbrev late_site : World
late_site = record site { popen = late_output }

abbrev silent_site : World
silent_site = record site { popen = λ before cmd. some (codes "1") }

one_is_not_zero : codes "1" ≢ zero_code
one_is_not_zero e = ground arith

found : FoundAfter late_site 1 (poll_command (codes "mon0")) []
unfolding run_shell_command trim_newlines
found = (one_is_not_zero, refl)

block_until_started-found_example :
    let after = polled 2 (poll_command (codes "mon0")) [] in
    let cmd = daemon_command (codes "mon0") (codes "+1") in
    block_until_started late_site 5 (codes "mon0") (codes "+1") []
    ≡ answered (text_eq zero_code (run_shell_command late_site after cmd)) (push_back after cmd)
block_until_started-found_example =
    block_until_started-found late_site 1 5 0 (codes "mon0") (codes "+1") [] refl (omega arith)
      found

never :
    (n : ℕ)
    → run_shell_command silent_site
        (polled n (poll_command (codes "mon0")) [])
        (poll_command (codes "mon0"))
      ≢ zero_code
unfolding run_shell_command trim_newlines
never n = one_is_not_zero

waits_without_end_example :
    block_until_started silent_site 1000 (codes "mon0") (codes "+1") [] ≡ still_waiting
waits_without_end_example =
    waits_without_end silent_site 1000 0 (codes "mon0") (codes "+1") [] refl never
