-- ===== src/Executor/Shell.antt =====
-- `runShellCommand`, which src/executor/DiskExecutor.cpp and src/executor/CephExecutor.cpp share word
-- for word.
use ceph_mesos.Prelude.{List, Text, [], codes, if◌then◌else◌, none, some, ◌==◌, ◌∷◌}
use ceph_mesos.Common.World.{World}

-- `result.substr(0, result.find_last_not_of('\n') + 1)`
unfoldable pub trim_newlines : Text → Text
trim_newlines [] = []
trim_newlines (c ∷ s) = elim (trim_newlines s) [
  | [] ↦ if c == 10 then [] else c ∷ []
  | d ∷ ds ↦ c ∷ d ∷ ds
]

abbrev pub shell_error : Text
shell_error = codes "Run shell command ERROR!"

-- The result of a command, given the commands that ran before it.
unfoldable pub run_shell_command : World → List Text → Text → Text
unfolding trim_newlines
run_shell_command w before cmd = elim (w.popen before cmd) [
  | none ↦ shell_error
  | some output ↦ trim_newlines output
]
