-- ===== src/Executor/System.antt =====
-- The scheduler of src/scheduler/CephSchedulerAgent.hpp together with the executors of src/executor.
use ceph_mesos.Prelude.{
  All, All-middle, List, Text, [], some, subst, sym, ℕ, ℤ, ◌++◌, ◌∷◌, ◌≡◌, ◌≢◌,
}
use ceph_mesos.Common.JsonUtil.{JsonCpp}
use ceph_mesos.Common.World.{IsLexical, World}
use ceph_mesos.Executor.Ceph.{CephExecutor, finished_with}
use ceph_mesos.Executor.Ceph.Callbacks.{executor_run}
use ceph_mesos.Executor.Ceph.Callbacks.Heard.{FromScheduler, executor_run-Heard}
use ceph_mesos.Executor.Ceph.Outcomes.{Holds}
use ceph_mesos.Executor.Ceph.Start.{new_ceph_executor}
use ceph_mesos.Executor.Disk.{DiskExecutor}
use ceph_mesos.Executor.Driver.{ExecutorCallback}
use ceph_mesos.Scheduler.Agent.{Agent}
use ceph_mesos.Scheduler.Agent.Disks.{IsPlainReport, finished_report}
use ceph_mesos.Scheduler.Agent.Runs.{Callback, on_message, on_offers, on_request, on_update, run}
use ceph_mesos.Scheduler.Agent.Survival.{
  HasConfigs, Heard, IsReadable, finished_report-Heard, run-returns,
}
use ceph_mesos.Scheduler.Driver.{TaskStatus, done}
use ceph_mesos.Scheduler.EventLoop.Json.{check_text, escapes, request_of}

-- A report that one of the executors sends: a Ceph executor, after callbacks that bring it only messages that
-- the scheduler composes, or a disk executor, whose host and disks have names without dots and colons.
pub data SentReport (w : World) (s : TaskStatus) : Type 0 where
  by_node :
      (fuel : ℕ) (cs : List ExecutorCallback) (e : CephExecutor) (before after : List TaskStatus)
      → All (FromScheduler w) cs
      → executor_run w fuel cs new_ceph_executor ≡ finished_with e
      → e.sent ≡ before ++ s ∷ after
      → SentReport w s
  by_disks :
      (id : Text) (d : DiskExecutor) → IsPlainReport d → s ≡ finished_report w id d → SentReport w s

SentReport-Heard : (w : World) (lex : IsLexical w) (s : TaskStatus) → SentReport w s → Heard w s
SentReport-Heard w lex s (by_node fuel cs e before after composed ran is_sent) =
    All-middle (Heard w) before s after (
      subst (All (Heard w)) is_sent
        (subst (Holds (λ x. All (Heard w) x.sent)) ran (executor_run-Heard w lex fuel cs composed)))
SentReport-Heard w lex s (by_disks id d plain e) =
    subst (Heard w) (sym e) (finished_report-Heard w lex id d plain)

module _ (w : World) {V : Type 0} (json : JsonCpp V) where
  -- A callback on the scheduler as the system makes it.
  abbrev pub IsFromSystem : Callback → Type 0
  IsFromSystem (on_offers offers) = Unit
  IsFromSystem (on_update s) = SentReport w s
  IsFromSystem (on_message executor_id payload) = (n : ℤ) × (w.parse_int payload ≡ some n)
  IsFromSystem (on_request r) =
      (text : Text) × (check_text json text ≢ escapes) × (r ≡ request_of json text)

  all-IsReadable :
      (lex : IsLexical w) (cs : List Callback) → All IsFromSystem cs → All (IsReadable w) cs
  all-IsReadable lex [] h = tt
  all-IsReadable lex (on_offers offers ∷ cs) h = (tt, all-IsReadable lex cs h.1)
  all-IsReadable lex (on_update s ∷ cs) h =
      (SentReport-Heard w lex s h.0, all-IsReadable lex cs h.1)
  all-IsReadable lex (on_message executor_id payload ∷ cs) h = (h.0, all-IsReadable lex cs h.1)
  all-IsReadable lex (on_request r ∷ cs) h = (tt, all-IsReadable lex cs h.1)

-- Every host has a configuration that can be read, lexical_cast reads back what it prints, and each message
-- to the scheduler is a number. Each report that reaches it is one that a Ceph executor sends, after any
-- callbacks with messages that the scheduler composes, or a disk executor's on a host where no name holds a
-- dot or a colon. Then the scheduler handles any sequence of callbacks, with any offers, and with the requests of
-- any posted texts on which `jsonCheck` lets no exception out, to its end, without an exception and without reading out of range.
pub run-IsFromSystem :
    (w : World) {V : Type 0} (json : JsonCpp V) (lex : IsLexical w) (configs : HasConfigs w)
    (cs : List Callback) (a : Agent)
    → All (IsFromSystem w json) cs
    → (b : Agent) × (run w cs a ≡ done b)
run-IsFromSystem w json lex configs cs a h =
    run-returns w configs cs a (all-IsReadable w json lex cs h)
