-- ===== src/Scheduler/Agent/Disks.antt =====
-- The report of the disk executor (`prepareReturnValue` of src/executor/DiskExecutor.cpp), as
-- `statusUpdate` of src/scheduler/CephSchedulerAgent.hpp reads it.
use ceph_mesos.Prelude.{
  All, All-append, Lacks, List, Text, [], ap, append-nil, append_assoc, arith, codes, false, find,
  insert, map, not, refl, select, some, subst, true, ℕ, ℤ, ◌++◌, ◌∙◌, ◌∷◌, ◌≡◌, ◌≢◌,
}
use ceph_mesos.Common.StringUtil.{explode, explode_loop}
use ceph_mesos.Common.StringUtil.Explode.{explode_first, explode_single, fields}
use ceph_mesos.Common.TaskType.{disk_ready, to_scheduler_code}
use ceph_mesos.Common.World.{IsLexical, World}
use ceph_mesos.Executor.Disk.{DiskExecutor}
use ceph_mesos.Executor.Disk.Report.{listed_devs, prepare_return_value}
use ceph_mesos.Executor.Disk.RoundTrip.{listed_devs-Lacks, listed_devs-ne-nil}
use ceph_mesos.Scheduler.Agent.{Agent, with_machine}
use ceph_mesos.Scheduler.Agent.Answers.{get-put-config}
use ceph_mesos.Scheduler.Agent.Updates.{
  disk_ready_fields, disk_ready_message, finish_disks, has_code, outer_devs, status_update,
  update_state,
}
use ceph_mesos.Scheduler.Driver.{TaskStatus, done, task_finished, undefined}
use ceph_mesos.State.HostConfig.{
  HostConfig, contains, set_disk_preparation_done, update_disk_partition,
}
use ceph_mesos.State.HostConfig.Partitions.{listed, update_disk_partition_lem}
use ceph_mesos.State.StateMachine.{get_config, put_config}
use ceph_mesos.State.StateMachine.Counting.{count}

-- Neither of the two delimiters.
abbrev pub IsPlain : Text → Type 0
IsPlain t = Lacks b'.' t × Lacks b':' t

-- A host name and device names that do not break the message.
pub record IsPlainReport (d : DiskExecutor) : Type 0 where
  pub host : IsPlain d.my_hostname
  pub osds : All IsPlain d.failed_osd_devs
  pub jnls : All IsPlain d.failed_jnl_devs

cons-ne-nil : (c : ℕ) (s : Text) → c ∷ s ≢ []
cons-ne-nil c s e = ground arith

append-ne-nil : (s : Text) (c : ℕ) (t : Text) → s ++ c ∷ t ≢ []
append-ne-nil [] c t e = ground arith
append-ne-nil (x ∷ s) c t e = ground arith

IsPlain-Lacks_dot : (ts : List Text) → All IsPlain ts → All (Lacks b'.') ts
IsPlain-Lacks_dot [] h = tt
IsPlain-Lacks_dot (t ∷ ts) h = (h.0.0, IsPlain-Lacks_dot ts h.1)

IsPlain-Lacks_colon : (ts : List Text) → All IsPlain ts → All (Lacks b':') ts
IsPlain-Lacks_colon [] h = tt
IsPlain-Lacks_colon (t ∷ ts) h = (h.0.1, IsPlain-Lacks_colon ts h.1)

-- A host before and after its disks have been prepared, with no disk taken for a failed one.
pub record IsReady (before after : HostConfig) : Type 0 where
  pub idle : after.is_preparing_disk ≡ false
  pub finished : after.done_disk_preparation ≡ true
  pub osds :
      after.osd_partitions
      ≡ before.osd_partitions ++ map (λ dev. dev ++ codes "1") before.pending_osd_devs
  pub no_failed_osds : after.failed_osd_devs ≡ before.failed_osd_devs
  pub no_failed_jnls : after.failed_jnl_devs ≡ before.failed_jnl_devs
  pub no_pending_osds : after.pending_osd_devs ≡ []
  pub no_pending_jnls : after.pending_jnl_devs ≡ []

healthy_all : (devs : List Text) → select (λ dev. not (contains [] dev)) devs ≡ devs
unfolding contains
healthy_all [] = refl
healthy_all (d ∷ devs) = ap (◌∷◌ d) (healthy_all devs)

listed_none : (devs : List Text) → select (contains []) devs ≡ []
unfolding contains
listed_none [] = refl
listed_none (d ∷ devs) = listed_none devs

prepared-IsReady :
    (w : World) (count : ℤ) (hc : HostConfig)
    → IsReady hc (set_disk_preparation_done (update_disk_partition w [] count hc))
unfolding set_disk_preparation_done
prepared-IsReady w count hc = rw update_disk_partition_lem (record {
  idle = refl;
  finished = refl;
  osds = rw healthy_all refl;
  no_failed_osds = rw listed_none (append-nil hc.failed_osd_devs);
  no_failed_jnls = rw listed_none (append-nil hc.failed_jnl_devs);
  no_pending_osds = refl;
  no_pending_jnls = refl;
})

abbrev pub finished_report : World → Text → DiskExecutor → TaskStatus
finished_report w id d = record {
  task_id = id;
  state = task_finished;
  message = some (prepare_return_value w d);
}

module _ (w : World) (lex : IsLexical w) where
  abbrev ready_code : Text
  ready_code = w.print_int (to_scheduler_code disk_ready)

  has_code_ready : has_code w disk_ready ready_code ≡ some true
  unfolding has_code to_scheduler_code
  has_code_ready = rw (lex.parse-print (to_scheduler_code disk_ready), has_code) (ground arith)

  -- The message from its two tokens on.
  ready_tokens :
      (fields : Text) (rest : List Text) (a : Agent)
      → disk_ready_message w (ready_code ∷ fields ∷ rest) a
        ≡ disk_ready_fields w (explode fields b':') a
  unfolding disk_ready_message
  ready_tokens fields rest a = rw (has_code_ready, disk_ready_message)

  ready_message-eq :
      (d : DiskExecutor)
      → prepare_return_value w d
        ≡ ready_code
          ++ b'.' ∷ (d.my_hostname ++ b':' ∷ listed_devs d.failed_osd_devs d.failed_jnl_devs)
  unfolding prepare_return_value
  ready_message-eq d = simp append_assoc

  code_token :
      (rest : Text) → explode (ready_code ++ b'.' ∷ rest) b'.' ≡ ready_code ∷ explode rest b'.'
  code_token rest =
      explode_first ready_code rest b'.' (lex.print-Lacks (to_scheduler_code disk_ready))

  -- What stands between the dots, for a host whose name has a dot.
  dotted_tokens :
      (front back listed : Text)
      → Lacks b'.' front
      → explode ((front ++ b'.' ∷ back) ++ b':' ∷ listed) b'.'
        ≡ front ∷ explode (back ++ b':' ∷ listed) b'.'
  dotted_tokens front back listed h =
      rw (append_assoc front (b'.' ∷ back) (b':' ∷ listed))
        (explode_first front (back ++ b':' ∷ listed) b'.' h)

  one_field :
      (front : Text) (a : Agent)
      → Lacks b':' front
      → disk_ready_fields w (explode front b':') a ≡ undefined
  unfolding disk_ready_fields
  one_field [] a h = unfold explode explode_loop in refl
  one_field (c ∷ front) a h =
      rw (explode_single (c ∷ front) b':' h (cons-ne-nil c front), disk_ready_fields) refl

  two_fields :
      (host listed : Text) (a : Agent)
      → Lacks b':' host
      → Lacks b':' listed
      → listed ≢ []
      → disk_ready_fields w (explode (host ++ b':' ∷ listed) b':') a
        ≡ done (finish_disks w host [] a)
  unfolding disk_ready_fields outer_devs
  two_fields host listed a h k ne =
      rw (explode_first host listed b':' h, explode_single listed b':' k ne, disk_ready_fields) refl

  -- The report of a host whose name has a dot is read beyond the end of a vector.
  pub dotted_host :
      (id front back : Text) (d : DiskExecutor) (a : Agent)
      → d.my_hostname ≡ front ++ b'.' ∷ back
      → IsPlain front
      → status_update w (finished_report w id d) a ≡ undefined
  unfolding status_update update_state
  dotted_host id front back d a e plain =
      let listed = listed_devs d.failed_osd_devs d.failed_jnl_devs in
      rw (ready_message-eq d, code_token, e, dotted_tokens front back listed plain.0, ready_tokens)
        (one_field front a plain.1)

  plain_tokens :
      (host listed : Text)
      → Lacks b'.' host
      → Lacks b'.' listed
      → explode (host ++ b':' ∷ listed) b'.' ≡ (host ++ b':' ∷ listed) ∷ []
  plain_tokens host listed h k =
      explode_single (host ++ b':' ∷ listed) b'.'
        (All-append _ host (b':' ∷ listed) h (omega arith, k)) (append-ne-nil host b':' listed)

  plain_report :
      (id : Text) (d : DiskExecutor) (a : Agent)
      → IsPlainReport d
      → status_update w (finished_report w id d) a ≡ done (finish_disks w d.my_hostname [] a)
  unfolding status_update update_state
  plain_report id d a p =
      let osds = d.failed_osd_devs in
      let jnls = d.failed_jnl_devs in
      let undotted =
        listed_devs-Lacks b'.' (omega arith) (omega arith) osds jnls (IsPlain-Lacks_dot osds p.osds)
          (IsPlain-Lacks_dot jnls p.jnls) in
      let uncut =
        listed_devs-Lacks b':' (omega arith) (omega arith) osds jnls
          (IsPlain-Lacks_colon osds p.osds) (IsPlain-Lacks_colon jnls p.jnls) in
      rw
        (
          ready_message-eq d,
          code_token,
          plain_tokens d.my_hostname (listed_devs osds jnls) p.host.0 undotted,
          ready_tokens,
        )
        (two_fields d.my_hostname (listed_devs osds jnls) a p.host.1 uncut
          (listed_devs-ne-nil osds jnls))

  -- What the report of a disk executor does to any agent.
  pub report_finishes :
      (id : Text) (d : DiskExecutor) (a : Agent)
      → IsPlainReport d
      → let before = get_config d.my_hostname a.machine in
        (b : Agent) × (status_update w (finished_report w id d) a ≡ done b)
        × (b
            ≡ with_machine
                (put_config d.my_hostname (get_config d.my_hostname b.machine) a.machine)
                a)
        × IsReady before (get_config d.my_hostname b.machine)
  report_finishes id d a p = (
    finish_disks w d.my_hostname [] a,
    plain_report id d a p,
    unfold finish_disks in rw get-put-config refl,
    unfold finish_disks in rw get-put-config (prepared-IsReady w _ _),
  )

  -- The scheduler reads the report of a disk executor, whichever disks it lists as failed, as if it
  -- listed none: the host is ready, each pending OSD device becomes a partition to use, none joins the
  -- failed ones, nothing stays pending, and no other part of the agent but that host's entry changes.
  -- The host has an entry of its own in the scheduler's map. The names of the host and of the listed
  -- devices hold no dot and no colon.
  pub failed_disks_ignored :
      (id : Text) (d : DiskExecutor) (a : Agent) (before : HostConfig)
      → IsPlainReport d
      → find d.my_hostname a.machine.host_config_map ≡ some before
      → (b : Agent) × (after : HostConfig) × (status_update w (finished_report w id d) a ≡ done b)
        × (b
            ≡ with_machine
                (record a.machine {
                  host_config_map = insert d.my_hostname after a.machine.host_config_map;
                })
                a)
        × IsReady before after
  unfolding put_config get_config
  failed_disks_ignored id d a before p known =
      let (b, hears, same, ready) = report_finishes id d a p in
      (
        b,
        get_config d.my_hostname b.machine,
        hears,
        same ∙ rw (known, put_config) refl,
        subst (λ hc. IsReady hc (get_config d.my_hostname b.machine)) (rw (known, get_config) refl)
            ready,
      )
