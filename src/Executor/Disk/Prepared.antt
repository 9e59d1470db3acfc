-- ===== src/Executor/Disk/Prepared.antt =====
-- What `prepareDisks` of src/executor/DiskExecutor.cpp leaves where the shell's counts are numbers.
use ceph_mesos.Prelude.{
  All, All-append, Bool, List, Text, [], codes, eqb_ℤ, false, negsuc, pos, pos_part, push_back,
  refl, some, subst, suc, sym, true, zero, ℕ, ℤ, ◌&&◌, ◌++◌, ◌∙◌, ◌∷◌, ◌≡◌, ◌≢◌,
}
use ceph_mesos.Common.World.{World}
use ceph_mesos.Executor.Disk.{
  DiskExecutor, check_success, count_command, count_lines, fs_type, jnl_label, mkfs_disk, osd_label,
  partition_commands, partition_disk,
}
use ceph_mesos.Executor.Disk.Launch.{
  fail_jnl, fail_osd, mkfs_all, prepare_disks, prepare_each, prepare_jnl, prepare_osd, record_check,
}
use ceph_mesos.Executor.Shell.{run_shell_command}
use ceph_mesos.Scheduler.Driver.{Outcome, done}

-- The shell can be started, and documented behaviour of `wc -l`: what it prints is a number.
pub record CountsLines (w : World) : Type 0 where
  pub counted :
      (before : List Text) (diskname word : Text)
      → (n : ℤ) × (w.parse_int (run_shell_command w before (count_command w diskname word))
          ≡ some n)

-- What the preparation leaves as it was, and that it adds only devices of one kind to the failed ones.
pub record IsKept (P : Text → Type 0) (before after : DiskExecutor) : Type 0 where
  pub id : after.my_task_id ≡ before.my_task_id
  pub host : after.my_hostname ≡ before.my_hostname
  pub sent : after.sent ≡ before.sent
  pub pending : after.pending_jnl_devs ≡ before.pending_jnl_devs
  pub count : after.jnl_partition_count ≡ before.jnl_partition_count
  pub osds : All P before.failed_osd_devs → All P after.failed_osd_devs
  pub jnls : All P before.failed_jnl_devs → All P after.failed_jnl_devs

module _ (P : Text → Type 0) where
  same-IsKept : (d : DiskExecutor) → IsKept P d d
  same-IsKept d = record {
    id = refl;
    host = refl;
    sent = refl;
    pending = refl;
    count = refl;
    osds = λ h. h;
    jnls = λ h. h;
  }

  then-IsKept : (a b c : DiskExecutor) → IsKept P a b → IsKept P b c → IsKept P a c
  then-IsKept a b c h k = record {
    id = k.id ∙ h.id;
    host = k.host ∙ h.host;
    sent = k.sent ∙ h.sent;
    pending = k.pending ∙ h.pending;
    count = k.count ∙ h.count;
    osds = λ x. k.osds (h.osds x);
    jnls = λ x. k.jnls (h.jnls x);
  }

  logged-IsKept : (d : DiskExecutor) (cmds : List Text) → IsKept P d (record d { commands = cmds })
  logged-IsKept d cmds = record {
    id = refl;
    host = refl;
    sent = refl;
    pending = refl;
    count = refl;
    osds = λ h. h;
    jnls = λ h. h;
  }

module _ (w : World) where
  pub mkfs_all-logs :
      (dev : Text) (left j : ℕ) (d : DiskExecutor)
      → (cmds : List Text) × (mkfs_all w dev left j d ≡ record d { commands = cmds })
  unfolding mkfs_all mkfs_disk
  mkfs_all-logs dev zero j d = (d.commands, refl)
  mkfs_all-logs dev (suc left) j d = mkfs_all-logs dev left (suc j) _

  pub partition_disk-logs :
      (dev : Text) (count : ℤ) (line : Text) (d : DiskExecutor)
      → count ≢ pos 0
      → (cmds : List Text) × (partition_disk w dev count line d
          ≡ done (record d { commands = cmds }))
  unfolding partition_disk
  partition_disk-logs dev (pos zero) line d some_parts = absurd (some_parts refl)
  partition_disk-logs dev (pos (suc n)) line d some_parts = (_, refl)
  partition_disk-logs dev (negsuc n) line d some_parts = (_, refl)

module _ (w : World) (counting : CountsLines w) where
  check_success-answers :
      (diskname : Text) (count : ℤ) (line : Text) (d : DiskExecutor)
      → (b : Bool) × (cmds : List Text) × (check_success w diskname count line d
          ≡ (some b, record d { commands = cmds }))
  unfolding check_success count_lines
  check_success-answers diskname count line d =
      let once = push_back d.commands (count_command w diskname line) in
      let (p, e) = counting.counted d.commands diskname line in
      let (f, e') = counting.counted once diskname fs_type in
      (
        eqb_ℤ count p && eqb_ℤ count f,
        push_back once (count_command w diskname fs_type),
        rw (e, e') refl,
      )

  module _ (P : Text → Type 0) where
    abbrev Prepares : (DiskExecutor → Outcome DiskExecutor) → DiskExecutor → Type 0
    Prepares f d0 = (d : DiskExecutor) × (f d0 ≡ done d) × IsKept P d0 d

    record_check-IsKept :
        (mark : DiskExecutor → DiskExecutor) (d : DiskExecutor) (b : Bool)
        → IsKept P d (mark d)
        → (e : DiskExecutor) × (record_check mark (some b, d) ≡ done e) × IsKept P d e
    record_check-IsKept mark d true k = (d, refl, same-IsKept P d)
    record_check-IsKept mark d false k = (mark d, refl, k)

    checked-Prepares :
        (mark : DiskExecutor → DiskExecutor) (dev : Text) (count : ℤ) (line : Text)
        (d : DiskExecutor)
        → ((x : DiskExecutor) → IsKept P x (mark x))
        → Prepares (λ x. record_check mark (check_success w dev count line x)) d
    checked-Prepares mark dev count line d k =
        let (b, cmds, e) = check_success-answers dev count line d in
        let logged : DiskExecutor = record d { commands = cmds } in
        let (d1, e1, k1) = record_check-IsKept mark logged b (k logged) in
        (d1, rw e e1, then-IsKept P d logged d1 (logged-IsKept P d cmds) k1)

    fail_osd-IsKept : (dev : Text) (d : DiskExecutor) → P dev → IsKept P d (fail_osd dev d)
    fail_osd-IsKept dev d h = record {
      id = refl;
      host = refl;
      sent = refl;
      pending = refl;
      count = refl;
      osds = λ x. All-append P d.failed_osd_devs (dev ∷ []) x (h, tt);
      jnls = λ x. x;
    }

    fail_jnl-IsKept : (dev : Text) (d : DiskExecutor) → P dev → IsKept P d (fail_jnl dev d)
    fail_jnl-IsKept dev d h = record {
      id = refl;
      host = refl;
      sent = refl;
      pending = refl;
      count = refl;
      osds = λ x. x;
      jnls = λ x. All-append P d.failed_jnl_devs (dev ∷ []) x (h, tt);
    }

    prepare_osd-Prepares : (dev : Text) (d : DiskExecutor) → P dev → Prepares (prepare_osd w dev) d
    unfolding prepare_osd partition_disk mkfs_disk
    prepare_osd-Prepares dev d h =
        let (d1, e, k) =
          checked-Prepares (fail_osd dev) dev (pos 1) osd_label
            (mkfs_disk w (codes "/dev/" ++ dev ++ codes "1")
              (record d { commands = d.commands ++ partition_commands w dev 1 osd_label }))
            (λ x. fail_osd-IsKept dev x h) in
        (d1, e, then-IsKept P d _ d1 (logged-IsKept P d _) k)

    prepare_jnl-Prepares :
        (dev : Text) (d : DiskExecutor)
        → d.jnl_partition_count ≢ pos 0
        → P dev
        → Prepares (prepare_jnl w dev) d
    unfolding prepare_jnl
    prepare_jnl-Prepares dev d some_parts h =
        let (cmds, e) = partition_disk-logs w dev d.jnl_partition_count jnl_label d some_parts in
        let d1 : DiskExecutor = record d { commands = cmds } in
        let (cmds2, e2) = mkfs_all-logs w dev (pos_part d.jnl_partition_count) 1 d1 in
        let d2 : DiskExecutor = record d { commands = cmds2 } in
        let (d3, e3, k) =
          checked-Prepares (fail_jnl dev) dev d.jnl_partition_count jnl_label d2
            (λ x. fail_jnl-IsKept dev x h) in
        (d3, rw (e, e2) e3, then-IsKept P d d2 d3 (logged-IsKept P d cmds2) k)

    prepare_osds-Prepares :
        (devs : List Text) (d : DiskExecutor)
        → All P devs
        → Prepares (prepare_each w (prepare_osd w) devs) d
    unfolding prepare_each
    prepare_osds-Prepares [] d h = (d, refl, same-IsKept P d)
    prepare_osds-Prepares (dev ∷ devs) d h =
        let (d1, e1, k1) = prepare_osd-Prepares dev d h.0 in
        let (d2, e2, k2) = prepare_osds-Prepares devs d1 h.1 in
        (d2, rw e1 e2, then-IsKept P d d1 d2 k1 k2)

    prepare_jnls-Prepares :
        (devs : List Text) (d : DiskExecutor)
        → d.jnl_partition_count ≢ pos 0
        → All P devs
        → Prepares (prepare_each w (prepare_jnl w) devs) d
    unfolding prepare_each
    prepare_jnls-Prepares [] d some_parts h = (d, refl, same-IsKept P d)
    prepare_jnls-Prepares (dev ∷ devs) d some_parts h =
        let (d1, e1, k1) = prepare_jnl-Prepares dev d some_parts h.0 in
        let (d2, e2, k2) = prepare_jnls-Prepares devs d1 (λ z. some_parts (sym k1.count ∙ z)) h.1 in
        (d2, rw e1 e2, then-IsKept P d d1 d2 k1 k2)

    -- The preparation ends, and sends nothing: it only adds devices with the property that all
    -- devices to prepare have to the failed ones.
    pub prepare_disks-Prepares :
        (d : DiskExecutor)
        → d.jnl_partition_count ≢ pos 0
        → All P d.pending_osd_devs
        → All P d.pending_jnl_devs
        → Prepares (prepare_disks w) d
    unfolding prepare_disks
    prepare_disks-Prepares d some_parts osds jnls =
        let (d1, e1, k1) = prepare_osds-Prepares d.pending_osd_devs d osds in
        let (d2, e2, k2) =
          prepare_jnls-Prepares d1.pending_jnl_devs d1 (λ z. some_parts (sym k1.count ∙ z))
            (subst (All P) (sym k1.pending) jnls) in
        (d2, rw e1 e2, then-IsKept P d d1 d2 k1 k2)
