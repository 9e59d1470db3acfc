-- ===== src/Executor/Ceph/Callbacks/Sound.antt =====
-- Which tasks the executor of src/executor/CephExecutor.cpp reports on, which directories it has mounted,
-- and what `shutdown` does about them.
use ceph_mesos.Prelude.{
  All, All-append, Bool-cases, List, List-cases, Option, Option-cases, Text, [], codes, eqb_ℤ,
  false, if◌then◌else◌, inl, inr, push_back, refl, subst, sym, true, ℕ, ℤ, ◌++◌, ◌∙◌, ◌∷◌, ◌≡◌,
}
use ceph_mesos.Common.StringUtil.{explode}
use ceph_mesos.Common.TaskType.{launch_osd, register_osd, to_executor_code}
use ceph_mesos.Common.World.{World}
use ceph_mesos.Executor.Ceph.{
  CephExecutor, config_dir, finished_with, report_on, start_long_running,
}
use ceph_mesos.Executor.Ceph.Message.{
  executor_message, fork_osd, launch_osd_container, launch_osd_tokens, mount_disk, mount_given,
  mounted, prepare_osd_disks, register_new_osd, register_osd_id, report_started,
}
use ceph_mesos.Executor.Ceph.Outcomes.{Holds, OneReport}
use ceph_mesos.Executor.Waiting.{Waited, answered, bad_timeout, still_waiting}
use ceph_mesos.Scheduler.Driver.{TaskStateCode}

-- The two directories of an OSD, under a root and with the OSD's id.
abbrev pub osd_dir_of : Text → Text → Text
osd_dir_of root id = root ++ codes "/var/lib/ceph/osd/ceph-" ++ id

abbrev pub jnl_dir_of : Text → Text → Text
jnl_dir_of root id = root ++ codes "/var/lib/ceph/osd/jnl-" ++ id

-- No directory is mounted, or both are, for the same OSD.
pub data Mounts (e : CephExecutor) : Type 0 where
  no_mounts : e.osd_dir ≡ [] → e.jnl_dir ≡ [] → Mounts e
  both_mounts :
      (root id : Text) → e.osd_dir ≡ osd_dir_of root id → e.jnl_dir ≡ jnl_dir_of root id → Mounts e

Mounts-same :
    (e e' : CephExecutor) → e'.osd_dir ≡ e.osd_dir → e'.jnl_dir ≡ e.jnl_dir → Mounts e → Mounts e'
Mounts-same e e' x y (no_mounts a b) = no_mounts (x ∙ a) (y ∙ b)
Mounts-same e e' x y (both_mounts root id a b) = both_mounts root id (x ∙ a) (y ∙ b)

-- The own task and every report are on tasks of one kind.
pub record IsSound (P : Text → Type 0) (e : CephExecutor) : Type 0 where
  pub own : P e.my_task_id
  pub reports : All (λ s. P s.task_id) e.sent
  pub mounts : Mounts e

module _ (P : Text → Type 0) where
  -- One report more on a task of the kind.
  pub reported :
      (task : Text) (state : TaskStateCode) (msg : Option Text) (e : CephExecutor)
      → P task
      → IsSound P e
      → IsSound P (report_on task state msg e)
  reported task state msg e h k = record {
    own = k.own;
    reports = All-append (λ s. P s.task_id) e.sent _ k.reports (h, tt);
    mounts = Mounts-same e _ refl refl k.mounts;
  }

  pub same_core :
      (e e' : CephExecutor)
      → e'.my_task_id ≡ e.my_task_id
      → e'.sent ≡ e.sent
      → e'.osd_dir ≡ e.osd_dir
      → e'.jnl_dir ≡ e.jnl_dir
      → IsSound P e
      → IsSound P e'
  same_core e e' own sent x y k = record {
    own = subst P (sym own) k.own;
    reports = subst (All (λ s. P s.task_id)) (sym sent) k.reports;
    mounts = Mounts-same e e' x y k.mounts;
  }

  pub launched :
      (task : Text) (e e' : CephExecutor)
      → P task
      → IsSound P e
      → OneReport task e e'
      → IsSound P e'
  launched task e e' h k r =
      let (s, sent, on, _, _, _, rest) = r in
      record {
        own = elim rest.3 [
          | inl same ↦ subst P (sym same) k.own
          | inr given ↦ subst P (sym given) h
        ];
        reports =
            subst (All (λ s. P s.task_id)) (sym sent)
              (All-append (λ s. P s.task_id) e.sent _ k.reports (subst P (sym on) h, tt));
        mounts = Mounts-same e e' rest.0 rest.1 k.mounts;
      }

  logged :
      (e : CephExecutor) (cmds : List Text) → IsSound P e → IsSound P (record e { commands = cmds })
  logged e cmds k = same_core e _ refl refl refl refl k

  mount_given-IsSound :
      (disk dir : Text) (e : CephExecutor) → IsSound P e → IsSound P (mount_given disk dir e).1
  unfolding mount_given mount_disk
  mount_given-IsSound [] dir e k = k
  mount_given-IsSound (c ∷ disk) dir e k = logged e _ k

  prepare_osd_disks-IsSound : (e : CephExecutor) → IsSound P e → IsSound P (prepare_osd_disks e).1
  unfolding prepare_osd_disks
  prepare_osd_disks-IsSound e k =
      let made : CephExecutor = record e {
        commands =
            push_back (push_back e.commands (codes "mkdir -p " ++ e.osd_dir))
              (codes "mkdir -p " ++ e.jnl_dir);
      } in
      let first = mount_given e.osddisk e.osd_dir made in
      let k1 = mount_given-IsSound e.osddisk e.osd_dir made (logged e _ k) in
      elim (Bool-cases first.0) [
        | inl ok ↦ rw ok (mount_given-IsSound first.1.jnldisk first.1.jnl_dir first.1 k1)
        | inr bad ↦ rw bad k1
      ]

  mounted-IsSound :
      (osd_id : Text) (e : CephExecutor) → IsSound P e → IsSound P (mounted osd_id e).1
  unfolding mounted
  mounted-IsSound osd_id e k =
      let placed : CephExecutor = record e {
        osd_dir = osd_dir_of (config_dir e) osd_id;
        jnl_dir = jnl_dir_of (config_dir e) osd_id;
      } in
      prepare_osd_disks-IsSound placed (record {
        own = k.own;
        reports = k.reports;
        mounts = both_mounts (config_dir e) osd_id refl refl;
      })

module _ (w : World) (fuel : ℕ) (P : Text → Type 0) where
  report_started-IsSound :
      (osd_id : Text) (waited : Waited) (e : CephExecutor)
      → IsSound P e
      → Holds (IsSound P) (report_started w osd_id waited e)
  unfolding report_started
  report_started-IsSound osd_id bad_timeout e k = tt
  report_started-IsSound osd_id still_waiting e k = tt
  report_started-IsSound osd_id (answered true after) e k =
      reported P _ _ _ (record e { commands = after }) k.own (logged P e after k)
  report_started-IsSound osd_id (answered false after) e k =
      reported P _ _ _ (record e { commands = after }) k.own (logged P e after k)

  container-IsSound :
      (osd_id : Text) (e : CephExecutor)
      → IsSound P e
      → Holds (IsSound P) (launch_osd_container w fuel osd_id e)
  unfolding launch_osd_container fork_osd start_long_running
  container-IsSound osd_id e k =
      let m = mounted osd_id e in
      let k1 = mounted-IsSound P osd_id e k in
      elim (Bool-cases m.0) [
        | inl ok ↦
            rw ok (report_started-IsSound osd_id _ _ (same_core P m.1 _ refl refl refl refl k1))
        | inr bad ↦ rw bad (reported P _ _ _ m.1 k1.own k1)
      ]

  tokens-IsSound :
      (tokens : List Text) (e : CephExecutor)
      → IsSound P e
      → Holds (IsSound P) (launch_osd_tokens w fuel tokens e)
  unfolding launch_osd_tokens
  tokens-IsSound [] e k = k
  tokens-IsSound (osd_id ∷ []) e k = container-IsSound osd_id e k
  tokens-IsSound (osd_id ∷ next ∷ rest) e k = k

  pub message-IsSound :
      (text : Text) (e : CephExecutor)
      → IsSound P e
      → Holds (IsSound P) (executor_message w fuel text e)
  unfolding executor_message register_new_osd register_osd_id
  message-IsSound text e k = elim (List-cases (explode text b'.')) [
    | inl z ↦ rw (z, executor_message) tt
    | inr (t, rest, z) ↦ elim (Option-cases (w.parse_int t)) [
      | inl y ↦ rw (z, executor_message, y) tt
      | inr (n, y) ↦ rw (z, executor_message, y) (code_case rest n)
    ]
  ]
    where
      code_case :
          (rest : List Text) (n : ℤ)
          → Holds (IsSound P) (
              if eqb_ℤ n (to_executor_code register_osd)
              then finished_with (register_new_osd w e)
              else if eqb_ℤ n (to_executor_code launch_osd)
              then launch_osd_tokens w fuel rest e
              else finished_with e)
      code_case rest n = elim (Bool-cases (eqb_ℤ n (to_executor_code register_osd))) [
        | inl a ↦ rw a (same_core P e _ refl refl refl refl k)
        | inr a ↦ rw a (elim (Bool-cases (eqb_ℤ n (to_executor_code launch_osd))) [
          | inl b ↦ rw b (tokens-IsSound rest e k)
          | inr b ↦ rw b k
        ])
      ]
