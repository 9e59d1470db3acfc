-- ===== src/Executor/Waiting/Commands.antt =====
-- The commands that `block_until_started` of src/executor/CephExecutor.cpp runs come behind those before it.
use ceph_mesos.Prelude.{
  Bool, Bool-cases, List, Option-cases, Text, [], ap, append-nil, append_assoc, arith, inl, inr,
  ltb_ℤ, pos, push_back, some, suc, sym, text_eq, zero, ℕ, ◌++◌, ◌∙◌, ◌∷◌, ◌≡◌,
}
use ceph_mesos.Common.World.{World}
use ceph_mesos.Executor.Shell.{run_shell_command}
use ceph_mesos.Executor.Waiting.{
  answered, block_until_started, check_daemon, daemon_command, poll, poll_command, zero_code,
}
use ceph_mesos.Executor.Waiting.Endless.{polled}

-- More commands may have been run.
abbrev pub Extends : List Text → List Text → Type 0
Extends before after = (more : List Text) × (after ≡ before ++ more)

Extends-push :
    (before after : List Text) (cmd : Text)
    → Extends (push_back before cmd) after
    → Extends before after
Extends-push before after cmd (more, e) = (cmd ∷ more, e ∙ append_assoc before (cmd ∷ []) more)

module _ (w : World) where
  poll-Extends :
      (fuel : ℕ) (cmd : Text) (before after : List Text)
      → poll w fuel cmd before ≡ some after
      → Extends before after
  unfolding poll
  poll-Extends zero cmd before after h = absurd (ground (arith, h))
  poll-Extends (suc fuel) cmd before after h =
      elim (Bool-cases (text_eq zero_code (run_shell_command w before cmd))) [
        | inl up ↦ (cmd ∷ [], ground (arith, h, up))
        | inr down ↦
            Extends-push before after cmd
              (poll-Extends fuel cmd (push_back before cmd) after (rw down at h))
      ]

  pub block_until_started-Extends :
      (fuel : ℕ) (container timeout : Text) (before after : List Text) (ok : Bool)
      → block_until_started w fuel container timeout before ≡ answered ok after
      → Extends before after
  unfolding block_until_started check_daemon
  block_until_started-Extends fuel container timeout before after ok h =
      elim (Option-cases (w.parse_int timeout)) [
        | inl e ↦ absurd (ground (arith, h, e))
        | inr (seconds, e) ↦ elim (Bool-cases (ltb_ℤ (pos 0) seconds)) [
          | inr never ↦ ([], ground (arith, h, e, never, append-nil before))
          | inl some_time ↦ elim (Option-cases (poll w fuel (poll_command container) before)) [
            | inl out ↦ absurd (ground (arith, h, e, some_time, out))
            | inr (polled, p) ↦
                let (more, q) = poll-Extends fuel (poll_command container) before polled p in
                (
                  push_back more (daemon_command container timeout),
                  sym ground (arith, h, e, some_time, p)
                      ∙ (ap (λ l. push_back l (daemon_command container timeout)) q
                          ∙ append_assoc before more (daemon_command container timeout ∷ [])),
                )
          ]
        ]
      ]
