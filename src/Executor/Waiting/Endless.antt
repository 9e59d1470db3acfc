-- ===== src/Executor/Waiting/Endless.antt =====
-- When the waiting for a container ends, and when it does not.
use ceph_mesos.Prelude.{
  Bool-cases, List, Text, arith, inl, inr, ltb_ℤ, none, pos, push_back, refl, some, suc, sym,
  text_eq, text_eq_iff, text_eq_refl, true, zero, ℕ, ◌<◌, ◌∙◌, ◌≡◌, ◌≢◌,
}
use ceph_mesos.Common.World.{World}
use ceph_mesos.Executor.Shell.{run_shell_command}
use ceph_mesos.Executor.Waiting.{
  answered, block_until_started, check_daemon, daemon_command, poll, poll_command, still_waiting,
  zero_code,
}

-- The commands run after a number of polls.
abbrev pub polled : ℕ → Text → List Text → List Text
polled zero cmd before = before
polled (suc n) cmd before = polled n cmd (push_back before cmd)

-- The poll finds the container for the first time after `k` polls that did not.
abbrev pub FoundAfter : World → ℕ → Text → List Text → Type 0
FoundAfter w zero cmd before = run_shell_command w before cmd ≡ zero_code
FoundAfter w (suc k) cmd before =
    (run_shell_command w before cmd ≢ zero_code) × FoundAfter w k cmd (push_back before cmd)

poll_miss :
    (w : World) (fuel : ℕ) (cmd : Text) (before : List Text)
    → run_shell_command w before cmd ≢ zero_code
    → poll w (suc fuel) cmd before ≡ poll w fuel cmd (push_back before cmd)
unfolding poll
poll_miss w fuel cmd before miss =
    elim (Bool-cases (text_eq zero_code (run_shell_command w before cmd))) [
      | inl hit ↦
          absurd (miss (sym ((text_eq_iff zero_code (run_shell_command w before cmd)).0 hit)))
      | inr absent ↦ rw absent refl
    ]

poll_hit :
    (w : World) (fuel : ℕ) (cmd : Text) (before : List Text)
    → run_shell_command w before cmd ≡ zero_code
    → poll w (suc fuel) cmd before ≡ some (push_back before cmd)
unfolding poll
poll_hit w fuel cmd before hit = rw (hit, text_eq_refl zero_code) refl

poll_found :
    (w : World) (k fuel : ℕ) (cmd : Text) (before : List Text)
    → k < fuel
    → FoundAfter w k cmd before
    → poll w fuel cmd before ≡ some (polled (suc k) cmd before)
poll_found w k zero cmd before h f = absurd (omega arith)
poll_found w zero (suc fuel) cmd before h f = poll_hit w fuel cmd before f
poll_found w (suc k) (suc fuel) cmd before h f =
    poll_miss w fuel cmd before f.0
    ∙ poll_found w k fuel cmd (push_back before cmd) (omega arith) f.1

poll_never :
    (w : World) (fuel : ℕ) (cmd : Text) (before : List Text)
    → ((n : ℕ) → run_shell_command w (polled n cmd before) cmd ≢ zero_code)
    → poll w fuel cmd before ≡ none
poll_never w zero cmd before never = unfold poll in refl
poll_never w (suc fuel) cmd before never =
    poll_miss w fuel cmd before (never 0)
    ∙ poll_never w fuel cmd (push_back before cmd) (λ n. never (suc n))

positive : (n : ℕ) → ltb_ℤ (pos 0) (pos (suc n)) ≡ true
positive n = ground arith

-- A container that is found after `k` polls is waited for with `k + 1` polls, and the answer is then
-- whether its daemon reports itself, whatever the timeout, as long as it is positive.
pub block_until_started-found :
    (w : World) (k fuel seconds : ℕ) (container timeout : Text) (before : List Text)
    → w.parse_int timeout ≡ some (pos (suc seconds))
    → k < fuel
    → FoundAfter w k (poll_command container) before
    → let after = polled (suc k) (poll_command container) before in
      let cmd = daemon_command container timeout in
      block_until_started w fuel container timeout before
      ≡ answered (text_eq zero_code (run_shell_command w after cmd)) (push_back after cmd)
unfolding block_until_started check_daemon
block_until_started-found w k fuel seconds container timeout before read enough f =
    rw
      (
        read,
        block_until_started,
        positive seconds,
        poll_found w k fuel (poll_command container) before enough f,
      )
      refl

-- A container that never shows up is waited for without end, however short the timeout: no number of
-- polls is enough.
pub waits_without_end :
    (w : World) (fuel seconds : ℕ) (container timeout : Text) (before : List Text)
    → w.parse_int timeout ≡ some (pos (suc seconds))
    → ((n : ℕ)
        → run_shell_command w (polled n (poll_command container) before) (poll_command container)
          ≢ zero_code)
    → block_until_started w fuel container timeout before ≡ still_waiting
unfolding block_until_started
waits_without_end w fuel seconds container timeout before read never =
    rw
      (
        read,
        block_until_started,
        positive seconds,
        poll_never w fuel (poll_command container) before never,
      )
      refl
