-- ===== src/Scheduler/Agent/Survival.antt =====
-- Runs of the agent of src/scheduler/CephSchedulerAgent.hpp that end without an exception.
pub mod Offers
use ceph_mesos.Prelude.{
  All, Bool, Bool-cases, List, Option-cases, Text, [], false, find, inl, inr, insert, refl, some,
  text_eq, ℤ, ◌∙◌, ◌∷◌, ◌≡◌,
}
use ceph_mesos.Common.World.{IsLexical, World}
use ceph_mesos.Executor.Disk.{DiskExecutor}
use ceph_mesos.Scheduler.Agent.{Agent, has_role, with_machine}
use ceph_mesos.Scheduler.Agent.Disks.{IsPlainReport, finished_report, report_finishes}
use ceph_mesos.Scheduler.Agent.Offers.{
  handle_offer, handle_offer_other, handle_offer_uses, handle_offers, resource_offers,
}
use ceph_mesos.Scheduler.Agent.Runs.{
  Callback, handle, on_message, on_offers, on_request, on_update, run, run_done,
}
use ceph_mesos.Scheduler.Agent.Updates.{framework_message, status_update}
use ceph_mesos.Scheduler.Driver.{Offer, TaskStatus, done}
use ceph_mesos.State.HostConfig.{HostConfig, new_host_config}
use ceph_mesos.State.StateMachine.{StateMachine, add_config, add_pending_osdid, get_initial_mon}
use ceph_mesos.State.TaskState.{Phase}

-- The scheduler handles the report without an exception, whatever its state.
abbrev pub Heard : World → TaskStatus → Type 0
Heard w s = (a : Agent) → (b : Agent) × (status_update w s a ≡ done b)

-- A callback that brings nothing that the handlers cannot read.
abbrev pub IsReadable : World → Callback → Type 0
IsReadable w (on_offers offers) = Unit
IsReadable w (on_update s) = Heard w s
IsReadable w (on_message executor_id payload) = (n : ℤ) × (w.parse_int payload ≡ some n)
IsReadable w (on_request r) = Unit

-- Every host has a configuration that can be read.
abbrev pub HasConfigs : World → Type 0
HasConfigs w = (hostname : Text) → (hc : HostConfig) × (new_host_config w hostname ≡ some hc)

module _ (w : World) (configs : HasConfigs w) where
  add_config-adds :
      (hostname : Text) (m : StateMachine) → (n : StateMachine) × (add_config w hostname m ≡ some n)
  unfolding add_config
  add_config-adds hostname m = elim (Option-cases (find hostname m.host_config_map)) [
    | inr (hc, e) ↦ (m, rw (e, add_config) refl)
    | inl e ↦
        let (hc, new) = configs hostname in
        (
          record m { host_config_map = insert hostname hc m.host_config_map },
          rw (e, add_config, new) refl,
        )
  ]

  pub handle_offer-returns :
      (phase : Phase) (offer : Offer) (initial : Bool) (a : Agent)
      → (r : Agent × Bool) × (handle_offer w phase offer initial a ≡ some r)
  handle_offer-returns phase offer initial a =
      elim (Bool-cases (has_role offer.resources a.config.role)) [
        | inl ours ↦
            let (m, e) = add_config-adds offer.hostname a.machine in
            (_, handle_offer_uses w phase offer initial a m ours e)
        | inr other ↦ (_, handle_offer_other w phase offer initial a other)
      ]

  handle_offers-returns :
      (phase : Phase) (offers : List Offer) (initial : Bool) (a : Agent)
      → (b : Agent) × (handle_offers w phase offers initial a ≡ done b)
  unfolding handle_offers
  handle_offers-returns phase [] initial a = (a, refl)
  handle_offers-returns phase (offer ∷ offers) initial a =
      let (r, e) = handle_offer-returns phase offer initial a in
      let (b, e') = handle_offers-returns phase offers r.1 r.0 in (b, rw (e, handle_offers) e')

  handle-returns :
      (c : Callback) (a : Agent) → IsReadable w c → (b : Agent) × (handle w c a ≡ done b)
  unfolding handle resource_offers framework_message
  handle-returns (on_offers offers) a h = handle_offers-returns _ offers false _
  handle-returns (on_update s) a h = h a
  handle-returns (on_message executor_id payload) a h =
      elim (Bool-cases (text_eq (get_initial_mon a.machine).executor_id executor_id)) [
        | inl first ↦ (
          with_machine (add_pending_osdid h.0 a.machine) a,
          rw (framework_message, first, h.1) refl,
        )
        | inr other ↦ (a, rw (framework_message, other) refl)
      ]
  handle-returns (on_request r) a h = (_, refl)

  -- Every host has a configuration that can be read, each status update is one that the handler reads, and
  -- each message is a number. Then any sequence of callbacks, with any offers and any requests between them,
  -- is handled to its end, without an exception and without reading out of range.
  pub run-returns :
      (cs : List Callback) (a : Agent) → All (IsReadable w) cs → (b : Agent) × (run w cs a ≡ done b)
  unfolding run
  run-returns [] a h = (a, refl)
  run-returns (c ∷ cs) a h =
      let (b, e) = handle-returns c a h.0 in
      let (d, e') = run-returns cs b h.1 in (d, run_done w c cs a b e ∙ e')

-- The report of a disk executor is read, as long as the names in it hold no dot and no colon.
pub finished_report-Heard :
    (w : World) (lex : IsLexical w) (id : Text) (d : DiskExecutor)
    → IsPlainReport d
    → Heard w (finished_report w id d)
finished_report-Heard w lex id d plain a =
    let (b, hears, _, _) = report_finishes w lex id d a plain in (b, hears)
