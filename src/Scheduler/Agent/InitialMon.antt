-- ===== src/Scheduler/Agent/InitialMon.antt =====
-- The token 0 of the initial MON, and what becomes of it when the offer that it was drawn for has too
-- few resources.
pub mod Kept
pub mod Lost
use ceph_mesos.Prelude.{
  All, All-append, Bool, Text, [], arith, eqb_ℤ, false, none, pos, some, ℤ, ◌&&◌, ◌∷◌, ◌≡◌, ◌≤ℤ◌,
  ◌⊎◌,
}
use ceph_mesos.Common.TaskType.{TaskType}
use ceph_mesos.Common.World.{World}
use ceph_mesos.Scheduler.Agent.{Agent, call}
use ceph_mesos.Scheduler.Agent.Launch.{node_data}
use ceph_mesos.Scheduler.Driver.{DriverCall, launch_tasks}
use ceph_mesos.State.HostConfig.{HostConfig}
use ceph_mesos.State.StateMachine.{
  StateMachine, add_config, add_staging_task, next_move, put_config, update_task_to_failed,
  update_task_to_running, update_task_to_starting, update_task_to_waiting_osdid,
}
use ceph_mesos.State.TaskState.{is_mon}

-- A launch, if the call is one, carries no task that is marked as the initial MON.
abbrev pub NotInitial : World → DriverCall → Type 0
NotInitial w (launch_tasks id ts) =
    All (λ t. (t.info ≡ none) ⊎ ((ty : TaskType) × (t.info ≡ some (node_data w false ty)))) ts
NotInitial w _ = Unit

-- The token 0 has been drawn, and no initial MON launched.
pub record IsPast (w : World) (a : Agent) : Type 0 where
  pub drawn : pos 1 ≤ℤ a.machine.mon_index
  pub none_initial : All (NotInitial w) a.calls

-- The same index, and the same calls.
pub record SameIndex (a b : Agent) : Type 0 where
  pub index : b.machine.mon_index ≡ a.machine.mon_index
  pub calls : b.calls ≡ a.calls

pub IsPast-of_SameIndex : (w : World) {a b : Agent} → SameIndex a b → IsPast w a → IsPast w b
IsPast-of_SameIndex w s p = record {
  drawn = rw s.index p.drawn;
  none_initial = rw s.calls p.none_initial;
}

pub IsPast-call :
    (w : World) (c : DriverCall) (a : Agent) → NotInitial w c → IsPast w a → IsPast w (call c a)
IsPast-call w c a plain p = record {
  drawn = p.drawn;
  none_initial = All-append (NotInitial w) a.calls (c ∷ []) p.none_initial (plain, tt);
}

pub mon_index-add :
    (id executor : Text) (ty : TaskType) (host slave : Text) (m : StateMachine)
    → (add_staging_task id executor ty host slave m).mon_index ≡ m.mon_index
unfolding add_staging_task
mon_index-add id executor ty host slave m = ground arith

pub mon_index-put :
    (host : Text) (hc : HostConfig) (m : StateMachine)
    → (put_config host hc m).mon_index ≡ m.mon_index
unfolding put_config
mon_index-put host hc m = ground arith

pub mon_index-add_config :
    (w : World) (host : Text) (m n : StateMachine)
    → add_config w host m ≡ some n
    → n.mon_index ≡ m.mon_index
unfolding add_config
mon_index-add_config w host m n h = ground arith

pub mon_index-starting :
    (id : Text) (m : StateMachine) → (update_task_to_starting id m).mon_index ≡ m.mon_index
unfolding update_task_to_starting
mon_index-starting id m = ground arith

pub mon_index-waiting :
    (id : Text) (m : StateMachine) → (update_task_to_waiting_osdid id m).mon_index ≡ m.mon_index
unfolding update_task_to_waiting_osdid
mon_index-waiting id m = ground arith

pub mon_index-running :
    (id : Text) (m : StateMachine) → (update_task_to_running id m).mon_index ≡ m.mon_index
unfolding update_task_to_running
mon_index-running id m = ground arith

pub mon_index-failed :
    (id : Text) (m : StateMachine) → (update_task_to_failed id m).mon_index ≡ m.mon_index
unfolding update_task_to_failed
mon_index-failed id m = ground arith

pub next_move_drawn :
    (host : Text) (m : StateMachine)
    → pos 1 ≤ℤ m.mon_index
    → pos 1 ≤ℤ (next_move host m).1.mon_index
unfolding next_move
next_move_drawn host m h = ground arith

-- Whether a token makes the initial MON.
abbrev pub is_first : TaskType → ℤ → Bool
is_first ty token = is_mon ty && eqb_ℤ token (pos 0)

pub next_move_not_first :
    (host : Text) (m : StateMachine) (ty : TaskType) (token : ℤ)
    → pos 1 ≤ℤ m.mon_index
    → (next_move host m).0 ≡ some (ty, token)
    → is_first ty token ≡ false
unfolding next_move is_mon
next_move_not_first host m ty token h e = ground arith
