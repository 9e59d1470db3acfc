-- ===== src/State/StateMachine/Phases.antt =====
-- The phase and the counters of running tasks, over any sequence of the machine's operations.
use ceph_mesos.Prelude.{List, Text, [], arith, refl, ℤ, ◌∷◌, ◌≡◌}
use ceph_mesos.Common.Config.{Config, or_else}
use ceph_mesos.Common.TaskType.{TaskType}
use ceph_mesos.Common.World.{World}
use ceph_mesos.State.HostConfig.{HostConfig}
use ceph_mesos.State.StateMachine.{
  StateMachine, add_config, add_pending_osdid, add_staging_task, decrease_osd_index, init,
  next_move, phase_of, put_config, update_task_to_failed, update_task_to_running,
  update_task_to_starting, update_task_to_waiting_osdid,
}

-- The methods of `StateMachine` that write to it, `addConfig` (`adds_config`) included. `configures` is
-- a write through the pointer that `getConfig` returns, `pends` one through that of `getPendingOSDID`.
pub data Operation : Type 0 where
  adds_config : Text → Operation
  adds : Text → Text → TaskType → Text → Text → Operation
  runs waits starts fails moves : Text → Operation
  gives_back : Operation
  learns : ℤ → Operation
  configures : Text → HostConfig → Operation
  pends : List ℤ → Operation

-- An `addConfig` that lets an exception of the configuration file out leaves the machine as it was.
unfoldable pub apply : World → Operation → StateMachine → StateMachine
apply w (adds_config host) m = or_else (add_config w host m) m
apply w (adds id executor ty host slave) m = add_staging_task id executor ty host slave m
apply w (runs id) m = update_task_to_running id m
apply w (waits id) m = update_task_to_waiting_osdid id m
apply w (starts id) m = update_task_to_starting id m
apply w (fails id) m = update_task_to_failed id m
apply w (moves host) m = (next_move host m).1
apply w gives_back m = decrease_osd_index m
apply w (learns id) m = add_pending_osdid id m
apply w (configures host hc) m = put_config host hc m
apply w (pends ids) m = record m { pending_osdid = ids }

unfoldable pub apply_all : World → List Operation → StateMachine → StateMachine
apply_all w [] m = m
apply_all w (o ∷ os) m = apply_all w os (apply w o m)

-- The phase is the one that `moveState` would compute from the counters as they are.
abbrev pub IsSettled : StateMachine → Type 0
IsSettled m = m.current_phase ≡ phase_of m.mon_running_num m.osd_running_num m.radosgw_running_num

pub init-IsSettled : (w : World) (config : Config) → IsSettled (init w config)
unfolding init phase_of
init-IsSettled w config = refl

-- The phase and the counters of running tasks are the same before and after.
pub record KeepsRunning (m n : StateMachine) : Type 0 where
  pub phase : n.current_phase ≡ m.current_phase
  pub mons : n.mon_running_num ≡ m.mon_running_num
  pub osds : n.osd_running_num ≡ m.osd_running_num
  pub radosgws : n.radosgw_running_num ≡ m.radosgw_running_num

pub IsSettled-of_KeepsRunning : {m n : StateMachine} → KeepsRunning m n → IsSettled m → IsSettled n
IsSettled-of_KeepsRunning k s = cc (k.phase, k.mons, k.osds, k.radosgws)

pub add_staging_task-KeepsRunning :
    (id executor : Text) (ty : TaskType) (host slave : Text) (m : StateMachine)
    → KeepsRunning m (add_staging_task id executor ty host slave m)
unfolding add_staging_task
add_staging_task-KeepsRunning id executor ty host slave m = ground arith

pub waiting-KeepsRunning :
    (id : Text) (m : StateMachine) → KeepsRunning m (update_task_to_waiting_osdid id m)
unfolding update_task_to_waiting_osdid
waiting-KeepsRunning id m = ground arith

pub starting-KeepsRunning :
    (id : Text) (m : StateMachine) → KeepsRunning m (update_task_to_starting id m)
unfolding update_task_to_starting
starting-KeepsRunning id m = ground arith

pub next_move-KeepsRunning : (host : Text) (m : StateMachine) → KeepsRunning m (next_move host m).1
unfolding next_move
next_move-KeepsRunning host m = ground arith

pub put_config-KeepsRunning :
    (host : Text) (hc : HostConfig) (m : StateMachine) → KeepsRunning m (put_config host hc m)
unfolding put_config
put_config-KeepsRunning host hc m = ground arith

pub add_config-KeepsRunning :
    (w : World) (host : Text) (m : StateMachine) → KeepsRunning m (or_else (add_config w host m) m)
unfolding add_config
add_config-KeepsRunning w host m = ground arith

pub running-IsSettled :
    (id : Text) (m : StateMachine) → IsSettled m → IsSettled (update_task_to_running id m)
unfolding update_task_to_running
running-IsSettled id m s = ground arith

pub failed-IsSettled :
    (id : Text) (m : StateMachine) → IsSettled m → IsSettled (update_task_to_failed id m)
unfolding update_task_to_failed
failed-IsSettled id m s = ground arith

apply-IsSettled :
    (w : World) (o : Operation) (m : StateMachine) → IsSettled m → IsSettled (apply w o m)
unfolding apply decrease_osd_index add_pending_osdid
apply-IsSettled w (adds_config host) m s =
    IsSettled-of_KeepsRunning (add_config-KeepsRunning w host m) s
apply-IsSettled w (adds id executor ty host slave) m s =
    IsSettled-of_KeepsRunning (add_staging_task-KeepsRunning id executor ty host slave m) s
apply-IsSettled w (runs id) m s = running-IsSettled id m s
apply-IsSettled w (waits id) m s = IsSettled-of_KeepsRunning (waiting-KeepsRunning id m) s
apply-IsSettled w (starts id) m s = IsSettled-of_KeepsRunning (starting-KeepsRunning id m) s
apply-IsSettled w (fails id) m s = failed-IsSettled id m s
apply-IsSettled w (moves host) m s = IsSettled-of_KeepsRunning (next_move-KeepsRunning host m) s
apply-IsSettled w gives_back m s = s
apply-IsSettled w (learns id) m s = s
apply-IsSettled w (pends ids) m s = s
apply-IsSettled w (configures host hc) m s =
    IsSettled-of_KeepsRunning (put_config-KeepsRunning host hc m) s

apply_all-IsSettled :
    (w : World) (os : List Operation) (m : StateMachine)
    → IsSettled m
    → IsSettled (apply_all w os m)
unfolding apply_all
apply_all-IsSettled w [] m s = s
apply_all-IsSettled w (o ∷ os) m s =
    apply_all-IsSettled w os (apply w o m) (apply-IsSettled w o m s)

-- After any sequence of operations on a new machine, additions of hosts among them, whatever the tasks reported, the current phase
-- is the one that the counters of running tasks call for.
pub settled_phase :
    (w : World) (config : Config) (os : List Operation)
    → let m = apply_all w os (init w config) in
      m.current_phase ≡ phase_of m.mon_running_num m.osd_running_num m.radosgw_running_num
settled_phase w config os = apply_all-IsSettled w os (init w config) (init-IsSettled w config)
