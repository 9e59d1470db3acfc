-- ===== src/Scheduler/Agent/Bounds.antt =====
-- The counters of MONs and of RADOSGWs on their way or running stay at one or below, whatever Mesos reports and offers.
pub mod Updates
pub mod Offers
pub mod Always
use ceph_mesos.Prelude.{Text, arith, pos, refl, some, ℤ, ◌+ℤ◌, ◌≡◌, ◌≤ℤ◌}
use ceph_mesos.Common.TaskType.{TaskType, mon, osd, radosgw}
use ceph_mesos.Common.World.{World}
use ceph_mesos.State.HostConfig.{HostConfig}
use ceph_mesos.State.StateMachine.{
  StateMachine, add_config, add_staging_task, move_state, next_move, phase_of, put_config,
  set_status,
}
use ceph_mesos.State.StateMachine.Phases.{
  IsSettled, IsSettled-of_KeepsRunning, KeepsRunning, next_move-KeepsRunning,
  put_config-KeepsRunning,
}
use ceph_mesos.State.TaskState.{Status, TaskState}

-- The phase fits the counters, and the two services that exist once are started once.
pub record IsBounded (m : StateMachine) : Type 0 where
  pub settled : IsSettled m
  pub one_mon : m.mon_staging_num +ℤ m.mon_running_num ≤ℤ pos 1
  pub one_radosgw : m.radosgw_staging_num +ℤ m.radosgw_running_num ≤ℤ pos 1

-- Sums of the counters, and the rest that the bounds read.
record Lowers (m n : StateMachine) : Type 0 where
  mons : n.mon_staging_num +ℤ n.mon_running_num ≤ℤ m.mon_staging_num +ℤ m.mon_running_num
  radosgws :
      n.radosgw_staging_num +ℤ n.radosgw_running_num
      ≤ℤ m.radosgw_staging_num +ℤ m.radosgw_running_num

IsBounded-of_Lowers : {m n : StateMachine} → Lowers m n → IsSettled n → IsBounded m → IsBounded n
IsBounded-of_Lowers l s b = record {
  settled = s;
  one_mon = omega (arith, l.mons, b.one_mon);
  one_radosgw = omega (arith, l.radosgws, b.one_radosgw);
}

set_status-Lowers :
    (id : Text) (t : TaskState) (new : Status) (m : StateMachine) → Lowers m (set_status id t new m)
unfolding set_status ◌+ℤ◌
set_status-Lowers id t new m = record { mons = ground arith; radosgws = ground arith }

-- Nothing that the bounds read differs.
pub record SameNumbers (m n : StateMachine) : Type 0 where
  pub kept : KeepsRunning m n
  pub mons : n.mon_staging_num ≡ m.mon_staging_num
  pub radosgws : n.radosgw_staging_num ≡ m.radosgw_staging_num

pub IsBounded-of_SameNumbers : {m n : StateMachine} → SameNumbers m n → IsBounded m → IsBounded n
IsBounded-of_SameNumbers e b = record {
  settled = IsSettled-of_KeepsRunning e.kept b.settled;
  one_mon = rw (e.mons, e.kept.mons) b.one_mon;
  one_radosgw = rw (e.radosgws, e.kept.radosgws) b.one_radosgw;
}

-- What `nextMove` has checked of the service that it chose.
abbrev pub Room : TaskType → StateMachine → Type 0
Room mon m = m.mon_staging_num +ℤ m.mon_running_num ≤ℤ pos 0
Room osd m = Unit
Room radosgw m = m.radosgw_staging_num +ℤ m.radosgw_running_num ≤ℤ pos 0

pub Room-of_SameNumbers :
    (tt : TaskType) {m n : StateMachine} → SameNumbers m n → Room tt m → Room tt n
Room-of_SameNumbers mon e r = rw (e.mons, e.kept.mons) r
Room-of_SameNumbers osd e r = tt
Room-of_SameNumbers radosgw e r = rw (e.radosgws, e.kept.radosgws) r

pub add_staging_task-IsBounded :
    (id executor : Text) (ty : TaskType) (host slave : Text) (m : StateMachine)
    → IsBounded m
    → Room ty m
    → IsBounded (add_staging_task id executor ty host slave m)
unfolding add_staging_task ◌+ℤ◌
add_staging_task-IsBounded id executor mon host slave m b r = record {
  settled = b.settled;
  one_mon = ground arith;
  one_radosgw = b.one_radosgw;
}
add_staging_task-IsBounded id executor osd host slave m b r = record {
  settled = b.settled;
  one_mon = b.one_mon;
  one_radosgw = b.one_radosgw;
}
add_staging_task-IsBounded id executor radosgw host slave m b r = record {
  settled = b.settled;
  one_mon = b.one_mon;
  one_radosgw = ground arith;
}

pub next_move-SameNumbers : (host : Text) (m : StateMachine) → SameNumbers m (next_move host m).1
unfolding next_move
next_move-SameNumbers host m = record {
  kept = next_move-KeepsRunning host m;
  mons = ground arith;
  radosgws = ground arith;
}

-- `nextMove` accepts an offer for a MON or a RADOSGW only where the counters show none on its way or running.
pub next_move-Room :
    (host : Text) (m : StateMachine) (ty : TaskType) (token : ℤ)
    → IsSettled m
    → (next_move host m).0 ≡ some (ty, token)
    → Room ty m
unfolding next_move phase_of ◌+ℤ◌
next_move-Room host m mon token s h = ground arith
next_move-Room host m osd token s h = tt
next_move-Room host m radosgw token s h = ground arith

pub put_config-SameNumbers :
    (host : Text) (hc : HostConfig) (m : StateMachine) → SameNumbers m (put_config host hc m)
unfolding put_config
put_config-SameNumbers host hc m = record {
  kept = put_config-KeepsRunning host hc m;
  mons = ground arith;
  radosgws = ground arith;
}

pub add_config-SameNumbers :
    (w : World) (host : Text) (m n : StateMachine) → add_config w host m ≡ some n → SameNumbers m n
unfolding add_config
add_config-SameNumbers w host m n h = record {
  kept = ground arith;
  mons = ground arith;
  radosgws = ground arith;
}

pub SameNumbers-refl : (m : StateMachine) → SameNumbers m m
SameNumbers-refl m = record {
  kept = record { phase = refl; mons = refl; osds = refl; radosgws = refl };
  mons = refl;
  radosgws = refl;
}

pub move_state_of_status :
    (id : Text) (t : TaskState) (new : Status) (m : StateMachine)
    → IsBounded m
    → IsBounded (move_state (set_status id t new m))
unfolding move_state
move_state_of_status id t new m b = record {
  settled = refl;
  one_mon = omega (arith, (set_status-Lowers id t new m).mons, b.one_mon);
  one_radosgw = omega (arith, (set_status-Lowers id t new m).radosgws, b.one_radosgw);
}
