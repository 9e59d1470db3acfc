-- ===== src/Scheduler/EventLoop/Json.antt =====
-- `jsonCheck` of src/httpserver/RestServer.cpp and `processData` of src/scheduler/EventLoop.cpp from the
-- text on, with the exceptions of src/common/JsonUtil.hpp, and the request that a text asks for. What the message queue does between them is in `Queue`.
pub mod Requested
pub mod Accepted
use ceph_mesos.Prelude.{
  Bool, List, Option, Text, [], false, if◌then◌else◌, inl, inr, ltb_ℤ, none, not, pos, push_back,
  refl, some, text_eq, true, ℤ, ◌||◌, ◌≡◌, ◌⊎◌,
}
use ceph_mesos.Common.Config.{or_else}
use ceph_mesos.Common.JsonUtil.{JsonCpp, instances, profile, read}
use ceph_mesos.Scheduler.EventLoop.{
  Answer, Request, error_instances, error_json, error_profile, max_instances_size, mon_profile,
  osd_profile, success,
}

-- An answer, with whether the text is sent to the queue, or an exception.
pub data Checked : Type 0 where
  checked : Answer × Bool → Checked
  escapes : Checked

pub Checked-cases : (c : Checked) → (c ≡ escapes) ⊎ ((r : Answer × Bool) × (c ≡ checked r))
Checked-cases (checked r) = inr (r, refl)
Checked-cases escapes = inl refl

abbrev pub out_of_range : ℤ → Bool
out_of_range n = ltb_ℤ n (pos 1) || ltb_ℤ max_instances_size n

module _ {V : Type 0} (json : JsonCpp V) where
  -- The profile is asked for only once the number of instances is in range.
  unfoldable pub check_value : V → Checked
  check_value v = elim (instances json v) [
    | none ↦ escapes
    | some n ↦ if out_of_range n then checked (error_instances, false) else (elim (profile json v) [
      | none ↦ escapes
      | some p ↦
          if not (text_eq p osd_profile || text_eq p mon_profile)
          then checked (error_profile, false)
          else checked (success, true)
    ])
  ]

  unfoldable pub check_text : Text → Checked
  unfolding check_value
  check_text text = elim (read json text) [
    | none ↦ checked (error_json, false)
    | some v ↦ check_value v
  ]

  -- The number of instances is asked for only where the profile is osd.
  unfoldable pub process_value : V → List ℤ → Option (List ℤ)
  process_value v pending = elim (profile json v) [
    | none ↦ none
    | some p ↦
        if text_eq osd_profile p
        then (elim (instances json v) [ none ↦ none | some n ↦ some (push_back pending n) ])
        else some pending
  ]

  unfoldable pub process_text : Text → List ℤ → Option (List ℤ)
  unfolding process_value
  process_text text pending = elim (read json text) [
    | none ↦ some pending
    | some v ↦ process_value v pending
  ]

  -- What a posted text leaves of the pending numbers, once the event loop has received it if it is sent;
  -- `none` for an exception.
  abbrev after_check : Checked → Option (List ℤ) → List ℤ → Option (List ℤ)
  after_check escapes processed pending = none
  after_check (checked r) processed pending = if r.1 then processed else some pending

  unfoldable pub serve_text : Text → List ℤ → Option (List ℤ)
  serve_text text pending = after_check (check_text text) (process_text text pending) pending

  -- What a text asks for: nothing if it is no JSON or its number of instances cannot be converted; a
  -- profile that cannot be converted counts as an empty one.
  abbrev pub asked_of : Option ℤ → Option Text → Option Request
  asked_of none p = none
  asked_of (some n) p = some (record { instances = n; profile = or_else p [] })

  abbrev pub request_of : Text → Option Request
  request_of text = elim (read json text) [
    | none ↦ none
    | some v ↦ asked_of (instances json v) (profile json v)
  ]
