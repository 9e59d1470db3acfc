-- ===== src/Scheduler/EventLoop/Json/Requested.antt =====
-- A posted text against the models on the request that it asks for.
use ceph_mesos.Prelude.{List, Option, Text, false, none, some, ℤ, ◌≡◌}
use ceph_mesos.Common.JsonUtil.{JsonCpp, instances, profile}
use ceph_mesos.Scheduler.EventLoop.{Request, json_check, serve_request}
use ceph_mesos.Scheduler.EventLoop.Json.{check_text, checked, out_of_range, request_of, serve_text}

module _ {V : Type 0} (json : JsonCpp V) where
  -- One request, from its check to the event loop, against the models on a request.
  abbrev pub ServedAs : Text → List ℤ → Option Request → Type 0
  ServedAs text pending r =
      (check_text json text ≡ checked (json_check r))
      × (serve_text json text pending ≡ some (serve_request r pending))

  abbrev pub Served : Text → List ℤ → Type 0
  Served text pending = ServedAs text pending (request_of json text)

  -- Where `jsonCheck` lets an exception out.
  pub data Escape (v : V) : Type 0 where
    by_instances : instances json v ≡ none → Escape v
    by_profile :
        (n : ℤ)
        → instances json v ≡ some n
        → out_of_range n ≡ false
        → profile json v ≡ none
        → Escape v
