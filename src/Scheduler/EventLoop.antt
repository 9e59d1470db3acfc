-- ===== src/Scheduler/EventLoop.antt =====
-- src/scheduler/EventLoop.cpp `processData`, src/httpserver/RestServer.cpp `jsonCheck`, and the
-- queue of requests between them, down to the scheduler's `fetchPendingRESTfulRequest`
-- (src/scheduler/CephSchedulerAgent.hpp). jsoncpp is not part of the repository: a request is what
-- `JsonUtil` reads from it, `none` where the text is no JSON.
pub mod Requests
pub mod Queue
pub mod Json
use ceph_mesos.Prelude.{
  Bool, List, Option, Text, [], codes, dec, eqb_ℤ, false, if◌then◌else◌, ltb_ℤ, none, not, pos,
  push_back, some, text_eq, true, ℤ, ◌||◌, ◌∷◌,
}

-- `JsonUtil::instances` and `JsonUtil::profile`
pub record Request : Type 0 where
  pub instances : ℤ
  pub profile : Text

abbrev pub osd_profile : Text
osd_profile = codes "osd"

abbrev pub mon_profile : Text
mon_profile = codes "mon"

abbrev pub max_instances_size : ℤ
max_instances_size = pos 1024

pub data Answer : Type 0 where
  success error_instances error_profile error_json : Answer

-- `jsonCheck`: the answer, and whether the text is sent to the queue
unfoldable pub json_check : Option Request → Answer × Bool
json_check none = (error_json, false)
json_check (some r) =
    if ltb_ℤ r.instances (pos 1) || ltb_ℤ max_instances_size r.instances
    then (error_instances, false)
    else if not (text_eq r.profile osd_profile || text_eq r.profile mon_profile)
    then (error_profile, false)
    else (success, true)

-- `processData` on the list of pending OSD requests
unfoldable pub process_data : Option Request → List ℤ → List ℤ
process_data none pending = pending
process_data (some r) pending =
    if text_eq osd_profile r.profile then push_back pending r.instances else pending

-- A request that reaches the REST server and, if it is accepted, the event loop.
unfoldable pub serve_request : Option Request → List ℤ → List ℤ
unfolding json_check process_data
serve_request r pending = if (json_check r).1 then process_data r pending else pending

-- `fetchPendingRESTfulRequest`: one instance of the first request is used up
unfoldable pub fetch_pending_request : List ℤ → Bool × List ℤ
fetch_pending_request [] = (false, [])
fetch_pending_request (count ∷ rest) =
    (true, if eqb_ℤ (pos 0) (dec count) then rest else dec count ∷ rest)
