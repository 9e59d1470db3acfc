-- ===== src/Scheduler/EventLoop/Queue/Delivery.antt =====
-- What comes out of the queue, against serving each request at once.
use ceph_mesos.Prelude.{All, Lacks, List, Text, [], length, some, ℤ, ◌++◌, ◌+◌, ◌∷◌, ◌≡◌, ◌≢◌, ◌≤◌}
use ceph_mesos.Common.JsonUtil.{JsonCpp}
use ceph_mesos.Scheduler.EventLoop.{process_data, serve_request}
use ceph_mesos.Scheduler.EventLoop.Json.{check_text, escapes, request_of}
use ceph_mesos.Scheduler.EventLoop.Json.Accepted.{IsAccepted}
use ceph_mesos.Scheduler.EventLoop.Queue.{Channel, QueueEvent, goes, posted, queue_step, round}

-- The last byte of a buffer is zero, and the others are as many as a message may have here.
abbrev pub IsTerminated : Text → Type 0
IsTerminated buffer = (front : Text) × (buffer ≡ front ++ 0 ∷ []) × (length front ≡ 255)

abbrev pub IsShort : Text → Type 0
IsShort json = Lacks 0 json × (length json ≤ 255)

module _ {V : Type 0} (json : JsonCpp V) where
  -- A posted text that is short, and on which `jsonCheck` throws nothing; or a terminated buffer.
  abbrev pub IsTame : QueueEvent → Type 0
  IsTame (posted text) = IsShort text × (check_text json text ≢ escapes)
  IsTame (round buffer) = IsTerminated buffer

  -- The requests in the queue, processed in order.
  abbrev pub drain : List Text → List ℤ → List ℤ
  drain [] pending = pending
  drain (msg ∷ queue) pending = drain queue (process_data (request_of json msg) pending)

  -- Each posted text, served at once.
  abbrev pub serve_posts : List QueueEvent → List ℤ → List ℤ
  serve_posts [] pending = pending
  serve_posts (posted text ∷ events) pending =
      serve_posts events (serve_request (request_of json text) pending)
  serve_posts (round buffer ∷ events) pending = serve_posts events pending

  abbrev IsMessage : Text → Type 0
  IsMessage msg = IsAccepted json msg × IsShort msg

  module _
      (reads_root : (text rest : Text) (v : V)
        → json.parse text ≡ some v
        → json.parse (text ++ rest) ≡ some v) where
    -- A step that goes on, keeps the queue's messages readable, and does what serving at once does.
    record Delivers (event : QueueEvent) (c : Channel) : Type 0 where
      next : Channel
      steps : queue_step json event c ≡ goes next
      readable : All IsMessage next.queue
      no_longer : length next.queue ≤ 1 + length c.queue
      served : drain next.queue next.pending ≡ serve_posts (event ∷ []) (drain c.queue c.pending)
