-- ===== src/Scheduler/EventLoop/Queue.antt =====
-- The message queue between `jsonCheck` of src/httpserver/RestServer.cpp and `recvData` of
-- src/scheduler/EventLoop.cpp. The queue itself is boost's: first in, first out, bounded in number and
-- size. jsoncpp is a parameter.
pub mod Delivery
use ceph_mesos.Prelude.{
  List, Option, Text, [], if◌then◌else◌, length, ltb, none, push_back, some, ℕ, ℤ, ◌++◌, ◌==◌, ◌∷◌,
}
use ceph_mesos.Common.JsonUtil.{JsonCpp}
use ceph_mesos.Scheduler.EventLoop.Json.{check_text, checked, escapes, process_text}

abbrev pub max_messages : ℕ
max_messages = 1014

abbrev pub max_message_size : ℕ
max_message_size = 256

-- The messages in the queue, oldest first, and `pendingOSD`.
pub record Channel : Type 0 where
  pub queue : List Text
  pub pending : List ℤ

-- A step goes on, or `jsonCheck` or `processData` lets an exception of jsoncpp out, or `send` throws or
-- waits, or the end of the received text is looked for beyond the
-- buffer.
pub data QueueStep : Type 0 where
  goes : Channel → QueueStep
  check_throws process_throws send_throws send_waits reads_beyond : QueueStep

-- A text that the REST server checks, or a round of the event loop, with the bytes that its buffer holds
-- before anything is received.
pub data QueueEvent : Type 0 where
  posted : Text → QueueEvent
  round : Text → QueueEvent

-- `string(event_data)`: the bytes before the first zero byte.
unfoldable pub zero_ended : Text → Option Text
zero_ended [] = none
zero_ended (c ∷ s) =
    let rest = zero_ended s in
    if c == 0 then some [] else (elim rest [ none ↦ none | some t ↦ some (c ∷ t) ])

abbrev pub bytes_behind : Text → Text → Text
bytes_behind [] buffer = buffer
bytes_behind (c ∷ msg) [] = []
bytes_behind (c ∷ msg) (b ∷ buffer) = bytes_behind msg buffer

-- The message is written over the front of the buffer, without a zero byte behind it.
unfoldable pub event_text : Text → Text → Option Text
unfolding zero_ended
event_text msg buffer = zero_ended (msg ++ bytes_behind msg buffer)

unfoldable pub send_message : Text → Channel → QueueStep
send_message json c =
    if ltb max_message_size (length json)
    then send_throws
    else if ltb (length c.queue) max_messages
    then goes (record c { queue = push_back c.queue json })
    else send_waits

module _ {V : Type 0} (json : JsonCpp V) where
  -- `jsonCheck`, which sends what it accepts.
  unfoldable pub check_and_send : Text → Channel → QueueStep
  unfolding send_message
  check_and_send text c = elim (check_text json text) [
    | escapes ↦ check_throws
    | checked r ↦ if r.1 then send_message text c else goes c
  ]

  -- A round of the loop in `recvData`.
  unfoldable pub receive_round : Text → Channel → QueueStep
  unfolding event_text
  receive_round buffer c = elim c.queue [
    | [] ↦ goes c
    | msg ∷ rest ↦ elim (event_text msg buffer) [
      | none ↦ reads_beyond
      | some text ↦ elim (process_text json text c.pending) [
        | none ↦ process_throws
        | some pending ↦ goes (record { queue = rest; pending = pending })
      ]
    ]
  ]

  unfoldable pub queue_step : QueueEvent → Channel → QueueStep
  unfolding check_and_send receive_round
  queue_step (posted text) c = check_and_send text c
  queue_step (round buffer) c = receive_round buffer c

  unfoldable pub queue_run : List QueueEvent → Channel → QueueStep
  unfolding queue_step
  queue_run [] c = goes c
  queue_run (event ∷ events) c = elim (queue_step event c) [
    | goes d ↦ queue_run events d
    | check_throws ↦ check_throws
    | process_throws ↦ process_throws
    | send_throws ↦ send_throws
    | send_waits ↦ send_waits
    | reads_beyond ↦ reads_beyond
  ]
