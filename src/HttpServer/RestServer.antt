-- ===== src/HttpServer/RestServer.antt =====
-- `rest_request` of src/httpserver/RestServer.cpp: a POST request that arrives in parts. The daemon
-- (libmicrohttpd) calls it once when the headers are there, once for each part of the data, and once
-- more, with no data, at the end. jsoncpp is a parameter, and the message queue is
-- there and has room.
pub mod Chunks
use ceph_mesos.Prelude.{
  Bool, List, Option, Text, [], codes, false, if◌then◌else◌, length, ltb, none, not, some, text_eq,
  true, ◌&&◌, ◌++◌, ◌∷◌,
}
use ceph_mesos.Common.Config.{or_else}
use ceph_mesos.Common.JsonUtil.{JsonCpp}
use ceph_mesos.Common.StringUtil.{c_str}
use ceph_mesos.Scheduler.EventLoop.{Answer, error_instances, error_json, error_profile, success}
use ceph_mesos.Scheduler.EventLoop.Json.{check_text, checked, escapes}
use ceph_mesos.Scheduler.EventLoop.Queue.{max_message_size}

-- `ConnectionData`
pub record Connection : Type 0 where
  pub is_parsing : Bool
  pub read_post_data : Text

-- What the daemon is told. The code of a page not found is returned like `MHD_YES`, without a response.
pub data Reply : Type 0 where
  mhd_no mhd_not_found mhd_yes : Reply
  respond : Text → Reply
  -- an exception leaves the call
  throws : Reply

-- A call: what it returns, `*con_cls` behind it, and the text it sends to the message queue.
pub record Call : Type 0 where
  pub reply : Reply
  pub connection : Option Connection
  pub sent : Option Text

unfoldable pub answer_text : Answer → Text
answer_text success = codes "[success]"
answer_text error_instances = codes "[error]:instances"
answer_text error_profile = codes "[error]:profile"
answer_text error_json = codes "[error]:json"

abbrev pub post_method : Text
post_method = codes "POST"

abbrev pub flexup_url : Text
flexup_url = codes "/api/cluster/flexup"

abbrev pub new_connection : Connection
new_connection = record { is_parsing = false; read_post_data = [] }

module _ {V : Type 0} (json : JsonCpp V) where
  -- All data have been received. Where `jsonCheck` lets an exception out, of a conversion or of `send` for a
  -- text longer than a message may be, the connection is left as it is.
  unfoldable pub answer_request : Text → Call
  answer_request received =
      let body = c_str received in
      let escape : Call = record {
        reply = throws;
        connection = some (record { is_parsing = true; read_post_data = received });
        sent = none;
      } in
      elim (check_text json body) [
        | escapes ↦ escape
        | checked r ↦ if r.1 && ltb max_message_size (length body) then escape else record {
          reply =
              respond
                (c_str (codes "Received data:\n" ++ received ++ codes "\n" ++ answer_text r.0));
          connection = none;
          sent = if r.1 then some body else none;
        }
      ]

  unfoldable pub continue_request : Connection → Text → Call
  unfolding answer_request
  continue_request con upload =
      if con.is_parsing
      then (elim upload [
        | [] ↦ answer_request con.read_post_data
        | c ∷ s ↦ record {
          reply = mhd_yes;
          connection = some (record con { read_post_data = con.read_post_data ++ (c ∷ s) });
          sent = none;
        }
      ])
      else record {
        reply = mhd_yes;
        connection = some (record con { is_parsing = true });
        sent = none;
      }

  unfoldable pub rest_request : Text → Text → Text → Option Connection → Call
  unfolding continue_request
  rest_request url method upload con =
      if not (text_eq method post_method)
      then record { reply = mhd_no; connection = con; sent = none }
      else if not (text_eq url flexup_url)
      then record { reply = mhd_not_found; connection = con; sent = none }
      else continue_request (or_else con new_connection) upload

  -- The calls for one connection, part by part.
  unfoldable pub run_calls : Text → Text → List Text → Option Connection → List Call
  unfolding rest_request
  run_calls url method [] con = []
  run_calls url method (upload ∷ uploads) con =
      let c = rest_request url method upload con in c ∷ run_calls url method uploads c.connection
