-- ===== src/Examples/Posts.antt =====
-- A request that arrives in two parts.
use ceph_mesos.Prelude.{
  [], arith, codes, length, none, refl, some, text_eq, true, ◌++◌, ◌∷◌, ◌≡◌, ◌≤◌,
}
use ceph_mesos.Common.Config.{or_else}
use ceph_mesos.Common.JsonUtil.{instances, profile, read}
use ceph_mesos.Common.StringUtil.{c_str}
use ceph_mesos.Examples.Json.{first_json}
use ceph_mesos.HttpServer.RestServer.{
  Connection, answer_request, continue_request, flexup_url, new_connection, post_method,
  rest_request, run_calls,
}
use ceph_mesos.HttpServer.RestServer.Chunks.{
  AnswersWith, parts-AnswersWith, sent_only-IsAccepted, whole,
}
use ceph_mesos.Scheduler.EventLoop.Json.{check_text, check_value}
use ceph_mesos.Scheduler.EventLoop.Json.Accepted.{IsAccepted}

parts-AnswersWith_example : AnswersWith first_json (whole (codes "o2" ∷ codes "osds" ∷ [])) (
    run_calls first_json flexup_url post_method
      ([] ∷ (codes "o2" ∷ codes "osds" ∷ []) ++ [] ∷ [])
      none)
parts-AnswersWith_example =
    parts-AnswersWith first_json (codes "o2" ∷ codes "osds" ∷ [])
      ((λ e. ground arith), ((λ e. ground arith), tt))

abbrev received : Connection
received = record { is_parsing = true; read_post_data = codes "o2osds" }

sends :
    (rest_request first_json flexup_url post_method [] (some received)).sent ≡ some (codes "o2osds")
unfolding rest_request continue_request answer_request text_eq c_str check_text check_value read
    instances profile
sends = refl

sent_only-IsAccepted_example :
    (post_method ≡ post_method)
    × (flexup_url ≡ flexup_url)
    × IsAccepted first_json (codes "o2osds")
    × (length (codes "o2osds") ≤ 256)
    × (codes "o2osds" ≡ c_str (or_else (some received) new_connection).read_post_data)
    × ((rest_request first_json flexup_url post_method [] (some received)).connection ≡ none)
sent_only-IsAccepted_example =
    sent_only-IsAccepted first_json flexup_url post_method [] (codes "o2osds") (some received) sends
