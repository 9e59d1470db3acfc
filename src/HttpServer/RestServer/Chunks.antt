-- ===== src/HttpServer/RestServer/Chunks.antt =====
-- The parts of a request, put together.
use ceph_mesos.Prelude.{
  All, Bool-cases, List, Option, Text, [], ap, append-nil, append_assoc, arith, inl, inr, length,
  ltb, none, refl, some, subst, sym, text_eq, text_eq_iff, true, ℕ, ◌++◌, ◌∙◌, ◌∷◌, ◌≡◌, ◌≢◌, ◌≤◌,
}
use ceph_mesos.Common.Config.{or_else}
use ceph_mesos.Common.JsonUtil.{JsonCpp}
use ceph_mesos.Common.StringUtil.{c_str}
use ceph_mesos.HttpServer.RestServer.{
  Call, Connection, answer_request, continue_request, flexup_url, mhd_yes, new_connection,
  post_method, rest_request, run_calls,
}
use ceph_mesos.Scheduler.EventLoop.Json.{Checked-cases, check_text, checked}
use ceph_mesos.Scheduler.EventLoop.Json.Accepted.{IsAccepted, sent-IsAccepted}

abbrev pub whole : List Text → Text
whole [] = []
whole (t ∷ ts) = t ++ whole ts

-- The daemon is told to go on, and nothing is sent.
pub record IsWaiting (c : Call) : Type 0 where
  pub goes_on : c.reply ≡ mhd_yes
  pub sends_nothing : c.sent ≡ none

abbrev parsing : Text → Connection
parsing received = record { is_parsing = true; read_post_data = received }

abbrev go_on : Text → Call
go_on received = record { reply = mhd_yes; connection = some (parsing received); sent = none }

module _ {V : Type 0} (json : JsonCpp V) where
  post_call :
      (upload : Text) (con : Option Connection)
      → rest_request json flexup_url post_method upload con
        ≡ continue_request json (or_else con new_connection) upload
  unfolding rest_request text_eq
  post_call upload con = refl

  first_call : rest_request json flexup_url post_method [] none ≡ go_on []
  unfolding continue_request
  first_call = rw (post_call [] none) refl

  part_call :
      (c : ℕ) (s received : Text)
      → rest_request json flexup_url post_method (c ∷ s) (some (parsing received))
        ≡ go_on (received ++ (c ∷ s))
  unfolding continue_request
  part_call c s received = rw (post_call (c ∷ s) (some (parsing received))) refl

  -- The calls that end with the answer to a text.
  abbrev pub AnswersWith : Text → List Call → Type 0
  AnswersWith text cs =
      (before : List Call) × (cs ≡ before ++ answer_request json text ∷ []) × All IsWaiting before

  later_parts :
      (parts : List Text) (received : Text)
      → All (λ t. t ≢ []) parts
      → AnswersWith
          (received ++ whole parts)
          (run_calls json flexup_url post_method (parts ++ [] ∷ []) (some (parsing received)))
  unfolding run_calls continue_request
  later_parts [] received h =
      ([], rw (post_call [] (some (parsing received)), append-nil received) refl, tt)
  later_parts ([] ∷ parts) received h = absurd (h.0 refl)
  later_parts ((c ∷ s) ∷ parts) received h =
      let received' = received ++ (c ∷ s) in
      let (before, e, waiting) = later_parts parts received' h.1 in
      rw (part_call c s received) (
        go_on received' ∷ before,
        ap (◌∷◌ (go_on received')) e
            ∙ ap (λ t. go_on received' ∷ (before ++ answer_request json t ∷ []))
                (append_assoc received (c ∷ s) (whole parts)),
        (record { goes_on = refl; sends_nothing = refl }, waiting),
      )

  -- However the daemon cuts the data of a POST request into parts, the calls before the last only go on
  -- and send nothing, and the last does what the server does with a text received whole, on what the
  -- parts make up together: it answers and sends, or an exception leaves it.
  pub parts-AnswersWith :
      (parts : List Text)
      → All (λ t. t ≢ []) parts
      → AnswersWith
          (whole parts)
          (run_calls json flexup_url post_method ([] ∷ parts ++ [] ∷ []) none)
  unfolding run_calls
  parts-AnswersWith parts h =
      let (before, e, waiting) = later_parts parts [] h in
      rw first_call (
        go_on [] ∷ before,
        ap (◌∷◌ (go_on [])) e,
        (record { goes_on = refl; sends_nothing = refl }, waiting),
      )

  -- What a call that sends has read and leaves.
  abbrev Sends : Text → Text → Call → Type 0
  Sends received text c =
      IsAccepted json text × (length text ≤ 256) × (text ≡ c_str received) × (c.connection ≡ none)

  answer-Sends :
      (received text : Text)
      → (answer_request json received).sent ≡ some text
      → Sends received text (answer_request json received)
  unfolding answer_request
  answer-Sends received text h = elim (Checked-cases (check_text json (c_str received))) [
    | inl out ↦ absurd (ground (arith, h, out))
    | inr (r, e) ↦ elim (Bool-cases r.1) [
      | inr refused ↦ absurd (ground (arith, h, e, refused))
      | inl accepted ↦ elim (Bool-cases (ltb 256 (length (c_str received)))) [
        | inl long ↦ absurd (ground (arith, h, e, accepted, long))
        | inr short ↦
            let same : c_str received ≡ text = ground (arith, h, e, accepted, short) in
            (
              subst (IsAccepted json) same
                  (sent-IsAccepted json _ r.0 (e ∙ ap (λ b. checked (r.0, b)) accepted)),
              subst (λ t. length t ≤ 256) same (ground (arith, short)),
              sym same,
              ground (arith, h, e, accepted, short),
            )
      ]
    ]
  ]

  continue-Sends :
      (c : Connection) (upload text : Text)
      → (continue_request json c upload).sent ≡ some text
      → Sends c.read_post_data text (continue_request json c upload)
  unfolding continue_request
  continue-Sends c [] text h = elim (Bool-cases c.is_parsing) [
    | inl parsing_now ↦ rw parsing_now (answer-Sends c.read_post_data text (rw parsing_now at h))
    | inr first ↦ absurd (ground arith)
  ]
  continue-Sends c (x ∷ upload) text h = absurd (ground arith)

  -- A call that sends a text to the queue is a POST to the path; the text is JSON that asks for one to
  -- 1024 instances of a known profile, fits into a message, and is what has been received before, up to a
  -- zero byte; the connection is at its end.
  pub sent_only-IsAccepted :
      (url method upload text : Text) (con : Option Connection)
      → (rest_request json url method upload con).sent ≡ some text
      → (method ≡ post_method)
        × (url ≡ flexup_url)
        × IsAccepted json text
        × (length text ≤ 256)
        × (text ≡ c_str (or_else con new_connection).read_post_data)
        × ((rest_request json url method upload con).connection ≡ none)
  unfolding rest_request
  sent_only-IsAccepted url method upload text con h =
      elim (Bool-cases (text_eq method post_method)) [
        | inr other ↦ absurd (ground arith)
        | inl post ↦ elim (Bool-cases (text_eq url flexup_url)) [
          | inr other ↦ absurd (ground arith)
          | inl found ↦
              let sends =
                continue-Sends (or_else con new_connection) upload text (rw (post, found) at h) in
              (
                (text_eq_iff method post_method).0 post,
                (text_eq_iff url flexup_url).0 found,
                sends.0,
                sends.1,
                sends.2,
                rw (post, found) sends.3,
              )
        ]
      ]
