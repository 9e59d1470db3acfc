-- ===== src/Examples/Json.antt =====
-- A small stand-in for jsoncpp: two texts that it reads, a request and a bare word.
use ceph_mesos.Prelude.{
  Option, Text, [], codes, false, if◌then◌else◌, none, pos, refl, some, text_eq, true, ℤ, ◌==◌, ◌∷◌,
  ◌≡◌,
}
use ceph_mesos.Common.JsonUtil.{JsonCpp, instances, profile, read}
use ceph_mesos.Scheduler.EventLoop.{error_instances, success}
use ceph_mesos.Scheduler.EventLoop.Json.{
  check_text, check_value, checked, process_text, process_value,
}

pub data JsonValue : Type 0 where
  number : ℤ → JsonValue
  letters : Text → JsonValue
  -- the two keys of a request, where they are given
  members : Option ℤ → Option Text → JsonValue

abbrev number_or : Option ℤ → JsonValue → JsonValue
number_or none v = v
number_or (some n) v = number n

abbrev letters_or : Option Text → JsonValue → JsonValue
letters_or none v = v
letters_or (some s) v = letters s

-- Only a document with members has keys.
abbrev member : JsonValue → Text → JsonValue → Option JsonValue
member (members n p) key default =
    some (if text_eq key (codes "instances") then number_or n default else letters_or p default)
member _ key default = none

abbrev number_of : JsonValue → Option ℤ
number_of (number n) = some n
number_of _ = none

abbrev letters_of : JsonValue → Option Text
letters_of (letters s) = some s
letters_of _ = none

abbrev parse_small : Text → Option JsonValue
parse_small s =
    if text_eq s (codes "osds")
    then some (members (some (pos 2)) (some (codes "osd")))
    else if text_eq s (codes "empty")
    then some (members none none)
    else if text_eq s (codes "bare")
    then some (letters (codes "bare"))
    else none

abbrev pub small_json : JsonCpp JsonValue
small_json = record {
  parse = parse_small;
  get = member;
  as_int = number_of;
  as_string = letters_of;
  of_int = number;
  of_text = letters;
}

-- Without its keys a request has 0 instances and the profile error.
empty_request :
    (check_text small_json (codes "empty") ≡ checked (error_instances, false))
    × (process_text small_json (codes "empty") [] ≡ some [])
unfolding check_text check_value process_text process_value read instances profile text_eq
empty_request = (refl, refl)

osds_request :
    (check_text small_json (codes "osds") ≡ checked (success, true))
    × (process_text small_json (codes "osds") [] ≡ some (pos 2 ∷ []))
unfolding check_text check_value process_text process_value read instances profile text_eq
osds_request = (refl, refl)

-- A reader that looks at the first byte of a text only.
abbrev parse_first : Text → Option JsonValue
parse_first [] = none
parse_first (c ∷ s) = if c == b'o' then some (members (some (pos 2)) (some (codes "osd"))) else none

abbrev pub first_json : JsonCpp JsonValue
first_json = record small_json { parse = parse_first }
