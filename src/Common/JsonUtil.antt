-- ===== src/Common/JsonUtil.antt =====
-- src/common/JsonUtil.hpp. jsoncpp is a parameter: its reader, and the operations on values that the class
-- calls, with `none` for an exception.
use ceph_mesos.Prelude.{Option, Text, codes, none, pos, some, ℤ}
use ceph_mesos.Common.StringUtil.Words.{value}

pub record JsonCpp (V : Type 0) : Type 0 where
  -- `reader.parse(json, value)`: the value where it returns true
  pub parse : Text → Option V
  -- `value.get(key, default)`
  pub get : V → Text → V → Option V
  pub as_int : V → Option ℤ
  pub as_string : V → Option Text
  -- the conversions of a number and of a text to a value
  pub of_int : ℤ → V
  pub of_text : Text → V

module _ {V : Type 0} (json : JsonCpp V) where
  -- `read`, with the value that it leaves
  unfoldable pub read : Text → Option V
  read text = json.parse text

  unfoldable pub instances : V → Option ℤ
  instances value = elim (json.get value (codes "instances") (json.of_int (pos 0))) [
    | none ↦ none
    | some v ↦ json.as_int v
  ]

  unfoldable pub profile : V → Option Text
  profile value = elim (json.get value (codes "profile") (json.of_text (codes "error"))) [
    | none ↦ none
    | some v ↦ json.as_string v
  ]
