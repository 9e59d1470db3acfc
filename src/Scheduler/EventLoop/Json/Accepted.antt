-- ===== src/Scheduler/EventLoop/Json/Accepted.antt =====
-- The texts that `jsonCheck` accepts, and what `processData` makes of them.
use ceph_mesos.Prelude.{
  Bool-cases, List, Option-cases, Text, ap, arith, codes, false, inl, inr, negsuc, pos, refl, some,
  text_eq, text_eq_iff, true, ℕ, ℤ, ◌||◌, ◌∙◌, ◌≡◌, ◌≤◌, ◌⊎◌,
}
use ceph_mesos.Common.JsonUtil.{JsonCpp, instances, profile, read}
use ceph_mesos.Scheduler.EventLoop.{Answer, mon_profile, osd_profile, process_data}
use ceph_mesos.Scheduler.EventLoop.Json.{
  check_text, check_value, checked, out_of_range, process_text, process_value, request_of,
}
use ceph_mesos.State.TaskState.{is_osd}

in_range : (n : ℤ) → out_of_range n ≡ false → (k : ℕ) × (n ≡ pos k) × (1 ≤ k) × (k ≤ 1024)
in_range (pos k) within = (k, refl, ground (arith, within), ground (arith, within))
in_range (negsuc k) within = absurd (ground (arith, within))

known_service :
    (p : Text)
    → (text_eq p osd_profile || text_eq p mon_profile) ≡ true
    → (p ≡ codes "osd") ⊎ (p ≡ codes "mon")
known_service p known = elim (Bool-cases (text_eq p osd_profile)) [
  | inl is_osd ↦ inl ((text_eq_iff p osd_profile).0 is_osd)
  | inr other ↦ inr ((text_eq_iff p mon_profile).0 (ground (arith, known, other)))
]

module _ {V : Type 0} (json : JsonCpp V) where
  -- A document that asks for one to 1024 instances of a known profile.
  pub record IsAccepted (text : Text) : Type 0 where
    pub document : V
    pub count : ℕ
    pub service : Text
    pub is_read : json.parse text ≡ some document
    pub has_count : instances json document ≡ some (pos count)
    pub has_service : profile json document ≡ some service
    pub at_least_one : 1 ≤ count
    pub at_most : count ≤ 1024
    pub known : (service ≡ codes "osd") ⊎ (service ≡ codes "mon")

  value-IsAccepted :
      (text : Text) (v : V) (a : Answer)
      → json.parse text ≡ some v
      → check_value json v ≡ checked (a, true)
      → IsAccepted text
  unfolding check_value
  value-IsAccepted text v a parsed ok = elim (Option-cases (instances json v)) [
    | inl e ↦ absurd (ground (arith, ok, e))
    | inr (n, e) ↦ elim (Bool-cases (out_of_range n)) [
      | inl out ↦ absurd (ground (arith, ok, e, out))
      | inr within ↦ elim (Option-cases (profile json v)) [
        | inl e' ↦ absurd (ground (arith, ok, e, within, e'))
        | inr (p, e') ↦ elim (Bool-cases (text_eq p osd_profile || text_eq p mon_profile)) [
          | inr other ↦ absurd (ground (arith, ok, e, within, e', other))
          | inl known ↦
              let (k, is_k, at_least, at_most) = in_range n within in
              record {
                document = v;
                count = k;
                service = p;
                is_read = parsed;
                has_count = e ∙ ap some is_k;
                has_service = e';
                at_least_one = at_least;
                at_most = at_most;
                known = known_service p known;
              }
        ]
      ]
    ]
  ]

  -- What is sent is accepted, whatever the answer.
  pub sent-IsAccepted :
      (text : Text) (a : Answer) → check_text json text ≡ checked (a, true) → IsAccepted text
  unfolding check_text read
  sent-IsAccepted text a ok = elim (Option-cases (json.parse text)) [
    | inl e ↦ absurd (ground (arith, ok, e))
    | inr (v, e) ↦ value-IsAccepted text v a e (rw (e, check_text) at ok)
  ]

  -- `processData` on an accepted text, or on another text that is read like it.
  pub process_accepted :
      (text again : Text) (pending : List ℤ) (h : IsAccepted text)
      → json.parse again ≡ some h.document
      → process_text json again pending ≡ some (process_data (request_of json text) pending)
  unfolding process_text process_value process_data read
  process_accepted text again pending h e =
      rw (e, process_text, h.has_service, process_value, h.has_count, h.is_read, request_of)
        (rw (h.has_count, h.has_service) (ground arith))
