-- ===== src/Scheduler/Agent/Ids.antt =====
-- The OSD ids that the agent receives, keeps and gives to executors.
pub mod Offers
pub mod Always
use ceph_mesos.Prelude.{
  List, Option-cases, Text, [], ap, append-nil, append_assoc, arith, eqb_ℤ, if◌then◌else◌, inl, inr,
  none, push_back, refl, some, sym, unsnoc, ℕ, ℤ, ◌++◌, ◌+◌, ◌∙◌, ◌∷◌, ◌≡◌,
}
use ceph_mesos.Common.StringUtil.{explode}
use ceph_mesos.Common.TaskType.{launch_osd, to_executor_code}
use ceph_mesos.Common.World.{World}
use ceph_mesos.Scheduler.Agent.{Agent, call, with_machine}
use ceph_mesos.Scheduler.Driver.{DriverCall, decline_offer, launch_tasks, send_framework_message}
use ceph_mesos.State.StateMachine.{StateMachine}

abbrev pub id_count : ℤ → List ℤ → ℕ
id_count n [] = 0
id_count n (x ∷ xs) = (if eqb_ℤ n x then 1 else 0) + id_count n xs

pub id_count-append :
    (n : ℤ) (xs ys : List ℤ) → id_count n (xs ++ ys) ≡ id_count n xs + id_count n ys
id_count-append n [] ys = omega arith
id_count-append n (x ∷ xs) ys = omega (arith, id_count-append n xs ys)

unsnoc-none : (xs : List ℤ) → unsnoc xs ≡ none → xs ≡ []
unsnoc-none [] h = refl
unsnoc-none (x ∷ xs) h = ground arith

pub unsnoc-push : (xs rest : List ℤ) (x : ℤ) → unsnoc xs ≡ some (rest, x) → xs ≡ push_back rest x
unsnoc-push [] rest x h = ground arith
unsnoc-push (y ∷ xs) rest x h = elim (Option-cases (unsnoc xs)) [
  | inl e ↦ ground (arith, unsnoc-none xs e)
  | inr ((ys, z), e) ↦ ground (arith, unsnoc-push xs ys z e)
]

module _ (w : World) where
  -- The OSD id of a message, as the executor reads it.
  abbrev pub id_of_tokens : List Text → List ℤ
  id_of_tokens [] = []
  id_of_tokens (code ∷ []) = []
  id_of_tokens (code ∷ osd_id ∷ []) = elim (w.parse_int code) [
    | none ↦ []
    | some n ↦
        if eqb_ℤ n (to_executor_code launch_osd)
        then (elim (w.parse_int osd_id) [ none ↦ [] | some id ↦ id ∷ [] ])
        else []
  ]
  id_of_tokens (code ∷ osd_id ∷ next ∷ rest) = []

  abbrev pub launched_id : DriverCall → List ℤ
  launched_id (decline_offer offer refuse) = []
  launched_id (launch_tasks offer tasks) = []
  launched_id (send_framework_message executor slave text) = id_of_tokens (explode text b'.')

  -- The OSD ids that executors have been given, in order.
  unfoldable pub given_ids : List DriverCall → List ℤ
  given_ids [] = []
  given_ids (c ∷ cs) = launched_id c ++ given_ids cs

  pub given_ids-call :
      (c : DriverCall) (cs : List DriverCall)
      → given_ids (push_back cs c) ≡ given_ids cs ++ launched_id c
  unfolding given_ids
  given_ids-call c [] = append-nil (launched_id c)
  given_ids-call c (d ∷ cs) =
      ap (λ ids. launched_id d ++ ids) (given_ids-call c cs)
      ∙ sym (append_assoc (launched_id d) (given_ids cs) (launched_id c))

  -- How often an id has been given or is still there to give.
  abbrev pub tally : ℤ → Agent → ℕ
  tally n a = id_count n (given_ids a.calls) + id_count n a.machine.pending_osdid

  -- Neither the ids that were given nor those that are left differ.
  pub record SameIds (a b : Agent) : Type 0 where
    pub given : given_ids b.calls ≡ given_ids a.calls
    pub pending : b.machine.pending_osdid ≡ a.machine.pending_osdid

  pub SameIds-refl : (a : Agent) → SameIds a a
  SameIds-refl a = record { given = refl; pending = refl }

  pub SameIds-then : {a b c : Agent} → SameIds a b → SameIds b c → SameIds a c
  SameIds-then h k = record { given = k.given ∙ h.given; pending = k.pending ∙ h.pending }

  pub tally-SameIds : (n : ℤ) {a b : Agent} → SameIds a b → tally n b ≡ tally n a
  tally-SameIds n h = rw (h.given, h.pending) refl

  pub given_ids-quiet :
      (c : DriverCall) (cs : List DriverCall)
      → launched_id c ≡ []
      → given_ids (push_back cs c) ≡ given_ids cs
  given_ids-quiet c cs h = given_ids-call c cs ∙ rw (h, append-nil) refl

  pub call-SameIds : (c : DriverCall) (a : Agent) → launched_id c ≡ [] → SameIds a (call c a)
  call-SameIds c a h = record { given = given_ids-quiet c a.calls h; pending = refl }

  pub machine-SameIds :
      (m : StateMachine) (a : Agent)
      → m.pending_osdid ≡ a.machine.pending_osdid
      → SameIds a (with_machine m a)
  machine-SameIds m a h = record { given = refl; pending = h }
