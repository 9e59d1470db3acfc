-- ===== src/Scheduler/EventLoop/Requests.antt =====
-- The requests as a number of instances still owed, from the REST server to the scheduler.
use ceph_mesos.Prelude.{
  All, All-append, Bool, List, Option, Text, [], arith, bit, eqb_ℤ, false, if◌then◌else◌, inl, inr,
  ltb, ltb_ℤ, negsuc, none, not, pos, pos_part, push_back, refl, some, suc, text_eq, text_eq_iff,
  zero, ℕ, ℤ, ◌&&◌, ◌++◌, ◌+◌, ◌∷◌, ◌≡◌, ◌≤ℤ◌, ◌⊎◌,
}
use ceph_mesos.Scheduler.EventLoop.{
  Request, fetch_pending_request, max_instances_size, osd_profile, serve_request,
}

-- Every pending request asks for at least one instance and at most the server's limit.
abbrev pub IsOpen : List ℤ → Type 0
IsOpen = All (λ n. (pos 1 ≤ℤ n) × (n ≤ℤ max_instances_size))

-- The instances that are still owed.
unfoldable pub owed : List ℤ → ℕ
owed [] = 0
owed (n ∷ ns) = pos_part n + owed ns

owed-append : (xs ys : List ℤ) → owed (xs ++ ys) ≡ owed xs + owed ys
unfolding owed
owed-append [] ys = omega arith
owed-append (x ∷ xs) ys = omega (arith, owed-append xs ys)

-- What a request adds: its instances, if the server accepts it for the profile "osd".
unfoldable pub asked : Option Request → ℕ
asked none = 0
asked (some r) =
    if text_eq osd_profile r.profile
      && not (ltb_ℤ r.instances (pos 1))
      && not (ltb_ℤ max_instances_size r.instances)
    then pos_part r.instances
    else 0

abbrev AcceptedCount : Request → Type 0
AcceptedCount r = (pos 1 ≤ℤ r.instances) × (r.instances ≤ℤ max_instances_size)

served :
    (r : Request) (pending : List ℤ) (b : Bool)
    → text_eq r.profile osd_profile ≡ b
    → text_eq osd_profile r.profile ≡ b
    → ((serve_request (some r) pending ≡ pending) × (asked (some r) ≡ 0))
      ⊎ ((serve_request (some r) pending ≡ push_back pending r.instances)
          × (asked (some r) ≡ pos_part r.instances)
          × AcceptedCount r)
unfolding serve_request asked
served r pending b h k = ground arith

text_eq_comm : (a b : Text) → text_eq a b ≡ text_eq b a
text_eq_comm a b = ground (arith, text_eq_iff a b, text_eq_iff b a)

serve_cases :
    (r : Request) (pending : List ℤ)
    → ((serve_request (some r) pending ≡ pending) × (asked (some r) ≡ 0))
      ⊎ ((serve_request (some r) pending ≡ push_back pending r.instances)
          × (asked (some r) ≡ pos_part r.instances)
          × AcceptedCount r)
serve_cases r pending =
    served r pending (text_eq osd_profile r.profile) (text_eq_comm r.profile osd_profile) refl

-- A request, valid JSON or not, keeps the pending requests open, and adds to what is owed exactly
-- the instances that it asks for with a valid number and the profile "osd".
pub serve_request-owed :
    (r : Option Request) (pending : List ℤ)
    → IsOpen pending
    → IsOpen (serve_request r pending) × (owed (serve_request r pending) ≡ owed pending + asked r)
serve_request-owed none pending h = unfold serve_request asked in (h, omega arith)
serve_request-owed (some r) pending h = elim (serve_cases r pending) [
  | inl (same, zero_asked) ↦ rw (same, zero_asked) (h, omega arith)
  | inr (grown, all_asked, valid) ↦
      rw (grown, all_asked)
        (
          All-append _ pending (r.instances ∷ []) h (valid, tt),
          unfold owed in omega (arith, owed-append pending (r.instances ∷ [])),
        )
]

more_left : (n : ℕ) → eqb_ℤ (pos 0) (pos (suc n)) ≡ false
more_left n = ground arith

-- A fetch is granted exactly if something is owed, it pays off one instance, and it keeps the
-- pending requests open.
pub fetch-owed :
    (pending : List ℤ)
    → IsOpen pending
    → let (accept, rest) = fetch_pending_request pending in
      IsOpen rest × (owed pending ≡ bit accept + owed rest) × (accept ≡ ltb 0 (owed pending))
unfolding fetch_pending_request owed
fetch-owed [] h = (tt, refl, refl)
fetch-owed (negsuc n ∷ rest) h = absurd (omega arith)
fetch-owed (pos zero ∷ rest) h = absurd (omega arith)
fetch-owed (pos (suc zero) ∷ rest) h = (h.1, omega arith, ground arith)
fetch-owed (pos (suc (suc n)) ∷ rest) h =
    rw (more_left n) ((omega arith, h.1), omega arith, ground arith)

-- The steps of the scheduler and of the REST server on the pending requests, in any order.
pub data Event : Type 0 where
  request : Option Request → Event
  fetch : Event

unfoldable pub pending_after : List Event → List ℤ → List ℤ
pending_after [] pending = pending
pending_after (request r ∷ es) pending = pending_after es (serve_request r pending)
pending_after (fetch ∷ es) pending = pending_after es (fetch_pending_request pending).1

unfoldable pub granted : List Event → List ℤ → ℕ
granted [] pending = 0
granted (request r ∷ es) pending = granted es (serve_request r pending)
granted (fetch ∷ es) pending =
    bit (fetch_pending_request pending).0 + granted es (fetch_pending_request pending).1

unfoldable pub requested : List Event → ℕ
requested [] = 0
requested (request r ∷ es) = asked r + requested es
requested (fetch ∷ es) = requested es

balance :
    (es : List Event) (pending : List ℤ)
    → IsOpen pending
    → owed pending + requested es ≡ granted es pending + owed (pending_after es pending)
unfolding pending_after granted requested
balance [] pending h = omega arith
balance (request r ∷ es) pending h = omega (
  arith,
  (serve_request-owed r pending h).1,
  balance es (serve_request r pending) (serve_request-owed r pending h).0,
)
balance (fetch ∷ es) pending h = omega (
  arith,
  (fetch-owed pending h).1,
  balance es (fetch_pending_request pending).1 (fetch-owed pending h).0,
)

-- Whatever the order of requests and fetches, the OSDs granted and those still owed together are
-- the OSDs asked for: no instance is lost, and none is granted twice.
pub requests_balance : (es : List Event) → requested es ≡ granted es [] + owed (pending_after es [])
unfolding owed
requests_balance es = omega (arith, balance es [] tt)
