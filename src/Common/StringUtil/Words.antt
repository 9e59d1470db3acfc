-- ===== src/Common/StringUtil/Words.antt =====
-- Words between blanks, as the second form of `explode` splits them.
use ceph_mesos.Prelude.{
  All, All-append, Bool, Bool-cases, Lacks, List, Text, [], arith, false, if◌then◌else◌, inl, inr,
  map, refl, suc, take, true, zero, ℕ, ◌&&◌, ◌++◌, ◌==◌, ◌∷◌, ◌≡◌,
}
use ceph_mesos.Common.StringUtil.{c_str, explode_args}
use ceph_mesos.Common.StringUtil.Explode.{EndsNonempty, explode-join, join}

-- No blank, and no zero byte.
pub record IsWord (t : Text) : Type 0 where
  pub no_blank : Lacks b' ' t
  pub no_zero : Lacks 0 t

pub IsWord-append : (s t : Text) → IsWord s → IsWord t → IsWord (s ++ t)
IsWord-append s t h k = record {
  no_blank = All-append _ s t h.no_blank k.no_blank;
  no_zero = All-append _ s t h.no_zero k.no_zero;
}

abbrev pub lacks : ℕ → Text → Bool
lacks d [] = true
lacks d (c ∷ s) = if c == d then false else lacks d s

lacks-Lacks : (d : ℕ) (s : Text) → lacks d s ≡ true → Lacks d s
lacks-Lacks d [] h = tt
lacks-Lacks d (c ∷ s) h = elim (Bool-cases (c == d)) [
  | inl hit ↦ absurd (ground arith)
  | inr miss ↦ (λ e. ground arith, lacks-Lacks d s (ground arith))
]

-- A text that a test finds to be a word.
pub word : (s : Text) → lacks b' ' s ≡ true → lacks 0 s ≡ true → IsWord s
word s h k = record { no_blank = lacks-Lacks b' ' s h; no_zero = lacks-Lacks 0 s k }

abbrev pub all_words : List Text → Bool
all_words [] = true
all_words (t ∷ ts) = lacks b' ' t && (lacks 0 t && all_words ts)

abbrev pub drop_words : ℕ → List Text → List Text
drop_words zero ts = ts
drop_words (suc n) [] = []
drop_words (suc n) (t ∷ ts) = drop_words n ts

-- Texts that are all words.
pub data Words : List Text → Type 0 where
  no_words : Words []
  one_more : {t : Text} {ts : List Text} → IsWord t → Words ts → Words (t ∷ ts)

pub All-of_Words : {ts : List Text} → Words ts → All IsWord ts
All-of_Words no_words = tt
All-of_Words (one_more h hs) = (h, All-of_Words hs)

-- The first texts pass the test, and the others are words.
pub literals :
    (n : ℕ) {ts : List Text} → all_words (take n ts) ≡ true → Words (drop_words n ts) → Words ts
literals zero h rest = rest
literals (suc n) {ts = []} h rest = no_words
literals (suc n) {ts = t ∷ ts} h rest =
    one_more (word t (ground arith) (ground arith)) (literals n (ground arith) rest)

c_str-whole : (s : Text) → Lacks 0 s → c_str s ≡ s
unfolding c_str
c_str-whole [] h = refl
c_str-whole (c ∷ s) h = ground (arith, h.0, c_str-whole s h.1)

map-c_str : (ts : List Text) → All IsWord ts → map c_str ts ≡ ts
map-c_str [] h = refl
map-c_str (t ∷ ts) h = rw (c_str-whole t h.0.no_zero, map-c_str ts h.1) refl

All-blank : (ts : List Text) → All IsWord ts → All (Lacks b' ') ts
All-blank [] h = tt
All-blank (t ∷ ts) h = (h.0.no_blank, All-blank ts h.1)

pub explode_args-join :
    (ts : List Text) → All IsWord ts → EndsNonempty ts → explode_args (join b' ' ts) b' ' ≡ ts
unfolding explode_args
explode_args-join ts h e = rw (explode-join ts b' ' (All-blank ts h) e) (map-c_str ts h)

-- A word in front of a value.
pub value : (s v : Text) → lacks b' ' s ≡ true → lacks 0 s ≡ true → IsWord v → IsWord (s ++ v)
value s v h k i = IsWord-append s v (word s h k) i
