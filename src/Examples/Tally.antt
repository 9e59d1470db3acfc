-- ===== src/Examples/Tally.antt =====
-- A printer and a parser of whole numbers as tallies, `+111` for 3: a pair that keeps what is asked of
-- boost::lexical_cast.
use ceph_mesos.Prelude.{
  Lacks, Option, Text, [], arith, if◌then◌else◌, negsuc, none, pos, refl, some, suc, zero, ℕ, ℤ,
  ◌==◌, ◌∷◌, ◌≡◌, ◌≢◌,
}

abbrev strokes : ℕ → Text
strokes zero = []
strokes (suc n) = b'1' ∷ strokes n

-- A sign, and as many strokes as the number is far from 0, or from -1.
abbrev pub print_tally : ℤ → Text
print_tally (pos n) = b'+' ∷ strokes n
print_tally (negsuc n) = b'-' ∷ strokes n

-- Only strokes count.
abbrev count_strokes : Text → Option ℕ
count_strokes [] = some 0
count_strokes (c ∷ s) = elim (count_strokes s) [
  | none ↦ none
  | some n ↦ if c == b'1' then some (suc n) else none
]

abbrev pub parse_tally : Text → Option ℤ
parse_tally [] = none
parse_tally (c ∷ s) = elim (count_strokes s) [
  | none ↦ none
  | some n ↦ if c == b'+' then some (pos n) else if c == b'-' then some (negsuc n) else none
]

count-strokes : (n : ℕ) → count_strokes (strokes n) ≡ some n
count-strokes zero = refl
count-strokes (suc n) = rw (count-strokes n) refl

pub parse-print_tally : (n : ℤ) → parse_tally (print_tally n) ≡ some n
parse-print_tally (pos n) = rw (count-strokes n, parse_tally) refl
parse-print_tally (negsuc n) = rw (count-strokes n, parse_tally) refl

strokes-Lacks : (n : ℕ) → Lacks b'.' (strokes n)
strokes-Lacks zero = tt
strokes-Lacks (suc n) = (omega arith, strokes-Lacks n)

pub print_tally-Lacks : (n : ℤ) → Lacks b'.' (print_tally n)
print_tally-Lacks (pos n) = (omega arith, strokes-Lacks n)
print_tally-Lacks (negsuc n) = (omega arith, strokes-Lacks n)

pub print_tally-ne-nil : (n : ℤ) → print_tally n ≢ []
print_tally-ne-nil (pos n) e = ground arith
print_tally-ne-nil (negsuc n) e = ground arith
