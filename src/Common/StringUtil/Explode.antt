-- ===== src/Common/StringUtil/Explode.antt =====
-- The loop of `explode` against a description by recursion, and against joining.
use ceph_mesos.Prelude.{
  ==_iff, All, Bool-cases, Lacks, List, Text, [], ap, arith, if◌then◌else◌, inl, inr, length, refl,
  suc, zero, ℕ, ◌++◌, ◌==◌, ◌∙◌, ◌∷◌, ◌≡◌, ◌≢◌, ◌≤◌,
}
use ceph_mesos.Common.StringUtil.{cut, explode, explode_loop, get_line}

-- One more byte at the front of the first token.
abbrev grow : ℕ → List Text → List Text
grow c [] = (c ∷ []) ∷ []
grow c (t ∷ ts) = (c ∷ t) ∷ ts

-- The tokens of a text: a delimiter ends a token, and the end of the text ends one that has begun.
unfoldable pub fields : ℕ → Text → List Text
fields delim [] = []
fields delim (c ∷ s) = if c == delim then [] ∷ fields delim s else grow c (fields delim s)

length-cut : (delim : ℕ) (s : Text) → length (cut delim s).1 ≤ length s
unfolding cut
length-cut delim [] = omega arith
length-cut delim (c ∷ s) = ground (arith, length-cut delim s)

fields-cut :
    (delim c : ℕ) (s : Text)
    → fields delim (c ∷ s) ≡ (cut delim (c ∷ s)).0 ∷ fields delim (cut delim (c ∷ s)).1
unfolding cut fields
fields-cut delim c [] = ground arith
fields-cut delim c (b ∷ s) = ground (arith, fields-cut delim b s)

shorter-cut : (delim c : ℕ) (s : Text) → length (cut delim (c ∷ s)).1 ≤ length s
unfolding cut
shorter-cut delim c s = ground (arith, length-cut delim s)

explode_loop-eq-fields :
    (fuel delim : ℕ) (s : Text) → length s ≤ fuel → explode_loop fuel delim s ≡ fields delim s
unfolding explode_loop get_line
explode_loop-eq-fields zero delim [] h = unfold fields in refl
explode_loop-eq-fields zero delim (c ∷ s) h = absurd (omega arith)
explode_loop-eq-fields (suc fuel) delim [] h = unfold fields in refl
explode_loop-eq-fields (suc fuel) delim (c ∷ s) h = rw fields-cut (
    ap (◌∷◌ (cut delim (c ∷ s)).0) (
      explode_loop-eq-fields fuel delim (cut delim (c ∷ s)).1
        (omega (arith, shorter-cut delim c s))))

-- The loop of `explode` has fuel enough for every text and delimiter, and yields its fields.
pub explode-eq-fields : (s : Text) (delim : ℕ) → explode s delim ≡ fields delim s
unfolding explode
explode-eq-fields s delim = explode_loop-eq-fields (length s) delim s (omega arith)

fields-ne-nil : (delim c : ℕ) (s : Text) → fields delim (c ∷ s) ≢ []
fields-ne-nil delim c s h = cc (fields-cut delim c s)

fields_single : (delim c : ℕ) (s : Text) → Lacks delim (c ∷ s) → fields delim (c ∷ s) ≡ (c ∷ s) ∷ []
unfolding fields
fields_single delim c [] h = ground (arith, h.0)
fields_single delim c (b ∷ s) h = ground (arith, h.0, fields_single delim b s h.1)

fields_first :
    (delim : ℕ) (t rest : Text)
    → Lacks delim t
    → fields delim (t ++ delim ∷ rest) ≡ t ∷ fields delim rest
unfolding fields
fields_first delim [] rest h = ground arith
fields_first delim (c ∷ t) rest h = ground (arith, h.0, fields_first delim t rest h.1)

-- A text without the delimiter is its own only token.
pub explode_single : (s : Text) (delim : ℕ) → Lacks delim s → s ≢ [] → explode s delim ≡ s ∷ []
explode_single [] delim h ne = absurd (ne refl)
explode_single (c ∷ s) delim h ne = explode-eq-fields (c ∷ s) delim ∙ fields_single delim c s h

-- What stands before the first delimiter is the first token, and the rest is split alike.
pub explode_first :
    (t rest : Text) (delim : ℕ)
    → Lacks delim t
    → explode (t ++ delim ∷ rest) delim ≡ t ∷ explode rest delim
explode_first t rest delim h =
    rw (explode-eq-fields (t ++ delim ∷ rest) delim, explode-eq-fields rest delim)
      (fields_first delim t rest h)

-- The tokens with a delimiter between each two.
unfoldable pub join : ℕ → List Text → Text
join delim [] = []
join delim (t ∷ []) = t
join delim (t ∷ u ∷ ts) = t ++ delim ∷ join delim (u ∷ ts)

abbrev pub EndsNonempty : List Text → Type 0
EndsNonempty [] = Unit
EndsNonempty (t ∷ []) = t ≢ []
EndsNonempty (t ∷ u ∷ ts) = EndsNonempty (u ∷ ts)

-- Tokens without the delimiter, the last of them not empty, are read back from their join.
pub explode-join :
    (ts : List Text) (delim : ℕ)
    → All (Lacks delim) ts
    → EndsNonempty ts
    → explode (join delim ts) delim ≡ ts
unfolding join
explode-join [] delim h e = unfold explode explode_loop in refl
explode-join (t ∷ []) delim h e = explode_single t delim h.0 e
explode-join (t ∷ u ∷ ts) delim h e =
    explode_first t (join delim (u ∷ ts)) delim h.0 ∙ ap (◌∷◌ t) (explode-join (u ∷ ts) delim h.1 e)

fields-Lacks : (delim : ℕ) (s : Text) → All (Lacks delim) (fields delim s)
unfolding fields
fields-Lacks delim [] = tt
fields-Lacks delim (c ∷ s) = elim (Bool-cases (c == delim)) [
  | inl hit ↦ rw hit (tt, fields-Lacks delim s)
  | inr miss ↦
      rw miss (grown c (fields delim s) (λ e. cc ((==_iff c delim).1 e)) (fields-Lacks delim s))
]
  where
    grown :
        (c : ℕ) (ts : List Text) → c ≢ delim → All (Lacks delim) ts → All (Lacks delim) (grow c ts)
    grown c [] ne h = ((ne, tt), tt)
    grown c (t ∷ ts) ne h = ((ne, h.0), h.1)

-- No token holds the delimiter.
pub explode-Lacks : (s : Text) (delim : ℕ) → All (Lacks delim) (explode s delim)
explode-Lacks s delim = rw explode-eq-fields (fields-Lacks delim s)
