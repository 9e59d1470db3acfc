-- ===== src/Common/StringUtil/Cidr.antt =====
-- `matchIPToCIDR` of src/common/StringUtil.hpp.
use ceph_mesos.Prelude.{
  All, Bool-cases, Lacks, List, Text, [], arith, if◌then◌else◌, inl, inr, length, negsuc, none, pos,
  pos_part, refl, some, suc, take, text_eq, text_eq_iff, zero, ℕ, ℤ, ◌*◌, ◌++◌, ◌/◌, ◌<◌, ◌∷◌, ◌≡◌,
  ◌≢◌, ◌≤◌, ◌⊎◌,
}
use ceph_mesos.Common.StringUtil.{explode}
use ceph_mesos.Common.StringUtil.Explode.{
  EndsNonempty, explode-join, explode_first, explode_single, join,
}
use ceph_mesos.Common.World.{World}

-- `true`, `false`, the exception of `lexical_cast`, or a read beyond the end of a vector.
pub data Match : Type 0 where
  matches differs cast_error out_of_range : Match

-- The loop, with the rounds left.
unfoldable pub match_octets : ℕ → List Text → List Text → Match
match_octets zero ip subnet = matches
match_octets (suc left) [] subnet = out_of_range
match_octets (suc left) (x ∷ ip) [] = out_of_range
match_octets (suc left) (x ∷ ip) (y ∷ subnet) =
    let rest = match_octets left ip subnet in if text_eq x y then rest else differs

-- `netmaskLength/8`; with a negative length the loop makes no round
unfoldable pub whole_octets : ℤ → ℕ
whole_octets n = pos_part n / 8

unfoldable pub match_ip_to_cidr : World → Text → Text → Match
unfolding match_octets whole_octets
match_ip_to_cidr w ip cidr = elim (explode cidr b'/') [
  | [] ↦ out_of_range
  | subnet ∷ rest ↦ elim rest [
    | [] ↦ out_of_range
    | bits ∷ _ ↦ elim (w.parse_int bits) [
      | none ↦ cast_error
      | some n ↦ match_octets (whole_octets n) (explode ip b'.') (explode subnet b'.')
    ]
  ]
]

-- The answer for the given octets.
abbrev pub Compared : ℕ → List Text → List Text → Match → Type 0
Compared n xs ys answer =
    ((answer ≡ matches) × (take n xs ≡ take n ys)) ⊎ ((answer ≡ differs) × (take n xs ≢ take n ys))

match_octets-Compared :
    (n : ℕ) (xs ys : List Text)
    → n ≤ length xs
    → n ≤ length ys
    → Compared n xs ys (match_octets n xs ys)
unfolding match_octets
match_octets-Compared zero xs ys h k = inl (refl, refl)
match_octets-Compared (suc n) [] ys h k = absurd (omega arith)
match_octets-Compared (suc n) (x ∷ xs) [] h k = absurd (omega arith)
match_octets-Compared (suc n) (x ∷ xs) (y ∷ ys) h k = elim (Bool-cases (text_eq x y)) [
  | inr apart ↦ rw apart (inr (refl, λ e. ground (arith, text_eq_iff x y)))
  | inl same ↦ rw same (elim (match_octets-Compared n xs ys (omega arith) (omega arith)) [
    | inl (found, e) ↦ inl (found, ground (arith, text_eq_iff x y))
    | inr (found, ne) ↦ inr (found, λ e. ne (ground arith))
  ])
]

-- The number of octets that so many bits fill completely; a negative number fills none.
abbrev pub Fills : ℤ → ℕ → Type 0
Fills (pos bits) octets = (8 * octets ≤ bits) × (bits < 8 * suc octets)
Fills (negsuc _) octets = octets ≡ 0

whole_octets-Fills : (n : ℤ) (octets : ℕ) → Fills n octets → whole_octets n ≡ octets
unfolding whole_octets
whole_octets-Fills (pos bits) octets h = omega arith
whole_octets-Fills (negsuc _) octets h = ground arith

-- An address, a subnet and a number of bits that can be compared: the octets that the bits fill are
-- there in both.
pub record IsCidr (w : World) (ip subnet : List Text) (bits : Text) (n : ℤ) (octets : ℕ)
    : Type 0 where
  pub ip_octets : All (Lacks b'.') ip
  pub ip_end : EndsNonempty ip
  pub ip_long : octets ≤ length ip
  pub subnet_octets : All (Lacks b'.') subnet
  pub subnet_end : EndsNonempty subnet
  pub subnet_long : octets ≤ length subnet
  pub subnet_plain : Lacks b'/' (join b'.' subnet)
  pub bits_plain : Lacks b'/' bits
  pub bits_nonempty : bits ≢ []
  pub bits_read : w.parse_int bits ≡ some n
  pub filled : Fills n octets

-- An address matches a block exactly if it agrees with it in as many octets as the block's bits fill
-- completely, eight bits each; the bits beyond the last such octet make no difference. No exception is thrown, and no
-- vector is read beyond its end.
pub match_ip_to_cidr_lem :
    (w : World) (ip subnet : List Text) (bits : Text) (n : ℤ) (octets : ℕ)
    → IsCidr w ip subnet bits n octets
    → Compared octets ip subnet
        (match_ip_to_cidr w (join b'.' ip) (join b'.' subnet ++ b'/' ∷ bits))
unfolding match_ip_to_cidr
match_ip_to_cidr_lem w ip subnet bits n octets c =
    rw
      (
        explode_first (join b'.' subnet) bits b'/' c.subnet_plain,
        explode_single bits b'/' c.bits_plain c.bits_nonempty,
        match_ip_to_cidr,
        c.bits_read,
        whole_octets-Fills n octets c.filled,
        explode-join ip b'.' c.ip_octets c.ip_end,
        explode-join subnet b'.' c.subnet_octets c.subnet_end,
      )
      (match_octets-Compared octets ip subnet c.ip_long c.subnet_long)
