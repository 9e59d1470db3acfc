-- ===== src/Common/StringUtil.antt =====
-- src/common/StringUtil.hpp: `explode`, the split that every message between scheduler and
-- executors goes through. `std::getline` is the standard library's.
pub mod Explode
pub mod Cidr
pub mod Words
use ceph_mesos.Prelude.{
  List, Option, Text, [], if◌then◌else◌, length, map, none, some, suc, zero, ℕ, ◌==◌, ◌∷◌,
}

-- The token up to the delimiter or the end, and what is left behind the delimiter.
unfoldable pub cut : ℕ → Text → Text × Text
cut delim [] = ([], [])
cut delim (c ∷ s) =
    let (token, rest) = cut delim s in if c == delim then ([], s) else (c ∷ token, rest)

-- `std::getline(iss, token, delim)`: fails when nothing is left to read.
unfoldable pub get_line : ℕ → Text → Option (Text × Text)
unfolding cut
get_line delim [] = none
get_line delim (c ∷ s) = some (cut delim (c ∷ s))

-- The loop of `explode`, with fuel; each round reads at least one byte.
unfoldable pub explode_loop : ℕ → ℕ → Text → List Text
unfolding get_line
explode_loop zero delim s = []
explode_loop (suc fuel) delim s = elim (get_line delim s) [
  | none ↦ []
  | some (token, rest) ↦ token ∷ explode_loop fuel delim rest
]

unfoldable pub explode : Text → ℕ → List Text
unfolding explode_loop
explode s delim = explode_loop (length s) delim s

-- The text up to the first zero byte.
unfoldable pub c_str : Text → Text
c_str [] = []
c_str (c ∷ s) = if c == 0 then [] else c ∷ c_str s

-- `explode(s, delim, flag)`: each token is copied by `strcpy`, so up to its first zero byte.
unfoldable pub explode_args : Text → ℕ → List Text
unfolding explode c_str
explode_args s delim = map c_str (explode s delim)
