-- ===== src/Prelude/Tables.antt =====
-- `unordered_map<string, V>` as the list of its entries in the order in which an iteration meets
-- them. The order is the map's own affair: a new key goes to the end here, and what the program
-- promises is stated for any list of entries.
use mathlib.Core.Path.{◌≡◌, refl}
use mathlib.Core.List.{List, [], ◌∷◌}
use mathlib.Core.Option.{Option, none, some}
use native.Mathlib.Omega.{arith}
use ceph_mesos.Prelude.Tests.{if◌then◌else◌}
use ceph_mesos.Prelude.Texts.{Text, text_eq, text_eq_iff, text_eq_refl}

abbrev pub Table {ℓ} : Type ℓ → Type ℓ
Table V = List (Text × V)

module _ {ℓ} {V : Type ℓ} where
  -- `m.find(k)`
  unfoldable pub find : Text → Table V → Option V
  find k [] = none
  find k ((j, v) ∷ m) = if text_eq j k then some v else find k m

  -- `m[k] = v`
  unfoldable pub insert : Text → V → Table V → Table V
  insert k v [] = (k, v) ∷ []
  insert k v ((j, w) ∷ m) = if text_eq j k then (j, v) ∷ m else (j, w) ∷ insert k v m

  pub find-insert :
      (k j : Text) (v : V) (m : Table V)
      → find j (insert k v m) ≡ (if text_eq k j then some v else find j m)
  unfolding find insert
  find-insert k j v [] = refl
  find-insert k j v ((i, w) ∷ m) =
      ground (arith, text_eq_iff k j, text_eq_iff i k, text_eq_iff i j, find-insert k j v m)

  pub find-insert_self : (k : Text) (v : V) (m : Table V) → find k (insert k v m) ≡ some v
  find-insert_self k v m = simp (find-insert, text_eq_refl)
