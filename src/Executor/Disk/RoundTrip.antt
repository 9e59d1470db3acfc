-- ===== src/Executor/Disk/RoundTrip.antt =====
-- The list of failed disks that `prepareReturnValue` writes, and which bytes it holds.
use ceph_mesos.Prelude.{
  All, All-append, Lacks, List, Text, [], append_assoc, arith, codes, refl, ℕ, ◌++◌, ◌∷◌, ◌≡◌, ◌≢◌,
}
use ceph_mesos.Executor.Disk.Report.{dash_if_empty, list_jnls, list_osds, listed_devs}

-- Texts one behind the other, with nothing between.
abbrev pub run_together : List Text → Text
run_together [] = []
run_together (d ∷ ds) = d ++ run_together ds

-- Two or more failed journal devices run together: only the last one has a comma behind it.
pub list_jnls_lem :
    (devs : List Text) (last : Text)
    → list_jnls (devs ++ last ∷ []) ≡ run_together devs ++ last ++ codes ","
unfolding list_jnls
list_jnls_lem [] last = refl
list_jnls_lem (d ∷ []) last = simp append_assoc
list_jnls_lem (d ∷ e ∷ devs) last = rw (list_jnls_lem (e ∷ devs) last) (simp append_assoc)

module _ (c : ℕ) (no_comma : b',' ≢ c) (no_dash : b'-' ≢ c) where
  list_osds-Lacks : (devs : List Text) → All (Lacks c) devs → Lacks c (list_osds devs)
  unfolding list_osds
  list_osds-Lacks [] h = tt
  list_osds-Lacks (d ∷ devs) h =
      All-append _ (d ++ codes ",") (list_osds devs) (All-append _ d _ h.0 (no_comma, tt))
        (list_osds-Lacks devs h.1)

  list_jnls-Lacks : (devs : List Text) → All (Lacks c) devs → Lacks c (list_jnls devs)
  unfolding list_jnls
  list_jnls-Lacks [] h = tt
  list_jnls-Lacks (d ∷ []) h = All-append _ d _ h.0 (no_comma, tt)
  list_jnls-Lacks (d ∷ e ∷ devs) h = All-append _ d _ h.0 (list_jnls-Lacks (e ∷ devs) h.1)

  dashed-Lacks : (s : Text) → Lacks c s → Lacks c (dash_if_empty s)
  dashed-Lacks [] h = (no_dash, tt)
  dashed-Lacks (x ∷ s) h = h

  -- A byte that is no comma and no dash stands in the list only if it stands in a device's name.
  pub listed_devs-Lacks :
      (osds jnls : List Text)
      → All (Lacks c) osds
      → All (Lacks c) jnls
      → Lacks c (listed_devs osds jnls)
  unfolding listed_devs
  listed_devs-Lacks osds jnls h k =
      dashed-Lacks _
        (All-append _ (list_osds osds) _ (list_osds-Lacks osds h) (list_jnls-Lacks jnls k))

pub listed_devs-ne-nil : (osds jnls : List Text) → listed_devs osds jnls ≢ []
unfolding listed_devs
listed_devs-ne-nil osds jnls = dashed (list_osds osds ++ list_jnls jnls)
  where
    dashed : (s : Text) → dash_if_empty s ≢ []
    dashed [] e = ground arith
    dashed (x ∷ s) e = ground arith
