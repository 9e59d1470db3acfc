-- ===== src/State/StateMachine/Orders.antt =====
-- The order in which an iteration over the task map meets the tasks, which C++ leaves open.
use mathlib.Core.List.{Permᴰ}
use mathlib.Core.List.Permᴰ
use ceph_mesos.Prelude.{
  Bool, Bool-cases, List, Table, Text, [], arith, if◌then◌else◌, inl, inr, refl, subst, sym, ◌∷◌,
  ◌≡◌,
}
use ceph_mesos.State.StateMachine.{
  StateMachine, get_initial_mon, get_waiting_osd_task, initial_mon_from, is_initial_mon,
  is_waiting_osd, waiting_osd_tasks,
}
use ceph_mesos.State.TaskState.{TaskState}

-- The tasks that pass a test, in the map's order.
abbrev pub picked : (TaskState → Bool) → Table TaskState → List TaskState
picked p [] = []
picked p ((k, t) ∷ rest) = if p t then t ∷ picked p rest else picked p rest

module _ (p : TaskState → Bool) where
  picked-cons :
      (e : Text × TaskState) (ms ns : Table TaskState)
      → Permᴰ (picked p ms) (picked p ns)
      → Permᴰ (picked p (e ∷ ms)) (picked p (e ∷ ns))
  picked-cons e ms ns d = elim (Bool-cases (p e.1)) [
    | inl passes ↦ rw passes (Permᴰ.cons refl d)
    | inr misses ↦ rw misses d
  ]

  picked-swap :
      (e f : Text × TaskState) (ms : Table TaskState)
      → Permᴰ (picked p (e ∷ f ∷ ms)) (picked p (f ∷ e ∷ ms))
  picked-swap e f ms = elim (Bool-cases (p e.1)) [
    | inl yes_e ↦ rw yes_e (elim (Bool-cases (p f.1)) [
      | inl yes_f ↦ rw yes_f (Permᴰ.swap refl refl)
      | inr no_f ↦ rw no_f (Permᴰ.refl _)
    ])
    | inr no_e ↦ rw no_e (Permᴰ.refl _)
  ]

  picked-Perm : {ms ns : Table TaskState} → Permᴰ ms ns → Permᴰ (picked p ms) (picked p ns)
  picked-Perm Permᴰ.nil = Permᴰ.nil
  picked-Perm (Permᴰ.cons {a = a} {l₁ = l₁} {l₂ = l₂} e d) =
      subst (λ b. Permᴰ (picked p (a ∷ l₁)) (picked p (b ∷ l₂))) e
        (picked-cons a l₁ l₂ (picked-Perm d))
  picked-Perm (Permᴰ.swap {a = a} {b = b} {a' = a'} {b' = b'} {l = l} e f) =
      rw (sym f, sym e) (picked-swap a b l)
  picked-Perm (Permᴰ.trans d₁ d₂) = Permᴰ.trans (picked-Perm d₁) (picked-Perm d₂)

-- A permutation of one task is that task.
single-Perm :
    {A : Type 0} {xs ys : List A}
    → Permᴰ xs ys
    → (xs ≡ [] → ys ≡ []) × ((t : A) → xs ≡ t ∷ [] → ys ≡ t ∷ [])
single-Perm Permᴰ.nil = (λ h. h, λ t h. h)
single-Perm (Permᴰ.cons e d) =
    let same = (single-Perm d).0 in (λ h. ground arith, λ t h. ground (arith, e, same))
single-Perm (Permᴰ.swap e f) = (λ h. ground arith, λ t h. ground arith)
single-Perm (Permᴰ.trans d₁ d₂) =
    let first = single-Perm d₁ in
    let next = single-Perm d₂ in (λ h. next.0 (first.0 h), λ t h. next.1 t (first.1 t h))

initial_mon_from-picked :
    (last t : TaskState) (ms : Table TaskState)
    → picked is_initial_mon ms ≡ t ∷ []
    → initial_mon_from last ms ≡ t
unfolding initial_mon_from
initial_mon_from-picked last t [] h = ground arith
initial_mon_from-picked last t ((k, u) ∷ ms) h = elim (Bool-cases (is_initial_mon u)) [
  | inl first ↦ ground arith
  | inr other ↦ ground (arith, initial_mon_from-picked u t ms)
]

waiting-picked : (ms : Table TaskState) → waiting_osd_tasks ms ≡ picked is_waiting_osd ms
unfolding waiting_osd_tasks
waiting-picked [] = refl
waiting-picked ((k, t) ∷ ms) = rw (waiting-picked ms) refl

-- Two machines that differ only in the order of the task map, with one task whose id begins with mon0:
-- both find that task as the initial MON, and the same tasks as waiting for an OSD id, up to their order.
pub task_map_order :
    (m n : StateMachine) (t : TaskState)
    → Permᴰ m.task_map n.task_map
    → picked is_initial_mon m.task_map ≡ t ∷ []
    → (get_initial_mon m ≡ t)
      × (get_initial_mon n ≡ t)
      × Permᴰ (get_waiting_osd_task m) (get_waiting_osd_task n)
unfolding get_initial_mon get_waiting_osd_task
task_map_order m n t d h = (
  initial_mon_from-picked _ t m.task_map h,
  initial_mon_from-picked _ t n.task_map ((single-Perm (picked-Perm is_initial_mon d)).1 t h),
  rw (waiting-picked m.task_map, waiting-picked n.task_map) (picked-Perm is_waiting_osd d),
)
