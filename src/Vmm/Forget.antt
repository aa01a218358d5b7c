-- ===== src/Vmm/Forget.antt =====
-- A table's address taken from the list: only the list's own bytes change.
use horizon.Common.{
  ℕ, zero, suc, inl, inr, false, refl, arith, ◌+◌, ◌*◌, ◌^◌, ◌<◌, ◌≤◌, ◌≡◌, ◌⊎◌, ◌==◌, Bool-cases,
  ◌∙◌, sub64, u64, Bool, ltb,
}
use horizon.Memory.{Mem}
use horizon.Memory.Laws.{memcpy-copied}
use horizon.Memory.Words.{load64}
use horizon.Vector.Laws.{empty, block, IsVector}
use horizon.Kmalloc.{Machine}
use horizon.Vector.{Vector, vector_erase}
use horizon.Vmm.Unmap.{forget_loop}
use horizon.Kmalloc.Frame.{InPage, IsSafe}

-- The bytes of the elements that `vector_erase` may write lie in the storage.
abbrev pub HasRoom : Vector → Type 0
HasRoom v = (15 * v.length ≤ v.capacity) × (v.elements + v.capacity < 2 ^ 64)

-- An address that is not in the storage.
abbrev pub Off : Vector → ℕ → Type 0
Off v x = (x < v.elements) ⊎ (v.elements + v.capacity ≤ x)

-- The same storage with no more elements, and the same bytes elsewhere.
pub record Forgot (m : Mem) (v : Vector) (m' : Mem) (v' : Vector) : Type 0 where
  pub storage : (v'.elements ≡ v.elements) × (v'.capacity ≡ v.capacity)
  pub shorter : v'.length ≤ v.length
  pub others : (x : ℕ) → Off v x → m' x ≡ m x

vector_erase-Forgot :
    (m : Mem) (v : Vector) (k : ℕ)
    → HasRoom v
    → k < v.length
    → let erased = vector_erase m v 8 k in Forgot m v (erased.0) (erased.1)
unfolding vector_erase
vector_erase-Forgot m v k room inside = record {
  storage = (refl, refl);
  shorter = omega arith;
  others = λ x off.
      memcpy-copied m (v.elements + k * 8) (v.elements + (k + 1) * 8)
        (sub64 (u64 (8 * v.length)) (k + 1)) x (inl (omega arith))
      ∙ ground (arith, off, room);
}

pub forget_loop-Forgot :
    (n i : ℕ) (m : Mem) (v : Vector) (phys : ℕ)
    → HasRoom v
    → i + n ≤ v.length
    → let forgotten = forget_loop n i m v phys in Forgot m v (forgotten.0) (forgotten.1)
unfolding forget_loop
forget_loop-Forgot zero i m v phys room inside = record {
  storage = (refl, refl);
  shorter = omega arith;
  others = λ x off. refl;
}
forget_loop-Forgot (suc n) i m v phys room inside =
    elim (Bool-cases (load64 m (v.elements + i * 8) == phys)) [
      | inl found ↦ rw found (vector_erase-Forgot m v i room (omega arith))
      | inr other ↦ rw other (forget_loop-Forgot n (i + 1) m v phys room (omega arith))
    ]

-- The storage of an address space's list is off every page that the list does not own.
pub owned-Off :
    (pages : ℕ) (m : Machine) (v : Vector) (owned : ℕ → Bool) (n : ℕ) (f : ℕ → ℕ) (p x : ℕ)
    → IsSafe pages m
    → IsVector pages m v owned n f
    → p < 2 ^ 34
    → owned p ≡ false
    → InPage p x
    → Off v x
owned-Off pages m v owned n f p x s vec low other inside = elim vec.storage [
  | empty e c o ↦ inr (omega (arith, e, c))
  | block b e l o ↦ elim (Bool-cases (ltb x v.elements)) [
    | inl below ↦ inl (ground (arith, below))
    | inr above ↦ inr (ground (arith, above, e, l.low, o p, other, inside, low))
  ]
]
