-- ===== src/Vector/Laws.antt =====
-- A vector of words as the sequence of its elements: `n` of them, given by a function.
use horizon.Common.{
  ℕ, inl, inr, false, true, ◌+◌, ◌*◌, ◌%◌, ◌^◌, ◌≤◌, ◌<◌, ◌≡◌, ◌∙◌, Bool, ◌||◌, arith, ◌==◌,
  if◌then◌else◌, Bool-cases,
}
use horizon.Kmalloc.{ok, halted, no_fuel, Machine, Run}
use horizon.Kmalloc.Frame.{IsLive, Kept, page_address, IsSafe}
use horizon.Vector.{Vector}
use horizon.Memory.Words.{store64_other, load64-store64_apart, store64, load64-store64, load64}
use horizon.Pmm.Pages.{page_free}
use horizon.Kmalloc.Realloc.{Describes_ext}
use horizon.Pmm.Scan.{in_range}
use horizon.Pmm.{num_pages}

-- The storage of a vector: none yet, or a live block of the heap on the pages `owned`.
pub data Storage (pages : ℕ) (m : Machine) (v : Vector) (owned : ℕ → Bool) : Type 0 where
  empty : v.elements ≡ 0 → v.capacity ≡ 0 → ((q : ℕ) → owned q ≡ false) → Storage pages m v owned
  block :
      (b : ℕ)
      → v.elements ≡ page_address b + 4096
      → IsLive pages m b v.capacity
      → ((q : ℕ) → owned q ≡ in_range b (num_pages v.capacity + 1) q)
      → Storage pages m v owned

pub record IsVector (pages : ℕ) (m : Machine) (v : Vector) (owned : ℕ → Bool) (n : ℕ) (f : ℕ → ℕ)
    : Type 0 where
  pub storage : Storage pages m v owned
  pub count : v.length ≡ n
  pub fits : 8 * n ≤ v.capacity
  pub words : (i : ℕ) → i < n → load64 m.byte (v.elements + 8 * i) ≡ f i % 2 ^ 64

-- The sequence with `x` behind its `n` elements.
abbrev pub snoc : ℕ → (ℕ → ℕ) → ℕ → ℕ → ℕ
snoc n f x i = if i == n then x else f i

-- What appending comes to: the longer sequence, on free pages or on those of the vector; every
-- other page in use is kept.
pub record Appended (pages : ℕ) (m : Machine) (owned : ℕ → Bool) (n : ℕ) (f : ℕ → ℕ) (x : ℕ)
    (v' : Vector) (m' : Machine) : Type 0 where
  pub owned' : ℕ → Bool
  pub vector : IsVector pages m' v' owned' (n + 1) (snoc n f x)
  pub safe : IsSafe pages m'
  pub kept : Kept owned m m'
  pub own : (q : ℕ) → owned' q ≡ true → (page_free m.kmem.bitmap q || owned q) ≡ true

abbrev pub AppendedRun : ℕ → Machine → (ℕ → Bool) → ℕ → (ℕ → ℕ) → ℕ → Run Vector → Type 0
AppendedRun pages m owned n f x (ok v' m') = Appended pages m owned n f x v' m'
AppendedRun pages m owned n f x halted = Unit
AppendedRun pages m owned n f x no_fuel = ⊥

-- The store of the last element into a block with room for it.
module _ (pages : ℕ) (m : Machine) (b capacity n : ℕ) (f : ℕ → ℕ) (x : ℕ) (s : IsSafe pages m)
    (l : IsLive pages m b capacity) (room : 8 * (n + 1) ≤ capacity)
    (words : (i : ℕ) → i < n → load64 m.byte (page_address b + 4096 + 8 * i) ≡ f i % 2 ^ 64) where
  abbrev pub last : ℕ
  last = page_address b + 4096 + 8 * n

  abbrev pub stored : Machine
  stored = record m { byte = store64 m.byte last x }

  pub few_bytes : capacity ≤ 2 ^ 46
  few_bytes = omega (arith, l.below, l.low, s.few)

  pub stored-IsLive : IsLive pages stored b capacity
  stored-IsLive = record {
    described =
        Describes_ext (λ q inside. store64_other m.byte last x q (ground arith)) l.described;
    used = l.used;
    below = l.below;
    low = l.low;
  }

  pub stored-words :
      (i : ℕ)
      → i < n + 1
      → load64 stored.byte (page_address b + 4096 + 8 * i) ≡ snoc n f x i % 2 ^ 64
  stored-words i lt = elim (Bool-cases (i == n)) [
    | inl same ↦ let e : i ≡ n = ground (arith, same) in rw (same, e) (load64-store64 m.byte last x)
    | inr other ↦ rw other (
        load64-store64_apart m.byte last x (page_address b + 4096 + 8 * i) (ground (arith, other))
        ∙ words i (ground (arith, other)))
  ]

  pub stored-Kept : Kept (in_range b (num_pages capacity + 1)) m stored
  stored-Kept q low used out =
      (used, λ y inside. store64_other m.byte last x y (ground (arith, l.low, few_bytes)))
