-- ===== src/Vector.antt =====
-- kernel/include/common/vector.h: a growable array on the kernel heap. An element is a list of
-- 64-bit words. `func` and `line` are what `krealloc` passes on.
pub mod Laws
pub mod Append
use horizon.Common.{ℕ, [], ◌+◌, ◌-◌, ◌*◌, List, ◌∷◌, ltb, if◌then◌else◌, u64, sub64}
use horizon.Kmalloc.{ok, halted, no_fuel, Machine, Run, krealloc_impl}
use horizon.Memory.{memcpy, Mem}
use horizon.Memory.Words.{store64}

-- The `vector_struct`.
pub record Vector : Type 0 where
  pub length : ℕ
  pub capacity : ℕ
  pub elements : ℕ

abbrev pub resize : ℕ
resize = 4

unfoldable pub bind_run : {A B : Type 0} → Run A → (A → Machine → Run B) → Run B
bind_run (ok a m) k = k a m
bind_run halted k = halted
bind_run no_fuel k = no_fuel

unfoldable pub store_words : Mem → ℕ → List ℕ → Mem
store_words m a [] = m
store_words m a (w ∷ ws) = store_words (store64 m a w) (a + 8) ws

-- An element of `size` bytes is appended: the array grows when the bytes no longer fit.
unfoldable pub vector_append : Machine → Vector → ℕ → List ℕ → ℕ → ℕ → Run Vector
unfolding bind_run
vector_append m v size elem func line =
    let length = u64 (v.length + 1) in
    let put : ℕ → ℕ → Machine → Run Vector = λ capacity elements m'.
      ok (record { length = length; capacity = capacity; elements = elements })
        (record m' { byte = store_words m'.byte (elements + (length - 1) * size) elem }) in
    let grown = u64 (length * size * resize) in
    if ltb v.capacity (u64 (length * size))
    then bind_run (krealloc_impl m v.elements grown func line)
        (λ elements m'. put grown elements m')
    else put v.capacity v.elements m

-- The macro's product binds only `length`, so that `sizeof * length - index - 1` bytes are moved.
unfoldable pub vector_erase : Mem → Vector → ℕ → ℕ → Mem × Vector
vector_erase m v size index = (
  memcpy m (v.elements + index * size) (v.elements + (index + 1) * size)
      (sub64 (u64 (size * v.length)) (index + 1)),
  record v { length = sub64 v.length 1 },
)
