-- ===== src/Memory/Laws.antt =====
-- What the memory functions leave at each address.
use horizon.Common.{
  ℕ, zero, suc, ◌+◌, ◌-◌, ◌≤◌, ◌≡◌, ◌⊎◌, Bool, ◌&&◌, arith, ltb, leb, if◌then◌else◌, u8, ◌<◌, refl,
  ◌↔◌,
}
use horizon.Memory.{
  memmove, Mem, store8, memcpy_loop, memcpy, memset_loop, memset, memmove_back, memcmp_loop, memcmp,
}

-- The address lies in the `n` bytes from `p` on.
abbrev pub within : ℕ → ℕ → ℕ → Bool
within p n q = leb p q && ltb q (p + n)

-- The memory `m` in which the bytes at `dst` are those that stood at `src`.
abbrev pub copied : Mem → ℕ → ℕ → ℕ → Mem
copied m dst src n q = if within dst n q then m (src + (q - dst)) else m q

-- A forward copy does not read what it has written, if it goes down or the ranges are apart.
abbrev pub Apart : ℕ → ℕ → ℕ → Type 0
Apart dst src n = (dst ≤ src) ⊎ (src + n ≤ dst)

memcpy_loop-copied :
    (left i dst src : ℕ) (m : Mem) (q : ℕ)
    → Apart dst src (i + left)
    → memcpy_loop left i dst src m q
      ≡ (if within (dst + i) left q then m (src + (q - dst)) else m q)
unfolding memcpy_loop
memcpy_loop-copied zero i dst src m q apart = ground arith
memcpy_loop-copied (suc left) i dst src m q apart =
    ground (arith, memcpy_loop-copied left (i + 1) dst src (store8 m (dst + i) (m (src + i))) q)

memmove_back-copied :
    (n dst src : ℕ) (m : Mem) (q : ℕ)
    → src ≤ dst
    → memmove_back n dst src m q ≡ copied m dst src n q
unfolding memmove_back
memmove_back-copied zero dst src m q h = ground arith
memmove_back-copied (suc i) dst src m q h =
    ground (arith, memmove_back-copied i dst src (store8 m (dst + i) (m (src + i))) q h)

memset_loop-lem :
    (left i ptr value : ℕ) (m : Mem) (q : ℕ)
    → memset_loop left i ptr value m q ≡ (if within (ptr + i) left q then u8 value else m q)
unfolding memset_loop
memset_loop-lem zero i ptr value m q = ground arith
memset_loop-lem (suc left) i ptr value m q =
    ground (arith, memset_loop-lem left (i + 1) ptr value (store8 m (ptr + i) (u8 value)) q)

-- `memcpy` copies the range when it goes to a lower address or the ranges do not meet, and leaves
-- every other byte alone.
pub memcpy-copied :
    (m : Mem) (dst src n q : ℕ) → Apart dst src n → memcpy m dst src n q ≡ copied m dst src n q
unfolding memcpy
memcpy-copied m dst src n q apart = ground (arith, memcpy_loop-copied n 0 dst src m q)

-- `memmove` copies the range whatever the overlap, and leaves every other byte alone.
pub memmove-copied : (m : Mem) (dst src n q : ℕ) → memmove m dst src n q ≡ copied m dst src n q
unfolding memmove
memmove-copied m dst src n q =
    ground (arith, memcpy_loop-copied n 0 dst src m q, memmove_back-copied n dst src m q)

-- `memset` sets the range to the low byte of the value, and leaves every other byte alone.
pub memset_lem :
    (m : Mem) (ptr value n q : ℕ)
    → memset m ptr value n q ≡ (if within ptr n q then u8 value else m q)
unfolding memset
memset_lem m ptr value n q = ground (arith, memset_loop-lem n 0 ptr value m q)

memcmp_loop-zero :
    (left i a b : ℕ) (m : Mem)
    → memcmp_loop left i a b m ≡ 0
    → (j : ℕ) → i ≤ j
    → j < i + left
    → m (a + j) ≡ m (b + j)
unfolding memcmp_loop
memcmp_loop-zero zero i a b m h j lo hi = absurd (omega arith)
memcmp_loop-zero (suc left) i a b m h j lo hi =
    ground
      (arith, λ (e : memcmp_loop left (i + 1) a b m ≡ 0). memcmp_loop-zero left (i + 1) a b m e j)

memcmp_loop-same :
    (left i a b : ℕ) (m : Mem)
    → ((j : ℕ) → i ≤ j → j < i + left → m (a + j) ≡ m (b + j))
    → memcmp_loop left i a b m ≡ 0
unfolding memcmp_loop
memcmp_loop-same zero i a b m same = refl
memcmp_loop-same (suc left) i a b m same = ground (
  arith,
  same i (omega arith) (omega arith),
  memcmp_loop-same left (i + 1) a b m (λ j lo hi. same j (omega arith) (omega arith)),
)

memcmp_loop-le : (left i a b : ℕ) (m : Mem) → memcmp_loop left i a b m ≤ 1
unfolding memcmp_loop
memcmp_loop-le zero i a b m = omega arith
memcmp_loop-le (suc left) i a b m = ground (arith, memcmp_loop-le left (i + 1) a b m)

-- `memcmp` returns 0 exactly when the ranges hold the same bytes, and otherwise 1.
pub memcmp_iff :
    (m : Mem) (a b n : ℕ)
    → ((memcmp m a b n ≡ 0) ↔ ((j : ℕ) → j < n → m (a + j) ≡ m (b + j))) × (memcmp m a b n ≤ 1)
unfolding memcmp
memcmp_iff m a b n = (
  (
    λ e j lt. memcmp_loop-zero n 0 a b m e j (omega arith) (omega arith),
    λ same. memcmp_loop-same n 0 a b m (λ j lo hi. same j (omega arith)),
  ),
  memcmp_loop-le n 0 a b m,
)
