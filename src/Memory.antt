-- ===== src/Memory.antt =====
-- kernel/src/common/memory.c over a memory of bytes: a function from addresses. Pointers are
-- numbers, so ranges may overlap as they do in C; a range does not run past the address space.
pub mod Laws
pub mod Words
pub mod Tests
use horizon.Common.{ℕ, zero, suc, ◌+◌, not, ltb, ◌==◌, if◌then◌else◌, u8}

abbrev pub Mem : Type 0
Mem = ℕ → ℕ

abbrev pub store8 : Mem → ℕ → ℕ → Mem
store8 m p v q = if q == p then v else m q

-- The loops are given the rounds left and the index.
unfoldable pub memcpy_loop : ℕ → ℕ → ℕ → ℕ → Mem → Mem
memcpy_loop zero i dst src m = m
memcpy_loop (suc left) i dst src m =
    memcpy_loop left (i + 1) dst src (store8 m (dst + i) (m (src + i)))

unfoldable pub memcpy : Mem → ℕ → ℕ → ℕ → Mem
memcpy m dst src num = memcpy_loop num 0 dst src m

unfoldable pub memset_loop : ℕ → ℕ → ℕ → ℕ → Mem → Mem
memset_loop zero i ptr value m = m
memset_loop (suc left) i ptr value m =
    memset_loop left (i + 1) ptr value (store8 m (ptr + i) (u8 value))

unfoldable pub memset : Mem → ℕ → ℕ → ℕ → Mem
memset m ptr value num = memset_loop num 0 ptr value m

-- 1 if the ranges differ, 0 if not.
unfoldable pub memcmp_loop : ℕ → ℕ → ℕ → ℕ → Mem → ℕ
memcmp_loop zero i ptr1 ptr2 m = 0
memcmp_loop (suc left) i ptr1 ptr2 m =
    let rest = memcmp_loop left (i + 1) ptr1 ptr2 m in
    if not (m (ptr1 + i) == m (ptr2 + i)) then 1 else rest

unfoldable pub memcmp : Mem → ℕ → ℕ → ℕ → ℕ
memcmp m ptr1 ptr2 num = memcmp_loop num 0 ptr1 ptr2 m

-- The backward loop: `i` counts down from `n`.
unfoldable pub memmove_back : ℕ → ℕ → ℕ → Mem → Mem
memmove_back zero dest src m = m
memmove_back (suc i) dest src m = memmove_back i dest src (store8 m (dest + i) (m (src + i)))

unfoldable pub memmove : Mem → ℕ → ℕ → ℕ → Mem
memmove m dest src n =
    if ltb dest src
    then memcpy_loop n 0 dest src m
    else if ltb src dest
    then memmove_back n dest src m
    else m
