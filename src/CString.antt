-- ===== src/CString.antt =====
-- kernel/src/common/string.c over the byte memory. `strlen` takes fuel, since it runs until a NUL.
pub mod Laws
pub mod Tests
use horizon.Common.{ℕ, zero, suc, ◌+◌, ◌-◌, not, Option, none, some, map, ◌==◌, if◌then◌else◌}
use mathlib.Core.Option
use horizon.Memory.{Mem, store8}

-- The first loop of `strncpy`: the index at which it stops, and the memory.
unfoldable pub strncpy_copy : ℕ → ℕ → ℕ → ℕ → Mem → ℕ × Mem
strncpy_copy zero i dest src m = (i, m)
strncpy_copy (suc left) i dest src m =
    let rest = strncpy_copy left (i + 1) dest src (store8 m (dest + i) (m (src + i))) in
    if not (m (src + i) == 0) then rest else (i, m)

-- The second loop.
unfoldable pub strncpy_pad : ℕ → ℕ → ℕ → Mem → Mem
strncpy_pad zero i dest m = m
strncpy_pad (suc left) i dest m = strncpy_pad left (i + 1) dest (store8 m (dest + i) 0)

unfoldable pub strncpy : Mem → ℕ → ℕ → ℕ → Mem
strncpy m dest src num =
    let copied = strncpy_copy num 0 dest src m in
    if dest == 0 then m else strncpy_pad (num - copied.0) (copied.0) dest (copied.1)

-- The address of the NUL from `s` on.
unfoldable pub strlen_loop : ℕ → Mem → ℕ → Option ℕ
strlen_loop zero m s = none
strlen_loop (suc fuel) m s =
    let rest = strlen_loop fuel m (s + 1) in if not (m s == 0) then rest else some s

-- `s - str`, where `s` is not before `str`.
unfoldable pub strlen : ℕ → Mem → ℕ → Option ℕ
strlen fuel m str = Option.map (λ s. s - str) (strlen_loop fuel m str)
