-- ===== src/Memory/Tests.antt =====
-- The memory functions on a memory in which each byte holds its address.
use horizon.Common.{◌+◌, ◌%◌, ◌^◌, ◌≡◌, refl, inr, arith, if◌then◌else◌, u8}
use horizon.Memory.{memmove, Mem, memcpy_loop, memcpy, memset, memcmp_loop, memcmp, memmove_back}
use horizon.Memory.Words.{load64-store64, store64, load64}
use horizon.Memory.Laws.{memset_lem, memmove-copied, memcpy-copied, within, copied}

abbrev ramp : Mem
ramp q = q % 256

-- An upward move of overlapping ranges.
memmove-copied_example : memmove ramp 12 10 8 15 ≡ copied ramp 12 10 8 15
memmove-copied_example = memmove-copied ramp 12 10 8 15

memmove_overlap : memmove ramp 12 10 8 15 ≡ 13
unfolding memmove memmove_back
memmove_overlap = refl

-- `memcpy` of the same ranges repeats its first bytes.
memcpy_overlap : memcpy ramp 12 10 8 15 ≡ 11
unfolding memcpy memcpy_loop
memcpy_overlap = refl

memcpy-copied_example : memcpy ramp 100 10 8 103 ≡ copied ramp 100 10 8 103
memcpy-copied_example = memcpy-copied ramp 100 10 8 103 (inr (omega arith))

memset_lem_example : memset ramp 10 0x1ff 3 12 ≡ (if within 10 3 12 then u8 0x1ff else ramp 12)
memset_lem_example = memset_lem ramp 10 0x1ff 3 12

memcmp_runs : (memcmp ramp 1 257 4 ≡ 0) × (memcmp ramp 1 2 4 ≡ 1)
unfolding memcmp memcmp_loop
memcmp_runs = (refl, refl)

load64-store64_example : load64 (store64 ramp 8 (2 ^ 64 + 5)) 8 ≡ (2 ^ 64 + 5) % 2 ^ 64
load64-store64_example = load64-store64 ramp 8 (2 ^ 64 + 5)
