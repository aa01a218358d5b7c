-- ===== src/Cpu/Laws.antt =====
-- What `cpu_init` leaves in the page attribute table and in CR4, and what the family is.
use horizon.Common.{
  ℕ, ◌+◌, ◌*◌, ◌/◌, ◌%◌, ◌^◌, ◌≡◌, refl, arith, ◌<◌, ◌≢◌, ◌==◌, if◌then◌else◌, ◌||◌,
}
use horizon.Pmm.{Status, sys_ok, sys_err}
use horizon.Cpu.{Cpu, msr_pat, Registers, get_cpu_family}
use horizon.Memory.Words.{byte_of}

-- Entry `i` of the page attribute table.
abbrev pub pat_entry : Cpu → ℕ → ℕ
pat_entry c i = byte_of (c.msr msr_pat) i

-- Bit `k` of a number.
abbrev pub bit : ℕ → ℕ → ℕ
bit k v = v / 2 ^ k % 2

-- What the page attribute table is to be: as before when the processor has none, and else entries 0
-- to 3 as before, write-combining in entry 4 and uncacheable after it.
unfoldable pub PatSet : Status → Cpu → Cpu → Type 0
PatSet sys_err before after = (n : ℕ) → after.msr n ≡ before.msr n
PatSet sys_ok before after =
    ((i : ℕ) → i < 4 → pat_entry after i ≡ pat_entry before i)
    × (pat_entry after 4 ≡ 1)
    × ((i : ℕ) → 4 < i → pat_entry after i ≡ 0)
    × ((n : ℕ) → n ≢ msr_pat → after.msr n ≡ before.msr n)

-- What CR4 is to be: bits 9 and 10 set, and the others as before.
abbrev pub Cr4Set : ℕ → ℕ → Type 0
Cr4Set before after =
    (bit 9 after ≡ 1)
    × (bit 10 after ≡ 1)
    × (after % 2 ^ 9 ≡ before % 2 ^ 9)
    × (after / 2 ^ 11 ≡ before / 2 ^ 11)

-- The family that is documented: the base family, and the extended one when that is 15.
abbrev pub display_family : ℕ → ℕ
display_family eax = if eax / 2 ^ 8 % 16 == 15 then 15 + eax / 2 ^ 20 % 256 else eax / 2 ^ 8 % 16

-- The model that is documented for families 6 and 15.
abbrev pub display_model : ℕ → ℕ
display_model eax = eax / 2 ^ 4 % 16 + 16 * (eax / 2 ^ 16 % 16)

-- With the zeroed variables of `print_cpu_info`, the family that `get_cpu_family` gives is the
-- documented one less the base family; the stepping is right, and so is the model in the families 6
-- and 15, where another family gets model 0.
pub get_cpu_family_short :
    (raw : ℕ → Registers)
    → let out = get_cpu_family raw (record { f = 0; stepping = 0; mn = 0 }) in
      let eax = (raw 1).eax in
      let family = eax / 2 ^ 8 % 16 in
      (out.f + family ≡ display_family eax)
      × (out.stepping ≡ eax % 16)
      × (out.mn ≡ (if family == 6 || family == 15 then display_model eax else 0))
unfolding get_cpu_family
get_cpu_family_short raw = (ground arith, refl, ground arith)
