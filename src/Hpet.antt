-- ===== src/Hpet.antt =====
-- kernel/src/sys/acpi/hpet.c: the high precision event timer. Its registers keep what is written.
-- Which table `acpi_get_sdt` finds is an argument, and the mapping of the registers is that of Vmm.
-- HPET_LONG_MODE and HPET_LONE_MODE are not defined, so their parts are not compiled.
pub mod Laws
pub mod Tests
use horizon.Common.{
  ℕ, zero, suc, false, true, none, some, ◌+◌, ◌-◌, ◌*◌, ◌/◌, ◌%◌, ◌^◌, Bool, not, ◌&&◌, Option, ltb,
  ◌==◌, if◌then◌else◌, u8,
}
use horizon.Pmm.{sys_ok, sys_err, Status}

-- The registers, with the `config_and_capabilities` of each timer.
pub record HpetRegisters : Type 0 where
  pub general_capabilities : ℕ
  pub general_config : ℕ
  pub main_counter_value : ℕ
  pub timers : ℕ → ℕ

-- The variables of the file: whether `hpet` is not NULL.
pub record Hpet : Type 0 where
  pub mapped : Bool
  pub registers : HpetRegisters
  pub num_hpet_comparators : ℕ
  pub hpet_period : ℕ

-- The fields of HPET_SDT that are read.
pub record HpetSdt : Type 0 where
  pub comparator_count : ℕ

abbrev pub has_bit : ℕ → ℕ → Bool
has_bit bit value = value / 2 ^ bit % 2 == 1

-- GEN_CONFIG_SET and GEN_CONFIG_UNSET: the latter keeps no bit, its mask is 0.
unfoldable pub hpet_enable : Hpet → Hpet
hpet_enable h =
    let config = h.registers.general_config in
    if h.mapped
    then record h {
      registers = record h.registers {
        general_config = if has_bit 0 config then config else config + 1;
      };
    }
    else h

unfoldable pub hpet_halt : Hpet → Hpet
hpet_halt h =
    if h.mapped then record h { registers = record h.registers { general_config = 0 } } else h

-- As a byte: NO_HPET_INITIALIZED is -1; the bit that is kept is bit 13, which a byte has not.
unfoldable pub hpet_operating_mode : Hpet → ℕ
hpet_operating_mode h =
    if h.mapped then u8 (h.registers.general_capabilities / 2 ^ 13 % 2 * 2 ^ 13) else 255

unfoldable pub hpet_read_main_counter_value : Hpet → ℕ
hpet_read_main_counter_value h =
    if h.mapped && (hpet_operating_mode h == 1) then h.registers.main_counter_value else 2 ^ 64 - 1

unfoldable pub hpet_read_revision_number : Hpet → ℕ
hpet_read_revision_number h = if h.mapped then h.registers.general_capabilities % 2 ^ 8 else 255

-- Four of the five bits of the field.
unfoldable pub hpet_find_number_timers : Hpet → Hpet
hpet_find_number_timers h =
    if h.mapped
    then record h { num_hpet_comparators = h.registers.general_capabilities / 2 ^ 8 % 2 ^ 4 }
    else h

unfoldable pub hpet_reset_main_counter_value : Hpet → Hpet × Status
hpet_reset_main_counter_value h =
    let h1 = hpet_halt h in
    let h2 = record h1 { registers = record h1.registers { main_counter_value = 0 } } in
    if h.mapped
    then (h2, if hpet_read_main_counter_value h2 == 0 then sys_ok else sys_err)
    else (h, sys_err)

-- What becomes of a timer's register: `&= (0 << bit)` twice, each behind its test.
unfoldable pub reset_timer : ℕ → ℕ
reset_timer config =
    let c1 = if has_bit 14 config then 0 else config in if has_bit 2 c1 then 0 else c1

-- The loop, `left` rounds from timer `i` on.
unfoldable pub reset_loop : ℕ → ℕ → (ℕ → ℕ) → ℕ → ℕ
reset_loop zero i timers = timers
reset_loop (suc left) i timers =
    reset_loop left (i + 1) (λ q. if q == i then reset_timer (timers i) else timers q)

unfoldable pub hpet_reset_comparators : Hpet → Hpet × Status
hpet_reset_comparators h =
    let timers = reset_loop h.num_hpet_comparators 0 h.registers.timers in
    if h.mapped
    then (record h { registers = record h.registers { timers = timers } }, sys_ok)
    else (h, sys_err)

-- HPET_NUM_COMPARATOR_CHECK.
abbrev pub num_comparator_check : ℕ → Bool
num_comparator_check num = ltb num 32 && ltb 3 num

-- None when it divides by a period of 0. The registers are those at the table's address.
unfoldable pub hpet_init : Option HpetSdt → Hpet → Option (Hpet × Status)
hpet_init none h = some (h, sys_err)
hpet_init (some sdt) h =
    let num = sdt.comparator_count + 1 in
    let lost = record h { mapped = false } in
    let counted = record h { mapped = true; num_hpet_comparators = num } in
    let reset = (hpet_reset_comparators counted).0 in
    let period = h.registers.general_capabilities / 2 ^ 32 in
    if not (has_bit 15 h.registers.general_capabilities)
    then some (lost, sys_err)
    else if num_comparator_check num
    then some (record counted { mapped = false }, sys_err)
    else if period == 0
    then none
    else some (hpet_enable (record reset { hpet_period = period / 1000000 }), sys_ok)
