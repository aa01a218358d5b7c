-- ===== src/Apic.antt =====
-- kernel/src/sys/acpi/apic.c: the registers of the local APIC and its timer. The device behind the
-- registers is a state `D` that `load` reads and `store` writes, at a register's offset; `wait` is
-- what becomes of it while the timer sleeps. Masks are written as arithmetic on the bits.
pub mod Laws
pub mod Init
pub mod Tests
use horizon.Timer.{Pic, pic_mask, pic_get_mask, pic_save_mask, pic_restore_mask}
use horizon.Common.{
  ℕ, zero, suc, false, true, none, some, ◌+◌, ◌-◌, ◌*◌, ◌/◌, ◌%◌, ◌^◌, bit_or, Bool, Option, ◌==◌,
  if◌then◌else◌, u32, u64,
}

-- The variables of the file, with the device; `base` is `local_apic_base`, 0 for NULL.
pub record Apic (D : Type 0) : Type 0 where
  pub device : D
  pub base : ℕ
  pub timer_enabled : Bool
  pub base_frequency : ℕ
  pub divisor : ℕ

abbrev pub eoi_reg : ℕ
eoi_reg = 0x0b0

abbrev pub spurious_int_vec_reg : ℕ
spurious_int_vec_reg = 0x0f0

abbrev pub error_status_reg : ℕ
error_status_reg = 0x280

abbrev pub int_cmd_low_reg : ℕ
int_cmd_low_reg = 0x300

abbrev pub int_cmd_high_reg : ℕ
int_cmd_high_reg = 0x310

abbrev pub lvt_tmr_reg : ℕ
lvt_tmr_reg = 0x320

abbrev pub init_count_reg : ℕ
init_count_reg = 0x380

abbrev pub current_count_reg : ℕ
current_count_reg = 0x390

abbrev pub divide_config_reg : ℕ
divide_config_reg = 0x3e0

-- APIC_TIMER_MASKED and APIC_TIMER_PERIODIC, by their bits.
abbrev pub timer_masked : ℕ
timer_masked = 16

abbrev pub timer_periodic : ℕ
timer_periodic = 17

-- `value | (1 << k)` and `value & ~(1 << k)`.
abbrev pub set_bit : ℕ → ℕ → ℕ
set_bit k value = if value / 2 ^ k % 2 == 0 then value + 2 ^ k else value

abbrev pub clear_bit : ℕ → ℕ → ℕ
clear_bit k value = if value / 2 ^ k % 2 == 0 then value else value - 2 ^ k

pub data ApicTmrMode : Type 0 where
  one_shot_mode periodic_mode : ApicTmrMode

-- What a check comes to.
pub data Check : Type 0 where
  passed halted : Check

-- Whether the system goes on.
unfoldable pub goes_on : Check → Bool
goes_on passed = true
goes_on halted = false

module _ {D : Type 0} (load : D → ℕ → ℕ) (store : D → ℕ → ℕ → D) where
  unfoldable pub apic_write_reg : Apic D → ℕ → ℕ → Apic D
  apic_write_reg a offset value =
      if a.base == 0 then a else record a { device = store a.device offset (u32 value) }

  unfoldable pub apic_read_reg : Apic D → ℕ → ℕ
  apic_read_reg a offset = if a.base == 0 then 2 ^ 32 - 1 else load a.device offset

  unfoldable pub apic_send_end_of_interrupt : Apic D → Apic D
  apic_send_end_of_interrupt a = if a.timer_enabled then apic_write_reg a eoi_reg 0 else a

  unfoldable pub apic_send_ipi : Apic D → ℕ → ℕ → ℕ → Apic D
  apic_send_ipi a processor vector mtype =
      apic_write_reg (apic_write_reg a int_cmd_high_reg (u32 (processor * 2 ^ 24))) int_cmd_low_reg
        (bit_or (u32 (mtype * 2 ^ 8)) vector)

  -- The status is the negation of bit 1, as a number.
  unfoldable pub apic_reset_error_reg : Apic D → Apic D × ℕ
  apic_reset_error_reg a =
      let a1 = apic_write_reg a error_status_reg 1 in
      (a1, if apic_read_reg a1 error_status_reg / 2 % 2 == 0 then 1 else 0)

  -- The tests of bits `i` and up, `left` of them, each with its `goto error`.
  unfoldable pub check_bits : ℕ → ℕ → ℕ → Check
  check_bits zero i value = passed
  check_bits (suc left) i value =
      let rest = check_bits left (i + 1) value in if value / 2 ^ i % 2 == 1 then halted else rest

  unfoldable pub apic_check_error_reg : Apic D → Check
  apic_check_error_reg a = check_bits 8 0 (apic_read_reg a error_status_reg)

  -- APIC_ENABLE with vector 0x27.
  unfoldable pub apic_enable : Apic D → Apic D
  apic_enable a = apic_write_reg a spurious_int_vec_reg 0x127

  unfoldable pub apic_timer_stop : Apic D → Pic → Apic D × Pic
  apic_timer_stop a p =
      let a1 = apic_write_reg a lvt_tmr_reg (set_bit timer_masked (apic_read_reg a lvt_tmr_reg)) in
      (record a1 { timer_enabled = false }, pic_restore_mask p)

  -- `ports` is what the ports of the interrupt controllers read; the handler's registration is left
  -- to the interrupt dispatch.
  unfoldable pub apic_timer_start : (ℕ → ℕ) → Apic D → Pic → Apic D × Pic
  apic_timer_start ports a p =
      let saved = if pic_get_mask ports == 0xffff then p else pic_mask (pic_save_mask ports p) 0 in
      let a1 =
        apic_write_reg a lvt_tmr_reg (clear_bit timer_masked (apic_read_reg a lvt_tmr_reg)) in
      (record a1 { timer_enabled = true }, saved)

  -- None when it divides by 0.
  unfoldable pub apic_timer_set_freq : Apic D → ℕ → Option (Apic D)
  apic_timer_set_freq a freq =
      let by = u64 (freq * a.divisor) in
      if by == 0 then none else some (apic_write_reg a init_count_reg (a.base_frequency / by))

  unfoldable pub apic_timer_set_mode : Apic D → ApicTmrMode → Apic D
  apic_timer_set_mode a periodic_mode =
      apic_write_reg a lvt_tmr_reg (set_bit timer_periodic (apic_read_reg a lvt_tmr_reg))
  apic_timer_set_mode a one_shot_mode =
      apic_write_reg a lvt_tmr_reg (clear_bit timer_periodic (apic_read_reg a lvt_tmr_reg))

  unfoldable pub apic_timer_enable : Apic D → Apic D
  apic_timer_enable a =
      let a1 = apic_write_reg a lvt_tmr_reg (2 ^ 16 + 32) in
      let a2 = apic_write_reg a1 divide_config_reg 1 in
      apic_write_reg a2 init_count_reg (2 ^ 32 - 1)

  unfoldable pub apic_timer_int_is_delivered : Apic D → ℕ
  apic_timer_int_is_delivered a = apic_read_reg a lvt_tmr_reg / 2 ^ 11 % 16

  -- The products of the frequency are of 32 bits. The check at the end is `apic_check_error_reg`.
  unfoldable pub apic_timer_init : (D → D) → (ℕ → ℕ) → Apic D → Pic → Option (Apic D × Pic × Check)
  apic_timer_init wait ports a p =
      let a1 = record ((apic_reset_error_reg a).0) { divisor = 4 } in
      let a2 = apic_timer_enable a1 in
      let a3 = record a2 { device = wait a2.device } in
      let ticks = 2 ^ 32 - 1 - apic_read_reg a3 current_count_reg in
      let a4 = record a3 { base_frequency = u32 (u32 (ticks * 2) * 4) } in
      elim (apic_timer_set_freq a4 a4.base_frequency) [
        | none ↦ none
        | some a5 ↦
            let s = apic_timer_start ports (apic_timer_set_mode a5 periodic_mode) p in
            some (s.0, s.1, apic_check_error_reg (s.0))
      ]
