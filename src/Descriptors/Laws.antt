-- ===== src/Descriptors/Laws.antt =====
-- What the processor reads in the entries.
use horizon.Common.{
  bit_or-sum_low, ℕ, ◌+◌, ◌*◌, ◌/◌, ◌%◌, ◌^◌, ◌<◌, bit_and, bit_or, ◌≡◌, refl, ◌≢◌, Bool, true,
  false, ◌&&◌, arith, leb, ◌==◌, passes, passes_at,
}
use horizon.Descriptors.{
  Idt, idt_disable_gate, idt_enable_gate, idt_init_entry, IdtEntry, GdtEntry, gdt_init_entry,
}

-- The fields of a segment descriptor as the processor puts them together.
abbrev pub gdt_base : GdtEntry → ℕ
gdt_base e = e.base_low + 2 ^ 16 * e.base_middle + 2 ^ 24 * e.base_high

abbrev pub gdt_limit : GdtEntry → ℕ
gdt_limit e = e.limit_low + 2 ^ 16 * (e.flags_limit_high % 16)

abbrev pub gdt_flags : GdtEntry → ℕ
gdt_flags e = e.flags_limit_high / 16

-- A segment descriptor holds the low 32 bits of the base, the low 20 bits of the limit, the access
-- byte, and the upper four of the eight bits of the flags; and each field fits its width.
pub gdt_init_entry_lem :
    (base limit access flags : ℕ)
    → (gdt_base (gdt_init_entry base limit access flags) ≡ base % 2 ^ 32)
      × (gdt_limit (gdt_init_entry base limit access flags) ≡ limit % 2 ^ 20)
      × (gdt_flags (gdt_init_entry base limit access flags) ≡ flags / 16 % 16)
      × ((gdt_init_entry base limit access flags).access ≡ access)
      × ((gdt_init_entry base limit access flags).flags_limit_high < 256)
unfolding gdt_init_entry
gdt_init_entry_lem base limit access flags =
    let e : bit_or (limit / 2 ^ 16 % 16) (flags / 16 % 16 * 16)
        ≡ limit / 2 ^ 16 % 16 + flags / 16 % 16 * 16 =
      bit_or-sum_low 4 (flags / 16 % 16) (limit / 2 ^ 16 % 16) (omega arith) in
    (omega arith, omega (arith, e), omega (arith, e), refl, omega (arith, e))

-- The handler's address in a gate.
abbrev pub gate_base : IdtEntry → ℕ
gate_base e = e.base_low + 2 ^ 16 * e.base_mid + 2 ^ 32 * e.base_high

-- Whether the processor takes a gate as present.
abbrev pub is_present : IdtEntry → Bool
is_present e = leb 128 (e.type % 256)

-- The two tests of a byte: `|` sets the top bit, `&` takes it away, and both keep the others.
abbrev top_bit : ℕ → Bool
top_bit b = bit_or b 0x80 == b % 128 + 128 && bit_and b 0x7f == b % 128

top_bit_table : passes top_bit 256 ≡ true
unfolding passes
top_bit_table = refl

pub set_present : (b : ℕ) → b < 256 → bit_or b 0x80 ≡ b % 128 + 128
set_present b small = ground (arith, passes_at top_bit b small top_bit_table)

pub clear_present : (b : ℕ) → b < 256 → bit_and b 0x7f ≡ b % 128
clear_present b small = ground (arith, passes_at top_bit b small top_bit_table)

-- What a gate is to be after `idt_init_entry` and `idt_enable_gate` of an entry, then
-- `idt_disable_gate`.
pub idt_gates :
    (idt : Idt) (i base segment type : ℕ)
    → base < 2 ^ 64
    → type < 256
    → let set = idt_init_entry idt i base segment type in
      let enabled = idt_enable_gate set i in
      let disabled = idt_disable_gate enabled i in
      (gate_base (enabled i) ≡ base)
      × ((enabled i).segment_selector ≡ segment)
      × (is_present (enabled i) ≡ true)
      × (is_present (disabled i) ≡ false)
      × ((disabled i).type ≡ type % 128)
      × ((j : ℕ) → j ≢ i → disabled j ≡ idt j)
unfolding idt_init_entry idt_enable_gate idt_disable_gate
idt_gates idt i base segment type small byte =
    let same : (i == i) ≡ true = ground arith in
    let up = set_present type byte in
    let down = clear_present (type % 128 + 128) (omega arith) in
    let low : (type % 128 + 128) % 128 ≡ type % 128 = omega arith in
    rw (same, up, down, low)
      (
        omega arith,
        refl,
        ground arith,
        ground arith,
        refl,
        λ j other. let off : (j == i) ≡ false = ground (arith, other) in rw off refl,
      )
