-- ===== src/Descriptors.antt =====
-- kernel/src/sys/gdt/gdt.c and kernel/src/sys/interrupts/idt.c: the entries of the segment and the
-- interrupt tables, field by field. Masks of whole fields are written as `%`.
pub mod Laws
use horizon.Common.{
  ℕ, [], ◌∷◌, ◌+◌, ◌*◌, ◌/◌, ◌%◌, ◌^◌, bit_and, bit_or, Option, none, some, List, ltb, ◌==◌,
  if◌then◌else◌,
}

pub record GdtEntry : Type 0 where
  pub limit_low : ℕ
  pub base_low : ℕ
  pub base_middle : ℕ
  pub access : ℕ
  pub flags_limit_high : ℕ
  pub base_high : ℕ

unfoldable pub gdt_init_entry : ℕ → ℕ → ℕ → ℕ → GdtEntry
gdt_init_entry base limit access flags = record {
  limit_low = limit % 2 ^ 16;
  flags_limit_high = bit_or (limit / 2 ^ 16 % 16) (flags / 16 % 16 * 16);
  base_low = base % 2 ^ 16;
  base_middle = base / 2 ^ 16 % 256;
  base_high = base / 2 ^ 24 % 256;
  access = access;
}

-- The access bytes: present, ring 0, code or data segment, readable or writeable; and ring 3.
abbrev pub kernel_code : ℕ
kernel_code = 0x9a

abbrev pub kernel_data : ℕ
kernel_data = 0x92

abbrev pub user_code : ℕ
user_code = 0xfa

abbrev pub user_data : ℕ
user_data = 0xf2

-- The table that `gdt_init` fills, in the order of GDT_TABLE.
unfoldable pub gdt_table : List GdtEntry
gdt_table =
    gdt_init_entry 0 0 0 0
    ∷ gdt_init_entry 0 0xffff kernel_code 0
    ∷ gdt_init_entry 0 0xffff kernel_data 0
    ∷ gdt_init_entry 0 0xffff_ffff kernel_code 0xc0
    ∷ gdt_init_entry 0 0xffff_ffff kernel_data 0xc0
    ∷ gdt_init_entry 0 0xffff_ffff kernel_code 0xa0
    ∷ gdt_init_entry 0 0xffff_ffff kernel_data 0xa0
    ∷ gdt_init_entry 0 0xffff_ffff user_code 0xa0
    ∷ gdt_init_entry 0 0xffff_ffff user_data 0xa0
    ∷ []

-- NUM_CPUS tables; `num_gdt` of them are in use. A further one halts.
unfoldable pub gdt_init : ℕ → Option (ℕ × List GdtEntry)
gdt_init num_gdt = if ltb 1 (num_gdt + 1) then none else some (num_gdt + 1, gdt_table)

pub record IdtEntry : Type 0 where
  pub base_low : ℕ
  pub segment_selector : ℕ
  pub ist : ℕ
  pub type : ℕ
  pub base_mid : ℕ
  pub base_high : ℕ
  pub reserved : ℕ

abbrev pub Idt : Type 0
Idt = ℕ → IdtEntry

abbrev write_entry : Idt → ℕ → IdtEntry → Idt
write_entry idt i e j = if j == i then e else idt j

unfoldable pub idt_init_entry : Idt → ℕ → ℕ → ℕ → ℕ → Idt
idt_init_entry idt interrupt base segment type = write_entry idt interrupt (record {
  segment_selector = segment;
  base_low = base % 2 ^ 16;
  base_mid = base / 2 ^ 16 % 2 ^ 16;
  base_high = base / 2 ^ 32 % 2 ^ 32;
  ist = 0;
  type = type;
  reserved = (idt interrupt).reserved;
})

-- Every entry is zeroed.
unfoldable pub idt_init : Idt → Idt
idt_init idt i =
    if ltb i 256
    then record {
      base_low = 0;
      segment_selector = 0;
      ist = 0;
      type = 0;
      base_mid = 0;
      base_high = 0;
      reserved = 0;
    }
    else idt i

-- `SET(…, IDT_FLAG_PRESENT)`.
unfoldable pub idt_enable_gate : Idt → ℕ → Idt
idt_enable_gate idt i = write_entry idt i (record (idt i) { type = bit_or (idt i).type 0x80 })

-- `UNSET(…, IDT_FLAG_PRESENT)`, kept to 8 bits.
unfoldable pub idt_disable_gate : Idt → ℕ → Idt
idt_disable_gate idt i = write_entry idt i (record (idt i) { type = bit_and (idt i).type 0x7f })
