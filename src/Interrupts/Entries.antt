-- ===== src/Interrupts/Entries.antt =====
-- kernel/src/sys/interrupts/isrs_gen.c: the generated calls that fill the interrupt table, one for
-- each vector, as a loop over the vectors. The addresses of the assembly stubs ISR0 to ISR255 are a
-- parameter.
use horizon.Common.{
  ℕ, zero, suc, ◌+◌, ◌<◌, ◌^◌, ◌≡◌, refl, inl, inr, not, arith, ◌==◌, Bool-cases, if◌then◌else◌,
  ◌∙◌, ◌/◌, ◌%◌, ap, true, false, ◌*◌,
}
use horizon.Memory.Laws.{within}
use horizon.Interrupts.Gates.{isr_init-present, HasBytes}
use horizon.Descriptors.{IdtEntry, idt_enable_gate, idt_init_entry, Idt, idt_disable_gate}
use horizon.Interrupts.{enable_gates, Kernel, isr_init}
use horizon.Descriptors.Laws.{gate_base, is_present}

-- GDT_KERNEL_CODE_64_BIT.
abbrev pub kernel_code_64_bit : ℕ
kernel_code_64_bit = 0x28

-- IDT_FLAG_RING0 | IDT_FLAG_GATE_64BIT_INT.
abbrev pub ring0_interrupt_gate : ℕ
ring0_interrupt_gate = 0x8e

unfoldable pub init_entries : (ℕ → ℕ) → ℕ → ℕ → Idt → Idt
init_entries isr zero i idt = idt
init_entries isr (suc left) i idt =
    init_entries isr left (i + 1)
      (idt_init_entry idt i (isr i) kernel_code_64_bit ring0_interrupt_gate)

unfoldable pub isr_init_entries : (ℕ → ℕ) → Idt → Idt
isr_init_entries isr idt = init_entries isr 256 0 idt

-- The gate for a vector's stub, in an entry.
abbrev pub stub_gate : (ℕ → ℕ) → ℕ → IdtEntry → IdtEntry
stub_gate isr j e = record {
  segment_selector = kernel_code_64_bit;
  base_low = isr j % 2 ^ 16;
  base_mid = isr j / 2 ^ 16 % 2 ^ 16;
  base_high = isr j / 2 ^ 32 % 2 ^ 32;
  ist = 0;
  type = ring0_interrupt_gate;
  reserved = e.reserved;
}

init_entries_lem :
    (isr : ℕ → ℕ) (left i : ℕ) (idt : Idt) (j : ℕ)
    → init_entries isr left i idt j ≡ (if within i left j then stub_gate isr j (idt j) else idt j)
unfolding init_entries idt_init_entry
init_entries_lem isr zero i idt j = ground arith
init_entries_lem isr (suc left) i idt j =
    let rest =
      init_entries_lem isr left (i + 1)
        (idt_init_entry idt i (isr i) kernel_code_64_bit ring0_interrupt_gate) j in
    elim (Bool-cases (j == i)) [
      | inl same ↦
          let e : i ≡ j = ground (arith, same) in
          let past : within (i + 1) left j ≡ false = ground (arith, same) in
          let now : within i (suc left) j ≡ true = ground (arith, same) in
          rest ∙ rw (past, same, now, e) refl
      | inr other ↦
          let still : within i (suc left) j ≡ within (i + 1) left j = ground (arith, other) in
          rest ∙ rw (other, still) refl
    ]

-- Where a gate leads: the handler's address and the code segment.
abbrev pub target : IdtEntry → ℕ × ℕ
target e = (gate_base e, e.segment_selector)

idt_enable_gate-target : (idt : Idt) (i j : ℕ) → target (idt_enable_gate idt i j) ≡ target (idt j)
unfolding idt_enable_gate
idt_enable_gate-target idt i j = elim (Bool-cases (j == i)) [
  | inl same ↦ let e : i ≡ j = ground (arith, same) in rw (same, e) refl
  | inr other ↦ rw other refl
]

enable_gates-target :
    (left i : ℕ) (idt : Idt) (j : ℕ) → target (enable_gates left i idt j) ≡ target (idt j)
unfolding enable_gates
enable_gates-target zero i idt j = refl
enable_gates-target (suc left) i idt j =
    enable_gates-target left (i + 1) (idt_enable_gate idt i) j ∙ idt_enable_gate-target idt i j

idt_disable_gate-target : (idt : Idt) (i j : ℕ) → target (idt_disable_gate idt i j) ≡ target (idt j)
unfolding idt_disable_gate
idt_disable_gate-target idt i j = elim (Bool-cases (j == i)) [
  | inl same ↦ let e : i ≡ j = ground (arith, same) in rw (same, e) refl
  | inr other ↦ rw other refl
]

-- What `isr_init` is to leave for a vector: the gate leads to the vector's stub in the kernel's code
-- segment, and is open but for 0x80.
abbrev pub Dispatches : (ℕ → ℕ) → Idt → ℕ → Type 0
Dispatches isr idt j =
    (gate_base (idt j) ≡ isr j)
    × ((idt j).segment_selector ≡ kernel_code_64_bit)
    × (is_present (idt j) ≡ not (j == 0x80))

-- On a table whose types are bytes, `isr_init` with the generated entries makes the gate of each of
-- the 256 vectors lead to the stub of that vector, whose address is below 2^64, in the kernel's code
-- segment, and leaves all gates open but for 0x80.
pub isr_init-Dispatches :
    (isr : ℕ → ℕ) (k : Kernel) (j : ℕ)
    → HasBytes k.idt
    → isr j < 2 ^ 64
    → j < 256
    → Dispatches isr (isr_init (isr_init_entries isr) k).idt j
unfolding isr_init isr_init_entries
isr_init-Dispatches isr k j bytes small vector =
    let filled = init_entries_lem isr 256 0 k.idt in
    let set : HasBytes (isr_init_entries isr k.idt) = λ q. elim (Bool-cases (within 0 256 q)) [
      | inl is ↦ rw (filled q, is) (omega arith)
      | inr out ↦ rw (filled q, out) (bytes q)
    ] in
    let lead : target ((isr_init (isr_init_entries isr) k).idt j)
        ≡ target (init_entries isr 256 0 k.idt j) =
      idt_disable_gate-target (enable_gates 256 0 (init_entries isr 256 0 k.idt)) 0x80 j
      ∙ enable_gates-target 256 0 (init_entries isr 256 0 k.idt) j in
    let inside : within 0 256 j ≡ true = ground arith in
    let here : target (init_entries isr 256 0 k.idt j) ≡ (isr j, kernel_code_64_bit) =
      rw (filled j, inside)
        (let e : isr j % 2 ^ 16
                + 2 ^ 16 * (isr j / 2 ^ 16 % 2 ^ 16)
                + 2 ^ 32 * (isr j / 2 ^ 32 % 2 ^ 32)
              ≡ isr j =
            omega arith in
          rw e refl) in
    (
      ap (λ p. p.0) (lead ∙ here),
      ap (λ p. p.1) (lead ∙ here),
      isr_init-present (isr_init_entries isr) k j set vector,
    )
