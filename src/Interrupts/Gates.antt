-- ===== src/Interrupts/Gates.antt =====
-- Which gates `isr_init` leaves open.
use horizon.Common.{ℕ, zero, suc, ◌+◌, ◌<◌, ◌≡◌, refl, inl, inr, not, ◌||◌, arith, ◌==◌, Bool-cases}
use horizon.Descriptors.{idt_disable_gate, Idt, idt_enable_gate}
use horizon.Interrupts.{Kernel, isr_init, enable_gates}
use horizon.Descriptors.Laws.{clear_present, set_present, is_present}
use horizon.Memory.Laws.{within}

-- The types of all entries are bytes.
abbrev pub HasBytes : Idt → Type 0
HasBytes idt = (j : ℕ) → (idt j).type < 256

idt_enable_gate-present :
    (idt : Idt) (i j : ℕ)
    → HasBytes idt
    → (is_present (idt_enable_gate idt i j) ≡ (j == i || is_present (idt j)))
      × ((idt_enable_gate idt i j).type < 256)
unfolding idt_enable_gate
idt_enable_gate-present idt i j bytes = elim (Bool-cases (j == i)) [
  | inl same ↦
      let set = set_present (idt i).type (bytes i) in rw (same, set) (ground arith, omega arith)
  | inr other ↦ rw other (refl, bytes j)
]

enable_gates-present :
    (left i : ℕ) (idt : Idt) (j : ℕ)
    → HasBytes idt
    → (is_present (enable_gates left i idt j) ≡ (within i left j || is_present (idt j)))
      × ((enable_gates left i idt j).type < 256)
unfolding enable_gates
enable_gates-present zero i idt j bytes = (ground arith, bytes j)
enable_gates-present (suc left) i idt j bytes =
    let first = idt_enable_gate-present idt i in
    let rest =
      enable_gates-present left (i + 1) (idt_enable_gate idt i) j (λ q. (first q bytes).1) in
    (ground (arith, rest.0, (first j bytes).0), rest.1)

-- When the generated code has filled the types of the gates with bytes, `isr_init` leaves exactly
-- the 256 gates but for 0x80 open.
pub isr_init-present :
    (entries : Idt → Idt) (k : Kernel) (j : ℕ)
    → HasBytes (entries k.idt)
    → j < 256
    → is_present ((isr_init entries k).idt j) ≡ not (j == 0x80)
unfolding isr_init idt_disable_gate
isr_init-present entries k j bytes small =
    let open_gates = enable_gates-present 256 0 (entries k.idt) in
    elim (Bool-cases (j == 0x80)) [
      | inl same ↦
          let cleared =
            clear_present (enable_gates 256 0 (entries k.idt) 0x80).type
              ((open_gates 0x80 bytes).1) in
          rw (same, cleared) (ground arith)
      | inr other ↦ rw other (ground (arith, (open_gates j bytes).0))
    ]
