-- ===== src/Interrupts/Tests.antt =====
-- Interrupts at concrete controllers, and the gates of the vectors.
use horizon.Interrupts.Entries.{isr_init-Dispatches, isr_init_entries, Dispatches}
use horizon.Common.{
  ℕ, ◌+◌, none, some, arith, ◌*◌, [], ◌∷◌, List, ◌==◌, if◌then◌else◌, ◌≡◌, ◌≢◌, refl, true,
}
use horizon.Descriptors.{idt_disable_gate}
use horizon.Timer.{Pic, Write, pic_probe, pic_disable, pic_set_mask, pic_get_mask, outb}
use horizon.Interrupts.{irq_init, Kernel, isr_init, irq_register_handler, clock_tick, other_irq}
use horizon.Interrupts.Laws.{irq_init-Initialised, Initialised, KeepsClock, AllLines}

abbrev pub booted : Kernel
booted = record {
  idt = λ i. record {
    base_low = 0;
    segment_selector = 0;
    ist = 0;
    type = 0;
    base_mid = 0;
    base_high = 0;
    reserved = 0;
  };
  isr_handlers = λ i. none;
  irq_handlers = λ i. none;
  system_time = 0;
  preempt_quantum = 5;
}

-- Controllers whose data ports give back the byte that they were sent last.
unfoldable last_byte : List Write → ℕ → ℕ
last_byte [] port = 0
last_byte (w ∷ writes) port =
    let before = last_byte writes port in if w.port == port then w.byte else before

-- A handler that turns the gate of a vector off.
abbrev gate_off : ℕ → Kernel → Kernel
gate_off h k = record k { idt = idt_disable_gate k.idt h }

gate_off-KeepsClock : KeepsClock gate_off
gate_off-KeepsClock = record {
  isr_kept = λ h k. refl;
  irq_kept = λ h k. refl;
  time_kept = λ h k. refl;
  quantum_kept = λ h k. refl;
}

-- The keyboard has a handler.
abbrev with_keyboard : Kernel
with_keyboard = irq_register_handler booted 1 (other_irq 0x80)

no_clock : (line : ℕ) → with_keyboard.irq_handlers line ≢ some clock_tick
unfolding irq_register_handler
no_clock line = ground arith

abbrev masked : Pic
masked = record { mask = 0xffff; writes = [] }

-- Two ticks, a key, a tick and an interrupt that nothing handles.
abbrev interrupted : List ℕ
interrupted = 0 ∷ 0 ∷ 1 ∷ 0 ∷ 7 ∷ []

interrupted-AllLines : AllLines interrupted
interrupted-AllLines = (omega arith, (omega arith, (omega arith, (omega arith, (omega arith, tt)))))

irq_init-Initialised_example :
    Initialised
      (pic_probe last_byte masked).1
      gate_off
      interrupted
      with_keyboard
      (irq_init last_byte with_keyboard masked)
irq_init-Initialised_example =
    irq_init-Initialised last_byte gate_off interrupted with_keyboard masked gate_off-KeepsClock
      interrupted-AllLines no_clock (unfold irq_register_handler in omega arith)
      (unfold irq_register_handler in omega arith) (unfold irq_register_handler in omega arith)

probe_finds : (pic_probe last_byte masked).1 ≡ true
unfolding pic_probe pic_disable pic_set_mask pic_get_mask outb last_byte
probe_finds = refl

isr_init-Dispatches_example :
    Dispatches
      (λ i. 0xffff_ffff_8000_0000 + 16 * i)
      (isr_init (isr_init_entries (λ i. 0xffff_ffff_8000_0000 + 16 * i)) booted).idt
      14
isr_init-Dispatches_example =
    isr_init-Dispatches (λ i. 0xffff_ffff_8000_0000 + 16 * i) booted 14 (λ j. omega arith)
      (omega arith) (omega arith)
