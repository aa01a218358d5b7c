-- ===== src/Keyboard/Init.antt =====
-- `keyboard_init` of kernel/src/dev/keyboard/keyboard.c: the commands to the keyboard's controller, the
-- registration of the handler and its line. The controller is a state `D` that `inb` reads, which may
-- change it, and `outb` writes; the loop takes fuel.
use horizon.Common.{
  ℕ, zero, suc, none, some, true, false, Bool, Option, ◌%◌, ◌≡◌, ◌==◌, if◌then◌else◌, refl, ◌∙◌,
  ◌>>=◌,
}
use horizon.Timer.{Pic, pic_unmask}
use horizon.Interrupts.{Kernel, irq_register_handler, other_irq}

-- PS2_COMMAND_REGISTER and PS2_STATUS_REGISTER.
abbrev pub ps2_register : ℕ
ps2_register = 0x64

module _ {D : Type 0} (inb : D → ℕ → ℕ × D) (outb : D → ℕ → ℕ → D) where
  -- `while (inb(PS2_COMMAND_REGISTER) & 0x01) inb(PS2_STATUS_REGISTER);`
  unfoldable pub flush_loop : ℕ → D → Option D
  flush_loop zero d = none
  flush_loop (suc fuel) d =
      let read = inb d ps2_register in
      let rest = flush_loop fuel (inb read.1 ps2_register).1 in
      if read.0 % 2 == 0 then some read.1 else rest

  -- `handler` stands for `kbhandler`.
  unfoldable pub keyboard_init : ℕ → ℕ → D → Kernel → Pic → Option (D × Kernel × Pic)
  keyboard_init fuel handler d k p = do
    flushed ← flush_loop fuel (outb (outb d ps2_register 0xad) ps2_register 0xa7)
    let enabled = outb (outb flushed ps2_register 0xae) ps2_register 0xa8
    some (enabled, irq_register_handler k 1 (other_irq handler), pic_unmask p 1)

-- What the driver meets: the low bit of the status says whether a byte is in the buffer, and neither a
-- read of the status nor one of the two commands that turn a port off changes that. Of no other
-- command anything is asked.
pub record Controller {D : Type 0} (inb : D → ℕ → ℕ × D) (outb : D → ℕ → ℕ → D) : Type 0 where
  pub pending : D → Bool
  pub status : (d : D) → (inb d ps2_register).0 % 2 ≡ (if pending d then 1 else 0)
  pub read : (d : D) → pending (inb d ps2_register).1 ≡ pending d
  pub first_off : (d : D) → pending (outb d ps2_register 0xad) ≡ pending d
  pub second_off : (d : D) → pending (outb d ps2_register 0xa7) ≡ pending d

module _ {D : Type 0} (inb : D → ℕ → ℕ × D) (outb : D → ℕ → ℕ → D) (c : Controller inb outb) where
  flush_hangs : (fuel : ℕ) (d : D) → c.pending d ≡ true → flush_loop inb outb fuel d ≡ none
  unfolding flush_loop
  flush_hangs zero d there = refl
  flush_hangs (suc fuel) d there =
      let still = c.read (inb d ps2_register).1 ∙ c.read d ∙ there in
      let rest = flush_hangs fuel (inb (inb d ps2_register).1 ps2_register).1 still in
      let bit : (inb d ps2_register).0 % 2 ≡ 1 = c.status d ∙ rw there refl in rw (bit, rest) refl

  -- Whether the keyboard's handler is in place.
  abbrev pub HandlerSet : ℕ → Option (D × Kernel × Pic) → Type 0
  HandlerSet handler none = ⊥
  HandlerSet handler (some (d, k, p)) = k.irq_handlers 1 ≡ some (other_irq handler)

  -- For a controller whose buffer is changed neither by reads of the status nor by the commands 0xad
  -- and 0xa7: if a byte is in the buffer, `keyboard_init` never returns, since the loop that is to
  -- empty it reads the status register and not the data port; if none is, it returns in the first
  -- round, and the handler of line 1 is set.
  pub keyboard_init-pending :
      (fuel handler : ℕ) (d : D) (k : Kernel) (p : Pic)
      → (c.pending d ≡ true → keyboard_init inb outb fuel handler d k p ≡ none)
        × (c.pending d ≡ false
            → HandlerSet handler (keyboard_init inb outb (suc fuel) handler d k p))
  unfolding keyboard_init flush_loop irq_register_handler
  keyboard_init-pending fuel handler d k p =
      let off = outb (outb d ps2_register 0xad) ps2_register 0xa7 in
      let same : c.pending off ≡ c.pending d =
        c.second_off (outb d ps2_register 0xad) ∙ c.first_off d in
      (
        λ there. rw (flush_hangs fuel off (same ∙ there)) refl,
        λ gone.
            let bit : (inb off ps2_register).0 % 2 ≡ 0 = c.status off ∙ rw (same, gone) refl in
            rw bit refl,
      )
