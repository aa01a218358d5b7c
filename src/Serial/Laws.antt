-- ===== src/Serial/Laws.antt =====
-- What goes out on the line, for a 16550 as its data sheet describes it.
use horizon.Common.{
  ℕ, zero, suc, [], ◌∷◌, none, some, true, false, Bool, ◌+◌, ◌≡◌, refl, arith, List, ◌-◌, ◌*◌, ◌/◌,
  ◌%◌, ◌≤◌, ◌<◌, ◌∙◌, ◌↔◌, inl, inr, ◌==◌, Bool-cases, ◌≢◌, Option, u8, ap, not,
}
use horizon.Pmm.{Status, sys_ok, sys_err}
use horizon.Serial.{
  is_transmit_empty, wait_until, Serial, com1, serial_write, serial_puts, line_setup, serial_init,
}

-- What the driver relies on. `sent` are the bytes that went out, the last one first; the transmitter
-- takes the next byte after `busy` more reads of the line status, at most `longest`; `dlab` says that
-- the ports of the data are those of the divisor; `modem` is the byte written last to the modem
-- control register, whose bit 4 is the loopback. A byte goes out only on a chip that is `ready`; what
-- a write to the data port does otherwise, in which a byte may be lost, is left open.
pub record Uart {D : Type 0} (inb : D → ℕ → ℕ × D) (outb : D → ℕ → ℕ → D) : Type 0 where
  pub sent : D → List ℕ
  pub busy : D → ℕ
  pub dlab : D → Bool
  pub modem : D → ℕ
  pub longest : ℕ
  pub status_bit : (d : D) → ((inb d 0x3fd).0 / 32 % 2 ≡ 0) ↔ (0 < busy d)
  pub status_read : (d : D) → (sent (inb d 0x3fd).1 ≡ sent d) × (busy (inb d 0x3fd).1 ≡ busy d - 1)
  pub transmit :
      (d : D) (c : ℕ)
      → busy d ≡ 0
      → dlab d ≡ false
      → modem d / 16 % 2 ≡ 0
      → (sent (outb d 0x3f8 c) ≡ c ∷ sent d) × (busy (outb d 0x3f8 c) ≤ longest)
  pub modem_write : (d : D) (b : ℕ) → modem (outb d 0x3fc b) ≡ b
  pub modem_kept : (d : D) (p b : ℕ) → p ≢ 0x3fc → modem (outb d p b) ≡ modem d
  pub modem_read : (d : D) (p : ℕ) → modem (inb d p).1 ≡ modem d
  pub dlab_write : (d : D) (b : ℕ) → dlab (outb d 0x3fb b) ≡ not (b / 128 % 2 == 0)
  pub dlab_kept : (d : D) (p b : ℕ) → p ≢ 0x3fb → dlab (outb d p b) ≡ dlab d
  pub dlab_read : (d : D) (p : ℕ) → dlab (inb d p).1 ≡ dlab d

-- The bytes on the line once a string has gone out, the last one first.
unfoldable pub line_after : List ℕ → List ℕ → List ℕ
line_after [] before = before
line_after (c ∷ str) before = line_after str (u8 c ∷ before)

module _ {D : Type 0} (inb : D → ℕ → ℕ × D) (outb : D → ℕ → ℕ → D) (u : Uart inb outb) where
  -- The data port is that of the transmitter, and the loopback is off.
  abbrev pub IsSetUp : D → Type 0
  IsSetUp d = (u.dlab d ≡ false) × (u.modem d / 16 % 2 ≡ 0)

  status_read-IsSetUp : (d : D) → IsSetUp d → IsSetUp (inb d 0x3fd).1
  status_read-IsSetUp d set =
      (u.dlab_read d 0x3fd ∙ set.0, ap (λ b. b / 16 % 2) (u.modem_read d 0x3fd) ∙ set.1)

  data_write-IsSetUp : (d : D) (c : ℕ) → IsSetUp d → IsSetUp (outb d com1 c)
  data_write-IsSetUp d c set = (
    u.dlab_kept d com1 c (omega arith) ∙ set.0,
    ap (λ b. b / 16 % 2) (u.modem_kept d com1 c (omega arith)) ∙ set.1,
  )

  -- The wait ends, with a transmitter that takes the next byte.
  wait_lem :
      (fuel : ℕ) (d : D)
      → u.busy d < fuel
      → IsSetUp d
      → (after : D) × (wait_until inb outb (is_transmit_empty inb outb) fuel d ≡ some after)
        × (u.sent after ≡ u.sent d)
        × (u.busy after ≡ 0)
        × IsSetUp after
  unfolding wait_until is_transmit_empty
  wait_lem zero d enough set = absurd (omega arith)
  wait_lem (suc fuel) d enough set = elim (Bool-cases ((inb d 0x3fd).0 / 32 % 2 * 32 == 0)) [
    | inl busy ↦
        let left : 0 < u.busy d = (u.status_bit d).0 (ground (arith, busy)) in
        let (after, ends, same, idle, set1) =
          wait_lem fuel (inb d 0x3fd).1 (omega (arith, (u.status_read d).1))
            (status_read-IsSetUp d set) in
        rw busy (after, ends, same ∙ (u.status_read d).0, idle, set1)
    | inr ready ↦
        let idle : ¬ (0 < u.busy d) =
          λ left. absurd (ground (arith, ready, (u.status_bit d).1 left)) in
        rw ready (
          (inb d 0x3fd).1,
          refl,
          (u.status_read d).0,
          ground (arith, idle, (u.status_read d).1),
          status_read-IsSetUp d set,
        )
  ]

  -- What `serial_puts` is to come to: on a port that is not faulty, the bytes of the string, in order,
  -- and nothing else have gone out; on a faulty one nothing has, and a string that is not empty is an
  -- error.
  unfoldable pub Put : Serial D → List ℕ → Option (Serial D × Status) → Type 0
  Put s str none = ⊥
  Put s str (some (after, sys_ok)) =
      (u.sent after.device ≡ line_after str (u.sent s.device))
      × (after.faulty ≡ s.faulty)
      × (s.faulty ≡ true → str ≡ [])
  Put s str (some (after, sys_err)) = (s.faulty ≡ true) × (after ≡ s)

  abbrev port_at : D → Bool → Serial D
  port_at d bad = record { device = d; faulty = bad }

  Put-next :
      (d next : D) (c : ℕ) (str : List ℕ) (r : Option (Serial D × Status))
      → u.sent next ≡ u8 c ∷ u.sent d
      → Put (port_at next false) str r
      → Put (port_at d false) (c ∷ str) r
  unfolding Put line_after
  Put-next d next c str none went r = r
  Put-next d next c str (some (after, sys_ok)) went r =
      (r.0 ∙ ap (line_after str) went, r.1, λ h. absurd (ground (arith, h)))
  Put-next d next c str (some (after, sys_err)) went r = absurd (ground (arith, r.0))

  puts :
      (fuel : ℕ) (d : D) (bad : Bool) (str : List ℕ)
      → (bad ≡ false → IsSetUp d)
      → u.busy d < fuel
      → u.longest < fuel
      → Put (port_at d bad) str (serial_puts inb outb fuel (port_at d bad) str)
  unfolding serial_puts serial_write Put line_after
  puts fuel d bad [] set ready enough = (refl, refl, λ h. refl)
  puts fuel d true (c ∷ str) set ready enough = (refl, refl)
  puts fuel d false (c ∷ str) set ready enough =
      let (after, ends, same, idle, set1) = wait_lem fuel d ready (set refl) in
      let went = u.transmit after (u8 c) idle set1.0 set1.1 in
      let rest =
        puts fuel (outb after com1 (u8 c)) false str (λ h. data_write-IsSetUp after (u8 c) set1)
          (omega (arith, went.1, enough)) enough in
      rw ends (Put-next d (outb after com1 (u8 c)) c str _ (went.0 ∙ ap (λ l. u8 c ∷ l) same) rest)

  -- On a 16550 that is set up, or faulty, and with fuel for the longest wait, `serial_puts` ends, has
  -- sent exactly the bytes of the string in their order if the port is not faulty, and nothing, with
  -- an error unless the string is empty, if it is. The chip sends a byte only if it is written when
  -- the transmitter takes the next one.
  pub serial_puts-Put :
      (fuel : ℕ) (s : Serial D) (str : List ℕ)
      → (s.faulty ≡ false → IsSetUp s.device)
      → u.busy s.device < fuel
      → u.longest < fuel
      → Put s str (serial_puts inb outb fuel s str)
  serial_puts-Put fuel s str set ready enough = puts fuel s.device s.faulty str set ready enough

  -- `serial_init` that succeeds leaves the chip set up.
  serial_init-IsSetUp :
      (s : Serial D)
      → (serial_init inb outb s).1 ≡ sys_ok
      → IsSetUp (serial_init inb outb s).0.device
  unfolding serial_init line_setup
  serial_init-IsSetUp s good =
      let d1 = outb (outb s.device (com1 + 1) 0x00) (com1 + 3) 0x80 in
      let d2 = outb (outb d1 (com1 + 0) 3) (com1 + 1) 0 in
      let d3 = outb d2 (com1 + 3) 0x03 in
      let d4 = outb d3 (com1 + 2) 0xc7 in
      let d5 = outb d4 (com1 + 4) 0x0b in
      let d6 = outb d5 (com1 + 4) 0xae in
      let d7 = outb d6 (com1 + 0) 0xae in
      let d8 = (inb d7 (com1 + 0)).1 in
      let divisor_off : u.dlab d8 ≡ false =
        u.dlab_read d7 com1
        ∙ u.dlab_kept d6 com1 0xae (omega arith)
        ∙ u.dlab_kept d5 (com1 + 4) 0xae (omega arith)
        ∙ u.dlab_kept d4 (com1 + 4) 0x0b (omega arith)
        ∙ u.dlab_kept d3 (com1 + 2) 0xc7 (omega arith)
        ∙ u.dlab_write d2 0x03 in
      elim (Bool-cases ((inb d7 (com1 + 0)).0 == 0xae)) [
        | inl echoed ↦ rw echoed (
          u.dlab_kept d8 (com1 + 4) 0x0f (omega arith) ∙ divisor_off,
          ap (λ b. b / 16 % 2) (u.modem_write d8 0x0f),
        )
        | inr other ↦ absurd (ground (arith, good, other))
      ]

  -- When the receiver never gives 0xae outside the loopback, `serial_init` fails: it writes 0xae,
  -- whose bit 4 is clear, to the modem control register, so that the chip is not looped back when it
  -- is tested. Every string that is not empty is refused from then on.
  pub serial_init-faulty :
      (s : Serial D) (fuel c : ℕ) (str : List ℕ)
      → ((d : D) → u.modem d / 16 % 2 ≡ 0 → (inb d com1).0 ≢ 0xae)
      → let (after, status) = serial_init inb outb s in
        (status ≡ sys_err) × (serial_puts inb outb fuel after (c ∷ str) ≡ some (after, sys_err))
  unfolding serial_init line_setup serial_puts serial_write
  serial_init-faulty s fuel c str silent =
      let looped = outb (line_setup inb outb s.device) (com1 + 4) 0xae in
      let tested = outb looped (com1 + 0) 0xae in
      let modem : u.modem tested ≡ 0xae =
        u.modem_kept looped (com1 + 0) 0xae (omega arith)
        ∙ u.modem_write (line_setup inb outb s.device) 0xae in
      let differs : ((inb tested com1).0 == 0xae) ≡ false =
        ground (arith, silent tested (omega (arith, modem))) in
      rw differs (refl, refl)
