-- ===== src/Serial.antt =====
-- kernel/src/dev/serial.c: the serial port. The device behind the ports is a state `D` that `inb`
-- reads, which may change it, and `outb` writes. `serial_enabled` is ERR_SERIAL_FAULTY or not, as a
-- Boolean `faulty`; a string is the list of its bytes before the NUL. A wait takes fuel.
pub mod Laws
pub mod Tests
use horizon.Common.{
  ◌>>=◌, ℕ, zero, suc, [], ◌∷◌, none, some, true, false, Bool, ◌+◌, ◌/◌, ◌%◌, List, Option, not,
  ◌==◌, if◌then◌else◌, u8, ◌*◌,
}
use horizon.Pmm.{Status, sys_ok, sys_err}

pub record Serial (D : Type 0) : Type 0 where
  pub device : D
  pub faulty : Bool

abbrev pub com1 : ℕ
com1 = 0x3f8

-- MAX_RATE / BAUD_RATE.
abbrev pub divisor : ℕ
divisor = 115200 / 38400

-- `status == SYS_ERR`.
abbrev failed : Status → Bool
failed sys_ok = false
failed sys_err = true

module _ {D : Type 0} (inb : D → ℕ → ℕ × D) (outb : D → ℕ → ℕ → D) where
  -- Steps 1 to 6.
  unfoldable pub line_setup : D → D
  line_setup d =
      let d1 = outb (outb d (com1 + 1) 0x00) (com1 + 3) 0x80 in
      let d2 = outb (outb d1 (com1 + 0) (divisor % 256)) (com1 + 1) (divisor / 256 % 256) in
      let d3 = outb (outb d2 (com1 + 3) 0x03) (com1 + 2) 0xc7 in outb d3 (com1 + 4) 0x0b

  unfoldable pub serial_init : Serial D → Serial D × Status
  serial_init s =
      let looped = outb (line_setup s.device) (com1 + 4) 0xae in
      let read = inb (outb looped (com1 + 0) 0xae) (com1 + 0) in
      if not (read.0 == 0xae)
      then (record s { device = read.1; faulty = true }, sys_err)
      else (record s { device = outb read.1 (com1 + 4) 0x0f }, sys_ok)

  -- The bit that is not 0 when a byte has come.
  unfoldable pub serial_recieved : D → ℕ × D
  serial_recieved d = let read = inb d (com1 + 5) in (read.0 % 2, read.1)

  -- The bit 0x20.
  unfoldable pub is_transmit_empty : D → ℕ × D
  is_transmit_empty d = let read = inb d (com1 + 5) in (read.0 / 32 % 2 * 32, read.1)

  -- `while (!test());`
  unfoldable pub wait_until : (D → ℕ × D) → ℕ → D → Option D
  wait_until test zero d = none
  wait_until test (suc fuel) d =
      let tested = test d in
      let rest = wait_until test fuel tested.1 in if tested.0 == 0 then rest else some tested.1

  unfoldable pub serial_write : ℕ → Serial D → ℕ → Option (Serial D × Status)
  serial_write fuel s c = if s.faulty then some (s, sys_err) else do
    d ← wait_until is_transmit_empty fuel s.device
    some (record s { device = outb d com1 (u8 c) }, sys_ok)

  unfoldable pub serial_read : ℕ → Serial D → Option (ℕ × Serial D)
  serial_read fuel s = do
    d ← wait_until serial_recieved fuel s.device
    let read = inb d com1
    some (read.0, record s { device = read.1 })

  unfoldable pub serial_puts : ℕ → Serial D → List ℕ → Option (Serial D × Status)
  serial_puts fuel s [] = some (s, sys_ok)
  serial_puts fuel s (c ∷ str) = do
    written ← serial_write fuel s c
    let rest = serial_puts fuel written.0 str
    if failed written.1 then some written else rest
