-- ===== src/Serial/Tests.antt =====
-- A chip that sends each byte after two reads of its status, and receives nothing. A byte that is written while it is busy is lost.
use horizon.Common.{
  ℕ, [], ◌∷◌, ◌-◌, List, Bool, not, ◌&&◌, ◌/◌, ◌%◌, false, ◌==◌, if◌then◌else◌, arith, refl, ◌≡◌,
  some,
}
use horizon.Serial.Laws.{Uart, Put, serial_puts-Put, serial_init-faulty}
use horizon.Serial.{serial_puts, serial_init, Serial}
use horizon.Pmm.{sys_err}

record Chip : Type 0 where
  line : List ℕ
  wait : ℕ
  divisor_latch : Bool
  control : ℕ

abbrev read : Chip → ℕ → ℕ × Chip
read c p =
    if p == 0x3fd then (if c.wait == 0 then 32 else 0, record c { wait = c.wait - 1 }) else (0, c)

abbrev sends : Chip → Bool
sends c = c.wait == 0 && not c.divisor_latch && c.control / 16 % 2 == 0

abbrev write : Chip → ℕ → ℕ → Chip
write c p b =
    if p == 0x3f8
    then if sends c then record c { line = b ∷ c.line; wait = 2 } else c
    else if p == 0x3fb
    then record c { divisor_latch = not (b / 128 % 2 == 0) }
    else if p == 0x3fc
    then record c { control = b }
    else c

abbrev chip : Uart read write
chip = record {
  sent = λ c. c.line;
  busy = λ c. c.wait;
  dlab = λ c. c.divisor_latch;
  modem = λ c. c.control;
  longest = 2;
  status_bit = λ d. (λ h. ground (arith, h), λ h. ground (arith, h));
  status_read = λ d. (refl, refl);
  transmit = λ d c idle data_port off. ground (arith, idle, data_port, off);
  modem_write = λ d b. refl;
  modem_kept = λ d p b other. ground (arith, other);
  modem_read = λ d p. ground arith;
  dlab_write = λ d b. refl;
  dlab_kept = λ d p b other. ground (arith, other);
  dlab_read = λ d p. ground arith;
}

abbrev idle : Chip
idle = record { line = []; wait = 1; divisor_latch = false; control = 0x0f }

abbrev console : Serial Chip
console = record { device = idle; faulty = false }

serial_puts-Put_example :
    Put read write chip console (72 ∷ 105 ∷ []) (serial_puts read write 3 console (72 ∷ 105 ∷ []))
serial_puts-Put_example =
    serial_puts-Put read write chip 3 console (72 ∷ 105 ∷ []) (λ h. (refl, refl)) (omega arith)
      (omega arith)

serial_init-faulty_example :
    ((serial_init read write console).1 ≡ sys_err)
    × (serial_puts read write 3 (serial_init read write console).0 (72 ∷ [])
        ≡ some ((serial_init read write console).0, sys_err))
serial_init-faulty_example =
    serial_init-faulty read write chip console 3 72 [] (λ d off. ground arith)
