-- ===== src/Keyboard/InitTests.antt =====
-- A controller whose buffer is emptied only through the data port. The commands 0x20, 0xaa and 0xd0
-- put an answer in it.
use horizon.Common.{◌%◌, ℕ, none, ◌≡◌, [], true, false, Bool, ◌==◌, ◌&&◌, ◌||◌, if◌then◌else◌, refl}
use horizon.Timer.{Pic}
use horizon.Interrupts.Tests.{booted}
use horizon.Keyboard.Init.{keyboard_init-pending, Controller, keyboard_init, HandlerSet}

abbrev read : Bool → ℕ → ℕ × Bool
read d p = if p == 0x60 then (0x1e, false) else (if d then 1 else 0, d)

abbrev write : Bool → ℕ → ℕ → Bool
write d p b = if p == 0x64 && (b == 0x20 || b == 0xaa || b == 0xd0) then true else d

status_bit : (d : Bool) → (read d 0x64).0 % 2 ≡ (if d then 1 else 0)
status_bit true = refl
status_bit false = refl

abbrev controller : Controller read write
controller = record {
  pending = λ d. d;
  status = status_bit;
  read = λ d. refl;
  first_off = λ d. refl;
  second_off = λ d. refl;
}

abbrev pic : Pic
pic = record { mask = 0xffff; writes = [] }

keyboard_init-pending_example :
    (true ≡ true → keyboard_init read write 3 7 true booted pic ≡ none)
    × (true ≡ false
        → HandlerSet read write controller 7 (keyboard_init read write 4 7 true booted pic))
keyboard_init-pending_example = keyboard_init-pending read write controller 3 7 true booted pic
