-- ===== src/Keyboard/Tests.antt =====
-- A few keystrokes.
use horizon.Common.{ℕ, refl, none, some, [], ◌∷◌, false, ◌≡◌, List}
use horizon.Keyboard.{
  row, scancodes, keyboard_set_key, Keyboard, kbhandler, get_character_from_scancode,
}
use horizon.Keyboard.Laws.{key_pressed-run, held, run}

abbrev idle : Keyboard
idle = record { key_pressed = λ i. false; last_keystroke = 0; ptr_to_update = none }

-- Shift down, `a` down, `a` up.
abbrev bytes : List ℕ
bytes = 0x2a ∷ 0x1e ∷ 0x9e ∷ []

key_pressed-run_example :
    (run idle bytes).key_pressed 0x1e ≡ held (idle.key_pressed 0x1e) bytes 0x1e
key_pressed-run_example = key_pressed-run idle bytes 0x1e

capital_typed : (kbhandler (run idle (0x2a ∷ [])) 0x1e).1 ≡ some 65
unfolding kbhandler run keyboard_set_key get_character_from_scancode scancodes row
capital_typed = refl
