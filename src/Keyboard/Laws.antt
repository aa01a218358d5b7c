-- ===== src/Keyboard/Laws.antt =====
-- What is known of the keys after any sequence of interrupts.
use horizon.Common.{
  ◌∙◌, ap, ℕ, [], ◌∷◌, ◌-◌, ◌/◌, ◌%◌, ◌≤◌, ◌<◌, ◌≡◌, refl, Bool, true, false, ◌&&◌, ◌||◌, List,
  arith, ltb, leb, ◌==◌, if◌then◌else◌, passes, passes_at,
}
use horizon.Keyboard.{
  kbhandler, row, Keyboard, scancodes, get_character_from_scancode, keyboard_set_key,
}

-- The state after the bytes, in the order in which they came.
unfoldable pub run : Keyboard → List ℕ → Keyboard
run k [] = k
run k (b ∷ bs) = run (kbhandler k b).0 bs

-- Whether a key is down by the last byte that names it, and by `before` if none does.
unfoldable pub held : Bool → List ℕ → ℕ → Bool
held before [] key = before
held before (b ∷ bs) key = held (if b % 128 == key then b / 128 % 2 == 0 else before) bs key

-- After any sequence of bytes a key is marked as pressed exactly if the last byte that names it was
-- a press, and as before if none names it.
pub key_pressed-run :
    (k : Keyboard) (bytes : List ℕ) (key : ℕ)
    → (run k bytes).key_pressed key ≡ held (k.key_pressed key) bytes key
unfolding run held kbhandler keyboard_set_key
key_pressed-run k [] key = refl
key_pressed-run k (b ∷ bs) key =
    let e : (kbhandler k b).0.key_pressed key
        ≡ (if b % 128 == key then b / 128 % 2 == 0 else k.key_pressed key) =
      ground arith in
    key_pressed-run (kbhandler k b).0 bs key ∙ ap (λ v. held v bs key) e

-- The printable characters and the backspace.
abbrev printable : ℕ → Bool
printable c = leb 32 c && leb c 126 || c == 8

abbrev letter_case : ℕ → Bool
letter_case i =
    let lower = (scancodes i).0 in
    let upper = (scancodes i).1 in
    ltb lower 128
    && ltb upper 128
    && (if leb 97 lower && leb lower 122 then upper == lower - 32 else true)

letter_case_table : passes letter_case 128 ≡ true
unfolding passes scancodes row
letter_case_table = refl

-- Every scancode below 128 gives a character below 128; and where the plain character is a small
-- letter, shift or the caps lock gives the capital letter.
pub get_character_from_scancode_lem :
    (i : ℕ) (shift caps : Bool)
    → i < 128
    → let c = get_character_from_scancode i false false in
      (get_character_from_scancode i shift caps < 128)
      × (97 ≤ c
          → c ≤ 122
          → (shift || caps) ≡ true
          → get_character_from_scancode i shift caps ≡ c - 32)
unfolding get_character_from_scancode
get_character_from_scancode_lem i shift caps small =
    ground (arith, passes_at letter_case i small letter_case_table)
