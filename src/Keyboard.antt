-- ===== src/Keyboard.antt =====
-- kernel/src/dev/keyboard: the table of scancodes, and the handler of the keyboard's interrupt. A
-- character is below 128, so that the sign of `char` does not matter.
pub mod Laws
pub mod Init
pub mod InitTests
pub mod Tests
use horizon.Common.{
  ℕ, zero, suc, none, some, [], ◌∷◌, ◌/◌, ◌%◌, Bool, not, ◌&&◌, ◌||◌, Option, List, leb, ◌==◌,
  if◌then◌else◌,
}

-- The first 58 rows of `scancodes`, plain and with shift.
abbrev pub first_rows : List (ℕ × ℕ)
first_rows =
    (0, 0)
    ∷ (27, 0)
    ∷ (49, 33)
    ∷ (50, 64)
    ∷ (51, 35)
    ∷ (52, 36)
    ∷ (53, 37)
    ∷ (54, 94)
    ∷ (55, 38)
    ∷ (56, 42)
    ∷ (57, 40)
    ∷ (48, 41)
    ∷ (45, 95)
    ∷ (61, 43)
    ∷ (8, 0)
    ∷ (9, 0)
    ∷ (113, 81)
    ∷ (119, 87)
    ∷ (101, 69)
    ∷ (114, 82)
    ∷ (116, 84)
    ∷ (121, 89)
    ∷ (117, 85)
    ∷ (105, 73)
    ∷ (111, 79)
    ∷ (112, 80)
    ∷ (91, 123)
    ∷ (93, 125)
    ∷ (10, 0)
    ∷ (0, 0)
    ∷ (97, 65)
    ∷ (115, 83)
    ∷ (100, 68)
    ∷ (102, 70)
    ∷ (103, 71)
    ∷ (104, 72)
    ∷ (106, 74)
    ∷ (107, 75)
    ∷ (108, 76)
    ∷ (59, 58)
    ∷ (39, 34)
    ∷ (96, 126)
    ∷ (0, 0)
    ∷ (92, 124)
    ∷ (122, 90)
    ∷ (120, 88)
    ∷ (99, 67)
    ∷ (118, 86)
    ∷ (98, 66)
    ∷ (110, 78)
    ∷ (109, 77)
    ∷ (44, 60)
    ∷ (46, 62)
    ∷ (47, 63)
    ∷ (0, 0)
    ∷ (42, 0)
    ∷ (0, 0)
    ∷ (32, 0)
    ∷ []

unfoldable pub row : List (ℕ × ℕ) → ℕ → ℕ × ℕ
row [] i = (0, 0)
row (r ∷ rs) zero = r
row (r ∷ rs) (suc i) = row rs i

-- The other rows are 0 but for the minus and the plus of the keypad.
unfoldable pub scancodes : ℕ → ℕ × ℕ
scancodes i = if i == 74 then (45, 0) else if i == 78 then (43, 0) else row first_rows i

unfoldable pub get_character_from_scancode : ℕ → Bool → Bool → ℕ
get_character_from_scancode scancode shift caps_lock =
    if (caps_lock || shift) && not ((scancodes scancode).1 == 0)
    then (scancodes scancode).1
    else (scancodes scancode).0

-- KEYBOARD_MOUSE without the mouse; `ptr_to_update` is NULL or an array that follows the keys.
pub record Keyboard : Type 0 where
  pub key_pressed : ℕ → Bool
  pub last_keystroke : ℕ
  pub ptr_to_update : Option (ℕ → Bool)

abbrev pub set_at : (ℕ → Bool) → ℕ → Bool → ℕ → Bool
set_at keys i v j = if j == i then v else keys j

unfoldable pub keyboard_set_key : Keyboard → Bool → ℕ → Keyboard
keyboard_set_key k state scancode = record {
  key_pressed = set_at k.key_pressed scancode state;
  last_keystroke = if state then scancode else 0;
  ptr_to_update = elim k.ptr_to_update [
    | none ↦ none
    | some keys ↦ some (set_at keys scancode state)
  ];
}

abbrev pub left_shift : ℕ
left_shift = 0x2a

abbrev pub right_shift : ℕ
right_shift = 0x36

abbrev pub caps_lock_key : ℕ
caps_lock_key = 0x3a

-- The handler: the byte of the port gives the scancode in its low bits and a release in the top
-- bit. The second component is the character for the terminal.
unfoldable pub kbhandler : Keyboard → ℕ → Keyboard × Option ℕ
kbhandler k keycode =
    let scancode = keycode % 128 in
    let key_state = keycode / 128 % 2 == 0 in
    let c =
      get_character_from_scancode scancode (k.key_pressed left_shift || k.key_pressed right_shift)
        (k.key_pressed caps_lock_key) in
    (
      keyboard_set_key k key_state scancode,
      if key_state && (leb 32 c && leb c 126 || c == 8) then some c else none,
    )
