-- ===== src/Kprint.antt =====
-- kernel/src/common/kprint.c: numbers and formats as the characters that reach the port 0xe9, and
-- the number printers of kernel/src/dev/terminal.c, which run the same loops. A string is the list
-- of its characters, without the NUL.
pub mod Laws
pub mod Tests
use mathlib.Core.Option
use horizon.Common.{
  ℕ, zero, suc, none, some, [], ◌∷◌, ◌+◌, ◌-◌, ◌/◌, ◌%◌, Bool, not, ◌&&◌, ◌||◌, Option, List, ◌++◌,
  map, ltb, leb, ◌==◌, if◌then◌else◌, u8,
}

-- CONVERSION_TABLE.
unfoldable pub conversion_table : ℕ → ℕ
conversion_table d = if ltb d 10 then 48 + d else 87 + d

unfoldable pub decimal : ℕ → ℕ
decimal d = d + 0x30

-- `for (i = 15; num; i--)`: `room` cells of the buffer are left, of which the last is written
-- first, and `tail` stands behind them. A digit for which no cell is left has no result.
unfoldable pub fill_digits : ℕ → (ℕ → ℕ) → ℕ → ℕ → List ℕ → Option (List ℕ)
fill_digits zero table base num tail = if num == 0 then some tail else none
fill_digits (suc room) table base num tail =
    let rest = fill_digits room table base (num / base) (table (num % base) ∷ tail) in
    if num == 0 then some tail else rest

-- The loop with a width stops after as many digits.
unfoldable pub fill_width : ℕ → ℕ → List ℕ → List ℕ
fill_width zero num tail = tail
fill_width (suc width) num tail =
    let rest = fill_width width (num / 16) (conversion_table (num % 16) ∷ tail) in
    if num == 0 then tail else rest

-- "0x"
abbrev pub hex_prefix : List ℕ → List ℕ
hex_prefix s = 48 ∷ 120 ∷ s

-- The width is one digit of the format, so it is below 16.
unfoldable pub kprint_hex : ℕ → ℕ → Option (List ℕ)
kprint_hex num width =
    if num == 0
    then some (hex_prefix (48 ∷ []))
    else if not (width == 0)
    then some (hex_prefix (fill_width width num []))
    else Option.map hex_prefix (fill_digits 16 conversion_table 16 num [])

unfoldable pub kprint_dec : ℕ → Option (List ℕ)
kprint_dec num = if num == 0 then some (48 ∷ []) else fill_digits 20 decimal 10 num []

-- What stands behind the format: a number or a string.
pub data Arg : Type 0 where
  number : ℕ → Arg
  text : List ℕ → Arg

-- The characters of one conversion and the arguments left. An argument that is missing or of the
-- other kind has no result; an unknown letter prints nothing and takes nothing.
unfoldable pub convert : ℕ → ℕ → List Arg → Option (List ℕ × List Arg)
convert letter width [] =
    if letter == 120 || letter == 100 || letter == 115 || letter == 99 then none else some ([], [])
convert letter width (number n ∷ args) =
    if letter == 120
    then Option.map (λ s. (s, args)) (kprint_hex n width)
    else if letter == 100
    then Option.map (λ s. (s, args)) (kprint_dec n)
    else if letter == 115
    then none
    else if letter == 99
    then some (u8 n ∷ [], args)
    else some ([], number n ∷ args)
convert letter width (text s ∷ args) =
    if letter == 120 || letter == 100 || letter == 99
    then none
    else if letter == 115
    then some (s, args)
    else some ([], text s ∷ args)

-- The digit test of the width.
abbrev pub is_digit : ℕ → Bool
is_digit c = leb 48 c && leb c 57

-- The loop of `kprintf`. A `%` that ends the format makes it step over the NUL: no result.
unfoldable pub kprintf : List ℕ → List Arg → Option (List ℕ)
kprintf [] args = some []
kprintf (c ∷ []) args = if c == 37 then none else some (c ∷ [])
kprintf (c ∷ d ∷ []) args =
    let plain = kprintf (d ∷ []) args in
    if not (c == 37)
    then Option.map (λ s. c ∷ s) plain
    else if is_digit d
    then none
    else Option.map (λ r. r.0) (convert d 0 args)
kprintf (c ∷ d ∷ e ∷ rest) args =
    let plain = kprintf (d ∷ e ∷ rest) args in
    let after_letter : List Arg → Option (List ℕ) = λ more. kprintf (e ∷ rest) more in
    let after_width : List Arg → Option (List ℕ) = λ more. kprintf rest more in
    if not (c == 37)
    then Option.map (λ s. c ∷ s) plain
    else if is_digit d
    then elim (convert e (d - 48) args) [
      | none ↦ none
      | some (s, more) ↦ Option.map (λ t. s ++ t) (after_width more)
    ]
    else elim (convert d 0 args) [
      | none ↦ none
      | some (s, more) ↦ Option.map (λ t. s ++ t) (after_letter more)
    ]
