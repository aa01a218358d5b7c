-- ===== src/Terminal/Print.antt =====
-- `terminal_printf` and its number printers, which run the loops of the log's printers.
use horizon.Common.{ℕ, none, some, [], ◌∷◌, not, ◌||◌, Option, List, ◌==◌, if◌then◌else◌}
use horizon.Kprint.{number, text, conversion_table, decimal, fill_digits, hex_prefix, Arg}
use horizon.Framebuffer.{Font}
use horizon.Terminal.{terminal_puts, terminal_putc, TermState}

unfoldable pub terminal_hex : Option Font → TermState → ℕ → Option TermState
terminal_hex font t num =
    if num == 0
    then some (terminal_puts font t (hex_prefix (48 ∷ [])))
    else elim (fill_digits 16 conversion_table 16 num []) [
      | none ↦ none
      | some s ↦ some (terminal_puts font (terminal_puts font t (hex_prefix [])) s)
    ]

unfoldable pub terminal_dec : Option Font → TermState → ℕ → Option TermState
terminal_dec font t num =
    if num == 0 then some (terminal_putc font t 48) else elim (fill_digits 20 decimal 10 num []) [
      | none ↦ none
      | some s ↦ some (terminal_puts font t s)
    ]

-- One conversion, with the arguments left. A missing argument or one of the other kind has no
-- result.
unfoldable pub terminal_convert :
    Option Font → TermState → ℕ → List Arg → Option (TermState × List Arg)
terminal_convert font t letter [] =
    if letter == 120 || letter == 100 || letter == 115 then none else some (t, [])
terminal_convert font t letter (number n ∷ args) =
    if letter == 120
    then elim (terminal_hex font t n) [ none ↦ none | some t' ↦ some (t', args) ]
    else if letter == 100
    then elim (terminal_dec font t n) [ none ↦ none | some t' ↦ some (t', args) ]
    else if letter == 115
    then none
    else some (t, number n ∷ args)
terminal_convert font t letter (text s ∷ args) =
    if letter == 120 || letter == 100
    then none
    else if letter == 115
    then some (terminal_puts font t s, args)
    else some (t, text s ∷ args)

-- A `%` that ends the format makes the loop step over the NUL: no result.
unfoldable pub terminal_printf : Option Font → TermState → List ℕ → List Arg → Option TermState
terminal_printf font t [] args = some t
terminal_printf font t (c ∷ []) args = if c == 37 then none else some (terminal_putc font t c)
terminal_printf font t (c ∷ d ∷ rest) args =
    let plain = terminal_printf font (terminal_putc font t c) (d ∷ rest) args in
    let after : TermState → List Arg → Option TermState =
      λ t' more. terminal_printf font t' rest more in
    if not (c == 37)
    then plain
    else elim (terminal_convert font t d args) [ none ↦ none | some (t', more) ↦ after t' more ]
