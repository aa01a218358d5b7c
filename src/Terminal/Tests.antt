-- ===== src/Terminal/Tests.antt =====
-- A terminal of 5 columns.
use horizon.Common.{some, [], ◌∷◌, arith}
use horizon.Framebuffer.Tests.{small_screen}
use horizon.Terminal.{terminal_puts, TermState}
use horizon.Terminal.Laws.{terminal_puts-InColumns, InColumns}
use horizon.Framebuffer.{Font}

abbrev fresh : TermState
fresh = record {
  framebuffer = small_screen;
  background_color = 0;
  foreground_color = 0xaaaaaa;
  columns = 5;
  rows = 2;
  cursor_x = 1;
  cursor_y = 1;
  memory = λ q. 0;
}

abbrev font : Font
font = record { character_size = 2; glyph = λ q. 0xf0 }

-- "ab", a backspace, a newline and "c".
terminal_puts-InColumns_example :
    InColumns (terminal_puts (some font) fresh (97 ∷ 98 ∷ 8 ∷ 10 ∷ 99 ∷ []))
terminal_puts-InColumns_example =
    terminal_puts-InColumns (some font) fresh (97 ∷ 98 ∷ 8 ∷ 10 ∷ 99 ∷ [])
      (omega arith, omega arith, omega arith)
