-- ===== src/Terminal.antt =====
-- kernel/src/dev/terminal.c: a cursor over a framebuffer. The coordinates of the cursor are `int`s
-- that never become negative here; the font is the global `font`, none when its header is NULL.
pub mod Print
pub mod Laws
pub mod Tests
use horizon.Common.{
  ℕ, zero, suc, none, some, [], ◌∷◌, ◌+◌, ◌-◌, ◌*◌, ◌/◌, not, ◌&&◌, Option, List, ltb, leb, ◌==◌,
  if◌then◌else◌, u32,
}
use horizon.Framebuffer.{fb_getpixel, fb_putpixel, fb_putc, Framebuffer, Font}
use horizon.Memory.{Mem}

pub record TermState : Type 0 where
  pub framebuffer : Framebuffer
  pub background_color : ℕ
  pub foreground_color : ℕ
  pub columns : ℕ
  pub rows : ℕ
  pub cursor_x : ℕ
  pub cursor_y : ℕ
  pub memory : Mem

abbrev pub terminal_left_offset : ℕ
terminal_left_offset = 1

-- COLOR_BLACK and COLOR_WHITE, and the character cells; without a font only the colors are set.
unfoldable pub init_terminal : Option Font → Framebuffer → TermState → TermState
init_terminal none fb t = record t {
  framebuffer = fb;
  background_color = 0;
  foreground_color = 0xaaaaaa;
}
init_terminal (some font) fb t = record t {
  framebuffer = fb;
  background_color = 0;
  foreground_color = 0xaaaaaa;
  rows = u32 (fb.height / font.character_size);
  columns = u32 (fb.width / 8);
  cursor_x = 1;
  cursor_y = 1;
}

unfoldable pub terminal_set_foreground : TermState → ℕ → TermState
terminal_set_foreground t color = record t { foreground_color = color }

unfoldable pub terminal_set_background : TermState → ℕ → TermState
terminal_set_background t color = record t { background_color = color }

unfoldable pub set_terminal_cursor_pos : TermState → ℕ → ℕ → TermState
set_terminal_cursor_pos t x y =
    if leb t.columns x
    then record t { cursor_x = 0; cursor_y = y + 1 }
    else record t { cursor_x = x; cursor_y = y }

-- Columns `x` on of one pixel row get the background.
unfoldable pub clear_row : ℕ → ℕ → Framebuffer → Mem → ℕ → ℕ → Mem
clear_row zero x fb m y color = m
clear_row (suc left) x fb m y color =
    clear_row left (x + 1) fb (fb_putpixel fb m (u32 x) (u32 y) color) y color

unfoldable pub clear_rows : ℕ → ℕ → Framebuffer → Mem → ℕ → Mem
clear_rows zero y fb m color = m
clear_rows (suc left) y fb m color =
    clear_rows left (y + 1) fb (clear_row fb.width 0 fb m y color) color

unfoldable pub terminal_clear : TermState → TermState
terminal_clear t = record t {
  memory = clear_rows t.framebuffer.height 0 t.framebuffer t.memory t.background_color;
  cursor_x = 0;
  cursor_y = 0;
}

-- One pixel row is copied from `char_size` rows below.
unfoldable pub copy_row : ℕ → ℕ → Framebuffer → Mem → ℕ → ℕ → Mem
copy_row zero x fb m y char_size = m
copy_row (suc left) x fb m y char_size =
    let c = fb_getpixel fb m (u32 x) (u32 (y + char_size)) in
    copy_row left (x + 1) fb (fb_putpixel fb m (u32 x) (u32 y) c) y char_size

unfoldable pub copy_rows : ℕ → ℕ → Framebuffer → Mem → ℕ → Mem
copy_rows zero y fb m char_size = m
copy_rows (suc left) y fb m char_size =
    copy_rows left (y + 1) fb (copy_row fb.width 0 fb m y char_size) char_size

-- The cursor is not on row 0, where the code's bound would be negative.
unfoldable pub terminal_scroll : Option Font → TermState → TermState
terminal_scroll none t = t
terminal_scroll (some font) t =
    let top = (t.cursor_y - 1) * font.character_size in
    let copied = copy_rows top 0 t.framebuffer t.memory font.character_size in
    record t {
      memory = clear_rows (t.framebuffer.height - top) top t.framebuffer copied t.background_color;
    }

unfoldable pub terminal_push_cursor : Option Font → TermState → TermState
terminal_push_cursor font t =
    let scrolled = terminal_scroll font t in
    if leb t.columns (t.cursor_x + 1)
    then record t { cursor_x = terminal_left_offset; cursor_y = t.cursor_y + 1 }
    else if leb t.rows t.cursor_y && not (t.cursor_y == t.rows && t.cursor_x == 0)
    then record scrolled { cursor_y = scrolled.cursor_y - 1 }
    else record t { cursor_x = t.cursor_x + 1 }

-- `--x < 1` gives the column back.
unfoldable pub terminal_pop_cursor : TermState → TermState
terminal_pop_cursor t = if ltb t.cursor_x 2 then t else record t { cursor_x = t.cursor_x - 1 }

-- The call of `fb_putc` at the cursor.
unfoldable pub draw_at_cursor : Font → TermState → ℕ → TermState
draw_at_cursor font t c = record t {
  memory =
      fb_putc t.framebuffer font t.memory (t.cursor_x * 8) (t.cursor_y * font.character_size)
        t.foreground_color t.background_color c;
}

unfoldable pub terminal_putc : Option Font → TermState → ℕ → TermState
terminal_putc none t c = if c == 10 then record t { cursor_x = 1; cursor_y = t.cursor_y + 1 } else t
terminal_putc (some font) t c =
    if c == 10
    then record t { cursor_x = 1; cursor_y = t.cursor_y + 1 }
    else if c == 8
    then draw_at_cursor font (terminal_pop_cursor t) 32
    else terminal_push_cursor (some font) (draw_at_cursor font t c)

unfoldable pub terminal_puts : Option Font → TermState → List ℕ → TermState
terminal_puts font t [] = t
terminal_puts font t (c ∷ cs) = terminal_puts font (terminal_putc font t c) cs
