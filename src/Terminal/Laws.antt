-- ===== src/Terminal/Laws.antt =====
-- The cursor stays on the columns of the terminal.
use horizon.Common.{
  ℕ, none, some, [], ◌∷◌, ◌≤◌, ◌<◌, ◌≡◌, refl, Option, List, arith, inl, inr, ◌==◌, Bool-cases,
}
use horizon.Terminal.{
  draw_at_cursor, terminal_scroll, terminal_putc, terminal_push_cursor, terminal_puts,
  terminal_pop_cursor, TermState,
}
use horizon.Framebuffer.{Font}

-- The cursor stands right of the left offset and left of the width.
abbrev pub InColumns : TermState → Type 0
InColumns t = (3 ≤ t.columns) × (1 ≤ t.cursor_x) × (t.cursor_x < t.columns)

terminal_scroll-cursor :
    (font : Option Font) (t : TermState)
    → ((terminal_scroll font t).columns ≡ t.columns)
      × ((terminal_scroll font t).cursor_x ≡ t.cursor_x)
unfolding terminal_scroll
terminal_scroll-cursor none t = (refl, refl)
terminal_scroll-cursor (some font) t = (refl, refl)

terminal_push_cursor-InColumns :
    (font : Option Font) (t : TermState) → InColumns t → InColumns (terminal_push_cursor font t)
unfolding terminal_push_cursor
terminal_push_cursor-InColumns font t inside = ground (arith, terminal_scroll-cursor font t)

terminal_pop_cursor-InColumns : (t : TermState) → InColumns t → InColumns (terminal_pop_cursor t)
unfolding terminal_pop_cursor
terminal_pop_cursor-InColumns t inside = ground arith

terminal_putc-InColumns :
    (font : Option Font) (t : TermState) (c : ℕ) → InColumns t → InColumns (terminal_putc font t c)
unfolding terminal_putc draw_at_cursor
terminal_putc-InColumns none t c inside = ground arith
terminal_putc-InColumns (some font) t c inside = elim (Bool-cases (c == 10)) [
  | inl newline ↦ rw newline (ground arith)
  | inr drawn ↦ elim (Bool-cases (c == 8)) [
    | inl back ↦ rw (drawn, back) (terminal_pop_cursor-InColumns t inside)
    | inr forth ↦
        rw (drawn, forth)
          (terminal_push_cursor-InColumns (some font) (draw_at_cursor font t c) inside)
  ]
]

-- On a terminal at least three columns wide whose cursor stands on a column from 1 on, printing any
-- string keeps the cursor on a column from 1 to below the width.
pub terminal_puts-InColumns :
    (font : Option Font) (t : TermState) (s : List ℕ)
    → InColumns t
    → InColumns (terminal_puts font t s)
unfolding terminal_puts
terminal_puts-InColumns font t [] inside = inside
terminal_puts-InColumns font t (c ∷ cs) inside =
    terminal_puts-InColumns font (terminal_putc font t c) cs
      (terminal_putc-InColumns font t c inside)
