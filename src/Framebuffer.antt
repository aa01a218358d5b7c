-- ===== src/Framebuffer.antt =====
-- kernel/src/graphics/framebuffer.c: pixels of 32 bits in the byte memory. The drawing functions
-- take `uint32_t` coordinates; `pitch` and `height` are `uint64_t`.
pub mod Laws
pub mod Tests
use horizon.Common.{
  none, some, [], ◌∷◌, Option, List, ℕ, zero, suc, ◌+◌, ◌-◌, ◌*◌, ◌/◌, ◌^◌, bit_and, Bool, not, ltb,
  ◌==◌, if◌then◌else◌, u32, u64,
}
use horizon.Memory.{memcpy, Mem}
use horizon.Memory.Words.{store32, load32}

pub record Framebuffer : Type 0 where
  pub base : ℕ
  pub backbuffer : ℕ
  pub swapbuffer : ℕ
  pub height : ℕ
  pub width : ℕ
  pub pitch : ℕ

-- The bootloader's `limine_framebuffer`, as far as it is copied; `bpp` is not read again.
pub record LimineFramebuffer : Type 0 where
  pub address : ℕ
  pub height : ℕ
  pub width : ℕ
  pub pitch : ℕ

-- `framebuffers` is none without a response, and an entry none for NULL. No result: `halt()`.
unfoldable pub fb_init : Framebuffer → Option (List (Option LimineFramebuffer)) → Option Framebuffer
fb_init initial_fb none = none
fb_init initial_fb (some []) = none
fb_init initial_fb (some (none ∷ fbs)) = some initial_fb
fb_init initial_fb (some (some fb ∷ fbs)) = some (record initial_fb {
  base = fb.address;
  backbuffer = fb.address;
  height = fb.height;
  width = fb.width;
  pitch = fb.pitch;
})

-- A PSF1 font: the size of a character and the glyphs' bytes.
pub record Font : Type 0 where
  pub character_size : ℕ
  pub glyph : ℕ → ℕ

-- The test of `fb_putpixel` and `fb_getpixel`; `x * 4` is made in 32 bits.
abbrev pub on_screen : Framebuffer → ℕ → ℕ → Bool
on_screen fb x y = ltb (u64 (fb.pitch * y + u32 (x * 4))) (u64 (fb.pitch * fb.height))

-- `((uint32_t *)(fb->backbuffer + (fb->pitch * y)))[x]`
abbrev pub pixel_address : Framebuffer → ℕ → ℕ → ℕ
pixel_address fb x y = fb.backbuffer + fb.pitch * y + x * 4

unfoldable pub fb_putpixel : Framebuffer → Mem → ℕ → ℕ → ℕ → Mem
fb_putpixel fb m x y color = if on_screen fb x y then store32 m (pixel_address fb x y) color else m

unfoldable pub fb_getpixel : Framebuffer → Mem → ℕ → ℕ → ℕ
fb_getpixel fb m x y = if on_screen fb x y then load32 m (pixel_address fb x y) else 0

-- One row of a glyph: its eight bits from the left, from `k` on.
unfoldable pub glyph_row : ℕ → ℕ → Framebuffer → Mem → ℕ → ℕ → ℕ → ℕ → ℕ → Mem
glyph_row zero k fb m bits x y fgcolor bgcolor = m
glyph_row (suc left) k fb m bits x y fgcolor bgcolor =
    let color = if not (bit_and bits (2 ^ (7 - k)) == 0) then fgcolor else bgcolor in
    glyph_row left (k + 1) fb (fb_putpixel fb m (u32 (x + k)) y color) bits x y fgcolor bgcolor

unfoldable pub glyph_rows : ℕ → ℕ → Framebuffer → Font → Mem → ℕ → ℕ → ℕ → ℕ → ℕ → Mem
glyph_rows zero i fb font m offset x y fgcolor bgcolor = m
glyph_rows (suc left) i fb font m offset x y fgcolor bgcolor =
    let row = glyph_row 8 0 fb m (font.glyph (u32 offset + i)) x (u32 (y + i)) fgcolor bgcolor in
    glyph_rows left (i + 1) fb font row offset x y fgcolor bgcolor

unfoldable pub fb_putc : Framebuffer → Font → Mem → ℕ → ℕ → ℕ → ℕ → ℕ → Mem
fb_putc fb font m x y fgcolor bgcolor ch =
    glyph_rows font.character_size 0 fb font m (u32 (ch * font.character_size)) (u32 x) (u32 y)
      fgcolor bgcolor

-- The copy of `fb_refresh`: every pixel that has not the color `background`.
unfoldable pub refresh_loop : ℕ → ℕ → Mem → ℕ → ℕ → ℕ → Mem
refresh_loop zero i m src dst background = m
refresh_loop (suc left) i m src dst background =
    let pixel = load32 m (src + i * 4) in
    refresh_loop left (i + 1)
      (if not (pixel == background) then store32 m (dst + i * 4) pixel else m) src dst background

unfoldable pub fb_refresh : Framebuffer → Mem → ℕ → Mem
fb_refresh fb m background =
    let len = u64 (fb.pitch * fb.height) in
    if not (fb.base == fb.backbuffer)
    then memcpy (refresh_loop (len / 4) 0 m fb.backbuffer fb.swapbuffer background) fb.base
        fb.swapbuffer len
    else m
