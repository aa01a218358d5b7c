-- ===== src/Framebuffer/Laws.antt =====
-- Drawing stays on the screen, and a pixel that was drawn is read back.
use horizon.Common.{
  ◌∙◌, ℕ, ◌+◌, ◌*◌, ◌%◌, ◌^◌, ◌≤◌, ◌<◌, ◌≡◌, refl, ap, ◌≢◌, inl, inr, Bool, true, false, arith,
  if◌then◌else◌, Bool-cases,
}
use horizon.Framebuffer.{pixel_address, fb_getpixel, on_screen, fb_putpixel, Framebuffer}
use horizon.Memory.Laws.{within}
use horizon.Memory.{Mem}
use horizon.Memory.Words.{load32-store32, load32-store32_apart, store32_other}

-- A screen whose rows are whole pixels, and whose bytes are numbered by 64 bits.
pub record IsScreen (fb : Framebuffer) : Type 0 where
  pub row : ℕ
  pub whole_pixels : fb.pitch ≡ 4 * row
  pub addressable : fb.pitch * fb.height < 2 ^ 63

-- A byte of the screen.
abbrev pub in_screen : Framebuffer → ℕ → Bool
in_screen fb q = within fb.backbuffer (fb.pitch * fb.height) q

four_times : (r y : ℕ) → 4 * r * y ≡ 4 * (r * y)
four_times r y = grind arith

-- The four bytes of a pixel that passes the test lie on the screen.
pixel_inside :
    (fb : Framebuffer) (x y : ℕ)
    → IsScreen fb
    → x < 2 ^ 30
    → fb.pitch * y < 2 ^ 63
    → on_screen fb x y ≡ true
    → fb.pitch * y + x * 4 + 4 ≤ fb.pitch * fb.height
pixel_inside fb x y s narrow low on =
    let e1 : fb.pitch * y ≡ 4 * (s.row * y) = ap (λ p. p * y) s.whole_pixels ∙ four_times s.row y in
    let e2 : fb.pitch * fb.height ≡ 4 * (s.row * fb.height) =
      ap (λ p. p * fb.height) s.whole_pixels ∙ four_times s.row fb.height in
    ground (arith, e1, e2, s.addressable)

-- `fb_putpixel` with an x below 2^30 and a row that does not run past 2^63 writes no byte outside
-- the screen, whatever the coordinates; and where it writes, `fb_getpixel` reads the color back.
pub fb_putpixel_lem :
    (fb : Framebuffer) (m : Mem) (x y color : ℕ)
    → IsScreen fb
    → x < 2 ^ 30
    → fb.pitch * y < 2 ^ 63
    → ((q : ℕ) → in_screen fb q ≡ false → fb_putpixel fb m x y color q ≡ m q)
      × (fb_getpixel fb (fb_putpixel fb m x y color) x y
          ≡ (if on_screen fb x y then color % 2 ^ 32 else 0))
unfolding fb_putpixel fb_getpixel
fb_putpixel_lem fb m x y color s narrow low = elim (Bool-cases (on_screen fb x y)) [
  | inl on ↦ rw on (
    λ q out.
        let i = pixel_inside fb x y s narrow low on in
        store32_other m (pixel_address fb x y) color q (ground (arith, i)),
    load32-store32 m (pixel_address fb x y) color,
  )
  | inr off ↦ rw off (λ q out. refl, refl)
]

-- Two pixels in different columns of one row do not touch each other.
pub fb_getpixel-fb_putpixel :
    (fb : Framebuffer) (m : Mem) (x x' y color : ℕ)
    → x ≢ x'
    → fb_getpixel fb (fb_putpixel fb m x y color) x' y ≡ fb_getpixel fb m x' y
unfolding fb_putpixel fb_getpixel
fb_getpixel-fb_putpixel fb m x x' y color differ = elim (Bool-cases (on_screen fb x y)) [
  | inl on ↦ rw on (
      ap (λ w. if on_screen fb x' y then w else 0)
        (load32-store32_apart m (pixel_address fb x y) color (pixel_address fb x' y)
          (ground arith)))
  | inr off ↦ rw off refl
]
