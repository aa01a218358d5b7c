-- ===== src/Pmm/Pages.antt =====
-- The bitmap as a set of free pages: what reading and writing one bit does to it.
use horizon.Common.{ℕ, ◌/◌, ◌%◌, ◌<◌, ◌≡◌, Bool, not, ◌&&◌, ◌||◌, ◌==◌, arith}
use horizon.Pmm.{mark_used, mark_free, is_free}
use horizon.Pmm.Bits.{bit, bit-bit_or, bit-bit_and, bit_or-lt, bit_and-lt}

-- Every byte is one.
abbrev pub IsBytes : (ℕ → ℕ) → Type 0
IsBytes bitmap = (i : ℕ) → bitmap i < 256

-- Whether page number `p` is free.
unfoldable pub page_free : (ℕ → ℕ) → ℕ → Bool
page_free bitmap p = bit (bitmap (p / 8)) (p % 8)

pub is_free-page : (bitmap : ℕ → ℕ) (i : ℕ) → is_free bitmap i ≡ page_free bitmap (i / 4096)
unfolding is_free page_free
is_free-page bitmap i = let e : i / 32768 ≡ i / 4096 / 8 = omega arith in rw e

module _ (bitmap : ℕ → ℕ) (bytes : IsBytes bitmap) (i p : ℕ) where
  pub page_free-mark_used :
      page_free (mark_used i bitmap) p ≡ (not (p == i / 4096) && page_free bitmap p)
  unfolding mark_used page_free
  page_free-mark_used =
      ground (arith, bytes (p / 8), bit-bit_and (i / 4096 % 8) (p % 8) (bitmap (p / 8)))

  pub page_free-mark_free : page_free (mark_free i bitmap) p ≡ (p == i / 4096 || page_free bitmap p)
  unfolding mark_free page_free
  page_free-mark_free =
      ground (arith, bytes (p / 8), bit-bit_or (i / 4096 % 8) (p % 8) (bitmap (p / 8)))

pub mark_used-IsBytes : (bitmap : ℕ → ℕ) (i : ℕ) → IsBytes bitmap → IsBytes (mark_used i bitmap)
unfolding mark_used
mark_used-IsBytes bitmap i bytes p =
    ground (arith, bytes p, bytes (i / 32768), bit_and-lt (i / 4096 % 8) 0 (bitmap (i / 32768)))

pub mark_free-IsBytes : (bitmap : ℕ → ℕ) (i : ℕ) → IsBytes bitmap → IsBytes (mark_free i bitmap)
unfolding mark_free
mark_free-IsBytes bitmap i bytes p =
    ground (arith, bytes p, bytes (i / 32768), bit_or-lt (i / 4096 % 8) 0 (bitmap (i / 32768)))
