-- ===== src/Pmm/Scan.antt =====
-- The loops over the pages of a range, as statements about the set of free pages.
use horizon.Common.{
  ℕ, zero, suc, ◌+◌, ◌*◌, ◌/◌, ◌^◌, ◌≤◌, ◌<◌, ◌≡◌, refl, ap, Bool, true, not, ◌&&◌, arith, ltb, leb,
}
use horizon.Pmm.{page_rounds, mark_used, bitmap_set_loop, bitmap_free_loop, free}
use horizon.Pmm.Pages.{IsBytes, page_free, is_free-page, page_free-mark_used, mark_used-IsBytes}

-- Whether page `q` is one of the `n` pages from `p` on.
abbrev pub in_range : ℕ → ℕ → ℕ → Bool
in_range p n q = leb p q && ltb q (p + n)

-- All `n` pages from `p` on are free.
abbrev pub AllFree : (ℕ → ℕ) → ℕ → ℕ → Type 0
AllFree bitmap p n = (q : ℕ) → p ≤ q → q < p + n → page_free bitmap q ≡ true

-- The range of an allocation request does not run past the address space.
abbrev pub Fits : ℕ → ℕ → Type 0
Fits address n = address + n * 4096 < 2 ^ 64

pub page_rounds-Fits : (address n : ℕ) → Fits address n → page_rounds address n ≡ n
page_rounds-Fits address n h = omega arith

pub bitmap_set_loop-IsBytes :
    (n i : ℕ) (bitmap : ℕ → ℕ) → IsBytes bitmap → IsBytes (bitmap_set_loop n i bitmap)
unfolding bitmap_set_loop
bitmap_set_loop-IsBytes zero i bitmap bytes = bytes
bitmap_set_loop-IsBytes (suc n) i bitmap bytes =
    bitmap_set_loop-IsBytes n (i + 4096) (mark_used i bitmap) (mark_used-IsBytes bitmap i bytes)

pub page_free-bitmap_set_loop :
    (n i : ℕ) (bitmap : ℕ → ℕ) (q : ℕ)
    → IsBytes bitmap
    → page_free (bitmap_set_loop n i bitmap) q
      ≡ (not (in_range (i / 4096) n q) && page_free bitmap q)
unfolding bitmap_set_loop
page_free-bitmap_set_loop zero i bitmap q bytes = ground arith
page_free-bitmap_set_loop (suc n) i bitmap q bytes = ground (
  arith,
  page_free-bitmap_set_loop n (i + 4096) (mark_used i bitmap) q (mark_used-IsBytes bitmap i bytes),
  page_free-mark_used bitmap bytes i q,
)

-- The scan says FREE exactly when all the pages are.
pub bitmap_free_loop-AllFree :
    (n i : ℕ) (bitmap : ℕ → ℕ) → bitmap_free_loop n i bitmap ≡ free → AllFree bitmap (i / 4096) n
unfolding bitmap_free_loop
bitmap_free_loop-AllFree zero i bitmap h q lo hi = absurd (omega arith)
bitmap_free_loop-AllFree (suc n) i bitmap h q lo hi = ground (
  arith,
  is_free-page bitmap i,
  ap (page_free bitmap) {x = q} {y = i / 4096},
  λ (e : bitmap_free_loop n (i + 4096) bitmap ≡ free).
      bitmap_free_loop-AllFree n (i + 4096) bitmap e q,
)

pub AllFree-bitmap_free_loop :
    (n i : ℕ) (bitmap : ℕ → ℕ) → AllFree bitmap (i / 4096) n → bitmap_free_loop n i bitmap ≡ free
unfolding bitmap_free_loop
AllFree-bitmap_free_loop zero i bitmap h = refl
AllFree-bitmap_free_loop (suc n) i bitmap h = ground (
  arith,
  is_free-page bitmap i,
  h (i / 4096),
  AllFree-bitmap_free_loop n (i + 4096) bitmap (λ q lo hi. h q (omega arith) (omega arith)),
)
