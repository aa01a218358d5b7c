-- ===== src/Pmm/Count.antt =====
-- How many of the first pages are free.
use horizon.Common.{
  ℕ, zero, suc, ◌+◌, ◌/◌, ◌≤◌, ◌<◌, ◌≡◌, refl, arith, if◌then◌else◌, ap, inl, inr, ◌==◌, Bool-cases,
}
use horizon.Pmm.{mark_used, mark_free, bitmap_set_loop}
use horizon.Pmm.Scan.{AllFree}
use horizon.Pmm.Pages.{
  IsBytes, page_free, page_free-mark_used, page_free-mark_free, mark_used-IsBytes,
}

unfoldable pub count_free : (ℕ → ℕ) → ℕ → ℕ
count_free bitmap zero = 0
count_free bitmap (suc p) = (if page_free bitmap p then 1 else 0) + count_free bitmap p

pub count_free-le : (bitmap : ℕ → ℕ) (n : ℕ) → count_free bitmap n ≤ n
unfolding count_free
count_free-le bitmap zero = omega arith
count_free-le bitmap (suc n) = ground (arith, count_free-le bitmap n)

-- Two bitmaps that agree below `n` have the same count.
pub count_free_ext :
    (a b : ℕ → ℕ) (n : ℕ)
    → ((q : ℕ) → q < n → page_free a q ≡ page_free b q)
    → count_free a n ≡ count_free b n
unfolding count_free
count_free_ext a b zero h = refl
count_free_ext a b (suc n) h =
    rw (h n (omega arith), count_free_ext a b n (λ q lt. h q (omega arith)))

module _ (bitmap : ℕ → ℕ) (bytes : IsBytes bitmap) (i : ℕ) where
  pub count_free-mark_free :
      (n : ℕ)
      → i / 4096 < n
      → count_free (mark_free i bitmap) n
        ≡ count_free bitmap n + (if page_free bitmap (i / 4096) then 0 else 1)
  unfolding count_free
  count_free-mark_free zero h = absurd (omega arith)
  count_free-mark_free (suc n) h = elim (Bool-cases (i / 4096 == n)) [
    | inl at ↦ ground (
      arith,
      page_free-mark_free bitmap bytes i n,
      count_free_ext (mark_free i bitmap) bitmap n
          (λ q lt. ground (arith, page_free-mark_free bitmap bytes i q)),
      ap (page_free bitmap) {x = n} {y = i / 4096},
    )
    | inr off ↦
        ground (arith, page_free-mark_free bitmap bytes i n, count_free-mark_free n (ground arith))
  ]

  pub count_free-mark_used :
      (n : ℕ)
      → i / 4096 < n
      → count_free (mark_used i bitmap) n + (if page_free bitmap (i / 4096) then 1 else 0)
        ≡ count_free bitmap n
  unfolding count_free
  count_free-mark_used zero h = absurd (omega arith)
  count_free-mark_used (suc n) h = elim (Bool-cases (i / 4096 == n)) [
    | inl at ↦ ground (
      arith,
      page_free-mark_used bitmap bytes i n,
      count_free_ext (mark_used i bitmap) bitmap n
          (λ q lt. ground (arith, page_free-mark_used bitmap bytes i q)),
      ap (page_free bitmap) {x = n} {y = i / 4096},
    )
    | inr off ↦
        ground (arith, page_free-mark_used bitmap bytes i n, count_free-mark_used n (ground arith))
  ]

-- Marking a free range used takes its pages off the count.
pub count_free-bitmap_set_loop :
    (n i limit : ℕ) (bitmap : ℕ → ℕ)
    → IsBytes bitmap
    → i / 4096 + n ≤ limit
    → AllFree bitmap (i / 4096) n
    → count_free (bitmap_set_loop n i bitmap) limit + n ≡ count_free bitmap limit
unfolding bitmap_set_loop
count_free-bitmap_set_loop zero i limit bitmap bytes fits all = omega arith
count_free-bitmap_set_loop (suc n) i limit bitmap bytes fits all = ground (
  arith,
  count_free-bitmap_set_loop n (i + 4096) limit (mark_used i bitmap)
      (mark_used-IsBytes bitmap i bytes) (omega arith)
      (λ q lo hi.
        ground (arith, page_free-mark_used bitmap bytes i q, all q (omega arith) (omega arith))),
  count_free-mark_used bitmap bytes i limit (omega arith),
  all (i / 4096) (omega arith) (omega arith),
)
