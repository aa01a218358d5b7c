-- ===== src/Pmm/Init/Behind.antt =====
-- What `pm_free` and `pm_allocate` leave alone: the bytes behind the pages that they work on.
use horizon.Common.{ℕ, zero, suc, ◌+◌, ◌*◌, ◌/◌, ◌^◌, ◌≤◌, ◌<◌, ◌≡◌, ◌∙◌, refl, arith}
use horizon.Pmm.{
  KernelMemInfo, Status, mark_free, mark_used, bitmap_set_loop, pm_free_loop, pm_free, sys_ok,
}
use horizon.Pmm.Pages.{IsBytes, mark_free-IsBytes}
use horizon.Pmm.Count.{count_free, count_free-mark_free, count_free-le}
use horizon.Pmm.Scan.{Fits, page_rounds-Fits}
use horizon.Pmm.Free.{freed, status_after, pm_free_loop-suc}

-- The part of the invariant that asks nothing of what lies behind the bitmap.
pub record IsCounted (pages : ℕ) (k : KernelMemInfo) : Type 0 where
  pub bytes : IsBytes k.bitmap
  pub counted : k.free_size ≡ 4096 * count_free k.bitmap pages

-- The bytes from `size` on.
abbrev pub SameBehind : ℕ → (ℕ → ℕ) → (ℕ → ℕ) → Type 0
SameBehind size a b = (q : ℕ) → size ≤ q → a q ≡ b q

mark_free-SameBehind :
    (size i : ℕ) (bitmap : ℕ → ℕ)
    → i / 4096 < size * 8
    → SameBehind size (mark_free i bitmap) bitmap
unfolding mark_free
mark_free-SameBehind size i bitmap below q at = ground arith

mark_used-SameBehind :
    (size i : ℕ) (bitmap : ℕ → ℕ)
    → i / 4096 < size * 8
    → SameBehind size (mark_used i bitmap) bitmap
unfolding mark_used
mark_used-SameBehind size i bitmap below q at = ground arith

pub bitmap_set_loop-SameBehind :
    (size n i : ℕ) (bitmap : ℕ → ℕ)
    → i / 4096 + n ≤ size * 8
    → SameBehind size (bitmap_set_loop n i bitmap) bitmap
unfolding bitmap_set_loop
bitmap_set_loop-SameBehind size zero i bitmap below q at = refl
bitmap_set_loop-SameBehind size (suc n) i bitmap below q at =
    bitmap_set_loop-SameBehind size n (i + 4096) (mark_used i bitmap) (omega arith) q at
    ∙ mark_used-SameBehind size i bitmap (omega arith) q at

freed-IsCounted :
    {pages : ℕ} (i : ℕ) (k : KernelMemInfo)
    → i / 4096 < pages
    → pages < 2 ^ 52
    → IsCounted pages k
    → IsCounted pages (freed i k)
freed-IsCounted {pages} i k below small c = record {
  bytes = mark_free-IsBytes k.bitmap i c.bytes;
  counted = ground (
    arith,
    count_free-mark_free k.bitmap c.bytes i pages below,
    count_free-le (mark_free i k.bitmap) pages,
    c.counted,
  );
}

-- What `pm_free` does within the described pages, whatever lies behind them.
abbrev pub FreedWithin : ℕ → KernelMemInfo → KernelMemInfo → Type 0
FreedWithin size k k' = IsCounted (size * 8) k' × SameBehind size k'.bitmap k.bitmap

pm_free_loop-FreedWithin :
    (size n i : ℕ) (k : KernelMemInfo) (ret : Status)
    → Fits i n
    → i / 4096 + n ≤ size * 8
    → size * 8 < 2 ^ 52
    → IsCounted (size * 8) k
    → FreedWithin size k (pm_free_loop n i (k, ret)).0
pm_free_loop-FreedWithin size zero i k ret fits below small c =
    unfold pm_free_loop in (c, λ q at. refl)
pm_free_loop-FreedWithin size (suc n) i k ret fits below small c =
    let rest =
      pm_free_loop-FreedWithin size n (i + 4096) (freed i k) (status_after i k ret) (omega arith)
        (omega arith) small (freed-IsCounted i k (omega arith) small c) in
    rw (pm_free_loop-suc n i k ret (omega arith))
      (rest.0, λ q at. rest.1 q at ∙ mark_free-SameBehind size i k.bitmap (omega arith) q at)

pub pm_free-FreedWithin :
    (size : ℕ) (k : KernelMemInfo) (address n : ℕ)
    → address / 4096 + n ≤ size * 8
    → size * 8 < 2 ^ 52
    → IsCounted (size * 8) k
    → FreedWithin size k (pm_free k address n).0
unfolding pm_free
pm_free-FreedWithin size k address n below small c =
    let fits : Fits address n = omega arith in
    rw (page_rounds-Fits address n fits)
      (pm_free_loop-FreedWithin size n address k sys_ok fits below small c)
