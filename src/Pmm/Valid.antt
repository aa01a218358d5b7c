-- ===== src/Pmm/Valid.antt =====
-- The invariant of the physical memory manager, and what `pm_free` and `pm_allocate` do.
use horizon.Common.{
  ℕ, ◌*◌, ◌/◌, ◌^◌, ◌≤◌, ◌<◌, ◌≡◌, ◌↔◌, false, arith, ◌+◌, not, ◌&&◌, zero, suc, refl, ◌⊎◌, inl,
  inr, u64, sub64,
}
use horizon.Pmm.{
  KernelMemInfo, bitmap_free, pm_allocate, sys_ok, sys_err, bitmap_set, free, page_size,
  BitmapStatus, bitmap_set_loop, allocated,
}
use horizon.Pmm.Pages.{IsBytes, page_free}
use horizon.Pmm.Scan.{
  AllFree, Fits, page_rounds-Fits, in_range, page_free-bitmap_set_loop, bitmap_free_loop-AllFree,
  AllFree-bitmap_free_loop, bitmap_set_loop-IsBytes,
}
use horizon.Pmm.Count.{count_free, count_free-le, count_free-bitmap_set_loop}

-- The bitmap describes `pages` pages; `free_size` counts the free ones; what lies behind the
-- bitmap reads as allocated.
pub record IsValid (pages : ℕ) (k : KernelMemInfo) : Type 0 where
  pub bytes : IsBytes k.bitmap
  pub counted : k.free_size ≡ 4096 * count_free k.bitmap pages
  pub bounded : (q : ℕ) → pages ≤ q → page_free k.bitmap q ≡ false
  pub addressable : pages < 2 ^ 52

BitmapStatus-cases : (s : BitmapStatus) → (s ≡ free) ⊎ (s ≡ allocated)
BitmapStatus-cases free = inl refl
BitmapStatus-cases allocated = inr refl

-- The scan of a range says FREE exactly when all its pages are free.
pub bitmap_free-AllFree :
    (k : KernelMemInfo) (address n : ℕ)
    → Fits address n
    → (bitmap_free k address n ≡ free) ↔ AllFree k.bitmap (address / 4096) n
unfolding bitmap_free
bitmap_free-AllFree k address n fits =
    rw (page_rounds-Fits address n fits)
      (bitmap_free_loop-AllFree n address k.bitmap, AllFree-bitmap_free_loop n address k.bitmap)

module _ (k : KernelMemInfo) (address n : ℕ) where
  pub pm_allocate-free : ((pm_allocate k address n).1 ≡ sys_ok) ↔ (bitmap_free k address n ≡ free)
  unfolding pm_allocate
  pm_allocate-free = ground arith

  -- `pm_allocate` on a range that does not run past the address space succeeds exactly when all
  -- its pages are free.
  pub pm_allocate-ok_iff :
      Fits address n → ((pm_allocate k address n).1 ≡ sys_ok) ↔ AllFree k.bitmap (address / 4096) n
  pm_allocate-ok_iff fits = (
    λ h. (bitmap_free-AllFree k address n fits).0 (pm_allocate-free.0 h),
    λ h. pm_allocate-free.1 ((bitmap_free-AllFree k address n fits).1 h),
  )

  -- A failed `pm_allocate` changes nothing.
  pub pm_allocate-err : (pm_allocate k address n).1 ≡ sys_err → (pm_allocate k address n).0 ≡ k
  unfolding pm_allocate
  pm_allocate-err h = ground arith

  -- The bitmap after a successful `pm_allocate`: the pages of the range are taken, no other changes.
  pub page_free-pm_allocate :
      Fits address n
      → IsBytes k.bitmap
      → (pm_allocate k address n).1 ≡ sys_ok
      → (q : ℕ)
      → page_free (pm_allocate k address n).0.bitmap q
        ≡ (not (in_range (address / 4096) n q) && page_free k.bitmap q)
  unfolding pm_allocate bitmap_set
  page_free-pm_allocate fits bytes h q =
      ground (
        arith,
        page_rounds-Fits address n fits,
        page_free-bitmap_set_loop n address k.bitmap q bytes,
      )

-- A free range of a valid bitmap lies below its end.
free_range_below :
    {pages : ℕ} {k : KernelMemInfo} (p n : ℕ)
    → IsValid pages k
    → AllFree k.bitmap p (suc n)
    → p + suc n ≤ pages
free_range_below {pages} p n v all = ground (arith, all (p + n), v.bounded (p + n))

count_taken :
    {pages : ℕ} {k : KernelMemInfo} (address n : ℕ)
    → IsValid pages k
    → AllFree k.bitmap (address / 4096) n
    → count_free (bitmap_set_loop n address k.bitmap) pages + n ≡ count_free k.bitmap pages
unfolding bitmap_set_loop
count_taken address zero v all = omega arith
count_taken {pages} {k} address (suc n) v all =
    count_free-bitmap_set_loop (suc n) address pages k.bitmap v.bytes
      (free_range_below (address / 4096) n v all) all

-- The state after a successful allocation.
taken-IsValid :
    {pages : ℕ} {k : KernelMemInfo} (address n : ℕ)
    → IsValid pages k
    → AllFree k.bitmap (address / 4096) n
    → IsValid pages (record k {
      bitmap = bitmap_set_loop n address k.bitmap;
      free_size = sub64 k.free_size (u64 (n * page_size));
    })
taken-IsValid {pages} {k} address n v all = record {
  bytes = bitmap_set_loop-IsBytes n address k.bitmap v.bytes;
  counted =
      omega (
        arith,
        count_taken address n v all,
        v.counted,
        v.addressable,
        count_free-le k.bitmap pages,
      );
  bounded =
      λ q h. ground (arith, page_free-bitmap_set_loop n address k.bitmap q v.bytes, v.bounded q h);
  addressable = v.addressable;
}

pub pm_allocate_of_free :
    (k : KernelMemInfo) (address n : ℕ)
    → Fits address n
    → bitmap_free k address n ≡ free
    → pm_allocate k address n ≡ (
      record k {
        bitmap = bitmap_set_loop n address k.bitmap;
        free_size = sub64 k.free_size (u64 (n * page_size));
      },
      sys_ok,
    )
unfolding pm_allocate bitmap_set
pm_allocate_of_free k address n fits e = ground (arith, page_rounds-Fits address n fits)

-- `pm_allocate` keeps the invariant, whether it succeeds or not: the count goes down by the pages
-- given out.
pub pm_allocate-IsValid :
    (pages : ℕ) (k : KernelMemInfo) (address n : ℕ)
    → Fits address n
    → IsValid pages k
    → IsValid pages (pm_allocate k address n).0
pm_allocate-IsValid pages k address n fits v = elim (BitmapStatus-cases (bitmap_free k address n)) [
  | inl e ↦
      rw (pm_allocate_of_free k address n fits e)
        (taken-IsValid address n v ((bitmap_free-AllFree k address n fits).0 e))
  | inr e ↦ rw (pm_allocate-err k address n (unfold pm_allocate in ground arith)) v
]
