-- ===== src/Pmm/Limit.antt =====
-- No operation on pages changes the physical limit.
use horizon.Common.{ℕ, zero, suc, ◌+◌, ◌*◌, ◌≡◌, refl, ◌∙◌, u64, sub64}
use horizon.Pmm.{
  sys_ok, sys_err, free, allocated, page_size, Status, BitmapStatus, KernelMemInfo, page_rounds,
  bitmap_set, bitmap_free, count_page, pm_free_page, pm_free_loop, pm_free, pm_allocate,
}

pub physical_limit-pm_allocate :
    (k : KernelMemInfo) (address n : ℕ)
    → (pm_allocate k address n).0.physical_limit ≡ k.physical_limit
unfolding pm_allocate bitmap_set
physical_limit-pm_allocate k address n =
    elim (bitmap_free k address n)
      as (λ s.
        (elim s as (λ s. KernelMemInfo × Status) [
          | allocated ↦ (k, sys_err)
          | free ↦ (
            record (bitmap_set k address n) { free_size = sub64 k.free_size (u64 (n * page_size)) },
            sys_ok,
          )
        ]).0.physical_limit
        ≡ k.physical_limit) [ allocated ↦ refl | free ↦ refl ]

count_page-limit :
    (s : BitmapStatus) (k : KernelMemInfo) (ret : Status)
    → (count_page s (k, ret)).0.physical_limit ≡ k.physical_limit
unfolding count_page
count_page-limit allocated k ret = refl
count_page-limit free k ret = refl

pm_free_loop-limit :
    (n i : ℕ) (s : KernelMemInfo × Status)
    → (pm_free_loop n i s).0.physical_limit ≡ s.0.physical_limit
unfolding pm_free_loop pm_free_page
pm_free_loop-limit zero i s = refl
pm_free_loop-limit (suc n) i (k, ret) =
    pm_free_loop-limit n (i + 4096) (pm_free_page i (k, ret))
    ∙ count_page-limit (bitmap_free k i 1) k ret

pub physical_limit-pm_free :
    (k : KernelMemInfo) (address n : ℕ) → (pm_free k address n).0.physical_limit ≡ k.physical_limit
unfolding pm_free
physical_limit-pm_free k address n = pm_free_loop-limit (page_rounds address n) address (k, sys_ok)
