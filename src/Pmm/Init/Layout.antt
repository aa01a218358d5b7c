-- ===== src/Pmm/Init/Layout.antt =====
-- What the loops of `pm_init` leave alone of the state besides the bitmap.
use horizon.Common.{ℕ, zero, suc, ◌+◌, ◌≡◌, refl, List, [], ◌∷◌, arith}
use horizon.Pmm.{
  num_pages, KernelMemInfo, Status, page_rounds, pm_free_page, pm_free_loop, pm_free, sys_ok,
}
use horizon.Pmm.Init.{MemmapEntry, scan_entry, scan_entries, free_entry, free_entries, pm_prepare}

free_size-scan_entries :
    (es : List MemmapEntry) (k : KernelMemInfo) → (scan_entries es k).free_size ≡ k.free_size
unfolding scan_entries scan_entry
free_size-scan_entries [] k = refl
free_size-scan_entries (e ∷ es) k = ground (arith, free_size-scan_entries es (scan_entry e k))

pub free_size-pm_prepare :
    (es : List MemmapEntry) (memory : ℕ → ℕ) (k : KernelMemInfo)
    → (pm_prepare es memory k).free_size ≡ 0
unfolding pm_prepare
free_size-pm_prepare es memory k =
    free_size-scan_entries es (record k { free_size = 0; physical_limit = 0; total_size = 0 })

-- `pm_free` moves neither the bitmap nor the limit.
abbrev pub SameLayout : KernelMemInfo → KernelMemInfo → Type 0
SameLayout a b = (a.bitmap_base ≡ b.bitmap_base) × (a.physical_limit ≡ b.physical_limit)

pm_free_page-SameLayout : (i : ℕ) (s : KernelMemInfo × Status) → SameLayout (pm_free_page i s).0 s.0
unfolding pm_free_page
pm_free_page-SameLayout i (k, ret) = ground arith

pm_free_loop-SameLayout :
    (n i : ℕ) (s : KernelMemInfo × Status) → SameLayout (pm_free_loop n i s).0 s.0
unfolding pm_free_loop
pm_free_loop-SameLayout zero i s = (refl, refl)
pm_free_loop-SameLayout (suc n) i s =
    ground
      (arith, pm_free_loop-SameLayout n (i + 4096) (pm_free_page i s), pm_free_page-SameLayout i s)

pub free_entries-SameLayout :
    (es : List MemmapEntry) (k : KernelMemInfo) → SameLayout (free_entries es k) k
unfolding free_entries free_entry pm_free
free_entries-SameLayout [] k = (refl, refl)
free_entries-SameLayout (e ∷ es) k = ground (
  arith,
  free_entries-SameLayout es (free_entry e k),
  pm_free_loop-SameLayout (page_rounds e.base (num_pages e.length)) e.base (k, sys_ok),
)
