-- ===== src/Kmalloc/Frame.antt =====
-- The heap in terms of pages: what a call leaves of the pages in use.
use horizon.Common.{
  ℕ, ◌+◌, ◌*◌, ◌/◌, ◌%◌, ◌^◌, ◌≤◌, ◌<◌, ◌≡◌, sym, ap, subst, ◌∙◌, Bool, true, false, not, ◌&&◌,
  arith, ◌-◌,
}
use horizon.Kmalloc.{ok, halted, no_fuel, Machine, Run, kmalloc_impl}
use horizon.Pmm.{got, sys_ok, num_pages, KernelMemInfo, pm_allocate, pm_get}
use horizon.Pmm.Pages.{page_free}
use horizon.Kmalloc.Header.{Describes}
use horizon.Pmm.Init.{phys_to_virt}
use horizon.Pmm.Valid.{page_free-pm_allocate, pm_allocate-IsValid, pm_allocate-ok_iff, IsValid}
use horizon.Pmm.Scan.{Fits, in_range}
use horizon.Pmm.Get.{pm_get-FirstFit, FirstFit}
use horizon.Pmm.RoundTrip.{pm_allocate-below}
use horizon.Pmm.Limit.{physical_limit-pm_allocate}
use horizon.Kmalloc.Laws.{Kmalloced, Allocation, kmalloc_impl-Kmalloced}
use horizon.Memory.Laws.{within}

-- Where the kernel sees page `q`.
abbrev pub page_address : ℕ → ℕ
page_address q = phys_to_virt (q * 4096)

abbrev pub InPage : ℕ → ℕ → Type 0
InPage q x = (page_address q ≤ x) × (x < page_address q + 4096)

-- A valid memory manager, of physical memory below 2^46 and a bitmap for no more.
pub record IsSafe (pages : ℕ) (m : Machine) : Type 0 where
  pub valid : IsValid pages m.kmem
  pub limit : m.kmem.physical_limit < 2 ^ 46
  pub few : pages ≤ 2 ^ 34

abbrev pub IsUsed : Machine → ℕ → Type 0
IsUsed m q = page_free m.kmem.bitmap q ≡ false

-- A live block whose metadata are on page `b`.
pub record IsLive (pages : ℕ) (m : Machine) (b size : ℕ) : Type 0 where
  pub described : Describes m.byte (page_address b) size
  pub used : (q : ℕ) → in_range b (num_pages size + 1) q ≡ true → IsUsed m q
  pub below : b + num_pages size + 1 ≤ pages
  pub low : (b < 2 ^ 34) × (size < 2 ^ 50)

-- Pages in use that are not lost stay in use and keep their bytes.
abbrev pub Kept : (ℕ → Bool) → Machine → Machine → Type 0
Kept lost m m' =
    (q : ℕ)
    → q < 2 ^ 34
    → IsUsed m q
    → lost q ≡ false
    → IsUsed m' q × ((x : ℕ) → InPage q x → m'.byte x ≡ m.byte x)

abbrev pub nothing : ℕ → Bool
nothing q = false

-- A block that `kmalloc` has made at page `page`, out of free pages.
pub record Fresh (pages : ℕ) (m : Machine) (size p : ℕ) (m' : Machine) : Type 0 where
  pub page : ℕ
  pub place : p ≡ page_address page + 4096
  pub safe : IsSafe pages m'
  pub live : IsLive pages m' page size
  pub kept : Kept nothing m m'
  pub zero_bytes : (x : ℕ) → within p size x ≡ true → m'.byte x ≡ 0
  pub was_free :
      (q : ℕ) → in_range page (num_pages size + 1) q ≡ true → page_free m.kmem.bitmap q ≡ true

abbrev pub KmallocedFresh : ℕ → Machine → ℕ → Run ℕ → Type 0
KmallocedFresh pages m size (ok p m') = Fresh pages m size p m'
KmallocedFresh pages m size halted = Unit
KmallocedFresh pages m size no_fuel = ⊥

-- The pages that `pm_get` hands out.
pub record Handed (pages : ℕ) (k k' : KernelMemInfo) (n at : ℕ) : Type 0 where
  pub aligned : at % 4096 ≡ 0
  pub low : at < 2 ^ 46
  pub inside : at / 4096 + n ≤ pages
  pub valid : IsValid pages k'
  pub same_limit : k'.physical_limit ≡ k.physical_limit
  pub were_free : (q : ℕ) → in_range (at / 4096) n q ≡ true → page_free k.bitmap q ≡ true
  pub now :
      (q : ℕ) → page_free k'.bitmap q ≡ (not (in_range (at / 4096) n q) && page_free k.bitmap q)

pub pm_get-Handed :
    (pages : ℕ) (k k' : KernelMemInfo) (n at : ℕ)
    → IsValid pages k
    → k.physical_limit < 2 ^ 46
    → 0 < n
    → n < 2 ^ 50
    → pm_get k n 0 ≡ got at k'
    → Handed pages k k' n at
pm_get-Handed pages k k' n at v limit some_page few e =
    let found : FirstFit k n 0 (got at k') =
      subst (FirstFit k n 0) e (pm_get-FirstFit k n 0 (omega arith)) in
    let fits : Fits at n = omega (arith, found.1) in
    let state : (pm_allocate k at n).0 ≡ k' = ap (λ s. s.0) found.2 in
    let status : (pm_allocate k at n).1 ≡ sys_ok = ap (λ s. s.1) found.2 in
    let free_before = (pm_allocate-ok_iff k at n fits).0 status in
    record {
      aligned = omega (arith, found.0);
      low = omega (arith, found.1);
      inside = pm_allocate-below pages k at n fits some_page v status;
      valid = subst (IsValid pages) state (pm_allocate-IsValid pages k at n fits v);
      same_limit = ap (λ s. s.physical_limit) (sym state) ∙ physical_limit-pm_allocate k at n;
      were_free = λ q inside. free_before q (ground arith) (ground arith);
      now = λ q.
          subst
            (λ s. page_free s.bitmap q ≡ (not (in_range (at / 4096) n q) && page_free k.bitmap q))
            state (page_free-pm_allocate k at n fits v.bytes status q);
    }

allocated-Fresh :
    (pages : ℕ) (m : Machine) (size p : ℕ) (m' : Machine)
    → IsSafe pages m
    → size < 2 ^ 50
    → Allocation m size p m'
    → Fresh pages m size p m'
allocated-Fresh pages m size p m' s small a =
    let h : Handed pages m.kmem m'.kmem (num_pages size + 1) a.at =
      pm_get-Handed pages m.kmem m'.kmem (num_pages size + 1) a.at s.valid s.limit (omega arith)
        (omega arith) a.found in
    let here : p - 4096 ≡ page_address (a.at / 4096) = omega (arith, a.place, h.aligned, h.low) in
    record {
      page = a.at / 4096;
      place = omega (arith, a.place, h.aligned);
      safe = record { few = s.few; valid = h.valid; limit = omega (arith, h.same_limit, s.limit) };
      live = record {
        described = subst (λ x. Describes m'.byte x size) here a.block.described;
        used = λ q inside. ground (arith, h.now q);
        below = omega (arith, h.inside);
        low = (omega (arith, h.low), small);
      };
      kept = λ q low used kept. (
        ground (arith, h.now q, used),
        λ x inside. a.block.rest_kept x (ground (arith, here, used, h.were_free q, h.low)),
      );
      zero_bytes = a.block.zero_bytes;
      was_free = h.were_free;
    }

fresh_outcome :
    (pages : ℕ) (m : Machine) (size : ℕ) (r : Run ℕ)
    → IsSafe pages m
    → size < 2 ^ 50
    → Kmalloced m size r
    → KmallocedFresh pages m size r
fresh_outcome pages m size (ok p m') s small a = allocated-Fresh pages m size p m' s small a
fresh_outcome pages m size halted s small a = tt
fresh_outcome pages m size no_fuel s small a =
    subst (FirstFit m.kmem (num_pages size + 1) 0) a
      (pm_get-FirstFit m.kmem (num_pages size + 1) 0 (omega (arith, s.limit)))

-- `kmalloc` on a safe machine makes a block out of free pages, and keeps the pages in use and their
-- bytes; or it halts the system.
pub kmalloc_impl-Fresh :
    (pages : ℕ) (m : Machine) (size func line : ℕ)
    → IsSafe pages m
    → size < 2 ^ 50
    → KmallocedFresh pages m size (kmalloc_impl m size func line)
kmalloc_impl-Fresh pages m size func line s small =
    fresh_outcome pages m size (kmalloc_impl m size func line) s small
      (kmalloc_impl-Kmalloced m size func line (omega arith))
