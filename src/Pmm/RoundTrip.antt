-- ===== src/Pmm/RoundTrip.antt =====
-- What `pm_get` hands out can be given back, and then the memory is as before.
use horizon.Common.{ℕ, ◌+◌, ◌/◌, ◌≤◌, ◌≡◌, arith, ◌-◌, ◌*◌, ◌^◌, ◌<◌, ap, subst}
use horizon.Pmm.{KernelMemInfo, pm_free, pm_allocate, sys_ok, pm_get, got}
use horizon.Pmm.Pages.{IsBytes, page_free}
use horizon.Pmm.Scan.{Fits}
use horizon.Pmm.Count.{count_free_ext}
use horizon.Pmm.Valid.{IsValid, pm_allocate-ok_iff, page_free-pm_allocate, pm_allocate-IsValid}
use horizon.Pmm.Free.{AllUsed, pm_free_lem, pm_free-IsValid}
use horizon.Pmm.Get.{pm_get-FirstFit, FirstFit}

-- The same set of free pages, as many bytes free.
pub record SameMemory (a b : KernelMemInfo) : Type 0 where
  pub same_pages : (q : ℕ) → page_free a.bitmap q ≡ page_free b.bitmap q
  pub same_free_size : a.free_size ≡ b.free_size

-- Two valid states with the same pages agree on the free bytes.
SameMemory-pages :
    {pages : ℕ} {a b : KernelMemInfo}
    → IsValid pages a
    → IsValid pages b
    → ((q : ℕ) → page_free a.bitmap q ≡ page_free b.bitmap q)
    → SameMemory a b
SameMemory-pages {pages} {a} {b} va vb same = record {
  same_pages = same;
  same_free_size =
      ground
        (arith, va.counted, vb.counted, count_free_ext a.bitmap b.bitmap pages (λ q lt. same q));
}

AllUsed-taken :
    (k : KernelMemInfo) (address n : ℕ)
    → Fits address n
    → IsBytes k.bitmap
    → (pm_allocate k address n).1 ≡ sys_ok
    → AllUsed (pm_allocate k address n).0.bitmap (address / 4096) n
AllUsed-taken k address n fits bytes ok q lo hi =
    ground (arith, page_free-pm_allocate k address n fits bytes ok q)

-- A non-empty range that was allocated lies below the end of the bitmap.
pub pm_allocate-below :
    (pages : ℕ) (k : KernelMemInfo) (address n : ℕ)
    → Fits address n
    → 0 < n
    → IsValid pages k
    → (pm_allocate k address n).1 ≡ sys_ok
    → address / 4096 + n ≤ pages
pm_allocate-below pages k address n fits some_page v ok =
    let last : ℕ = address / 4096 + (n - 1) in
    ground (
      arith,
      (pm_allocate-ok_iff k address n fits).0 ok last (omega arith) (omega arith),
      v.bounded last,
    )

module _ (pages : ℕ) (k : KernelMemInfo) (address n : ℕ) (fits : Fits address n)
    (below : address / 4096 + n ≤ pages) (v : IsValid pages k)
    (ok : (pm_allocate k address n).1 ≡ sys_ok) where
  -- `pm_free` of a range that `pm_allocate` has just taken succeeds, and gives
  -- back the same free pages and `free_size`.
  pub pm_free-pm_allocate :
      let k' = (pm_allocate k address n).0 in
      ((pm_free k' address n).1 ≡ sys_ok) × SameMemory (pm_free k' address n).0 k
  pm_free-pm_allocate =
      let v' = pm_allocate-IsValid pages k address n fits v in
      let k' = (pm_allocate k address n).0 in
      let lem = pm_free_lem k' address n fits v'.bytes in
      (
        lem.1.1 (AllUsed-taken k address n fits v.bytes ok),
        SameMemory-pages (pm_free-IsValid pages k' address n below v') v (λ q. ground (
          arith,
          lem.0 q,
          page_free-pm_allocate k address n fits v.bytes ok q,
          (pm_allocate-ok_iff k address n fits).0 ok q,
        )),
      )

-- On a valid state, and for a request of at least one page that cannot run past the address space:
-- when `pm_get` hands out a range, `pm_free` of that range succeeds and gives back the same free
-- pages and the same `free_size`; and the invariant holds in between.
pub pm_free-pm_get :
    (pages : ℕ) (k k' : KernelMemInfo) (n start address : ℕ)
    → IsValid pages k
    → 0 < n
    → k.physical_limit + n * 4096 ≤ 2 ^ 64
    → pm_get k n start ≡ got address k'
    → IsValid pages k' × ((pm_free k' address n).1 ≡ sys_ok) × SameMemory (pm_free k' address n).0 k
pm_free-pm_get pages k k' n start address v some_page small h =
    let found : FirstFit k n start (got address k') =
      rw h at (pm_get-FirstFit k n start (omega arith)) in
    let fits : Fits address n = omega arith in
    let state : (pm_allocate k address n).0 ≡ k' = ap (λ s. s.0) found.2 in
    let status : (pm_allocate k address n).1 ≡ sys_ok = ap (λ s. s.1) found.2 in
    let below = pm_allocate-below pages k address n fits some_page v status in
    let back = pm_free-pm_allocate pages k address n fits below v status in
    subst
      (λ s.
        IsValid pages s × ((pm_free s address n).1 ≡ sys_ok) × SameMemory (pm_free s address n).0 k)
      state (pm_allocate-IsValid pages k address n fits v, back.0, back.1)
