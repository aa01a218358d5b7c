-- ===== src/Pmm/Free.antt =====
-- `pm_free`, over any number of pages.
use horizon.Common.{
  ℕ, zero, suc, ◌+◌, ◌/◌, ◌≤◌, ◌<◌, ◌≡◌, ◌↔◌, false, ◌||◌, arith, if◌then◌else◌, u64, ap, inl, inr,
  ◌==◌, ==_iff, Bool-cases, refl,
}
use horizon.Pmm.{
  Status, KernelMemInfo, mark_free, bitmap_free_loop, bitmap_free, pm_free_page, pm_free_loop,
  sys_ok, sys_err, pm_free,
}
use horizon.Pmm.Pages.{IsBytes, page_free, is_free-page, page_free-mark_free, mark_free-IsBytes}
use horizon.Pmm.Scan.{in_range, Fits, page_rounds-Fits}
use horizon.Pmm.Count.{count_free-mark_free, count_free-le}
use horizon.Pmm.Valid.{IsValid}

-- All `n` pages from `p` on are taken.
abbrev pub AllUsed : (ℕ → ℕ) → ℕ → ℕ → Type 0
AllUsed bitmap p n = (q : ℕ) → p ≤ q → q < p + n → page_free bitmap q ≡ false

-- The state after one round.
abbrev pub freed : ℕ → KernelMemInfo → KernelMemInfo
freed i k = record k {
  free_size = if page_free k.bitmap (i / 4096) then k.free_size else u64 (k.free_size + 4096);
  bitmap = mark_free i k.bitmap;
}

-- One round, with the bitmap read as a set of pages.
pm_free_page_lem :
    (i : ℕ) (k : KernelMemInfo) (ret : Status)
    → Fits i 1
    → pm_free_page i (k, ret) ≡ (
      record k {
        free_size = if page_free k.bitmap (i / 4096) then k.free_size else u64 (k.free_size + 4096);
        bitmap = mark_free i k.bitmap;
      },
      if page_free k.bitmap (i / 4096) then sys_err else ret,
    )
unfolding pm_free_page bitmap_free bitmap_free_loop
pm_free_page_lem i k ret fits = ground (arith, page_rounds-Fits i 1 fits, is_free-page k.bitmap i)

abbrev pub status_after : ℕ → KernelMemInfo → Status → Status
status_after i k ret = if page_free k.bitmap (i / 4096) then sys_err else ret

pub pm_free_loop-suc :
    (n i : ℕ) (k : KernelMemInfo) (ret : Status)
    → Fits i 1
    → pm_free_loop (suc n) i (k, ret) ≡ pm_free_loop n (i + 4096) (freed i k, status_after i k ret)
unfolding pm_free_loop
pm_free_loop-suc n i k ret fits = ap (pm_free_loop n (i + 4096)) (pm_free_page_lem i k ret fits)

pm_free_page-IsValid :
    {pages : ℕ} (i : ℕ) (k : KernelMemInfo) (ret : Status)
    → Fits i 1
    → i / 4096 < pages
    → IsValid pages k
    → IsValid pages (pm_free_page i (k, ret)).0
pm_free_page-IsValid {pages} i k ret fits below v = rw (pm_free_page_lem i k ret fits) (record {
  bytes = mark_free-IsBytes k.bitmap i v.bytes;
  counted = ground (
    arith,
    count_free-mark_free k.bitmap v.bytes i pages below,
    count_free-le (mark_free i k.bitmap) pages,
    v.counted,
    v.addressable,
  );
  bounded = λ q h. ground (arith, page_free-mark_free k.bitmap v.bytes i q, v.bounded q h);
  addressable = v.addressable;
})

pub pm_free_loop-IsValid :
    {pages : ℕ} (n i : ℕ) (k : KernelMemInfo) (ret : Status)
    → Fits i n
    → i / 4096 + n ≤ pages
    → IsValid pages k
    → IsValid pages (pm_free_loop n i (k, ret)).0
unfolding pm_free_loop
pm_free_loop-IsValid zero i k ret fits below v = v
pm_free_loop-IsValid (suc n) i k ret fits below v =
    let s = pm_free_page i (k, ret) in
    pm_free_loop-IsValid n (i + 4096) (s.0) (s.1) (omega arith) (omega arith)
      (pm_free_page-IsValid i k ret (omega arith) (omega arith) v)

-- The pages after the loop.
pub page_free-pm_free_loop :
    (n i : ℕ) (k : KernelMemInfo) (ret : Status) (q : ℕ)
    → Fits i n
    → IsBytes k.bitmap
    → page_free (pm_free_loop n i (k, ret)).0.bitmap q
      ≡ (in_range (i / 4096) n q || page_free k.bitmap q)
page_free-pm_free_loop zero i k ret q fits bytes = unfold pm_free_loop in ground arith
page_free-pm_free_loop (suc n) i k ret q fits bytes =
    rw (pm_free_loop-suc n i k ret (omega arith)) (
      ground (
        arith,
        page_free-mark_free k.bitmap bytes i q,
        page_free-pm_free_loop n (i + 4096) (freed i k) (status_after i k ret) q (omega arith)
            (mark_free-IsBytes k.bitmap i bytes),
      ))

AllUsed-suc :
    (i n : ℕ) (bitmap : ℕ → ℕ)
    → IsBytes bitmap
    → page_free bitmap (i / 4096) ≡ false
    → AllUsed (mark_free i bitmap) ((i + 4096) / 4096) n
    → AllUsed bitmap (i / 4096) (suc n)
AllUsed-suc i n bitmap bytes first rest q lo hi = elim (Bool-cases (q == i / 4096)) [
  | inl at ↦ rw ((==_iff q (i / 4096)).0 at) first
  | inr off ↦
      ground (arith, page_free-mark_free bitmap bytes i q, rest q (ground arith) (ground arith))
]

AllUsed-tail :
    (i n : ℕ) (bitmap : ℕ → ℕ)
    → IsBytes bitmap
    → AllUsed bitmap (i / 4096) (suc n)
    → AllUsed (mark_free i bitmap) ((i + 4096) / 4096) n
AllUsed-tail i n bitmap bytes all q lo hi =
    ground (arith, page_free-mark_free bitmap bytes i q, all q (omega arith) (omega arith))

-- The status after the loop.
pub pm_free_loop-ok_iff :
    (n i : ℕ) (k : KernelMemInfo) (ret : Status)
    → Fits i n
    → IsBytes k.bitmap
    → ((pm_free_loop n i (k, ret)).1 ≡ sys_ok) ↔ ((ret ≡ sys_ok) × AllUsed k.bitmap (i / 4096) n)
pm_free_loop-ok_iff zero i k ret fits bytes = (
  λ h. (unfold pm_free_loop in h, λ q lo hi. absurd (omega arith)),
  λ h. unfold pm_free_loop in h.0,
)
pm_free_loop-ok_iff (suc n) i k ret fits bytes =
    let ih =
      pm_free_loop-ok_iff n (i + 4096) (freed i k) (status_after i k ret) (omega arith)
        (mark_free-IsBytes k.bitmap i bytes) in
    rw (pm_free_loop-suc n i k ret (omega arith)) (
      λ h.
          let used : page_free k.bitmap (i / 4096) ≡ false = ground (arith, (ih.0 h).0) in
          (ground (arith, (ih.0 h).0), AllUsed-suc i n k.bitmap bytes used (ih.0 h).1),
      λ h. ih.1 (
        ground (arith, h.0, h.1 (i / 4096) (omega arith) (omega arith)),
        AllUsed-tail i n k.bitmap bytes h.1,
      ),
    )

module _ (k : KernelMemInfo) (address n : ℕ) (fits : Fits address n)
    (bytes : IsBytes k.bitmap) where
  -- For a range that does not run past the address space, on a bitmap of bytes: `pm_free` leaves
  -- exactly the pages of the range and those that were free before free, and it returns SYS_OK
  -- exactly when no page of the range was free before (no double free).
  pub pm_free_lem :
      ((q : ℕ)
        → page_free (pm_free k address n).0.bitmap q
          ≡ (in_range (address / 4096) n q || page_free k.bitmap q))
      × (((pm_free k address n).1 ≡ sys_ok) ↔ AllUsed k.bitmap (address / 4096) n)
  unfolding pm_free
  pm_free_lem =
      let iff = pm_free_loop-ok_iff n address k sys_ok fits bytes in
      rw (page_rounds-Fits address n fits) (
        λ q. page_free-pm_free_loop n address k sys_ok q fits bytes,
        (λ h. (iff.0 h).1, λ h. iff.1 (refl, h)),
      )

-- `pm_free` of pages below the end of the bitmap keeps the invariant, double frees included.
pub pm_free-IsValid :
    (pages : ℕ) (k : KernelMemInfo) (address n : ℕ)
    → address / 4096 + n ≤ pages
    → IsValid pages k
    → IsValid pages (pm_free k address n).0
unfolding pm_free
pm_free-IsValid pages k address n below v =
    let fits : Fits address n = omega arith in
    rw (page_rounds-Fits address n fits) (pm_free_loop-IsValid n address k sys_ok fits below v)
