-- ===== src/Pmm/Init/Laws.antt =====
-- The bitmap that `pm_init` builds, whatever the memory held before.
use horizon.Common.{
  ℕ, zero, suc, ◌+◌, ◌*◌, ◌/◌, ◌%◌, ◌^◌, ◌≤◌, ◌<◌, ◌≡◌, ◌∙◌, refl, Bool, true, false, not, List, [],
  ◌∷◌, arith, passes, passes_at, inl, inr, ◌&&◌, ◌||◌, some, Bool-cases, if◌then◌else◌, sym, subst,
  ltb,
}
use horizon.Pmm.{num_pages, KernelMemInfo, pm_allocate}
use horizon.Pmm.Init.{
  MemmapEntry, is_usable, bitmap_size, clear_bitmap, free_entry, free_entries, pm_prepare,
  virt_to_phys, high_memory, pm_init,
}
use horizon.Pmm.Init.Behind.{IsCounted, SameBehind, pm_free-FreedWithin, bitmap_set_loop-SameBehind}
use horizon.Pmm.Init.Layout.{free_size-pm_prepare, free_entries-SameLayout}
use horizon.Pmm.Init.Place.{
  IsLaidOut, IsPlaced, covered, has_room, place_bitmap-IsPlaced, pages_below,
}
use horizon.Pmm.Valid.{pm_allocate_of_free, bitmap_free-AllFree}
use horizon.Pmm.Bits.{bit}
use horizon.Pmm.Count.{count_free, count_free-le, count_free-bitmap_set_loop}
use horizon.Pmm.Pages.{page_free}
use horizon.Pmm.Free.{pm_free_lem}
use horizon.Pmm.Scan.{Fits, AllFree, in_range, page_free-bitmap_set_loop, bitmap_set_loop-IsBytes}

no_bits : passes (λ j. not (bit 0 j)) 8 ≡ true
unfolding passes
no_bits = refl

-- A byte that is zero has no page free.
pub page_free_of_zero : (bitmap : ℕ → ℕ) (q : ℕ) → bitmap (q / 8) ≡ 0 → page_free bitmap q ≡ false
unfolding page_free
page_free_of_zero bitmap q e =
    rw e (ground (arith, passes_at (λ j. not (bit 0 j)) {bound = 8} (q % 8) (omega arith) no_bits))

count_free_of_none :
    (bitmap : ℕ → ℕ) (n : ℕ)
    → ((q : ℕ) → q < n → page_free bitmap q ≡ false)
    → count_free bitmap n ≡ 0
unfolding count_free
count_free_of_none bitmap zero h = refl
count_free_of_none bitmap (suc n) h =
    rw (h n (omega arith), count_free_of_none bitmap n (λ q lt. h q (omega arith)))

-- The pages that a prepared bitmap describes, eight to a byte.
abbrev pub described : KernelMemInfo → ℕ
described k = bitmap_size k * 8

-- A bitmap of `size` bytes of which `shown` says the free pages, with what `memory` holds behind it.
pub record Shows (size : ℕ) (shown : ℕ → Bool) (memory : ℕ → ℕ) (k : KernelMemInfo) : Type 0 where
  pub counted : IsCounted (size * 8) k
  pub pages : (q : ℕ) → q < size * 8 → page_free k.bitmap q ≡ shown q
  pub behind : SameBehind size k.bitmap memory

-- What is shown free once an entry has been freed.
abbrev shown_after : MemmapEntry → (ℕ → Bool) → ℕ → Bool
shown_after e shown q =
    high_memory e && is_usable e.type && in_range (e.base / 4096) (num_pages e.length) q || shown q

free_entry-Shows :
    (size : ℕ) (shown : ℕ → Bool) (memory : ℕ → ℕ) (e : MemmapEntry) (es : List MemmapEntry)
    (k : KernelMemInfo)
    → size * 8 < 2 ^ 52
    → (is_usable e.type ≡ true → (e.base % 4096 ≡ 0) × (e.base + e.length ≤ 4096 * (size * 8)))
    → Shows size shown memory k
    → Shows size (shown_after e shown) memory (free_entry e k)
unfolding free_entry
free_entry-Shows size shown memory e es k small laid s =
    elim (Bool-cases (high_memory e && is_usable e.type)) [
      | inl freed ↦
          let (aligned, ends) = laid (ground (arith, freed)) in
          let below = pages_below (size * 8) e.base e.length small aligned ends in
          let within =
            pm_free-FreedWithin size k e.base (num_pages e.length) below small s.counted in
          rw freed (record {
            counted = within.0;
            pages = λ q lt. ground (
              arith,
              (pm_free_lem k e.base (num_pages e.length) (omega arith) s.counted.bytes).0 q,
              s.pages q lt,
            );
            behind = λ q at. within.1 q at ∙ s.behind q at;
          })
      | inr kept ↦ rw kept (record {
        counted = s.counted;
        pages = λ q lt. ground (arith, kept, s.pages q lt);
        behind = s.behind;
      })
    ]

Shows-ext :
    (size : ℕ) (a b : ℕ → Bool) (memory : ℕ → ℕ) (k : KernelMemInfo)
    → ((q : ℕ) → a q ≡ b q)
    → Shows size a memory k
    → Shows size b memory k
Shows-ext size a b memory k same s = record {
  counted = s.counted;
  pages = λ q lt. s.pages q lt ∙ same q;
  behind = s.behind;
}

free_entries-Shows :
    (size : ℕ) (shown : ℕ → Bool) (memory : ℕ → ℕ) (es : List MemmapEntry) (k : KernelMemInfo)
    → size * 8 < 2 ^ 52
    → IsLaidOut (size * 8) es
    → Shows size shown memory k
    → Shows size (λ q. covered es q || shown q) memory (free_entries es k)
unfolding free_entries covered
free_entries-Shows size shown memory [] k small laid s = s
free_entries-Shows size shown memory (e ∷ es) k small laid s =
    let first = free_entry-Shows size shown memory e es k small laid.0 s in
    Shows-ext size _ _ memory _ (λ q. ground arith)
      (free_entries-Shows size (shown_after e shown) memory es (free_entry e k) small laid.1 first)

cleared-Shows :
    (size : ℕ) (memory : ℕ → ℕ) (k : KernelMemInfo)
    → k.free_size ≡ 0
    → ((a : ℕ) → memory a < 256)
    → ((q : ℕ) → k.bitmap q ≡ (if ltb q size then 0 else memory q))
    → Shows size (λ q. false) memory k
cleared-Shows size memory k empty bytes held =
    let no_page : (q : ℕ) → q < size * 8 → page_free k.bitmap q ≡ false =
      λ q lt. page_free_of_zero k.bitmap q (ground (arith, held (q / 8))) in
    record {
      counted = record {
        bytes = λ q. ground (arith, held q, bytes q);
        counted = ground (arith, count_free_of_none k.bitmap (size * 8) no_page);
      };
      pages = no_page;
      behind = λ q at. ground (arith, held q);
    }

-- A free range is taken from what a bitmap shows.
pm_allocate-Shows :
    (size : ℕ) (shown : ℕ → Bool) (memory : ℕ → ℕ) (k : KernelMemInfo) (address n : ℕ)
    → size * 8 < 2 ^ 52
    → address / 4096 + n ≤ size * 8
    → ((q : ℕ) → in_range (address / 4096) n q ≡ true → shown q ≡ true)
    → Shows size shown memory k
    → Shows size
        (λ q. not (in_range (address / 4096) n q) && shown q)
        memory
        (pm_allocate k address n).0
pm_allocate-Shows size shown memory k address n small below all s =
    let fits : Fits address n = omega arith in
    let all_free : AllFree k.bitmap (address / 4096) n =
      λ q lo hi. s.pages q (omega arith) ∙ all q (ground arith) in
    let taken =
      count_free-bitmap_set_loop n address (size * 8) k.bitmap s.counted.bytes below all_free in
    rw (pm_allocate_of_free k address n fits ((bitmap_free-AllFree k address n fits).1 all_free))
      (record {
        counted = record {
          bytes = bitmap_set_loop-IsBytes n address k.bitmap s.counted.bytes;
          counted = omega (arith, taken, s.counted.counted, count_free-le k.bitmap (size * 8));
        };
        pages = λ q lt.
            ground
              (arith, page_free-bitmap_set_loop n address k.bitmap q s.counted.bytes, s.pages q lt);
        behind =
            λ q at. bitmap_set_loop-SameBehind size n address k.bitmap below q at ∙ s.behind q at;
      })

-- The free pages after `pm_init`: those of the map but for those of the bitmap.
abbrev pub left_free : List MemmapEntry → KernelMemInfo → ℕ → Bool
left_free es p q =
    not (in_range (virt_to_phys p.bitmap_base / 4096) (num_pages (bitmap_size p)) q) && covered es q

-- For a memory map whose usable entries start at a page and end within the fewer than 2^52 pages that
-- the bitmap describes, and of which one that ends above 1 MB has room for the bitmap, `pm_init`
-- returns (it does not halt), whatever bytes the memory held before. Of the described pages exactly
-- those are free that a usable entry that ends above 1 MB covers and the bitmap does not stand on;
-- `free_size` is 4096 times their number; and the memory behind the bitmap is as it was.
pub pm_init-Shows :
    (e : MemmapEntry) (es : List MemmapEntry) (memory : ℕ → ℕ) (k : KernelMemInfo)
    → let p = pm_prepare (e ∷ es) memory k in
      described p < 2 ^ 52
      → IsLaidOut (described p) (e ∷ es)
      → has_room (e ∷ es) (bitmap_size p) ≡ true
      → ((a : ℕ) → memory a < 256)
      → (k' : KernelMemInfo) × (pm_init (some (e ∷ es)) memory k ≡ some k')
        × Shows (bitmap_size p) (left_free (e ∷ es) p) (λ q. memory (p.bitmap_base + q)) k'
unfolding pm_init
pm_init-Shows e es memory k small laid room bytes =
    let p = pm_prepare (e ∷ es) memory k in
    let behind : ℕ → ℕ = λ q. memory (p.bitmap_base + q) in
    let start =
      cleared-Shows (bitmap_size p) behind p (free_size-pm_prepare (e ∷ es) memory k)
        (λ a. bytes (p.bitmap_base + a)) (unfold pm_prepare clear_bitmap in λ q. refl) in
    let k1 : KernelMemInfo = free_entries (e ∷ es) p in
    let filled : Shows (bitmap_size p) (covered (e ∷ es)) behind k1 =
      Shows-ext (bitmap_size p) _ (covered (e ∷ es)) behind k1 (λ q. ground arith)
        (free_entries-Shows (bitmap_size p) (λ q. false) behind (e ∷ es) p small laid start) in
    let placed : IsPlaced (described p) (e ∷ es) (bitmap_size p) p.bitmap_base =
      unfold pm_prepare in place_bitmap-IsPlaced (described p) (e ∷ es) _ small laid room in
    let (base, limit) = free_entries-SameLayout (e ∷ es) p in
    let taken =
      pm_allocate-Shows (bitmap_size p) (covered (e ∷ es)) behind k1 (virt_to_phys p.bitmap_base)
        (num_pages (bitmap_size p)) small placed.0 placed.1 filled in
    (
      _,
      refl,
      subst
          (λ b.
            Shows (bitmap_size p) (left_free (e ∷ es) p) behind
              (pm_allocate k1 (virt_to_phys b) (num_pages (bitmap_size k1))).0)
          (sym base)
          (subst
            (λ l.
              Shows (bitmap_size p) (left_free (e ∷ es) p) behind
                (pm_allocate k1 (virt_to_phys p.bitmap_base) (num_pages (l / 32768))).0)
            (sym limit) taken),
    )
