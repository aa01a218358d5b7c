-- ===== src/Pmm/Init/Place.antt =====
-- Where `pm_init` puts the bitmap, and the pages that the memory map makes usable.
use horizon.Common.{
  ℕ, ◌+◌, ◌*◌, ◌/◌, ◌%◌, ◌^◌, ◌≤◌, ◌<◌, ◌≡◌, Bool, true, false, List, [], ◌∷◌, ◌&&◌, ◌||◌, leb,
  arith, inl, inr, Bool-cases,
}
use horizon.Pmm.{KernelMemInfo, num_pages}
use horizon.Pmm.Init.{
  MemmapEntry, is_usable, high_memory, bitmap_size, place_bitmap, virt_to_phys, phys_to_virt,
}
use horizon.Pmm.Scan.{in_range}

-- The usable entries start at a page and end within the first `pages` pages.
abbrev pub IsLaidOut : ℕ → List MemmapEntry → Type 0
IsLaidOut pages [] = Unit {0}
IsLaidOut pages (e ∷ es) =
    (is_usable e.type ≡ true → (e.base % 4096 ≡ 0) × (e.base + e.length ≤ 4096 * pages))
    × IsLaidOut pages es

-- Whether a usable entry that ends above 1 MB covers page `q`.
unfoldable pub covered : List MemmapEntry → ℕ → Bool
covered [] q = false
covered (e ∷ es) q =
    high_memory e && is_usable e.type && in_range (e.base / 4096) (num_pages e.length) q
    || covered es q

-- Whether one of them has room for `size` bytes.
unfoldable pub has_room : List MemmapEntry → ℕ → Bool
has_room [] size = false
has_room (e ∷ es) size = high_memory e && leb size e.length && is_usable e.type || has_room es size

-- The pages of `size` bytes at the address lie below `pages`, and the map covers them.
abbrev pub IsPlaced : ℕ → List MemmapEntry → ℕ → ℕ → Type 0
IsPlaced pages es size base =
    (virt_to_phys base / 4096 + num_pages size ≤ pages)
    × ((q : ℕ)
        → in_range (virt_to_phys base / 4096) (num_pages size) q ≡ true
        → covered es q ≡ true)

pub pages_below :
    (pages base length : ℕ)
    → pages < 2 ^ 52
    → base % 4096 ≡ 0
    → base + length ≤ 4096 * pages
    → base / 4096 + num_pages length ≤ pages
pages_below pages base length small aligned ends = omega arith

num_pages-le :
    (size length : ℕ)
    → size ≤ length
    → length + 4096 < 2 ^ 64 + 1
    → num_pages size ≤ num_pages length
num_pages-le size length le small = omega arith

virt_to_phys-phys_to_virt : (a : ℕ) → a < 2 ^ 64 → virt_to_phys (phys_to_virt a) ≡ a
virt_to_phys-phys_to_virt a small = omega arith

pub place_bitmap-IsPlaced :
    (pages : ℕ) (es : List MemmapEntry) (k : KernelMemInfo)
    → pages < 2 ^ 52
    → IsLaidOut pages es
    → has_room es (bitmap_size k) ≡ true
    → IsPlaced pages es (bitmap_size k) (place_bitmap es k)
unfolding place_bitmap has_room covered
place_bitmap-IsPlaced pages [] k small laid room = absurd (ground arith)
place_bitmap-IsPlaced pages (e ∷ es) k small laid room =
    elim (Bool-cases (high_memory e && leb (bitmap_size k) e.length && is_usable e.type)) [
      | inl here ↦
          let usable : is_usable e.type ≡ true = ground (arith, here) in
          let high : high_memory e ≡ true = ground (arith, here) in
          let le : bitmap_size k ≤ e.length = ground (arith, here) in
          let (aligned, ends) = laid.0 usable in
          let at : virt_to_phys (phys_to_virt e.base) ≡ e.base =
            virt_to_phys-phys_to_virt e.base (omega arith) in
          let fewer : num_pages (bitmap_size k) ≤ num_pages e.length =
            num_pages-le (bitmap_size k) e.length le (omega arith) in
          let below = pages_below pages e.base e.length small aligned ends in
          rw (here, at)
            (
              omega (arith, below, fewer),
              λ q inside. rw (usable, high) (ground (arith, inside, fewer)),
            )
      | inr elsewhere ↦
          let rest =
            place_bitmap-IsPlaced pages es k small laid.1 (ground (arith, room, elsewhere)) in
          rw elsewhere (rest.0, λ q inside. ground (arith, rest.1 q inside))
    ]
