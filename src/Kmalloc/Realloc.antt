-- ===== src/Kmalloc/Realloc.antt =====
-- `krealloc`, in place and with a move.
use horizon.Common.{ℕ, ◌+◌, ◌-◌, ◌^◌, ◌≤◌, ◌<◌, ◌≡◌, refl, inl, inr, true, false, arith, ◌==◌}
use horizon.Kmalloc.{
  ok, halted, no_fuel, kmem_magic_number, Run, resize_in_place, Machine, krealloc_impl,
}
use horizon.Memory.{Mem}
use horizon.Memory.Laws.{within}
use horizon.Kmalloc.Header.{load64-strncpy, strncpy_other, Describes}
use horizon.Memory.Words.{
  load64-store64, load64-store64_apart, store64_other, load64_ext, load64, store64,
}
use horizon.Pmm.{num_pages}
use horizon.CString.{strncpy}

-- The metadata are their 4096 bytes.
pub Describes_ext :
    {m m' : Mem} {mem size : ℕ}
    → ((q : ℕ) → within mem 4096 q ≡ true → m' q ≡ m q)
    → Describes m mem size
    → Describes m' mem size
Describes_ext {m} {m'} {mem} {size} same d =
    let word : (o : ℕ) → o + 8 ≤ 4096 → load64 m' (mem + o) ≡ load64 m (mem + o) =
      λ o room. load64_ext m' m (mem + o) (λ q lo hi. same q (ground arith)) in
    record {
      magic = ground (arith, word 0 (omega arith), d.magic);
      pages = ground (arith, word 16 (omega arith), d.pages);
      bytes = ground (arith, word 24 (omega arith), d.bytes);
    }

module _ (m : Mem) (mem size func line : ℕ) where
  -- The memory after each of the five stores.
  abbrev r1 : Mem
  r1 = store64 m (mem + 24) size

  abbrev r2 : Mem
  r2 = store64 r1 (mem + 16) (num_pages size)

  abbrev r3 : Mem
  r3 = store64 r2 (mem + 0) kmem_magic_number

  abbrev r4 : Mem
  r4 = store64 r3 (mem + 544) line

  magic_set : load64 (strncpy r4 (mem + 32) func 511) (mem + 0) ≡ kmem_magic_number
  magic_set = ground (
    arith,
    load64-strncpy r4 (mem + 32) func 511 (mem + 0) (inl (omega arith)),
    load64-store64_apart r3 (mem + 544) line (mem + 0) (inr (omega arith)),
    load64-store64 r2 (mem + 0) kmem_magic_number,
  )

  pages_set : load64 (strncpy r4 (mem + 32) func 511) (mem + 16) ≡ num_pages size
  pages_set = ground (
    arith,
    load64-strncpy r4 (mem + 32) func 511 (mem + 16) (inl (omega arith)),
    load64-store64_apart r3 (mem + 544) line (mem + 16) (inr (omega arith)),
    load64-store64_apart r2 (mem + 0) kmem_magic_number (mem + 16) (inl (omega arith)),
    load64-store64 r1 (mem + 16) (num_pages size),
  )

  size_set : size < 2 ^ 64 → load64 (strncpy r4 (mem + 32) func 511) (mem + 24) ≡ size
  size_set small = ground (
    arith,
    load64-strncpy r4 (mem + 32) func 511 (mem + 24) (inl (omega arith)),
    load64-store64_apart r3 (mem + 544) line (mem + 24) (inr (omega arith)),
    load64-store64_apart r2 (mem + 0) kmem_magic_number (mem + 24) (inl (omega arith)),
    load64-store64_apart r1 (mem + 16) (num_pages size) (mem + 24) (inl (omega arith)),
    load64-store64 m (mem + 24) size,
  )

  resize_in_place-Describes :
      size < 2 ^ 64 → Describes (resize_in_place m mem size func line) mem size
  unfolding resize_in_place
  resize_in_place-Describes small = record {
    magic = magic_set;
    pages = pages_set;
    bytes = size_set small;
  }

  resize_in_place_other :
      (q : ℕ) → within mem 4096 q ≡ false → resize_in_place m mem size func line q ≡ m q
  unfolding resize_in_place
  resize_in_place_other q out = ground (
    arith,
    strncpy_other r4 (mem + 32) func 511 q,
    store64_other r3 (mem + 544) line q,
    store64_other r2 (mem + 0) kmem_magic_number q,
    store64_other r1 (mem + 16) (num_pages size) q,
    store64_other m (mem + 24) size q,
  )

-- A block that stays where it is: the caller's bytes and the pages in use are as before.
abbrev pub Resized : Machine → ℕ → ℕ → Run ℕ → Type 0
Resized m address size (ok p m') =
    (p ≡ address)
    × (m'.kmem ≡ m.kmem)
    × Describes m'.byte (address - 4096) size
    × ((q : ℕ) → within (address - 4096) 4096 q ≡ false → m'.byte q ≡ m.byte q)
Resized m address size halted = ⊥
Resized m address size no_fuel = ⊥

-- `krealloc` of a live block to a size of as many pages succeeds and keeps the block where it is:
-- the physical memory and every byte outside the metadata stay, and the metadata hold the new size.
pub krealloc_impl-Resized :
    (m : Machine) (address old size func line : ℕ)
    → 4096 ≤ address
    → size < 2 ^ 64
    → Describes m.byte (address - 4096) old
    → num_pages old ≡ num_pages size
    → Resized m address size (krealloc_impl m address size func line)
unfolding krealloc_impl
krealloc_impl-Resized m address old size func line room small d same =
    let live : (address == 0) ≡ false = ground arith in
    let e : (num_pages (load64 m.byte (address - 4096 + 24)) == num_pages size) ≡ true =
      ground (arith, d.bytes) in
    rw (live, e)
      (
        refl,
        refl,
        resize_in_place-Describes m.byte (address - 4096) size func line small,
        resize_in_place_other m.byte (address - 4096) size func line,
      )
