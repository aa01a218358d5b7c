-- ===== src/Kmalloc/Free.antt =====
-- `kfree`: what `kmalloc` took is given back, and a block is freed once.
use horizon.Common.{
  ℕ, sym, ap, subst, inl, inr, ◌+◌, ◌-◌, ◌^◌, ◌<◌, ◌≡◌, refl, true, false, arith, ◌==◌, Bool-cases,
  u64,
}
use horizon.Kmalloc.Field
use horizon.Kmalloc.{ok, kmalloc_impl, kmem_magic_number, kfree_impl, Machine}
use horizon.Kmalloc.Header.{Describes}
use horizon.Memory.Words.{store64, load64-store64, load64}
use horizon.Pmm.Valid.{IsValid}
use horizon.Pmm.{got, num_pages, pm_free}
use horizon.Pmm.Init.{virt_to_phys}
use horizon.Pmm.RoundTrip.{pm_free-pm_get, SameMemory}
use horizon.Kmalloc.Laws.{Kmalloced, Allocation, kmalloc_impl-Kmalloced}
use horizon.Pmm.Get.{pm_get-FirstFit, FirstFit}

-- The word in which a block at `address` keeps its magic number.
abbrev pub magic_at : Machine → ℕ → ℕ
magic_at m address = load64 m.byte (address - 4096 + Field.magic)

-- A `kfree` at an address where no live block stands changes nothing.
pub kfree_impl-idle :
    (m : Machine) (address : ℕ)
    → (magic_at m address == kmem_magic_number) ≡ false
    → kfree_impl m address ≡ m
unfolding kfree_impl
kfree_impl-idle m address other = rw other refl

-- `kfree` of a live block.
kfree_impl-live :
    (m : Machine) (address : ℕ)
    → (magic_at m address == kmem_magic_number) ≡ true
    → kfree_impl m address ≡ record {
      kmem =
          (pm_free m.kmem
            (virt_to_phys (address - 4096))
            (u64 (load64 m.byte (address - 4096 + Field.num_pages) + 1))).0;
      byte = store64 m.byte (address - 4096 + Field.magic) 0;
    }
unfolding kfree_impl
kfree_impl-live m address live = rw live refl

-- The first `kfree` takes the magic number out of the block.
kfree_impl-magic :
    (m : Machine) (address : ℕ)
    → (magic_at (kfree_impl m address) address == kmem_magic_number) ≡ false
kfree_impl-magic m address = elim (Bool-cases (magic_at m address == kmem_magic_number)) [
  | inl live ↦
      rw (kfree_impl-live m address live)
        (ground (arith, load64-store64 m.byte (address - 4096 + Field.magic) 0))
  | inr other ↦ rw (kfree_impl-idle m address other) other
]

-- On every machine and at every address, a second `kfree` of the same address changes nothing: the
-- first takes the magic number of the block away.
pub kfree_impl_twice :
    (m : Machine) (address : ℕ) → kfree_impl (kfree_impl m address) address ≡ kfree_impl m address
kfree_impl_twice m address =
    kfree_impl-idle (kfree_impl m address) address (kfree_impl-magic m address)

-- `kfree` of a block that is described by its metadata gives back the pages of its size.
pub kfree_impl-described :
    (m : Machine) (address size : ℕ)
    → size < 2 ^ 63
    → Describes m.byte (address - 4096) size
    → (kfree_impl m address).kmem
      ≡ (pm_free m.kmem (virt_to_phys (address - 4096)) (num_pages size + 1)).0
kfree_impl-described m address size small d =
    let live : (magic_at m address == kmem_magic_number) ≡ true = ground (arith, d.magic) in
    let e : u64 (load64 m.byte (address - 4096 + Field.num_pages) + 1) ≡ num_pages size + 1 =
      ground (arith, d.pages) in
    rw (kfree_impl-live m address live)
      (ap (λ n. (pm_free m.kmem (virt_to_phys (address - 4096)) n).0) e)

-- On a machine with a valid physical memory, whose limit and the request lie below 2^46: when
-- `kmalloc` returns a block, `kfree` of that block gives back the same free pages and the same
-- `free_size`, and the block no longer holds the magic number.
pub kfree_impl-kmalloc_impl :
    (pages : ℕ) (m m' : Machine) (size func line p : ℕ)
    → IsValid pages m.kmem
    → m.kmem.physical_limit < 2 ^ 46
    → size < 2 ^ 46
    → kmalloc_impl m size func line ≡ ok p m'
    → SameMemory (kfree_impl m' p).kmem m.kmem
      × ((magic_at (kfree_impl m' p) p == kmem_magic_number) ≡ false)
kfree_impl-kmalloc_impl pages m m' size func line p v limit small e =
    let made = kmalloc_impl-Kmalloced m size func line (omega arith) in
    let a : Allocation m size p m' = subst (Kmalloced m size) e made in
    let found : FirstFit m.kmem (num_pages size + 1) 0 (got a.at m'.kmem) =
      subst (FirstFit m.kmem (num_pages size + 1) 0) a.found
        (pm_get-FirstFit m.kmem (num_pages size + 1) 0 (omega arith)) in
    let back =
      pm_free-pm_get pages m.kmem m'.kmem (num_pages size + 1) 0 a.at v (omega arith) (omega arith)
        a.found in
    let place : a.at ≡ virt_to_phys (p - 4096) = omega (arith, a.place, found.1) in
    let freed =
      subst (λ x. SameMemory (pm_free m'.kmem x (num_pages size + 1)).0 m.kmem) place back.2 in
    (
      subst (λ k. SameMemory k m.kmem)
          (sym (kfree_impl-described m' p size (omega arith) a.block.described)) freed,
      kfree_impl-magic m' p,
    )
