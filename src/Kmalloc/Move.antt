-- ===== src/Kmalloc/Move.antt =====
-- `krealloc` to a size of another number of pages: a new block, the copy, and the old block freed.
use horizon.Common.{
  ℕ, subst, ◌+◌, ◌-◌, ◌^◌, ◌≤◌, ◌<◌, ◌≡◌, refl, ◌⊎◌, false, arith, ltb, ◌==◌, if◌then◌else◌,
}
use horizon.Kmalloc.{
  ok, halted, no_fuel, Machine, Run, kmalloc_impl, kfree_impl, move_block, krealloc_impl,
}
use horizon.Kmalloc.Field
use horizon.Kmalloc.Header.{Describes}
use horizon.Memory.{memset, Mem}
use horizon.Memory.Laws.{memset_lem, memcpy-copied, within}
use horizon.Memory.Words.{load64_ext, store64_other, load64}
use horizon.Pmm.{pm_free, num_pages}
use horizon.Kmalloc.Laws.{kmalloc_impl-Kmalloced, Kmalloced, Allocation, IsBlock}
use horizon.Kmalloc.Realloc.{Describes_ext}
use horizon.Pmm.Init.{virt_to_phys}
use horizon.Kmalloc.Free.{kfree_impl-described}

-- `kfree` writes at most the magic number.
kfree_impl_other :
    (m : Machine) (address q : ℕ)
    → within (address - 4096) 4096 q ≡ false
    → (kfree_impl m address).byte q ≡ m.byte q
unfolding kfree_impl
kfree_impl_other m address q out =
    ground (arith, store64_other m.byte (address - 4096 + Field.magic) 0 q)

-- The blocks of `krealloc` do not meet, metadata included.
abbrev pub Separate : ℕ → ℕ → ℕ → ℕ → Type 0
Separate p size address old = (p + size ≤ address - 4096) ⊎ (address + old ≤ p - 4096)

module _ (m : Mem) (p address size old : ℕ) (here : 4096 ≤ p) (there : 4096 ≤ address)
    (apart : Separate p size address old) (d : Describes m (address - 4096) old) where
  cleared_size : load64 (memset m p 0 size) (address - 4096 + 24) ≡ old
  cleared_size =
      let same =
        load64_ext (memset m p 0 size) m (address - 4096 + 24)
          (λ q lo hi. ground (arith, memset_lem m p 0 size q)) in
      ground (arith, same, d.bytes)

  -- The bytes after the copy: those of the old block as far as both sizes go, then zeros.
  move_block_lem :
      (q : ℕ)
      → move_block m p address size q ≡ (
          if within p (if ltb size old then size else old) q
          then m (address + (q - p))
          else if within p size q
          then 0
          else m q)
  unfolding move_block
  move_block_lem q = rw cleared_size (
      ground (
        arith,
        memcpy-copied (memset m p 0 size) p address (if ltb size old then size else old) q,
        memset_lem m p 0 size q,
        memset_lem m p 0 size (address + (q - p)),
      ))

-- A block that has moved to `p`, from the machine on which the new block was made: the new block
-- holds the old bytes and then zeros, and the pages of the old block are freed.
pub record MovedTo (m m1 m' : Machine) (p address old size : ℕ) : Type 0 where
  pub described : Describes m'.byte (p - 4096) size
  pub contents :
      (j : ℕ) → j < size → m'.byte (p + j) ≡ (if ltb j old then m.byte (address + j) else 0)
  pub rest_kept :
      (q : ℕ)
      → within (p - 4096) (size + 4096) q ≡ false
      → within (address - 4096) 4096 q ≡ false
      → m'.byte q ≡ m.byte q
  pub old_freed : m'.kmem ≡ (pm_free m1.kmem (virt_to_phys (address - 4096)) (num_pages old + 1)).0

-- What a `krealloc` that moves comes to.
abbrev pub Moved : Machine → Machine → ℕ → ℕ → ℕ → ℕ → Run ℕ → Type 0
Moved m m1 p address old size (ok q m') = (q ≡ p) × MovedTo m m1 m' p address old size
Moved m m1 p address old size halted = ⊥
Moved m m1 p address old size no_fuel = ⊥

module _ (m m1 : Machine) (p address old size : ℕ) (here : 4096 ≤ p) (there : 4096 ≤ address)
    (small : old < 2 ^ 63) (apart : Separate p size address old)
    (d : Describes m.byte (address - 4096) old) (made : IsBlock m.byte m1.byte p size) where
  abbrev copied_to : Machine
  copied_to = record m1 { byte = move_block m1.byte p address size }

  old_described : Describes m1.byte (address - 4096) old
  old_described = Describes_ext (λ q inside. made.rest_kept q (ground arith)) d

  old_kept : Describes copied_to.byte (address - 4096) old
  old_kept =
      Describes_ext
        (λ q inside.
          ground
            (arith, move_block_lem m1.byte p address size old here there apart old_described q))
        old_described

  freed_contents :
      (j : ℕ)
      → j < size
      → (kfree_impl copied_to address).byte (p + j)
        ≡ (if ltb j old then m.byte (address + j) else 0)
  freed_contents j lt = ground (
    arith,
    kfree_impl_other copied_to address (p + j),
    move_block_lem m1.byte p address size old here there apart old_described (p + j),
    made.rest_kept (address + j),
  )

  kept_description : Describes (kfree_impl copied_to address).byte (p - 4096) size
  kept_description =
      Describes_ext
        (λ q inside. ground (
          arith,
          kfree_impl_other copied_to address q,
          move_block_lem m1.byte p address size old here there apart old_described q,
        ))
        made.described

  other_kept :
      (q : ℕ)
      → within (p - 4096) (size + 4096) q ≡ false
      → within (address - 4096) 4096 q ≡ false
      → (kfree_impl copied_to address).byte q ≡ m.byte q
  other_kept q out off = ground (
    arith,
    kfree_impl_other copied_to address q,
    move_block_lem m1.byte p address size old here there apart old_described q,
    made.rest_kept q,
  )

  move-MovedTo : MovedTo m m1 (kfree_impl copied_to address) p address old size
  move-MovedTo = record {
    described = kept_description;
    contents = freed_contents;
    rest_kept = other_kept;
    old_freed = kfree_impl-described copied_to address old small old_kept;
  }

-- `krealloc` of a live block to a size of another number of pages, when `kmalloc` of the new size
-- succeeds with a block that does not meet the old one: the result is that new block, described by
-- its metadata; its bytes are those of the old block up to the smaller size and zero behind; every
-- byte outside the two blocks is as before; and the old block's pages are given back.
pub krealloc_impl-Moved :
    (m m1 : Machine) (address old size func line p : ℕ)
    → 4096 ≤ address
    → old < 2 ^ 63
    → size + 4096 < 2 ^ 64
    → Describes m.byte (address - 4096) old
    → (num_pages old == num_pages size) ≡ false
    → kmalloc_impl m size func line ≡ ok p m1
    → Separate p size address old
    → Moved m m1 p address old size (krealloc_impl m address size func line)
unfolding krealloc_impl
krealloc_impl-Moved m m1 address old size func line p there small_old small d differ e apart =
    let live : (address == 0) ≡ false = ground arith in
    let moves : (num_pages (load64 m.byte (address - 4096 + 24)) == num_pages size) ≡ false =
      ground (arith, d.bytes) in
    let made : Allocation m size p m1 =
      subst (Kmalloced m size) e (kmalloc_impl-Kmalloced m size func line small) in
    let here : 4096 ≤ p = omega (arith, made.place) in
    rw (live, moves, e)
      (refl, move-MovedTo m m1 p address old size here there small_old apart d made.block)
