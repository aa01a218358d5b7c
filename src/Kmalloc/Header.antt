-- ===== src/Kmalloc/Header.antt =====
-- The metadata of a block, as the fields that are read back.
use horizon.Common.{ℕ, zero, suc, ◌+◌, ◌-◌, ◌^◌, ◌≤◌, ◌<◌, ◌≡◌, ◌⊎◌, false, arith, inl, inr}
use horizon.Kmalloc.Field
use horizon.Kmalloc.{write_metadata, kmem_magic_number}
use horizon.CString.{strncpy, strncpy_copy, strncpy_pad}
use horizon.Memory.{store8, Mem}
use horizon.Memory.Words.{
  load_bytes_ext, load64, store64_other, store64, load64-store64, load64-store64_apart,
}
use horizon.Memory.Laws.{within}
use horizon.CString.Laws.{strncpy_pad-lem}
use horizon.Pmm.{num_pages}

strncpy_pad_other :
    (left i dest : ℕ) (m : Mem) (q : ℕ)
    → within (dest + i) left q ≡ false
    → strncpy_pad left i dest m q ≡ m q
strncpy_pad_other left i dest m q out = ground (arith, strncpy_pad-lem left i dest m q)

strncpy_copy_other :
    (left i dest src : ℕ) (m : Mem) (q : ℕ)
    → within (dest + i) left q ≡ false
    → ((strncpy_copy left i dest src m).1 q ≡ m q)
      × (i ≤ (strncpy_copy left i dest src m).0)
      × ((strncpy_copy left i dest src m).0 ≤ i + left)
unfolding strncpy_copy
strncpy_copy_other zero i dest src m q out = ground arith
strncpy_copy_other (suc left) i dest src m q out =
    ground (arith, strncpy_copy_other left (i + 1) dest src (store8 m (dest + i) (m (src + i))) q)

-- Whatever the source, `strncpy` writes only the `num` bytes from `dest` on.
pub strncpy_other :
    (m : Mem) (dest src num q : ℕ) → within dest num q ≡ false → strncpy m dest src num q ≡ m q
unfolding strncpy
strncpy_other m dest src num q out =
    let c = strncpy_copy num 0 dest src m in
    ground (
      arith,
      strncpy_copy_other num 0 dest src m q,
      strncpy_pad_other (num - c.0) (c.0) dest (c.1) q,
    )

-- The words outside the name.
pub load64-strncpy :
    (m : Mem) (dest src num a : ℕ)
    → (a + 8 ≤ dest) ⊎ (dest + num ≤ a)
    → load64 (strncpy m dest src num) a ≡ load64 m a
unfolding load64
load64-strncpy m dest src num a apart =
    load_bytes_ext 8 (strncpy m dest src num) m a
      (λ q lo hi. strncpy_other m dest src num q (ground arith))

-- What the metadata of a block say.
pub record Describes (m : Mem) (mem size : ℕ) : Type 0 where
  pub magic : load64 m (mem + Field.magic) ≡ kmem_magic_number
  pub pages : load64 m (mem + Field.num_pages) ≡ num_pages size
  pub bytes : load64 m (mem + Field.size) ≡ size

module _ (m : Mem) (mem size func line : ℕ) where
  -- The memory after each of the five stores.
  abbrev s1 : Mem
  s1 = store64 m (mem + 0) kmem_magic_number

  abbrev s2 : Mem
  s2 = store64 s1 (mem + 8) 0

  abbrev s3 : Mem
  s3 = store64 s2 (mem + 16) (num_pages size)

  abbrev s4 : Mem
  s4 = store64 s3 (mem + 24) size

  abbrev s5 : Mem
  s5 = store64 s4 (mem + 544) line

  abbrev s6 : Mem
  s6 = strncpy s5 (mem + 32) func 511

  magic_kept : load64 s6 (mem + 0) ≡ kmem_magic_number
  magic_kept = ground (
    arith,
    load64-strncpy s5 (mem + 32) func 511 (mem + 0) (inl (omega arith)),
    load64-store64_apart s4 (mem + 544) line (mem + 0) (inr (omega arith)),
    load64-store64_apart s3 (mem + 24) size (mem + 0) (inr (omega arith)),
    load64-store64_apart s2 (mem + 16) (num_pages size) (mem + 0) (inr (omega arith)),
    load64-store64_apart s1 (mem + 8) 0 (mem + 0) (inr (omega arith)),
    load64-store64 m (mem + 0) kmem_magic_number,
  )

  pages_kept : load64 s6 (mem + 16) ≡ num_pages size
  pages_kept = ground (
    arith,
    load64-strncpy s5 (mem + 32) func 511 (mem + 16) (inl (omega arith)),
    load64-store64_apart s4 (mem + 544) line (mem + 16) (inr (omega arith)),
    load64-store64_apart s3 (mem + 24) size (mem + 16) (inr (omega arith)),
    load64-store64 s2 (mem + 16) (num_pages size),
  )

  size_kept : size < 2 ^ 64 → load64 s6 (mem + 24) ≡ size
  size_kept small = ground (
    arith,
    load64-strncpy s5 (mem + 32) func 511 (mem + 24) (inl (omega arith)),
    load64-store64_apart s4 (mem + 544) line (mem + 24) (inr (omega arith)),
    load64-store64 s3 (mem + 24) size,
  )

  pub write_metadata-Describes :
      size < 2 ^ 64 → Describes (write_metadata m mem size func line) mem size
  unfolding write_metadata
  write_metadata-Describes small = record {
    magic = magic_kept;
    pages = pages_kept;
    bytes = size_kept small;
  }

  pub write_metadata_other :
      (q : ℕ) → within mem 4096 q ≡ false → write_metadata m mem size func line q ≡ m q
  unfolding write_metadata
  write_metadata_other q out = ground (
    arith,
    strncpy_other s5 (mem + 32) func 511 q,
    store64_other s4 (mem + 544) line q,
    store64_other s3 (mem + 24) size q,
    store64_other s2 (mem + 16) (num_pages size) q,
    store64_other s1 (mem + 8) 0 q,
    store64_other m (mem + 0) kmem_magic_number q,
  )
