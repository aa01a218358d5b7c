-- ===== src/Kmalloc.antt =====
-- kernel/src/common/kmalloc.c. A block is a page of metadata and the pages of the caller behind
-- it. The machine is the physical memory manager with the memory of bytes; the bitmap is kept
-- apart from these bytes, since `pm_init` takes its pages out of the free ones.
pub mod Field
pub mod Header
pub mod Laws
pub mod Free
pub mod Realloc
pub mod Move
pub mod Frame
pub mod Enough
pub mod Grow
pub mod Tests
use horizon.Common.{ℕ, ◌+◌, ◌-◌, ltb, ◌==◌, if◌then◌else◌, u64}
use horizon.Pmm.{
  pm_get, page_size, KernelMemInfo, pm_free, got, out_of_memory, out_of_fuel, num_pages,
}
use horizon.Pmm.Init.{phys_to_virt, virt_to_phys}
use horizon.Memory.{Mem, memcpy, memset}
use horizon.Memory.Words.{load64, store64}
use horizon.CString.{strncpy}

pub record Machine : Type 0 where
  pub kmem : KernelMemInfo
  pub byte : Mem

-- A result, `halt()`, or a search for pages that outran its fuel.
pub data Run {ℓ} (A : Type ℓ) : Type ℓ where
  ok : A → Machine → Run A
  halted : Run A
  no_fuel : Run A

abbrev pub kmem_magic_number : ℕ
kmem_magic_number = 0xbeef_beef

-- `sizeof(mem->file_name) - 1`
abbrev pub name_room : ℕ
name_room = 511

-- The writes to the metadata of a new block; `kmalloc_checkno` is never changed from 0.
unfoldable pub write_metadata : Mem → ℕ → ℕ → ℕ → ℕ → Mem
write_metadata m mem size func line =
    let m1 = store64 m (mem + Field.magic) kmem_magic_number in
    let m2 = store64 m1 (mem + Field.checkno) 0 in
    let m3 = store64 m2 (mem + Field.num_pages) (num_pages size) in
    let m4 = store64 m3 (mem + Field.size) size in
    let m5 = store64 m4 (mem + Field.lineno) line in
    strncpy m5 (mem + Field.file_name) func name_room

-- What follows a successful `pm_get`: the address of the block and the memory.
unfoldable pub fill_block : Mem → ℕ → ℕ → ℕ → ℕ → Mem
fill_block m mem size func line =
    write_metadata (memset m mem 0 (u64 (size + page_size))) mem size func line

-- `func` points to the name of the calling function.
unfoldable pub kmalloc_impl : Machine → ℕ → ℕ → ℕ → Run ℕ
kmalloc_impl m size func line = elim (pm_get m.kmem (u64 (num_pages size + 1)) 0) [
  | got a k ↦
      let mem = phys_to_virt a in
      ok (mem + page_size) (record { kmem = k; byte = fill_block m.byte mem size func line })
  | out_of_memory ↦ halted
  | out_of_fuel ↦ no_fuel
]

-- `address` is not below a page, as the C code's pointer arithmetic supposes.
unfoldable pub kfree_impl : Machine → ℕ → Machine
kfree_impl m address =
    let mem = address - page_size in
    if load64 m.byte (mem + Field.magic) == kmem_magic_number
    then record {
      kmem =
          (pm_free m.kmem (virt_to_phys mem) (u64 (load64 m.byte (mem + Field.num_pages) + 1))).0;
      byte = store64 m.byte (mem + Field.magic) 0;
    }
    else m

-- `krealloc` of a block that keeps its number of pages: only the metadata is written.
unfoldable pub resize_in_place : Mem → ℕ → ℕ → ℕ → ℕ → Mem
resize_in_place m mem new_size func line =
    let m1 = store64 m (mem + Field.size) new_size in
    let m2 = store64 m1 (mem + Field.num_pages) (num_pages new_size) in
    let m3 = store64 m2 (mem + Field.magic) kmem_magic_number in
    let m4 = store64 m3 (mem + Field.lineno) line in
    strncpy m4 (mem + Field.file_name) func name_room

-- The copy into a block that `krealloc` has got; the sizes of the old block are read after it.
unfoldable pub move_block : Mem → ℕ → ℕ → ℕ → Mem
move_block m new_base address new_size =
    let m1 = memset m new_base 0 new_size in
    let old_size = load64 m1 (address - page_size + Field.size) in
    memcpy m1 new_base address (if ltb new_size old_size then new_size else old_size)

unfoldable pub krealloc_impl : Machine → ℕ → ℕ → ℕ → ℕ → Run ℕ
krealloc_impl m address new_size func line =
    let mem = address - page_size in
    let moved = kmalloc_impl m new_size func line in
    if address == 0
    then moved
    else if num_pages (load64 m.byte (mem + Field.size)) == num_pages new_size
    then ok address (record m { byte = resize_in_place m.byte mem new_size func line })
    else elim moved [
      | ok new_base m' ↦
          ok new_base
            (kfree_impl (record m' { byte = move_block m'.byte new_base address new_size }) address)
      | halted ↦ halted
      | no_fuel ↦ no_fuel
    ]
