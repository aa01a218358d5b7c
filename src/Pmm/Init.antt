-- ===== src/Pmm/Init.antt =====
-- `pm_init` of kernel/src/sys/mmu.c: the memory map of the bootloader becomes a bitmap.
pub mod Behind
pub mod Place
pub mod Layout
pub mod Laws
use horizon.Common.{
  ℕ, ◌+◌, ◌*◌, ◌/◌, Bool, true, false, ◌&&◌, Option, none, some, List, [], ◌∷◌, ltb, leb,
  if◌then◌else◌, u64, sub64,
}
use horizon.Pmm.{num_pages, pages_per_byte, page_size, pm_free, pm_allocate, KernelMemInfo}

abbrev pub mem_virt_offset : ℕ
mem_virt_offset = 0xffff_8000_0000_0000

abbrev pub phys_to_virt : ℕ → ℕ
phys_to_virt a = u64 (a + mem_virt_offset)

abbrev pub virt_to_phys : ℕ → ℕ
virt_to_phys a = sub64 a mem_virt_offset

-- The types of a memory map entry that the source names.
pub data MemmapType : Type 0 where
  usable reserved acpi_reclaimable acpi_nvs : MemmapType
  bad_memory bootloader_reclaimable kernel_and_modules framebuffer : MemmapType

pub record MemmapEntry : Type 0 where
  pub base : ℕ
  pub length : ℕ
  pub type : MemmapType

-- ENTRY_TYPE_CHECK
unfoldable pub entry_type_check : MemmapType → Bool
entry_type_check usable = true
entry_type_check bootloader_reclaimable = true
entry_type_check kernel_and_modules = true
entry_type_check acpi_reclaimable = true
entry_type_check _ = false

unfoldable pub is_usable : MemmapType → Bool
is_usable usable = true
is_usable _ = false

-- The end of an entry, added in `uint64_t`.
abbrev pub limit_of : MemmapEntry → ℕ
limit_of e = u64 (e.base + e.length)

-- The first loop: the sizes.
unfoldable pub scan_entry : MemmapEntry → KernelMemInfo → KernelMemInfo
scan_entry e k =
    if entry_type_check e.type
    then record k {
      total_size = u64 (k.total_size + e.length);
      physical_limit = if ltb k.physical_limit (limit_of e) then limit_of e else k.physical_limit;
    }
    else k

unfoldable pub scan_entries : List MemmapEntry → KernelMemInfo → KernelMemInfo
scan_entries [] k = k
scan_entries (e ∷ es) k = scan_entries es (scan_entry e k)

abbrev pub bitmap_size : KernelMemInfo → ℕ
bitmap_size k = k.physical_limit / (page_size * pages_per_byte)

abbrev pub high_memory : MemmapEntry → Bool
high_memory e = ltb 0x100000 (limit_of e)

-- The second loop: the first usable entry above 1 MB that holds the bitmap; the pointer stays as
-- it was when there is none.
unfoldable pub place_bitmap : List MemmapEntry → KernelMemInfo → ℕ
place_bitmap [] k = k.bitmap_base
place_bitmap (e ∷ es) k =
    if high_memory e && leb (bitmap_size k) e.length && is_usable e.type
    then phys_to_virt e.base
    else place_bitmap es k

-- `memset(kmem.bitmap, 0, bitmap_size)`, on what the memory held before.
unfoldable pub clear_bitmap : (ℕ → ℕ) → KernelMemInfo → ℕ → ℕ
clear_bitmap memory k q = if ltb q (bitmap_size k) then 0 else memory (k.bitmap_base + q)

-- The third loop: usable entries above 1 MB are freed.
unfoldable pub free_entry : MemmapEntry → KernelMemInfo → KernelMemInfo
free_entry e k =
    if high_memory e && is_usable e.type then (pm_free k e.base (num_pages e.length)).0 else k

unfoldable pub free_entries : List MemmapEntry → KernelMemInfo → KernelMemInfo
free_entries [] k = k
free_entries (e ∷ es) k = free_entries es (free_entry e k)

-- After the first two loops and the `memset`.
unfoldable pub pm_prepare : List MemmapEntry → (ℕ → ℕ) → KernelMemInfo → KernelMemInfo
pm_prepare es memory k =
    let sized = scan_entries es (record k { free_size = 0; physical_limit = 0; total_size = 0 }) in
    let placed = record sized { bitmap_base = place_bitmap es sized } in
    record placed { bitmap = clear_bitmap memory placed }

-- `none` is `halt()`: no response, or an empty map. `memory` is the memory by virtual address.
unfoldable pub pm_init : Option (List MemmapEntry) → (ℕ → ℕ) → KernelMemInfo → Option KernelMemInfo
pm_init none memory k = none
pm_init (some []) memory k = none
pm_init (some (e ∷ es)) memory k =
    let freed = free_entries (e ∷ es) (pm_prepare (e ∷ es) memory k) in
    some ((pm_allocate freed (virt_to_phys freed.bitmap_base) (num_pages (bitmap_size freed))).0)
