-- ===== src/Pmm.antt =====
-- kernel/src/sys/mmu.c, the physical memory manager: a bitmap with one bit for each 4 KB page, set
-- when the page is free. The bytes from `kmem.bitmap` on are a function of their index; an index
-- past the end of the bitmap reads what lies there. The loops over pages step a `uint64_t`.
pub mod Bits
pub mod Pages
pub mod Scan
pub mod Count
pub mod Valid
pub mod Free
pub mod Get
pub mod Limit
pub mod RoundTrip
pub mod Init
pub mod Tests
use horizon.Common.{
  ℕ, zero, suc, ◌+◌, ◌-◌, ◌*◌, ◌/◌, ◌%◌, ◌^◌, bit_and, bit_or, Bool, true, false, List, [], ◌∷◌,
  u64, sub64, ltb, leb, ◌==◌, if◌then◌else◌, not, ◌||◌, ◌&&◌,
}

abbrev pub page_size : ℕ
page_size = 4096

abbrev pub pages_per_byte : ℕ
pages_per_byte = 8

-- `NUM_PAGES`: the addition is made in `uint64_t`.
abbrev pub num_pages : ℕ → ℕ
num_pages addr = u64 (addr + page_size - 1) / page_size

-- SYS_OK and SYS_ERR.
pub data Status : Type 0 where
  sys_ok sys_err : Status

-- FREE and ALLOCATED.
pub data BitmapStatus : Type 0 where
  free allocated : BitmapStatus

-- KERNEL_MEM_INFO. `bitmap_base` is the pointer, `bitmap` the bytes from there on.
pub record KernelMemInfo : Type 0 where
  pub physical_limit : ℕ
  pub total_size : ℕ
  pub free_size : ℕ
  pub bitmap_base : ℕ
  pub bitmap : ℕ → ℕ

-- The byte of the bitmap and the bit in it for an address.
abbrev pub byte_index : ℕ → ℕ
byte_index i = i / (page_size * pages_per_byte)

abbrev pub bit_mask : ℕ → ℕ
bit_mask i = 2 ^ (i / page_size % pages_per_byte)

abbrev pub write_byte : (ℕ → ℕ) → ℕ → ℕ → ℕ → ℕ
write_byte m p v q = if q == p then v else m q

-- The rounds of `for (i = address; i < address + num_pages * PAGE_SIZE; i += PAGE_SIZE)`. The end
-- is computed in `uint64_t` and lies a multiple of PAGE_SIZE from the start, so `i` meets it.
abbrev pub page_rounds : ℕ → ℕ → ℕ
page_rounds address n = (u64 (address + u64 (n * page_size)) - address) / page_size

-- `kmem.bitmap[…] &= ~(1 << …)`, kept to its 8 bits.
unfoldable pub mark_used : ℕ → (ℕ → ℕ) → ℕ → ℕ
mark_used i bitmap =
    write_byte bitmap (byte_index i) (bit_and (bitmap (byte_index i)) (255 - bit_mask i))

-- `kmem.bitmap[…] |= 1 << …`.
unfoldable pub mark_free : ℕ → (ℕ → ℕ) → ℕ → ℕ
mark_free i bitmap = write_byte bitmap (byte_index i) (bit_or (bitmap (byte_index i)) (bit_mask i))

-- Whether the bit of an address is set.
unfoldable pub is_free : (ℕ → ℕ) → ℕ → Bool
is_free bitmap i = not (bit_and (bitmap (byte_index i)) (bit_mask i) == 0)

unfoldable pub bitmap_set_loop : ℕ → ℕ → (ℕ → ℕ) → ℕ → ℕ
bitmap_set_loop zero i bitmap = bitmap
bitmap_set_loop (suc n) i bitmap = bitmap_set_loop n (i + page_size) (mark_used i bitmap)

unfoldable pub bitmap_set : KernelMemInfo → ℕ → ℕ → KernelMemInfo
bitmap_set k address n = record k {
  bitmap = bitmap_set_loop (page_rounds address n) address k.bitmap;
}

unfoldable pub bitmap_free_loop : ℕ → ℕ → (ℕ → ℕ) → BitmapStatus
bitmap_free_loop zero i bitmap = free
bitmap_free_loop (suc n) i bitmap =
    let rest = bitmap_free_loop n (i + page_size) bitmap in
    if not (is_free bitmap i) then allocated else rest

unfoldable pub bitmap_free : KernelMemInfo → ℕ → ℕ → BitmapStatus
bitmap_free k address n = bitmap_free_loop (page_rounds address n) address k.bitmap

-- The `if` of the loop of `pm_free`: a page that was allocated is counted, a free one is an error.
unfoldable pub count_page : BitmapStatus → KernelMemInfo × Status → KernelMemInfo × Status
count_page allocated (k, ret) = (record k { free_size = u64 (k.free_size + page_size) }, ret)
count_page free (k, ret) = (k, sys_err)

-- One round of the loop of `pm_free`.
unfoldable pub pm_free_page : ℕ → KernelMemInfo × Status → KernelMemInfo × Status
unfolding count_page
pm_free_page i (k, ret) =
    let (k', ret') = count_page (bitmap_free k i 1) (k, ret) in
    (record k' { bitmap = mark_free i k'.bitmap }, ret')

unfoldable pub pm_free_loop : ℕ → ℕ → KernelMemInfo × Status → KernelMemInfo × Status
pm_free_loop zero i s = s
pm_free_loop (suc n) i s = pm_free_loop n (i + page_size) (pm_free_page i s)

unfoldable pub pm_free : KernelMemInfo → ℕ → ℕ → KernelMemInfo × Status
pm_free k address n = pm_free_loop (page_rounds address n) address (k, sys_ok)

unfoldable pub pm_allocate : KernelMemInfo → ℕ → ℕ → KernelMemInfo × Status
pm_allocate k address n = elim (bitmap_free k address n) [
  | allocated ↦ (k, sys_err)
  | free ↦ (
    record (bitmap_set k address n) { free_size = sub64 k.free_size (u64 (n * page_size)) },
    sys_ok,
  )
]

-- What `pm_get` comes to: an address, `halt()`, or more rounds than the fuel.
pub data Got : Type 0 where
  got : ℕ → KernelMemInfo → Got
  out_of_memory : Got
  out_of_fuel : Got

unfoldable pub pm_get_loop : ℕ → KernelMemInfo → ℕ → ℕ → Got
pm_get_loop zero k n i = out_of_fuel
pm_get_loop (suc fuel) k n i =
    let rest = pm_get_loop fuel k n (u64 (i + page_size)) in
    let try = pm_allocate k i n in
    if ltb i k.physical_limit
    then elim (try.1) [ sys_ok ↦ got i (try.0) | sys_err ↦ rest ]
    else out_of_memory

-- The fuel is one more than the pages below the limit.
unfoldable pub pm_get : KernelMemInfo → ℕ → ℕ → Got
pm_get k n address = pm_get_loop (k.physical_limit / page_size + 2) k n address
