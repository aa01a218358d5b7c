-- ===== src/Kmalloc/Tests.antt =====
-- Blocks on a machine with eight pages.
use horizon.Common.{ℕ, refl, subst, inr, ◌≡◌, false, arith, ◌==◌}
use horizon.Kmalloc.{
  ok, Machine, kmem_magic_number, fill_block, kmalloc_impl, kfree_impl, krealloc_impl,
}
use horizon.Pmm.{
  mark_used, is_free, bitmap_set_loop, bitmap_set, bitmap_free_loop, bitmap_free, pm_allocate,
  pm_get_loop, pm_get,
}
use horizon.Pmm.Tests.{machine, machine-IsValid}
use horizon.Kmalloc.Laws.{kmalloc_impl-Kmalloced, Kmalloced, Allocation}
use horizon.Kmalloc.Free.{kfree_impl-kmalloc_impl, magic_at}
use horizon.Pmm.RoundTrip.{SameMemory}
use horizon.Kmalloc.Realloc.{krealloc_impl-Resized, Resized}
use horizon.Kmalloc.Move.{krealloc_impl-Moved, Moved}

abbrev empty : Machine
empty = record { kmem = machine; byte = λ q. 0 }

-- The first block, of 100 bytes, and the second, of 5000.
abbrev first : ℕ
first = 0xffff_8000_0000_1000

abbrev second : ℕ
second = 0xffff_8000_0000_3000

abbrev with_first : Machine
with_first = record {
  kmem = (pm_allocate machine 0 2).0;
  byte = fill_block empty.byte 0xffff_8000_0000_0000 100 40 7;
}

abbrev with_second : Machine
with_second = record {
  kmem = (pm_allocate with_first.kmem 0x2000 3).0;
  byte = fill_block with_first.byte 0xffff_8000_0000_2000 5000 40 8;
}

first_made : kmalloc_impl empty 100 40 7 ≡ ok first with_first
unfolding kmalloc_impl pm_get pm_get_loop pm_allocate bitmap_free bitmap_free_loop is_free
first_made = refl

second_made : kmalloc_impl with_first 5000 40 8 ≡ ok second with_second
unfolding kmalloc_impl pm_get pm_get_loop pm_allocate bitmap_free bitmap_free_loop is_free
    bitmap_set bitmap_set_loop mark_used
second_made = refl

first-Allocation : Allocation empty 100 first with_first
first-Allocation =
    subst (Kmalloced empty 100) first_made (kmalloc_impl-Kmalloced empty 100 40 7 (omega arith))

kmalloc_impl-Kmalloced_example : Kmalloced empty 100 (kmalloc_impl empty 100 40 7)
kmalloc_impl-Kmalloced_example = kmalloc_impl-Kmalloced empty 100 40 7 (omega arith)

kfree_impl-kmalloc_impl_example :
    SameMemory (kfree_impl with_first first).kmem machine
    × ((magic_at (kfree_impl with_first first) first == kmem_magic_number) ≡ false)
kfree_impl-kmalloc_impl_example =
    kfree_impl-kmalloc_impl 8 empty with_first 100 40 7 first machine-IsValid (omega arith)
      (omega arith) first_made

krealloc_impl-Resized_example :
    Resized with_first first 4000 (krealloc_impl with_first first 4000 40 9)
krealloc_impl-Resized_example =
    krealloc_impl-Resized with_first first 100 4000 40 9 (omega arith) (omega arith)
      first-Allocation.block.described (omega arith)

krealloc_impl-Moved_example :
    Moved with_first with_second second first 100 5000 (krealloc_impl with_first first 5000 40 8)
krealloc_impl-Moved_example =
    krealloc_impl-Moved with_first with_second first 100 5000 40 8 second (omega arith)
      (omega arith) (omega arith) first-Allocation.block.described refl second_made
      (inr (omega arith))
