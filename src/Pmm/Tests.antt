-- ===== src/Pmm/Tests.antt =====
-- The physical memory manager on a machine with eight pages, and on a small memory map.
use horizon.Common.{true, ◌+◌, ℕ, ◌≡◌, refl, ◌↔◌, [], ◌∷◌, arith, ◌==◌, if◌then◌else◌, some}
use horizon.Pmm.Pages.{IsBytes, page_free}
use horizon.Pmm.{
  out_of_memory, out_of_fuel, mark_used, bitmap_set_loop, bitmap_set, sys_err, got, is_free,
  bitmap_free_loop, bitmap_free, sys_ok, pm_get_loop, pm_free, KernelMemInfo, pm_allocate, pm_get,
}
use horizon.Pmm.Valid.{pm_allocate-ok_iff, pm_allocate-IsValid, IsValid}
use horizon.Pmm.Count.{count_free}
use horizon.Pmm.Get.{pm_get-FirstFit, FirstFit}
use horizon.Pmm.Init.{
  phys_to_virt, pm_prepare, usable, MemmapEntry, entry_type_check, scan_entry, scan_entries,
  bitmap_size, pm_init, is_usable,
}
use horizon.Pmm.Scan.{AllFree}
use horizon.Pmm.Init.Laws.{page_free_of_zero, described, pm_init-Shows, Shows, left_free}
use horizon.Pmm.Init.Place.{has_room}
use horizon.Pmm.RoundTrip.{pm_free-pm_get, SameMemory}
use horizon.Pmm.Free.{pm_free-IsValid}

abbrev pub eight_free : ℕ → ℕ
eight_free q = if q == 0 then 0xff else 0

abbrev pub machine : KernelMemInfo
machine = record {
  physical_limit = 0x8000;
  total_size = 0x8000;
  free_size = 0x8000;
  bitmap_base = phys_to_virt 0x10_0000;
  bitmap = eight_free;
}

pub machine-IsValid : IsValid 8 machine
unfolding count_free page_free
machine-IsValid = record {
  bytes = λ q. ground arith;
  counted = refl;
  bounded = λ q h. page_free_of_zero eight_free q (ground arith);
  addressable = omega arith;
}

-- Pages 2 to 4 are taken.
abbrev taken : KernelMemInfo
taken = record machine { free_size = 0x5000; bitmap = λ q. if q == 0 then 0xe3 else 0 }

taken-IsBytes : IsBytes taken.bitmap
taken-IsBytes q = ground arith

pm_allocate_runs : (pm_allocate machine 0x2000 3).0.bitmap 0 ≡ 0xe3
unfolding pm_allocate bitmap_free bitmap_free_loop is_free bitmap_set bitmap_set_loop mark_used
pm_allocate_runs = refl

pm_allocate_refuses : (pm_allocate taken 0x1000 3).1 ≡ sys_err
unfolding pm_allocate bitmap_free bitmap_free_loop is_free
pm_allocate_refuses = refl

pm_allocate_accepts : (pm_allocate machine 0x2000 3).1 ≡ sys_ok
unfolding pm_allocate bitmap_free bitmap_free_loop is_free
pm_allocate_accepts = refl

pm_get_runs : elim (pm_get taken 3 0) [ got a k ↦ a | out_of_memory ↦ 1 | out_of_fuel ↦ 2 ] ≡ 0x5000
unfolding pm_get pm_get_loop pm_allocate bitmap_free bitmap_free_loop is_free
pm_get_runs = refl

pm_allocate-ok_iff_example : ((pm_allocate machine 0x2000 3).1 ≡ sys_ok) ↔ AllFree eight_free 2 3
pm_allocate-ok_iff_example = pm_allocate-ok_iff machine 0x2000 3 (omega arith)

pm_allocate-IsValid_example : IsValid 8 (pm_allocate machine 0x2000 3).0
pm_allocate-IsValid_example = pm_allocate-IsValid 8 machine 0x2000 3 (omega arith) machine-IsValid

pm_free-IsValid_example : IsValid 8 (pm_free machine 0x2000 3).0
pm_free-IsValid_example = pm_free-IsValid 8 machine 0x2000 3 (omega arith) machine-IsValid

pm_get-FirstFit_example : FirstFit taken 3 0 (pm_get taken 3 0)
pm_get-FirstFit_example = pm_get-FirstFit taken 3 0 (omega arith)

-- The state in which `pm_get` leaves the machine for three pages.
abbrev served : KernelMemInfo
served = (pm_allocate machine 0 3).0

machine_serves : pm_get machine 3 0 ≡ got 0 served
unfolding pm_get pm_get_loop pm_allocate bitmap_free bitmap_free_loop is_free
machine_serves = refl

pm_free-pm_get_example :
    IsValid 8 served × ((pm_free served 0 3).1 ≡ sys_ok) × SameMemory (pm_free served 0 3).0 machine
pm_free-pm_get_example =
    pm_free-pm_get 8 machine served 3 0 0 machine-IsValid (omega arith) (omega arith) machine_serves

-- 32 KB of usable memory from 1 MB on.
abbrev ram : MemmapEntry
ram = record { base = 0x10_0000; length = 0x8000; type = usable }

abbrev unset : KernelMemInfo
unset = record {
  physical_limit = 0;
  total_size = 0;
  free_size = 0;
  bitmap_base = 0;
  bitmap = λ q. 0;
}

-- The memory held 0xcc everywhere, also behind the bitmap.
abbrev poisoned : ℕ → ℕ
poisoned a = 0xcc

abbrev booted : KernelMemInfo
booted = pm_prepare (ram ∷ []) poisoned unset

described-booted : described booted ≡ 264
unfolding pm_prepare scan_entries scan_entry entry_type_check
described-booted = refl

booted-has_room : has_room (ram ∷ []) (bitmap_size booted) ≡ true
unfolding has_room is_usable pm_prepare scan_entries scan_entry entry_type_check
booted-has_room = refl

pm_init-Shows_example :
    (k' : KernelMemInfo) × (pm_init (some (ram ∷ [])) poisoned unset ≡ some k')
    × Shows
        (bitmap_size booted)
        (left_free (ram ∷ []) booted)
        (λ q. poisoned (booted.bitmap_base + q))
        k'
pm_init-Shows_example =
    pm_init-Shows ram [] poisoned unset (rw described-booted (omega arith))
      (λ u. (refl, rw described-booted (omega arith)), tt) booted-has_room (λ a. omega arith)
