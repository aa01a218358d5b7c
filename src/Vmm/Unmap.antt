-- ===== src/Vmm/Unmap.antt =====
-- `unmap_page_entry` and `vm_unmap`.
use horizon.Common.{ℕ, zero, suc, ◌+◌, ◌*◌, Bool, true, false, not, ◌==◌, if◌then◌else◌, u64}
use horizon.Kmalloc.{ok, halted, Machine, Run}
use horizon.Pmm.{sys_ok, sys_err, page_size, pm_free, Status}
use horizon.Vmm.{
  AddrSpace, default_pages, pte_index, pde_index, pdpe_index, pml4e_index, slot, not_present,
  read_table, range_rounds,
}
use horizon.Memory.{Mem}
use horizon.Vector.{bind_run, Vector, vector_erase}
use horizon.Memory.Words.{load64, store64}
use horizon.Pmm.Init.{virt_to_phys}

-- The search for `VIRT_TO_PHYS(table)` in the list of tables, from index `i` on.
unfoldable pub forget_loop : ℕ → ℕ → Mem → Vector → ℕ → Mem × Vector
forget_loop zero i m v phys = (m, v)
forget_loop (suc n) i m v phys =
    let rest = forget_loop n (i + 1) m v phys in
    if load64 m (v.elements + i * 8) == phys then vector_erase m v 8 i else rest

unfoldable pub when_freed : Status → AddrSpace → Machine → Run AddrSpace
when_freed sys_err space m = halted
when_freed sys_ok space m = ok space m

-- The table at `table` is freed and taken from the list; a page that was free already halts.
unfoldable pub drop_table : Machine → AddrSpace → ℕ → Run AddrSpace
drop_table m space table =
    let freed = pm_free m.kmem (virt_to_phys table) default_pages in
    let forgotten =
      forget_loop space.memory_list.length 0 m.byte space.memory_list (virt_to_phys table) in
    when_freed (freed.1) (record space { memory_list = forgotten.1 })
      (record { kmem = freed.0; byte = forgotten.0 })

-- Whether the `n` entries of a table from index `i` on are 0.
unfoldable pub is_empty_loop : ℕ → ℕ → Mem → ℕ → Bool
is_empty_loop zero i m table = true
is_empty_loop (suc n) i m table =
    let rest = is_empty_loop n (i + 1) m table in
    if not (load64 m (slot table i) == 0) then false else rest

-- `for (i = 0; i < PAGE_SIZE; i++)`: the entries of all DEFAULT_PAGES pages.
abbrev pub is_empty_table : Mem → ℕ → Bool
is_empty_table m table = is_empty_loop page_size 0 m table

-- What follows the writes to the page table: a table that has become empty is given back, and then
-- the one above it.
unfoldable pub collect : Machine → AddrSpace → ℕ → ℕ → ℕ → ℕ → ℕ → Run AddrSpace
unfolding bind_run
collect m space pml4_slot pdpt pdpt_slot pd pt = bind_run (drop_table m space pt) (λ space1 m1.
    if not (is_empty_table m1.byte pd)
    then ok space1 m1
    else bind_run (drop_table (record m1 { byte = store64 m1.byte pdpt_slot 0 }) space1 pd)
        (λ space2 m2.
          if not (is_empty_table m2.byte pdpt)
          then ok space2 m2
          else drop_table (record m2 { byte = store64 m2.byte pml4_slot 0 }) space2 pdpt))

unfoldable pub unmap_page_entry : Machine → AddrSpace → ℕ → Run AddrSpace
unmap_page_entry m space virt_addr =
    let pml4_slot = slot space.pml4 (pml4e_index virt_addr) in
    let pml4_entry = load64 m.byte pml4_slot in
    let pdpt = read_table pml4_entry in
    let pdpt_slot = slot pdpt (pdpe_index virt_addr) in
    let pdpt_entry = load64 m.byte pdpt_slot in
    let pd = read_table pdpt_entry in
    let pd_slot = slot pd (pde_index virt_addr) in
    let pd_entry = load64 m.byte pd_slot in
    let pt = read_table pd_entry in
    let pt_slot = slot pt (pte_index virt_addr) in
    let cleared = store64 (store64 m.byte pt_slot 0) pd_slot 0 in
    let collected = collect (record m { byte = cleared }) space pml4_slot pdpt pdpt_slot pd pt in
    if not_present pml4_entry
    then ok space m
    else if not_present pdpt_entry
    then ok space m
    else if not_present pd_entry
    then ok space m
    else if not_present (load64 m.byte pt_slot)
    then ok space m
    else collected

-- The loop of `vm_unmap`, for the rounds left.
unfoldable pub unmap_loop : ℕ → Machine → AddrSpace → ℕ → Run AddrSpace
unfolding bind_run
unmap_loop zero m space virt_addr = ok space m
unmap_loop (suc n) m space virt_addr =
    bind_run (unmap_page_entry m space virt_addr)
      (λ space' m'. unmap_loop n m' space' (u64 (virt_addr + page_size)))

unfoldable pub unmap_pages : ℕ → Machine → AddrSpace → ℕ → Run AddrSpace
unmap_pages n m space virt_addr = unmap_loop (range_rounds n) m space virt_addr
