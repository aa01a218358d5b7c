-- ===== src/Vmm.antt =====
-- kernel/src/sys/mmu.c, the virtual memory manager: page tables of four levels in the byte memory.
-- The address space is the one that `CONVERT_ADDR_SPACE` gives, passed as a record; its lock is
-- never taken here. The translation cache (`invlpg`) is the processor's.
pub mod Unmap
pub mod Spaces
pub mod Laws
pub mod Lookup
pub mod Space
pub mod Table
pub mod Tabled
pub mod Fresh
pub mod Listed
pub mod NextTable
pub mod Entered
pub mod Remapped
pub mod Map
pub mod MapPages
pub mod Cut
pub mod Forget
pub mod Unmapped
pub mod UnmapEntry
pub mod UnmapPages
pub mod UnmapReturns
pub mod Empty
pub mod Share
pub mod Create
pub mod Created
pub mod SpaceTests
pub mod UnmapTests
pub mod Tests
use horizon.Common.{
  ℕ, [], zero, suc, ◌+◌, ◌*◌, ◌/◌, ◌%◌, ◌^◌, bit_or, Bool, ◌∷◌, ◌==◌, if◌then◌else◌, u64,
}
use horizon.Kmalloc.{ok, halted, no_fuel, Machine, Run}
use horizon.Pmm.{got, out_of_memory, out_of_fuel, page_size, pm_get}
use horizon.Vector.{Vector, bind_run, vector_append}
use horizon.Memory.{Mem, memset}
use horizon.Pmm.Init.{phys_to_virt, virt_to_phys}
use horizon.Memory.Words.{load64, store64}

pub record AddrSpace : Type 0 where
  pub pml4 : ℕ
  pub memory_list : Vector

-- VM_PRESENT | VM_READ_WRITE, and with VM_USER.
abbrev pub vm_default : ℕ
vm_default = 3

abbrev pub vm_usermode : ℕ
vm_usermode = 7

abbrev pub default_pages : ℕ
default_pages = 8

-- The indices of a virtual address in the tables of the four levels.
abbrev pub pte_index : ℕ → ℕ
pte_index virt_addr = virt_addr / 2 ^ 12 % 512

abbrev pub pde_index : ℕ → ℕ
pde_index virt_addr = virt_addr / 2 ^ 21 % 512

abbrev pub pdpe_index : ℕ → ℕ
pdpe_index virt_addr = virt_addr / 2 ^ 30 % 512

abbrev pub pml4e_index : ℕ → ℕ
pml4e_index virt_addr = virt_addr / 2 ^ 39 % 512

-- Where entry `i` of a table stands.
abbrev pub slot : ℕ → ℕ → ℕ
slot table i = table + 8 * i

-- `CHECK_NOT_PRESENT`: bit 0.
abbrev pub not_present : ℕ → Bool
not_present entry = entry % 2 == 0

-- `PHYS_TO_VIRT(entry & ~(0xFFF))`.
abbrev pub table_of : ℕ → ℕ
table_of entry = phys_to_virt (entry / 4096 * 4096)

-- `MAKE_TABLE_ENTRY`.
unfoldable pub make_table_entry : ℕ → ℕ → ℕ
make_table_entry addr flags = bit_or (addr / 4096 * 4096) flags

-- One level down from the entry at `at`: the table that it names, or a fresh one.
unfoldable pub next_table : Machine → AddrSpace → ℕ → ℕ → ℕ → Run (ℕ × AddrSpace)
unfolding bind_run
next_table m space at func line =
    let entry = load64 m.byte at in
    if not_present entry
    then elim (pm_get m.kmem default_pages 0) [
      | got buffer k ↦
          let table = phys_to_virt buffer in
          let m1 = memset m.byte table 0 (page_size * default_pages) in
          let m2 = store64 m1 at (make_table_entry (virt_to_phys table) vm_usermode) in
          if buffer == 0
          then halted
          else bind_run
              (vector_append (record { kmem = k; byte = m2 }) space.memory_list 8
                (virt_to_phys table ∷ []) func line)
              (λ list m'. ok (table, record space { memory_list = list }) m')
      | out_of_memory ↦ halted
      | out_of_fuel ↦ no_fuel
    ]
    else ok (table_of entry, space) m

-- `func` points to the function's name; the lines are those of the calls of `vector_append`.
unfoldable pub map_page_entry : Machine → AddrSpace → ℕ → ℕ → ℕ → ℕ → Run AddrSpace
unfolding bind_run
map_page_entry m space virt_addr phys_addr flags func =
    bind_run (next_table m space (slot space.pml4 (pml4e_index virt_addr)) func 263) (λ r1 m1.
      bind_run (next_table m1 (r1.1) (slot (r1.0) (pdpe_index virt_addr)) func 276) (λ r2 m2.
        bind_run (next_table m2 (r2.1) (slot (r2.0) (pde_index virt_addr)) func 289) (λ r3 m3.
          let entry = make_table_entry (phys_addr / 4096 * 4096) flags in
          ok (r3.1)
            (record m3 { byte = store64 m3.byte (slot (r3.0) (pte_index virt_addr)) entry }))))

-- The rounds of `for (i = 0; i < num_pages * PAGE_SIZE; i += PAGE_SIZE)`, with the bound in `uint64_t`.
abbrev pub range_rounds : ℕ → ℕ
range_rounds num_pages = u64 (num_pages * page_size) / page_size

-- The loop of `vm_map`, a page a round, for the rounds left.
unfoldable pub map_loop : ℕ → Machine → AddrSpace → ℕ → ℕ → ℕ → ℕ → Run AddrSpace
unfolding bind_run
map_loop zero m space virt_addr phys_addr flags func = ok space m
map_loop (suc n) m space virt_addr phys_addr flags func =
    bind_run (map_page_entry m space virt_addr phys_addr flags func) (λ space' m'.
      map_loop n m' space' (u64 (virt_addr + page_size)) (u64 (phys_addr + page_size)) flags func)

unfoldable pub map_pages : ℕ → Machine → AddrSpace → ℕ → ℕ → ℕ → ℕ → Run AddrSpace
map_pages n m space virt_addr phys_addr flags func =
    map_loop (range_rounds n) m space virt_addr phys_addr flags func

-- `PHYS_TO_VIRT(entry & ~(0x1FF))` of the functions that read the tables.
abbrev pub read_table : ℕ → ℕ
read_table entry = phys_to_virt (entry / 512 * 512)

-- The third test reads `pd[pte]`, as the code does.
unfoldable pub vm_get_phys_addr : Mem → AddrSpace → ℕ → ℕ
vm_get_phys_addr m space virt_addr =
    let pml4_entry = load64 m (slot space.pml4 (pml4e_index virt_addr)) in
    let pdpt = read_table pml4_entry in
    let pdpt_entry = load64 m (slot pdpt (pdpe_index virt_addr)) in
    let pd = read_table pdpt_entry in
    let pt = read_table (load64 m (slot pd (pde_index virt_addr))) in
    let page = load64 m (slot pt (pte_index virt_addr)) in
    if not_present pml4_entry
    then 0
    else if not_present pdpt_entry
    then 0
    else if not_present (load64 m (slot pd (pte_index virt_addr)))
    then 0
    else if not_present page
    then 0
    else page / 4096 * 4096
