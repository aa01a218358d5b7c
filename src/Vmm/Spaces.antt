-- ===== src/Vmm/Spaces.antt =====
-- `vm_map`, `vm_unmap`, `vm_init` and `create_address_space`: the kernel's address space, and the
-- list of mappings that every address space shares.
use horizon.Common.{
  ℕ, [], zero, suc, ◌+◌, ◌*◌, Option, none, some, List, ◌∷◌, ltb, ◌==◌, if◌then◌else◌, u64, sub64,
}
use horizon.Kmalloc.{ok, Machine, Run, kmalloc_impl}
use horizon.Pmm.Init.{
  usable, reserved, acpi_reclaimable, acpi_nvs, bad_memory, bootloader_reclaimable,
  kernel_and_modules, framebuffer, mem_virt_offset, phys_to_virt, virt_to_phys, MemmapEntry,
}
use horizon.Pmm.{page_size, num_pages}
use horizon.Vmm.{vm_usermode, map_pages, vm_default, default_pages, AddrSpace}
use horizon.Vector.{vector_erase, vector_append, Vector, bind_run}
use horizon.Memory.{memset, Mem}
use horizon.Vmm.Unmap.{unmap_pages}
use horizon.Memory.Words.{load64}

-- `kernel_addr_space` and `global_mem_map`.
pub record Globals : Type 0 where
  pub kernel_space : AddrSpace
  pub mem_map : Vector

-- sizeof(MEM_MAP): the words virt_addr, phys_addr, flags and num_pages.
abbrev pub mem_map_size : ℕ
mem_map_size = 32

-- `vm_map(NULL, ...)`: the mapping is listed and made in the kernel's address space.
unfoldable pub vm_map_global : Machine → Globals → ℕ → ℕ → ℕ → ℕ → ℕ → Run Globals
unfolding bind_run
vm_map_global m g virt_addr phys_addr n flags func =
    bind_run
      (vector_append m g.mem_map mem_map_size (virt_addr ∷ phys_addr ∷ flags ∷ n ∷ []) func 474)
      (λ list m'.
        bind_run (map_pages n m' g.kernel_space virt_addr phys_addr flags func)
          (λ space m''. ok (record { kernel_space = space; mem_map = list }) m''))

-- The search of `vm_unmap` in the list.
unfoldable pub unlist_loop : ℕ → ℕ → Mem → Vector → ℕ → Mem × Vector
unlist_loop zero i m v virt_addr = (m, v)
unlist_loop (suc n) i m v virt_addr =
    let rest = unlist_loop n (i + 1) m v virt_addr in
    if load64 m (v.elements + i * mem_map_size) == virt_addr
    then vector_erase m v mem_map_size i
    else rest

unfoldable pub vm_unmap_global : Machine → Globals → ℕ → ℕ → Run Globals
unfolding bind_run
vm_unmap_global m g virt_addr n =
    let s = unlist_loop g.mem_map.length 0 m.byte g.mem_map virt_addr in
    bind_run (unmap_pages n (record m { byte = s.0 }) g.kernel_space virt_addr)
      (λ space m'. ok (record { kernel_space = space; mem_map = s.1 }) m')

-- The loop of `create_address_space` over the shared mappings.
unfoldable pub share_loop : ℕ → ℕ → Machine → Vector → AddrSpace → ℕ → Run AddrSpace
unfolding bind_run
share_loop zero i m list space func = ok space m
share_loop (suc left) i m list space func =
    let at = list.elements + i * mem_map_size in
    bind_run
      (map_pages (load64 m.byte (at + 24)) m space (load64 m.byte at) (load64 m.byte (at + 8))
        (load64 m.byte (at + 16)) func)
      (λ space' m'. share_loop left (i + 1) m' list space' func)

-- sizeof(ADDR_SPACE): pml4, the vector and the lock.
abbrev pub addr_space_size : ℕ
addr_space_size = 48

-- The block of the structure is got and zeroed, then that of the top table, which `kmalloc` clears.
unfoldable pub create_address_space : Machine → Globals → ℕ → Run (ℕ × AddrSpace)
unfolding bind_run
create_address_space m g func = bind_run (kmalloc_impl m addr_space_size func 597) (λ p m1.
    let m2 : Machine = record m1 { byte = memset m1.byte p 0 addr_space_size } in
    bind_run (kmalloc_impl m2 (page_size * default_pages) func 606) (λ pml4 m3.
      let empty : Vector = record { length = 0; capacity = 0; elements = 0 } in
      let space0 : AddrSpace = record { pml4 = pml4; memory_list = empty } in
      bind_run (share_loop g.mem_map.length 0 m3 g.mem_map space0 func)
        (λ space m4. ok (p, space) m4)))

-- What `vm_init` maps of an entry of the memory map, as virtual address and pages.
unfoldable pub entry_mapping : ℕ → ℕ → MemmapEntry → Option (ℕ × ℕ)
entry_mapping virtual_base physical_base e = elim (e.type) [
  | kernel_and_modules ↦
      some (sub64 (u64 (virtual_base + e.base)) physical_base, num_pages e.length)
  | framebuffer ↦ some (phys_to_virt e.base, num_pages e.length)
  | usable ↦ some (phys_to_virt e.base, num_pages e.length)
  | acpi_reclaimable ↦ some (phys_to_virt e.base, num_pages e.length)
  | bootloader_reclaimable ↦ some (phys_to_virt e.base, num_pages e.length)
  | reserved ↦ none
  | acpi_nvs ↦ none
  | bad_memory ↦ none
]

unfoldable pub map_entries : Machine → Globals → ℕ → ℕ → List MemmapEntry → ℕ → Run Globals
unfolding bind_run
map_entries m g virtual_base physical_base [] func = ok g m
map_entries m g virtual_base physical_base (e ∷ es) func =
    elim (entry_mapping virtual_base physical_base e) [
      | none ↦ map_entries m g virtual_base physical_base es func
      | some (virt_addr, n) ↦
          bind_run (vm_map_global m g virt_addr e.base n vm_default func)
            (λ g' m'. map_entries m' g' virtual_base physical_base es func)
    ]

-- `vm_init` with both responses of the bootloader there; the last component is what cr3 is set to.
unfoldable pub vm_init : Machine → Globals → List MemmapEntry → ℕ → ℕ → ℕ → Run (Globals × ℕ)
unfolding bind_run
vm_init m g entries virtual_base physical_base func =
    bind_run (kmalloc_impl m (default_pages * page_size) func 504) (λ pml4 m1.
      let pages = num_pages m1.kmem.physical_limit in
      let g1 = record g { kernel_space = record g.kernel_space { pml4 = pml4 } } in
      let m2 = record m1 { byte = memset m1.byte pml4 0 (page_size * default_pages) } in
      bind_run
        (vm_map_global m2 g1 mem_virt_offset 0
          (if ltb pages (1024 * 512) then pages else 1024 * 512) vm_usermode func)
        (λ g2 m3.
          bind_run (map_pages pages m3 g2.kernel_space mem_virt_offset 0 vm_default func)
            (λ space m4.
              bind_run
                (map_entries m4 (record g2 { kernel_space = space }) virtual_base physical_base
                  entries func)
                (λ g3 m5. ok (g3, virt_to_phys g3.kernel_space.pml4) m5))))
