-- ===== src/Vmm/Laws.antt =====
-- The page tables as the processor reads them, and what mapping a page does to its walk.
use horizon.Common.{
  bit_or-sum, ℕ, false, ◌+◌, ◌*◌, ◌/◌, ◌%◌, ◌^◌, ◌≤◌, ◌<◌, ◌≡◌, refl, sym, ◌⊎◌, ◌||◌, Option, none,
  some, arith, if◌then◌else◌, subst,
}
use horizon.Kmalloc.{ok, halted, no_fuel, Machine, Run}
use horizon.Vmm.{
  AddrSpace, vm_usermode, pte_index, pde_index, pdpe_index, pml4e_index, slot, not_present,
  make_table_entry, next_table, map_page_entry,
}
use horizon.Memory.{Mem}
use horizon.Memory.Words.{load64, store64, store64_other, load64-store64, load64-store64_apart}
use horizon.Pmm.Init.{phys_to_virt}
use horizon.Memory.Laws.{within}

-- The physical address in an entry: bits 12 to 51.
abbrev pub frame : ℕ → ℕ
frame entry = entry / 4096 % 2 ^ 40 * 4096

-- The walk of the four levels from the table at `pml4`, all of whose entries have to be present.
-- The tables are read where the kernel maps physical memory.
unfoldable pub walk : Mem → ℕ → ℕ → Option ℕ
walk m pml4 virt_addr =
    let e4 = load64 m (slot pml4 (pml4e_index virt_addr)) in
    let e3 = load64 m (slot (phys_to_virt (frame e4)) (pdpe_index virt_addr)) in
    let e2 = load64 m (slot (phys_to_virt (frame e3)) (pde_index virt_addr)) in
    let e1 = load64 m (slot (phys_to_virt (frame e2)) (pte_index virt_addr)) in
    if not_present e4 || not_present e3 || not_present e2 || not_present e1
    then none
    else some (frame e1)

-- Entries that the kernel writes for tables: a physical address below 2^52 and the flags of
-- VM_USERMODE.
abbrev pub IsTableEntry : ℕ → Type 0
IsTableEntry entry = (entry < 2 ^ 52) × (entry % 4096 ≡ vm_usermode)

-- The three upper entries of an address are there.
pub record HasTables (m : Mem) (pml4 virt_addr : ℕ) (pdpt pd pt : ℕ) : Type 0 where
  pub e4 : IsTableEntry (load64 m (slot pml4 (pml4e_index virt_addr)))
  pub pdpt_at : pdpt ≡ phys_to_virt (frame (load64 m (slot pml4 (pml4e_index virt_addr))))
  pub e3 : IsTableEntry (load64 m (slot pdpt (pdpe_index virt_addr)))
  pub pd_at : pd ≡ phys_to_virt (frame (load64 m (slot pdpt (pdpe_index virt_addr))))
  pub e2 : IsTableEntry (load64 m (slot pd (pde_index virt_addr)))
  pub pt_at : pt ≡ phys_to_virt (frame (load64 m (slot pd (pde_index virt_addr))))

-- A word of 8 bytes does not meet another.
abbrev pub Clear : ℕ → ℕ → Type 0
Clear a b = (a + 8 ≤ b) ⊎ (b + 8 ≤ a)

pub make_table_entry_lem :
    (addr flags : ℕ) → flags < 4096 → make_table_entry addr flags ≡ addr / 4096 * 4096 + flags
unfolding make_table_entry
make_table_entry_lem addr flags low = bit_or-sum 12 (addr / 4096) flags low

pub next_table-present :
    (m : Machine) (space : AddrSpace) (at func line : ℕ)
    → IsTableEntry (load64 m.byte at)
    → next_table m space at func line ≡ ok (phys_to_virt (frame (load64 m.byte at)), space) m
unfolding next_table
next_table-present m space at func line e =
    let there : not_present (load64 m.byte at) ≡ false = ground (arith, e.1) in
    let same : load64 m.byte at / 4096 * 4096 ≡ frame (load64 m.byte at) = omega (arith, e.0) in
    rw (there, same) refl

module _ (m : Machine) (space : AddrSpace) (virt_addr phys_addr flags func pdpt pd pt : ℕ)
    (tables : HasTables m.byte space.pml4 virt_addr pdpt pd pt) where
  abbrev mapped : Machine
  mapped = record m {
    byte =
        store64 m.byte (slot pt (pte_index virt_addr))
          (make_table_entry (phys_addr / 4096 * 4096) flags);
  }

  map_page_entry-present : map_page_entry m space virt_addr phys_addr flags func ≡ ok space mapped
  unfolding map_page_entry
  map_page_entry-present =
      rw
        (
          next_table-present m space (slot space.pml4 (pml4e_index virt_addr)) func 263 tables.e4,
          sym tables.pdpt_at,
          next_table-present m space (slot pdpt (pdpe_index virt_addr)) func 276 tables.e3,
          sym tables.pd_at,
          next_table-present m space (slot pd (pde_index virt_addr)) func 289 tables.e2,
          sym tables.pt_at,
        )
        refl

-- What mapping a page is to come to: the walk of the address gives the frame, and nothing but the
-- page table's entry is written.
abbrev pub Mapped : Machine → AddrSpace → ℕ → ℕ → ℕ → Run AddrSpace → Type 0
Mapped m space at virt_addr phys_addr (ok space' m') =
    (space' ≡ space)
    × (m'.kmem ≡ m.kmem)
    × (walk m'.byte space'.pml4 virt_addr ≡ some (phys_addr / 4096 * 4096))
    × ((q : ℕ) → within at 8 q ≡ false → m'.byte q ≡ m.byte q)
Mapped m space at virt_addr phys_addr halted = ⊥
Mapped m space at virt_addr phys_addr no_fuel = ⊥

pub walk-store64 :
    (m : Mem) (pml4 virt_addr pdpt pd pt entry : ℕ)
    → HasTables m pml4 virt_addr pdpt pd pt
    → Clear (slot pt (pte_index virt_addr)) (slot pml4 (pml4e_index virt_addr))
    → Clear (slot pt (pte_index virt_addr)) (slot pdpt (pdpe_index virt_addr))
    → Clear (slot pt (pte_index virt_addr)) (slot pd (pde_index virt_addr))
    → entry < 2 ^ 52
    → entry % 2 ≡ 1
    → walk (store64 m (slot pt (pte_index virt_addr)) entry) pml4 virt_addr ≡ some (frame entry)
unfolding walk
walk-store64 m pml4 virt_addr pdpt pd pt entry t c4 c3 c2 small present =
    let at : ℕ = slot pt (pte_index virt_addr) in
    let kept4 = load64-store64_apart m at entry (slot pml4 (pml4e_index virt_addr)) c4 in
    let kept3 = load64-store64_apart m at entry (slot pdpt (pdpe_index virt_addr)) c3 in
    let kept2 = load64-store64_apart m at entry (slot pd (pde_index virt_addr)) c2 in
    let new : load64 (store64 m at entry) at ≡ entry = omega (arith, load64-store64 m at entry) in
    let p4 : not_present (load64 m (slot pml4 (pml4e_index virt_addr))) ≡ false =
      ground (arith, t.e4) in
    let p3 : not_present (load64 m (slot pdpt (pdpe_index virt_addr))) ≡ false =
      ground (arith, t.e3) in
    let p2 : not_present (load64 m (slot pd (pde_index virt_addr))) ≡ false =
      ground (arith, t.e2) in
    let p1 : not_present entry ≡ false = ground arith in
    rw (kept4, sym t.pdpt_at, kept3, sym t.pd_at, kept2, sym t.pt_at, new, p4, p3, p2, p1) refl

-- When the three tables on the way are there, and the entry of the page stands in none of their
-- entries, `map_page_entry` with present flags below 4096 succeeds: it gets no pages, writes only
-- that entry, and the processor's walk of the address then ends at the page of `phys_addr`.
pub map_page_entry-Mapped :
    (m : Machine) (space : AddrSpace) (virt_addr phys_addr flags func pdpt pd pt : ℕ)
    → HasTables m.byte space.pml4 virt_addr pdpt pd pt
    → Clear (slot pt (pte_index virt_addr)) (slot space.pml4 (pml4e_index virt_addr))
    → Clear (slot pt (pte_index virt_addr)) (slot pdpt (pdpe_index virt_addr))
    → Clear (slot pt (pte_index virt_addr)) (slot pd (pde_index virt_addr))
    → phys_addr < 2 ^ 52
    → flags < 4096
    → flags % 2 ≡ 1
    → Mapped m space
        (slot pt (pte_index virt_addr))
        virt_addr
        phys_addr
        (map_page_entry m space virt_addr phys_addr flags func)
map_page_entry-Mapped m space virt_addr phys_addr flags func pdpt pd pt t c4 c3 c2 small low
      present =
    let made = make_table_entry_lem (phys_addr / 4096 * 4096) flags low in
    let entry : ℕ = make_table_entry (phys_addr / 4096 * 4096) flags in
    let ends =
      walk-store64 m.byte space.pml4 virt_addr pdpt pd pt entry t c4 c3 c2 (omega (arith, made))
        (omega (arith, made)) in
    let page : frame entry ≡ phys_addr / 4096 * 4096 = omega (arith, made) in
    subst (Mapped m space (slot pt (pte_index virt_addr)) virt_addr phys_addr)
      (sym (map_page_entry-present m space virt_addr phys_addr flags func pdpt pd pt t))
      (
        refl,
        refl,
        subst
            (λ f.
              walk (store64 m.byte (slot pt (pte_index virt_addr)) entry) space.pml4 virt_addr
              ≡ some f)
            page ends,
        store64_other m.byte (slot pt (pte_index virt_addr)) entry,
      )

-- An entry that the mask of the code and that of the processor read alike: bits 9 to 11, which the
-- mask ~0x1FF keeps, and bits 52 to 63 are clear. The accessed bit may be set.
abbrev pub ReadsAlike : ℕ → Type 0
ReadsAlike entry = (entry < 2 ^ 52) × (entry / 512 % 8 ≡ 0)

-- The three upper entries of an address, of which the last is present; the tables that they name.
pub record UpperEntries (m : Mem) (pml4 virt_addr : ℕ) (pdpt pd pt : ℕ) : Type 0 where
  pub e4 : ReadsAlike (load64 m (slot pml4 (pml4e_index virt_addr)))
  pub pdpt_at : pdpt ≡ phys_to_virt (frame (load64 m (slot pml4 (pml4e_index virt_addr))))
  pub e3 : ReadsAlike (load64 m (slot pdpt (pdpe_index virt_addr)))
  pub pd_at : pd ≡ phys_to_virt (frame (load64 m (slot pdpt (pdpe_index virt_addr))))
  pub e2 : ReadsAlike (load64 m (slot pd (pde_index virt_addr)))
  pub e2_there : load64 m (slot pd (pde_index virt_addr)) % 2 ≡ 1
  pub pt_at : pt ≡ phys_to_virt (frame (load64 m (slot pd (pde_index virt_addr))))
