-- ===== src/Vmm/UnmapEntry.antt =====
-- What `unmap_page_entry` does to the map of addresses.
use horizon.Common.{
  ℕ, inl, inr, false, true, refl, none, some, arith, ◌+◌, ◌*◌, ◌/◌, ◌%◌, ◌^◌, ◌<◌, ◌≡◌, ◌==◌, ◌&&◌,
  if◌then◌else◌, Bool-cases, sym, ap, ◌∙◌, Bool, Option, subst,
}
use horizon.Kmalloc.{ok, halted, no_fuel, Machine, Run}
use horizon.Vmm.Cut.{cut-entry, cut-here, cut-IsTree, cut-lookup_other}
use horizon.Vmm.Forget.{HasRoom, Off, owned-Off}
use horizon.Vmm.Unmapped.{collect-CollectRun, CollectRun}
use horizon.Vmm.Lookup.{walk-lookup, up, entry_of, child, lookup, page_of, IsTree}
use horizon.Vmm.Laws.{walk, IsTableEntry, frame}
use horizon.Vmm.{
  slot, pte_index, pde_index, pdpe_index, pml4e_index, read_table, AddrSpace, not_present,
}
use horizon.Vmm.Space.{IsAddrSpace, Layout}
use horizon.Kmalloc.Frame.{page_address, InPage}
use horizon.Pmm.Init.{phys_to_virt}
use horizon.Memory.Words.{store64, load64}
use horizon.Vmm.Unmap.{unmap_page_entry, collect}

abbrev pub is_mapped : Option ℕ → Bool
is_mapped none = false
is_mapped (some frame) = true

-- The 2 MiB that share a page table.
abbrev pub region_of : ℕ → ℕ
region_of virt_addr = page_of virt_addr / 512

-- What unmapping relies on and keeps: the tables are a tree, their pages are off the list's storage,
-- and the storage has room for what `vector_erase` writes.
pub record IsWalkable (m : Machine) (space : AddrSpace) (g : Layout) : Type 0 where
  pub root_at : space.pml4 ≡ page_address g.root
  pub root_level : (g.level g.root ≡ 4) × (g.code g.root ≡ 0)
  pub tree : IsTree m.byte g.level g.code
  pub low : (p : ℕ) → 0 < g.level p → p < 2 ^ 34
  pub room : HasRoom space.memory_list
  pub off : (p x : ℕ) → 0 < g.level p → InPage p x → Off space.memory_list x

-- An address space with room in its list is one.
pub IsAddrSpace-IsWalkable :
    (pages : ℕ) (m : Machine) (space : AddrSpace) (g : Layout)
    → IsAddrSpace pages m space g
    → HasRoom space.memory_list
    → IsWalkable m space g
IsAddrSpace-IsWalkable pages m space g s room = record {
  root_at = s.root_at;
  root_level = s.root_level;
  tree = s.tree;
  low = λ p there. (s.tables p there).0;
  room = room;
  off = λ p x there inside.
      owned-Off pages m space.memory_list g.owned g.count g.element p x s.safe s.list
        ((s.tables p there).0) ((s.tables p there).2) inside;
}

-- The map of addresses with the region of an address taken out, if that is mapped.
abbrev pub without : Bool → ℕ → ℕ → Option ℕ → Option ℕ
without mapped virt_addr v page =
    if mapped && (region_of v == region_of virt_addr) then none else page

-- What unmapping is to come to: if the address was mapped, the 512 pages of its region are not, and
-- every other address is mapped as before.
abbrev pub UnmappedRun : Machine → AddrSpace → Layout → ℕ → Run AddrSpace → Type 0
UnmappedRun m space g virt_addr (ok space' m') =
    (space'.pml4 ≡ space.pml4)
    × IsWalkable m' space' g
    × ((v : ℕ)
        → walk m'.byte space'.pml4 v
          ≡ without (is_mapped (walk m.byte space.pml4 virt_addr)) virt_addr v
              (walk m.byte space.pml4 v))
UnmappedRun m space g virt_addr halted = Unit
UnmappedRun m space g virt_addr no_fuel = ⊥

table_at : (entry : ℕ) → IsTableEntry entry → read_table entry ≡ page_address (child entry)
table_at entry e =
    let same : entry / 512 * 512 ≡ child entry * 4096 = omega (arith, e.0, e.1) in
    ap phys_to_virt same

module _ (m : Machine) (space : AddrSpace) (g : Layout) (virt_addr : ℕ)
    (s : IsWalkable m space g) where
  -- Nothing is done for an address that is not mapped.
  unmapped_already :
      lookup 4 m.byte g.root (page_of virt_addr) ≡ none
      → UnmappedRun m space g virt_addr (ok space m)
  unmapped_already gone = (
    refl,
    s,
    λ v.
        let e : walk m.byte space.pml4 virt_addr ≡ none =
          rw s.root_at (walk-lookup m.byte g.root virt_addr ∙ gone) in
        rw e refl,
  )

  -- The address is mapped, by way of the tables on these pages.
  module _ (p3 p2 p1 : ℕ) (e4 : IsTableEntry (entry_of m.byte g.root (pml4e_index virt_addr)))
      (to3 : child (entry_of m.byte g.root (pml4e_index virt_addr)) ≡ p3)
      (at3 : (g.level p3 ≡ 3) × (g.code p3 ≡ g.code g.root * 512 + pml4e_index virt_addr))
      (e3 : IsTableEntry (entry_of m.byte p3 (pdpe_index virt_addr)))
      (to2 : child (entry_of m.byte p3 (pdpe_index virt_addr)) ≡ p2)
      (at2 : (g.level p2 ≡ 2) × (g.code p2 ≡ g.code p3 * 512 + pdpe_index virt_addr))
      (at1 : (g.level p1 ≡ 1) × (g.code p1 ≡ g.code p2 * 512 + pde_index virt_addr)) where
    abbrev page_gone : Machine
    page_gone = record m { byte = store64 m.byte (slot (page_address p1) (pte_index virt_addr)) 0 }

    abbrev table_gone : Machine
    table_gone = record m {
      byte = store64 page_gone.byte (slot (page_address p2) (pde_index virt_addr)) 0;
    }

    page_gone-IsTree : IsTree page_gone.byte g.level g.code
    page_gone-IsTree =
        cut-IsTree g.level g.code g.root s.root_level m.byte p1 (pte_index virt_addr) s.tree s.low
          (omega (arith, at1)) (omega arith)

    table_gone-IsTree : IsTree table_gone.byte g.level g.code
    table_gone-IsTree =
        cut-IsTree g.level g.code g.root s.root_level page_gone.byte p2 (pde_index virt_addr)
          page_gone-IsTree s.low (omega (arith, at2)) (omega arith)

    -- Entries of upper tables are as before, but for the one above the page table.
    upper :
        (p j : ℕ)
        → 1 < g.level p
        → j < 512
        → (p == p2) ≡ false
        → entry_of table_gone.byte p j ≡ entry_of m.byte p j
    upper p j there lt apart =
        cut-entry g.level g.code g.root s.root_level page_gone.byte p2 (pde_index virt_addr)
          page_gone-IsTree s.low (omega (arith, at2)) (omega arith) p j (omega arith) lt
          (ground (arith, apart))
        ∙ cut-entry g.level g.code g.root s.root_level m.byte p1 (pte_index virt_addr) s.tree s.low
            (omega (arith, at1)) (omega arith) p j (omega arith) lt
            (ground (arith, ap g.level {x = p} {y = p1}, at1, there))

    top_entry :
        entry_of table_gone.byte g.root (pml4e_index virt_addr)
        ≡ entry_of m.byte g.root (pml4e_index virt_addr)
    top_entry =
        upper g.root (pml4e_index virt_addr) (omega (arith, s.root_level)) (omega arith)
          (ground (arith, ap g.level {x = g.root} {y = p2}, s.root_level, at2))

    middle_entry :
        entry_of table_gone.byte p3 (pdpe_index virt_addr)
        ≡ entry_of m.byte p3 (pdpe_index virt_addr)
    middle_entry =
        upper p3 (pdpe_index virt_addr) (omega (arith, at3)) (omega arith)
          (ground (arith, ap g.level {x = p3} {y = p2}, at3, at2))

    -- The walks after the two stores.
    table_gone-lookup :
        (v : ℕ)
        → v < 2 ^ 36
        → lookup 4 table_gone.byte g.root v
          ≡ (if v / 512 == region_of virt_addr then none else lookup 4 m.byte g.root v)
    unfolding up lookup
    table_gone-lookup v small = elim (Bool-cases (v / 512 == region_of virt_addr)) [
      | inl is ↦
          let e : v / 512 ≡ region_of virt_addr = ground (arith, is) in
          let i4 : v / 512 / 512 / 512 % 512 ≡ pml4e_index virt_addr = omega (arith, e) in
          let i3 : v / 512 / 512 % 512 ≡ pdpe_index virt_addr = omega (arith, e) in
          let i2 : v / 512 % 512 ≡ pde_index virt_addr = omega (arith, e) in
          let gone : entry_of table_gone.byte p2 (pde_index virt_addr) ≡ 0 =
            cut-here g.level g.code g.root s.root_level page_gone.byte p2 (pde_index virt_addr)
              page_gone-IsTree s.low (omega (arith, at2)) (omega arith) in
          let there4 : not_present (entry_of m.byte g.root (pml4e_index virt_addr)) ≡ false =
            ground (arith, e4) in
          let there3 : not_present (entry_of m.byte p3 (pdpe_index virt_addr)) ≡ false =
            ground (arith, e3) in
          rw (is, i4, top_entry, there4, to3, i3, middle_entry, there3, to2, i2, gone) refl
      | inr other ↦ rw other (
          cut-lookup_other g.level g.code g.root s.root_level page_gone.byte p2
            (pde_index virt_addr) page_gone-IsTree s.low (omega (arith, at2)) (omega arith) 1 v
            (at2.0) small (ground (arith, other, at2, at3, s.root_level))
          ∙ cut-lookup_other g.level g.code g.root s.root_level m.byte p1 (pte_index virt_addr)
              s.tree s.low (omega (arith, at1)) (omega arith) 0 v (at1.0) small
              (ground (arith, other, at1, at2, at3, s.root_level)))
    ]

    is_there :
        not_present (entry_of m.byte p2 (pde_index virt_addr)) ≡ false
        → child (entry_of m.byte p2 (pde_index virt_addr)) ≡ p1
        → not_present (entry_of m.byte p1 (pte_index virt_addr)) ≡ false
        → is_mapped (lookup 4 m.byte g.root (page_of virt_addr)) ≡ true
    unfolding up lookup
    is_there there2 to1 there1 =
        let i4 : page_of virt_addr / 512 / 512 / 512 % 512 ≡ pml4e_index virt_addr = omega arith in
        let i3 : page_of virt_addr / 512 / 512 % 512 ≡ pdpe_index virt_addr = omega arith in
        let i2 : page_of virt_addr / 512 % 512 ≡ pde_index virt_addr = omega arith in
        let i1 : page_of virt_addr % 512 ≡ pte_index virt_addr = omega arith in
        let there4 : not_present (entry_of m.byte g.root (pml4e_index virt_addr)) ≡ false =
          ground (arith, e4) in
        let there3 : not_present (entry_of m.byte p3 (pdpe_index virt_addr)) ≡ false =
          ground (arith, e3) in
        rw (i4, there4, to3, i3, there3, to2, i2, there2, to1, i1, there1) refl

    CollectRun-UnmappedRun :
        (r : Run AddrSpace)
        → is_mapped (lookup 4 m.byte g.root (page_of virt_addr)) ≡ true
        → CollectRun g space.memory_list s.root_level s.low s.off table_gone space r
        → UnmappedRun m space g virt_addr r
    CollectRun-UnmappedRun (ok space' m') mapped c = (
      c.0,
      record {
        root_at = c.0 ∙ s.root_at;
        root_level = s.root_level;
        tree = c.2;
        low = s.low;
        room = c.3.0;
        off = λ p x there inside. ground (arith, s.off p x there inside, c.3.1);
      },
      λ v.
          let walks : walk m'.byte space'.pml4 v
              ≡ (if region_of v == region_of virt_addr then none else walk m.byte space.pml4 v) =
            rw (c.0, s.root_at)
              (walk-lookup m'.byte g.root v
                ∙ c.1 (page_of v) (omega arith)
                ∙ table_gone-lookup (page_of v) (omega arith)
                ∙ rw (walk-lookup m.byte g.root v) refl) in
          let there : is_mapped (walk m.byte space.pml4 virt_addr) ≡ true =
            rw (s.root_at, walk-lookup m.byte g.root virt_addr) mapped in
          walks ∙ rw there refl,
    )
    CollectRun-UnmappedRun halted mapped c = tt
    CollectRun-UnmappedRun no_fuel mapped c = c

    -- What follows the two stores.
    collected :
        not_present (entry_of m.byte p2 (pde_index virt_addr)) ≡ false
        → child (entry_of m.byte p2 (pde_index virt_addr)) ≡ p1
        → not_present (entry_of m.byte p1 (pte_index virt_addr)) ≡ false
        → UnmappedRun m space g virt_addr (
            collect table_gone space
              (slot space.pml4 (pml4e_index virt_addr))
              (page_address p3)
              (slot (page_address p3) (pdpe_index virt_addr))
              (page_address p2)
              (page_address p1))
    collected there2 to1 there1 =
        subst
          (λ a. UnmappedRun m space g virt_addr (
            collect table_gone space (slot a (pml4e_index virt_addr)) (page_address p3)
              (slot (page_address p3) (pdpe_index virt_addr)) (page_address p2) (page_address p1)))
          (sym s.root_at)
          (CollectRun-UnmappedRun _ (is_there there2 to1 there1) (
            collect-CollectRun g space.memory_list s.root_level s.low s.off table_gone space p2 p3
              (pdpe_index virt_addr) (pml4e_index virt_addr) (page_address p1) table_gone-IsTree
              (s.room, refl, refl) (at3.0) (omega arith) (omega arith) (ap child middle_entry ∙ to2)
              (ap child top_entry ∙ to3)))

  -- The four tests of `unmap_page_entry`: the address is not mapped, or all four entries are there.
  pub unmap_cases :
      (Q : Run AddrSpace → Type 0)
      → (lookup 4 m.byte g.root (page_of virt_addr) ≡ none → Q (ok space m))
      → ((p3 p2 p1 : ℕ) (e4 : IsTableEntry (entry_of m.byte g.root (pml4e_index virt_addr)))
            (to3 : child (entry_of m.byte g.root (pml4e_index virt_addr)) ≡ p3)
            (at3 : (g.level p3 ≡ 3) × (g.code p3 ≡ g.code g.root * 512 + pml4e_index virt_addr))
            (e3 : IsTableEntry (entry_of m.byte p3 (pdpe_index virt_addr)))
            (to2 : child (entry_of m.byte p3 (pdpe_index virt_addr)) ≡ p2)
            (at2 : (g.level p2 ≡ 2) × (g.code p2 ≡ g.code p3 * 512 + pdpe_index virt_addr))
            (at1 : (g.level p1 ≡ 1) × (g.code p1 ≡ g.code p2 * 512 + pde_index virt_addr))
          → not_present (entry_of m.byte p2 (pde_index virt_addr)) ≡ false
          → child (entry_of m.byte p2 (pde_index virt_addr)) ≡ p1
          → not_present (entry_of m.byte p1 (pte_index virt_addr)) ≡ false
          → Q (
              collect
                (table_gone p3 p2 p1 e4 to3 at3 e3 to2 at2 at1)
                space
                (slot space.pml4 (pml4e_index virt_addr))
                (page_address p3)
                (slot (page_address p3) (pdpe_index virt_addr))
                (page_address p2)
                (page_address p1)))
      → Q (unmap_page_entry m space virt_addr)
  unfolding unmap_page_entry lookup up
  unmap_cases Q none_there all_there =
      let i4 : page_of virt_addr / 512 / 512 / 512 % 512 ≡ pml4e_index virt_addr = omega arith in
      let i3 : page_of virt_addr / 512 / 512 % 512 ≡ pdpe_index virt_addr = omega arith in
      let i2 : page_of virt_addr / 512 % 512 ≡ pde_index virt_addr = omega arith in
      let i1 : page_of virt_addr % 512 ≡ pte_index virt_addr = omega arith in
      let n4 : ℕ = entry_of m.byte g.root (pml4e_index virt_addr) in
      let read4 : load64 m.byte (slot space.pml4 (pml4e_index virt_addr)) ≡ n4 =
        ap (λ a. load64 m.byte (slot a (pml4e_index virt_addr))) s.root_at in
      let p3 : ℕ = child n4 in
      let n3 : ℕ = entry_of m.byte p3 (pdpe_index virt_addr) in
      let p2 : ℕ = child n3 in
      let n2 : ℕ = entry_of m.byte p2 (pde_index virt_addr) in
      let p1 : ℕ = child n2 in
      let n1 : ℕ = entry_of m.byte p1 (pte_index virt_addr) in
      rw read4 (elim (Bool-cases (not_present n4)) [
        | inl gone ↦ rw gone (none_there (rw (i4, gone) refl))
        | inr there4 ↦
            let t4 =
              s.tree g.root 2 (pml4e_index virt_addr) (s.root_level.0) (omega arith) there4 in
            let at3 = table_at n4 (t4.0) in
            rw (there4, at3)
              (elim (Bool-cases (not_present n3)) [
                | inl gone ↦ rw gone (none_there (rw (i4, there4, i3, gone) refl))
                | inr there3 ↦
                    let t3 = s.tree p3 1 (pdpe_index virt_addr) (t4.1) (omega arith) there3 in
                    let at2 = table_at n3 (t3.0) in
                    rw (there3, at2)
                      (elim (Bool-cases (not_present n2)) [
                        | inl gone ↦
                            rw gone (none_there (rw (i4, there4, i3, there3, i2, gone) refl))
                        | inr there2 ↦
                            let t2 =
                              s.tree p2 0 (pde_index virt_addr) (t3.1) (omega arith) there2 in
                            let at1 = table_at n2 (t2.0) in
                            rw (there2, at1)
                              (elim (Bool-cases (not_present n1)) [
                                | inl gone ↦ rw gone (
                                    none_there
                                      (rw (i4, there4, i3, there3, i2, there2, i1, gone) refl))
                                | inr there1 ↦ rw there1 (
                                    all_there p3 p2 p1 (t4.0) refl (t4.1, t4.2) (t3.0) refl
                                      (t3.1, t3.2) (t2.1, t2.2) there2 refl there1)
                              ])
                      ])
              ])
      ])

  -- On an address space whose list has room for what `vector_erase` writes, `unmap_page_entry` either
  -- halts or leaves such an address space in which the whole region of an address that was mapped is
  -- not, and every other address is mapped as before; for an address that was not mapped nothing is
  -- different.
  pub unmap_page_entry-Unmapped :
      UnmappedRun m space g virt_addr (unmap_page_entry m space virt_addr)
  unmap_page_entry-Unmapped =
      unmap_cases (UnmappedRun m space g virt_addr) unmapped_already collected
