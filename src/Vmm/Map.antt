-- ===== src/Vmm/Map.antt =====
-- `map_page_entry` implements an update of the address map.
use horizon.Common.{
  ℕ, inl, inr, false, refl, some, arith, ◌+◌, ◌*◌, ◌/◌, ◌%◌, ◌^◌, ◌<◌, ◌≡◌, ◌==◌, sym, ap, ◌∙◌,
  Bool-cases, subst, ltb,
}
use horizon.Kmalloc.{Machine, Run}
use horizon.Vmm.Laws.{
  walk-store64, walk, HasTables, IsTableEntry, frame, make_table_entry_lem, Clear,
}
use horizon.Vmm.{
  slot, AddrSpace, pte_index, pde_index, pdpe_index, pml4e_index, not_present, make_table_entry,
  map_page_entry,
}
use horizon.Vmm.Space.{IsAddrSpace, Layout, Confined, Confined-trans}
use horizon.Vmm.Lookup.{lookup, entry_of, page_of, walk-lookup}
use horizon.Memory.Words.{store64}
use horizon.Kmalloc.Frame.{page_address}
use horizon.Vmm.Tabled.{Tabled}
use horizon.Vmm.Entered.{entered-IsAddrSpace, entered, entered-lookup, entered-Confined}
use horizon.Vmm.NextTable.{next_table_at, tabled_bind}
use horizon.Vmm.Remapped.{Remapped, RemappedRun}

slots-Clear :
    (p q i j : ℕ)
    → p < 2 ^ 34
    → q < 2 ^ 34
    → i < 512
    → j < 512
    → (p == q) ≡ false
    → Clear (slot (page_address p) i) (slot (page_address q) j)
slots-Clear p q i j low_p low_q small_i small_j apart = elim (Bool-cases (ltb p q)) [
  | inl less ↦ inl (ground (arith, less))
  | inr more ↦ inr (ground (arith, more, apart))
]

is_there : (entry : ℕ) → IsTableEntry entry → not_present entry ≡ false
is_there entry e = ground (arith, e.1)

module _ (pages : ℕ) (m : Machine) (space : AddrSpace) (g : Layout)
    (virt_addr phys_addr flags func : ℕ) (s : IsAddrSpace pages m space g)
    (small : phys_addr < 2 ^ 52) (low : flags < 4096) (present : flags % 2 ≡ 1) where
  -- After the three steps down.
  module _ (t1 t2 t3 : ℕ) (space1 space2 space3 : AddrSpace) (m1 m2 m3 : Machine)
      (z1 : Tabled pages m space g g.root 2 (pml4e_index virt_addr) t1 space1 m1)
      (z2 : Tabled pages m1 space1 z1.g' z1.page 1 (pdpe_index virt_addr) t2 space2 m2)
      (z3 : Tabled pages m2 space2 z2.g' z2.page 0 (pde_index virt_addr) t3 space3 m3) where
    root1 : z1.g'.level g.root ≡ 4
    root1 = (z1.grown g.root (omega (arith, s.root_level))).0 ∙ s.root_level.0

    levels2 : (z2.g'.level g.root ≡ 4) × (z2.g'.level z1.page ≡ 3)
    levels2 = (
      (z2.grown g.root (omega (arith, root1))).0 ∙ root1,
      (z2.grown z1.page (omega (arith, z1.table))).0 ∙ z1.table.0,
    )

    levels :
        (z3.g'.level g.root ≡ 4)
        × (z3.g'.level z1.page ≡ 3)
        × (z3.g'.level z2.page ≡ 2)
        × (z3.g'.level z3.page ≡ 1)
    levels = (
      (z3.grown g.root (omega (arith, levels2.0))).0 ∙ levels2.0,
      (z3.grown z1.page (omega (arith, levels2.1))).0 ∙ levels2.1,
      (z3.grown z2.page (omega (arith, z2.table))).0 ∙ z2.table.0,
      z3.table.0,
    )

    the_page : z3.g'.code z3.page * 512 + pte_index virt_addr ≡ page_of virt_addr
    the_page = omega (arith, z3.table.1, z2.table.1, z1.table.1, s.root_level.1)

    kept3 :
        entry_of m3.byte z1.page (pdpe_index virt_addr)
        ≡ entry_of m2.byte z1.page (pdpe_index virt_addr)
    kept3 =
        z3.kept z1.page 1 (pdpe_index virt_addr) (levels2.1) (omega arith) (is_there _ (z2.entry.0))

    kept4 :
        entry_of m3.byte g.root (pml4e_index virt_addr)
        ≡ entry_of m1.byte g.root (pml4e_index virt_addr)
    kept4 =
        let first =
          z2.kept g.root 2 (pml4e_index virt_addr) root1 (omega arith) (is_there _ (z1.entry.0)) in
        z3.kept g.root 2 (pml4e_index virt_addr) (levels2.0) (omega arith)
          (is_there _ (subst IsTableEntry (sym first) (z1.entry.0)))
        ∙ first

    roots2 : z2.g'.root ≡ g.root
    roots2 = z2.same_root.0 ∙ z1.same_root.0

    roots3 : z3.g'.root ≡ g.root
    roots3 = z3.same_root.0 ∙ roots2

    top : space3.pml4 ≡ page_address g.root
    top = z3.same_root.1 ∙ z2.same_root.1 ∙ z1.same_root.1 ∙ s.root_at

    tables : HasTables m3.byte space3.pml4 virt_addr t1 t2 t3
    tables =
        let same4 = kept4 in
        let same3 = kept3 in
        record {
          e4 = rw (top, same4) (z1.entry.0);
          pdpt_at = rw (top, same4) (z1.table_at ∙ ap page_address (sym (z1.entry.1)));
          e3 = rw (z1.table_at, same3) (z2.entry.0);
          pd_at = rw (z1.table_at, same3) (z2.table_at ∙ ap page_address (sym (z2.entry.1)));
          e2 = rw z2.table_at (z3.entry.0);
          pt_at = rw z2.table_at (z3.table_at ∙ ap page_address (sym (z3.entry.1)));
        }

    abbrev entry : ℕ
    entry = make_table_entry (phys_addr / 4096 * 4096) flags

    abbrev m4 : Machine
    m4 = record m3 { byte = store64 m3.byte (slot t3 (pte_index virt_addr)) entry }

    bottom_at :
        entered pages m3 space3 z3.g' z3.page
          (pte_index virt_addr)
          entry
          z3.state
          (z3.table.0)
          (omega arith)
        ≡ m4
    bottom_at = rw z3.table_at refl

    other_walk :
        (v : ℕ)
        → (page_of v == page_of virt_addr) ≡ false
        → walk m4.byte space3.pml4 v ≡ walk m.byte space.pml4 v
    other_walk v other =
        let low_page : page_of v < 2 ^ 36 = omega arith in
        let a =
          subst (λ r. lookup 4 m4.byte r (page_of v) ≡ lookup 4 m3.byte r (page_of v)) roots3
            (subst
              (λ x.
                lookup 4 x.byte z3.g'.root (page_of v) ≡ lookup 4 m3.byte z3.g'.root (page_of v))
              bottom_at
              (entered-lookup pages m3 space3 z3.g' z3.page (pte_index virt_addr) entry z3.state
                (z3.table.0) (omega arith) (page_of v) low_page
                (ground (arith, other, the_page)))) in
        let b =
          subst (λ r. lookup 4 m3.byte r (page_of v) ≡ lookup 4 m2.byte r (page_of v)) roots2
            (z3.lookups (page_of v) low_page) in
        let c =
          subst (λ r. lookup 4 m2.byte r (page_of v) ≡ lookup 4 m1.byte r (page_of v))
            (z1.same_root.0) (z2.lookups (page_of v) low_page) in
        rw (top, s.root_at)
          (walk-lookup m4.byte g.root v
            ∙ a
            ∙ b
            ∙ c
            ∙ z1.lookups (page_of v) low_page
            ∙ sym (walk-lookup m.byte g.root v))

    low_table : (p : ℕ) → 0 < z3.g'.level p → p < 2 ^ 34
    low_table p there = (z3.state.tables p there).0

    apart_table :
        (p j : ℕ)
        → 1 < z3.g'.level p
        → j < 512
        → Clear (slot t3 (pte_index virt_addr)) (slot (page_address p) j)
    apart_table p j upper lt = rw z3.table_at (
        slots-Clear z3.page p (pte_index virt_addr) j (low_table z3.page (omega (arith, z3.table)))
          (low_table p (omega arith)) (omega arith) lt (ground (arith, upper, z3.table)))

    same_walk :
        (v : ℕ)
        → page_of v ≡ page_of virt_addr
        → walk m4.byte space3.pml4 v ≡ walk m4.byte space3.pml4 virt_addr
    same_walk v e = rw top (
        walk-lookup m4.byte g.root v
        ∙ ap (lookup 4 m4.byte g.root) e
        ∙ sym (walk-lookup m4.byte g.root virt_addr))

    this_walk : walk m4.byte space3.pml4 virt_addr ≡ some (phys_addr / 4096 * 4096)
    this_walk =
        let made = make_table_entry_lem (phys_addr / 4096 * 4096) flags low in
        let page : frame entry ≡ phys_addr / 4096 * 4096 = omega (arith, made) in
        let clear4 =
          subst (λ t. Clear (slot t3 (pte_index virt_addr)) (slot t (pml4e_index virt_addr)))
            (sym top)
            (apart_table g.root (pml4e_index virt_addr) (omega (arith, levels)) (omega arith)) in
        let clear3 =
          subst (λ t. Clear (slot t3 (pte_index virt_addr)) (slot t (pdpe_index virt_addr)))
            (sym z1.table_at)
            (apart_table z1.page (pdpe_index virt_addr) (omega (arith, levels)) (omega arith)) in
        let clear2 =
          subst (λ t. Clear (slot t3 (pte_index virt_addr)) (slot t (pde_index virt_addr)))
            (sym z2.table_at)
            (apart_table z2.page (pde_index virt_addr) (omega (arith, levels)) (omega arith)) in
        walk-store64 m3.byte space3.pml4 virt_addr t1 t2 t3 entry tables (clear4) (clear3) (clear2)
          (omega (arith, made)) (omega (arith, made))
        ∙ ap some page

    all-Confined : Confined m g m4 z3.g'
    all-Confined = Confined-trans m m1 m4 g z1.g' z3.g' z1.confined (
        Confined-trans m1 m2 m4 z1.g' z2.g' z3.g' z2.confined (
          Confined-trans m2 m3 m4 z2.g' z3.g' z3.g' z3.confined (
            subst (λ x. Confined m3 z3.g' x z3.g') bottom_at
              (entered-Confined pages m3 space3 z3.g' z3.page (pte_index virt_addr) entry z3.state
                (z3.table.0) (omega arith)))))

    remapped : Remapped pages m space g virt_addr phys_addr space3 m4
    remapped = record {
      layout = z3.g';
      state =
          subst (λ x. IsAddrSpace pages x space3 z3.g') bottom_at
            (entered-IsAddrSpace pages m3 space3 z3.g' z3.page (pte_index virt_addr) entry z3.state
              (z3.table.0) (omega arith));
      confined = all-Confined;
      same_top = z3.same_root.1 ∙ z2.same_root.1 ∙ z1.same_root.1;
      walks = λ v. elim (Bool-cases (page_of v == page_of virt_addr)) [
        | inl is ↦ rw is (same_walk v (ground (arith, is)) ∙ this_walk)
        | inr other ↦ rw other (other_walk v other)
      ];
    }

  pub map_page_entry-Remapped :
      RemappedRun pages m space g virt_addr phys_addr
        (map_page_entry m space virt_addr phys_addr flags func)
  unfolding map_page_entry
  map_page_entry-Remapped =
      let Q : Run AddrSpace → Type 0 = RemappedRun pages m space g virt_addr phys_addr in
      tabled_bind Q pages m space g g.root 2 (pml4e_index virt_addr) _ _
        (next_table_at pages m space g g.root 2 (pml4e_index virt_addr) func 263 s (s.root_level.0)
          (omega arith) space.pml4 s.root_at)
        (λ t1 space1 m1 z1.
          tabled_bind Q pages m1 space1 z1.g' z1.page 1 (pdpe_index virt_addr) _ _
            (next_table_at pages m1 space1 z1.g' z1.page 1 (pdpe_index virt_addr) func 276 z1.state
              (z1.table.0) (omega arith) t1 z1.table_at)
            (λ t2 space2 m2 z2.
              tabled_bind Q pages m2 space2 z2.g' z2.page 0 (pde_index virt_addr) _ _
                (next_table_at pages m2 space2 z2.g' z2.page 0 (pde_index virt_addr) func 289
                  z2.state (z2.table.0) (omega arith) t2 z2.table_at)
                (λ t3 space3 m3 z3. remapped t1 t2 t3 space1 space2 space3 m1 m2 m3 z1 z2 z3) tt)
            tt)
        tt
