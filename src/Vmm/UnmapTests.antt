-- ===== src/Vmm/UnmapTests.antt =====
-- A machine of 64 pages, of which the first 40 are in use: tables on the pages 32, 3, 11 and 19 that
-- map the page of 0x40_3000 to the frame at 0x9000.
use horizon.Common.{
  ℕ, suc, inl, inr, false, true, refl, arith, ◌+◌, ◌*◌, ◌^◌, ◌<◌, ◌≡◌, ◌==◌, ◌&&◌, if◌then◌else◌,
  Bool-cases, sym, ap, ◌∙◌, ltb, subst, not, passes, passes_at,
}
use horizon.Memory.{Mem}
use horizon.Memory.Words.{load64-store64, load64-store64_apart, store64}
use horizon.Vector.Laws.{empty}
use horizon.Vmm.UnmapEntry.{UnmappedRun, IsWalkable, IsAddrSpace-IsWalkable}
use horizon.Vmm.Space.{entry_zero, Layout, IsAddrSpace}
use horizon.Vmm.Unmap.{unmap_page_entry, unmap_pages}
use horizon.Vmm.Lookup.{entry_of, IsTree, child}
use horizon.Kmalloc.{Machine}
use horizon.Vmm.{slot, AddrSpace, not_present}
use horizon.Pmm.Pages.{page_free}
use horizon.Pmm.Count.{count_free}
use horizon.Kmalloc.Frame.{page_address, IsSafe, IsUsed}
use horizon.Pmm.Init.{phys_to_virt}
use horizon.Pmm.Init.Laws.{page_free_of_zero}
use horizon.Vmm.Laws.{IsTableEntry}
use horizon.Vmm.UnmapPages.{unmap_pages-RangeUnmapped, RangeUnmappedRun}
use horizon.Vmm.UnmapReturns.{unmap_page_entry-Returns, HoldsTables, IsOk}

abbrev bitmap : ℕ → ℕ
bitmap q = if ltb q 5 then 0 else if ltb q 8 then 0xff else 0

abbrev put : Mem → ℕ → ℕ → ℕ → Mem
put m q i v = store64 m (slot (page_address q) i) v

abbrev memory : Mem
memory = put (put (put (put (λ x. 0) 32 0 0x3007) 3 0 0xb007) 11 2 0x1_3007) 19 3 0x9003

abbrev machine : Machine
machine = record {
  kmem = record {
    physical_limit = 0x4_0000;
    total_size = 0x4_0000;
    free_size = 0x1_8000;
    bitmap_base = phys_to_virt 0;
    bitmap = bitmap;
  };
  byte = memory;
}

machine-IsSafe : IsSafe 64 machine
unfolding count_free page_free
machine-IsSafe = record {
  valid = record {
    bytes = λ q. ground arith;
    counted = refl;
    bounded = λ q h. page_free_of_zero bitmap q (ground arith);
    addressable = omega arith;
  };
  limit = omega arith;
  few = omega arith;
}

entry-put :
    (m : Mem) (q i v p j : ℕ)
    → q < 2 ^ 34
    → p < 2 ^ 34
    → i < 512
    → j < 512
    → v < 2 ^ 64
    → entry_of (put m q i v) p j ≡ (if (p == q) && (j == i) then v else entry_of m p j)
entry-put m q i v p j low_q low_p small_i small_j word = elim (Bool-cases ((p == q) && (j == i))) [
  | inl is ↦
      let e : p ≡ q = ground (arith, is) in
      let e' : j ≡ i = ground (arith, is) in
      rw (e, e') (ground (arith, load64-store64 m (slot (page_address q) i) v))
  | inr other ↦ rw other (
      load64-store64_apart m (slot (page_address q) i) v (slot (page_address p) j)
        (ground (arith, other)))
]

-- The entries of the tables.
abbrev entries : ℕ → ℕ → ℕ
entries p j =
    if (p == 19) && (j == 3)
    then 0x9003
    else if (p == 11) && (j == 2)
    then 0x1_3007
    else if (p == 3) && (j == 0)
    then 0xb007
    else if (p == 32) && (j == 0)
    then 0x3007
    else 0

memory-entries : (p j : ℕ) → p < 2 ^ 34 → j < 512 → entry_of memory p j ≡ entries p j
memory-entries p j low small =
    let m1 = put (λ x. 0) 32 0 0x3007 in
    let m2 = put m1 3 0 0xb007 in
    let m3 = put m2 11 2 0x1_3007 in
    let e1 =
      entry-put (λ x. 0) 32 0 0x3007 p j (omega arith) low (omega arith) small (omega arith) in
    let e2 = entry-put m1 3 0 0xb007 p j (omega arith) low (omega arith) small (omega arith) in
    let e3 = entry-put m2 11 2 0x1_3007 p j (omega arith) low (omega arith) small (omega arith) in
    let e4 = entry-put m3 19 3 0x9003 p j (omega arith) low (omega arith) small (omega arith) in
    let e0 = entry_zero (λ x. 0) p j low small (λ x inside. refl) in rw (e4, e3, e2, e1, e0) refl

abbrev level : ℕ → ℕ
level p =
    if p == 32 then 4 else if p == 3 then 3 else if p == 11 then 2 else if p == 19 then 1 else 0

abbrev layout : Layout
layout = record {
  root = 32;
  level = level;
  code = λ p. if p == 19 then 2 else 0;
  owned = λ p. false;
  count = 0;
  element = λ i. 0;
}

abbrev space : AddrSpace
space = record {
  pml4 = page_address 32;
  memory_list = record { length = 0; capacity = 0; elements = 0 };
}

below_40 : (p : ℕ) → 0 < level p → p < 40
below_40 p there = ground (arith, there)

used_table : passes (λ p. not (page_free bitmap p)) 40 ≡ true
unfolding passes page_free
used_table = refl

used_below_40 : (p : ℕ) → p < 40 → IsUsed machine p
used_below_40 p few = ground (arith, passes_at (λ q. not (page_free bitmap q)) p few used_table)

-- What the tree asks of an entry.
abbrev Leads : ℕ → ℕ → ℕ → ℕ → Type 0
Leads p l j entry =
    IsTableEntry entry
    × (level (child entry) ≡ suc l)
    × (layout.code (child entry) ≡ layout.code p * 512 + j)

leads :
    (p l j : ℕ)
    → level p ≡ suc (suc l)
    → not_present (entries p j) ≡ false
    → Leads p l j (entries p j)
leads p l j at there = elim (Bool-cases (p == 11)) [
  | inl is ↦
      let e : p ≡ 11 = ground (arith, is) in
      let e' : j ≡ 2 = ground (arith, is, there) in
      let e'' : l ≡ 0 = ground (arith, is, at) in rw (e, e', e'') ((omega arith, refl), refl, refl)
  | inr not_11 ↦ elim (Bool-cases (p == 3)) [
    | inl is ↦
        let e : p ≡ 3 = ground (arith, is) in
        let e' : j ≡ 0 = ground (arith, is, there) in
        let e'' : l ≡ 1 = ground (arith, is, at) in
        rw (e, e', e'') ((omega arith, refl), refl, refl)
    | inr not_3 ↦
        let e : p ≡ 32 = ground (arith, not_11, not_3, at) in
        let e' : j ≡ 0 = ground (arith, e, there) in
        let e'' : l ≡ 2 = ground (arith, e, at) in rw (e, e', e'') ((omega arith, refl), refl, refl)
  ]
]

space-IsTree : IsTree memory level layout.code
space-IsTree p l j at lt there =
    let few = below_40 p (omega (arith, at)) in
    let e : entry_of memory p j ≡ entries p j = memory-entries p j (omega (arith, few)) lt in
    subst (Leads p l j) (sym e) (leads p l j at (ap not_present (sym e) ∙ there))

space-IsAddrSpace : IsAddrSpace 64 machine space layout
space-IsAddrSpace = record {
  safe = machine-IsSafe;
  list = record {
    storage = empty refl refl (λ p. refl);
    count = refl;
    fits = omega arith;
    words = λ i lt. absurd (omega (arith, lt));
  };
  root_at = refl;
  root_level = (refl, refl);
  tables = λ p there. let few = below_40 p there in (omega (arith, few), used_below_40 p few, refl);
  tree = space-IsTree;
}

space-IsWalkable : IsWalkable machine space layout
space-IsWalkable =
    IsAddrSpace-IsWalkable 64 machine space layout space-IsAddrSpace (omega arith, omega arith)

holds : HoldsTables 64 (omega arith) machine layout
holds = record {
  valid = machine-IsSafe.valid;
  held = λ p there.
      let few : p < 33 = ground (arith, there) in
      (omega (arith, few), λ q lo hi. used_below_40 q (omega (arith, few, hi)));
  apart = λ p q there_p there_q other. ground (arith, there_p, there_q, other);
}

unmap_page_entry-Returns_example :
    IsOk (unmap_page_entry machine space 0x40_3000)
    × UnmappedRun machine space layout 0x40_3000 (unmap_page_entry machine space 0x40_3000)
unmap_page_entry-Returns_example =
    unmap_page_entry-Returns 64 (omega arith) machine space layout 0x40_3000 space-IsWalkable holds

unmap_pages-RangeUnmapped_example :
    RangeUnmappedRun 2 machine space layout 0x40_2000 (unmap_pages 2 machine space 0x40_2000)
unmap_pages-RangeUnmapped_example =
    unmap_pages-RangeUnmapped 2 machine space layout 0x40_2000 space-IsWalkable
