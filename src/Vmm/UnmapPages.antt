-- ===== src/Vmm/UnmapPages.antt =====
-- What `vm_unmap` of a range does to the map of addresses.
use horizon.Common.{
  ℕ, zero, suc, inl, inr, false, refl, none, arith, ◌+◌, ◌≡◌, ◌==◌, ◌&&◌, ◌||◌, if◌then◌else◌,
  Bool-cases, ◌∙◌, Bool, Option, map, u64, subst, ◌%◌, ◌^◌,
}
use horizon.Kmalloc.{ok, halted, no_fuel, Machine, Run}
use horizon.Vector.{bind_run}
use horizon.Vmm.UnmapEntry.{
  unmap_page_entry-Unmapped, is_mapped, region_of, IsWalkable, without, UnmappedRun,
}
use horizon.Vmm.{AddrSpace, range_rounds}
use horizon.Pmm.{page_size}
use horizon.Vmm.Unmap.{unmap_page_entry, unmap_loop, unmap_pages}
use horizon.Vmm.Space.{Layout}
use horizon.Vmm.Laws.{walk}

-- Whether one of the `n` pages from `virt_addr` on is mapped and of the region of `v`.
abbrev pub region_hit : ℕ → (ℕ → Option ℕ) → ℕ → ℕ → Bool
region_hit zero map virt_addr v = false
region_hit (suc n) map virt_addr v =
    (is_mapped (map virt_addr) && (region_of v == region_of virt_addr))
    || region_hit n map (u64 (virt_addr + page_size)) v

-- What unmapping a range is to come to: the regions of the pages that were mapped are not mapped, and
-- every other address is as before.
abbrev pub RangeUnmappedRun : ℕ → Machine → AddrSpace → Layout → ℕ → Run AddrSpace → Type 0
RangeUnmappedRun n m space g virt_addr (ok space' m') =
    (space'.pml4 ≡ space.pml4)
    × IsWalkable m' space' g
    × ((v : ℕ)
        → walk m'.byte space'.pml4 v ≡ (
            if region_hit n (walk m.byte space.pml4) virt_addr v
            then none
            else walk m.byte space.pml4 v))
RangeUnmappedRun n m space g virt_addr halted = Unit
RangeUnmappedRun n m space g virt_addr no_fuel = ⊥

module _ (map map1 : ℕ → Option ℕ) (first : ℕ)
    (after : (v : ℕ) → map1 v ≡ without (is_mapped (map first)) first v (map v)) where
  -- A region that the first page did not take keeps its pages.
  region_hit_after :
      (n a v : ℕ)
      → (is_mapped (map first) && (region_of v == region_of first)) ≡ false
      → region_hit n map1 a v ≡ region_hit n map a v
  region_hit_after zero a v kept = refl
  region_hit_after (suc n) a v kept =
      let rest = region_hit_after n (u64 (a + page_size)) v kept in
      elim (Bool-cases (region_of v == region_of a)) [
        | inl same ↦
            let kept' : (is_mapped (map first) && (region_of a == region_of first)) ≡ false =
              ground (arith, same, kept) in
            let e : map1 a ≡ map a = after a ∙ rw kept' refl in rw (e, rest) refl
        | inr other ↦ rw (other, rest) (ground arith)
      ]

  range_after :
      (n a v : ℕ)
      → (if region_hit n map1 a v then none else map1 v) ≡ (
          if (is_mapped (map first) && (region_of v == region_of first)) || region_hit n map a v
          then none
          else map v)
  range_after n a v =
      elim (Bool-cases (is_mapped (map first) && (region_of v == region_of first))) [
        | inl taken ↦ rw (after v, taken) (ground arith)
        | inr kept ↦ rw (after v, region_hit_after n a v kept, kept) refl
      ]

unmapped_then :
    (n : ℕ) (m : Machine) (space : AddrSpace) (g : Layout) (virt_addr : ℕ) (r : Run AddrSpace)
    → UnmappedRun m space g virt_addr r
    → ((space' : AddrSpace) (m' : Machine)
        → IsWalkable m' space' g
        → RangeUnmappedRun n m' space' g
            (u64 (virt_addr + page_size))
            (unmap_loop n m' space' (u64 (virt_addr + page_size))))
    → RangeUnmappedRun
        (suc n)
        m
        space
        g
        virt_addr
        (bind_run r (λ space' m'. unmap_loop n m' space' (u64 (virt_addr + page_size))))
unfolding bind_run
unmapped_then n m space g virt_addr (ok space1 m1) u follow =
    chained (unmap_loop n m1 space1 (u64 (virt_addr + page_size))) (follow space1 m1 (u.1))
  where
    chained :
        (r : Run AddrSpace)
        → RangeUnmappedRun n m1 space1 g (u64 (virt_addr + page_size)) r
        → RangeUnmappedRun (suc n) m space g virt_addr r
    chained (ok space' m') h = (
      h.0 ∙ u.0,
      h.1,
      λ v.
          h.2 v
          ∙ range_after (walk m.byte space.pml4) (walk m1.byte space1.pml4) virt_addr (u.2) n
              (u64 (virt_addr + page_size)) v,
    )
    chained halted h = h
    chained no_fuel h = h
unmapped_then n m space g virt_addr halted u follow = tt
unmapped_then n m space g virt_addr no_fuel u follow = u

unmap_loop-RangeUnmapped :
    (n : ℕ) (m : Machine) (space : AddrSpace) (g : Layout) (virt_addr : ℕ)
    → IsWalkable m space g
    → RangeUnmappedRun n m space g virt_addr (unmap_loop n m space virt_addr)
unfolding unmap_loop
unmap_loop-RangeUnmapped zero m space g virt_addr s = (refl, s, λ v. refl)
unmap_loop-RangeUnmapped (suc n) m space g virt_addr s =
    unmapped_then n m space g virt_addr (unmap_page_entry m space virt_addr)
      (unmap_page_entry-Unmapped m space g virt_addr s)
      (λ space' m' s'. unmap_loop-RangeUnmapped n m' space' g (u64 (virt_addr + page_size)) s')

-- On an address space whose list has room for what `vector_erase` writes, the loop of `vm_unmap` over
-- `n` pages either halts or leaves such an address space, with the same top table, in which every
-- region of 2 MiB that had one of the first `n % 2 ^ 52` pages mapped is not mapped at all, and every
-- other address is mapped as before. The end of the range wraps at 2^64: 2^52 pages unmap nothing.
pub unmap_pages-RangeUnmapped :
    (n : ℕ) (m : Machine) (space : AddrSpace) (g : Layout) (virt_addr : ℕ)
    → IsWalkable m space g
    → RangeUnmappedRun (n % 2 ^ 52) m space g virt_addr (unmap_pages n m space virt_addr)
unfolding unmap_pages
unmap_pages-RangeUnmapped n m space g virt_addr s =
    let rounds : n % 2 ^ 52 ≡ range_rounds n = omega arith in
    subst (λ k. RangeUnmappedRun (n % 2 ^ 52) m space g virt_addr (unmap_loop k m space virt_addr))
      rounds (unmap_loop-RangeUnmapped (n % 2 ^ 52) m space g virt_addr s)
