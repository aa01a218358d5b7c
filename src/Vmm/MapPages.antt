-- ===== src/Vmm/MapPages.antt =====
-- The loop of `vm_map` implements the update of the address map on a range of pages.
use horizon.Common.{
  subst, ℕ, zero, suc, refl, some, arith, ◌+◌, ◌-◌, ◌*◌, ◌/◌, ◌%◌, ◌^◌, ◌≤◌, ◌<◌, ◌≡◌, ◌∙◌, ◌&&◌,
  Option, ltb, leb, ◌==◌, if◌then◌else◌, u64,
}
use horizon.Kmalloc.{ok, halted, no_fuel, Machine, Run}
use horizon.Vmm.{map_page_entry, AddrSpace, map_loop, map_pages, range_rounds}
use horizon.Vmm.Lookup.{page_of}
use horizon.Vmm.Space.{IsAddrSpace, Layout, Confined, Confined-trans, Confined-refl}
use horizon.Vmm.Map.{map_page_entry-Remapped}
use horizon.Vmm.Laws.{walk}
use horizon.Vmm.Remapped.{Remapped, remapped_bind}

-- The address space in which the `n` pages from that of `virt_addr` on are mapped to those from
-- that of `phys_addr` on, one by one, and every other page as before.
pub record RangeMapped (pages : ℕ) (m : Machine) (space : AddrSpace) (g : Layout)
    (n virt_addr phys_addr : ℕ) (space' : AddrSpace) (m' : Machine) : Type 0 where
  pub layout : Layout
  pub state : IsAddrSpace pages m' space' layout
  pub same_top : space'.pml4 ≡ space.pml4
  pub confined : Confined m g m' layout
  pub walks :
      (v : ℕ)
      → walk m'.byte space'.pml4 v ≡ (
          if leb (page_of virt_addr) (page_of v) && ltb (page_of v) (page_of virt_addr + n)
          then some ((phys_addr / 4096 + (page_of v - page_of virt_addr)) * 4096)
          else walk m.byte space.pml4 v)

abbrev pub RangeMappedRun : ℕ → Machine → AddrSpace → Layout → ℕ → ℕ → ℕ → Run AddrSpace → Type 0
RangeMappedRun pages m space g n virt_addr phys_addr (ok space' m') =
    RangeMapped pages m space g n virt_addr phys_addr space' m'
RangeMappedRun pages m space g n virt_addr phys_addr halted = Unit
RangeMappedRun pages m space g n virt_addr phys_addr no_fuel = ⊥

-- One page and the rest.
next_walk :
    (n virt_addr phys_addr v : ℕ) (old mid last : Option ℕ)
    → page_of virt_addr + suc n ≤ 2 ^ 36
    → phys_addr + 4096 * suc n < 2 ^ 52
    → mid ≡ (if page_of v == page_of virt_addr then some (phys_addr / 4096 * 4096) else old)
    → last ≡ (
        if leb (page_of (u64 (virt_addr + 4096))) (page_of v)
          && ltb (page_of v) (page_of (u64 (virt_addr + 4096)) + n)
        then some (
            (u64 (phys_addr + 4096) / 4096 + (page_of v - page_of (u64 (virt_addr + 4096)))) * 4096)
        else mid)
    → last ≡ (
        if leb (page_of virt_addr) (page_of v) && ltb (page_of v) (page_of virt_addr + suc n)
        then some ((phys_addr / 4096 + (page_of v - page_of virt_addr)) * 4096)
        else old)
next_walk n virt_addr phys_addr v old mid last room small first rest = ground (arith, first, rest)

module _ (pages n virt_addr phys_addr : ℕ) (m : Machine) (space : AddrSpace) (g : Layout)
    (room : page_of virt_addr + suc n ≤ 2 ^ 36) (small : phys_addr + 4096 * suc n < 2 ^ 52)
    (space1 : AddrSpace) (m1 : Machine)
    (z : Remapped pages m space g virt_addr phys_addr space1 m1) where
  then_range :
      (r : Run AddrSpace)
      → RangeMappedRun pages m1 space1 z.layout n
          (u64 (virt_addr + 4096))
          (u64 (phys_addr + 4096))
          r
      → RangeMappedRun pages m space g (suc n) virt_addr phys_addr r
  then_range (ok space' m') y = record {
    layout = y.layout;
    state = y.state;
    confined = Confined-trans m m1 m' g z.layout y.layout z.confined y.confined;
    same_top = y.same_top ∙ z.same_top;
    walks = λ v.
        next_walk n virt_addr phys_addr v (walk m.byte space.pml4 v) (walk m1.byte space1.pml4 v)
          (walk m'.byte space'.pml4 v) room small (z.walks v) (y.walks v);
  }
  then_range halted y = tt
  then_range no_fuel y = y

map_loop-RangeMapped :
    (pages n : ℕ) (m : Machine) (space : AddrSpace) (g : Layout)
    (virt_addr phys_addr flags func : ℕ)
    → IsAddrSpace pages m space g
    → page_of virt_addr + n ≤ 2 ^ 36
    → phys_addr + 4096 * n < 2 ^ 52
    → flags < 4096
    → flags % 2 ≡ 1
    → RangeMappedRun pages m space g n virt_addr phys_addr
        (map_loop n m space virt_addr phys_addr flags func)
unfolding map_loop
map_loop-RangeMapped pages zero m space g virt_addr phys_addr flags func s room small low present =
    record {
      layout = g;
      state = s;
      confined = Confined-refl m g;
      same_top = refl;
      walks = λ v. ground arith;
    }
map_loop-RangeMapped pages (suc n) m space g virt_addr phys_addr flags func s room small low
      present =
    remapped_bind (RangeMappedRun pages m space g (suc n) virt_addr phys_addr) pages m space g
      virt_addr phys_addr (map_page_entry m space virt_addr phys_addr flags func) _
      (map_page_entry-Remapped pages m space g virt_addr phys_addr flags func s
        (omega (arith, small)) low present)
      (λ space1 m1 z.
        then_range pages n virt_addr phys_addr m space g room small space1 m1 z
          (map_loop n m1 space1 (u64 (virt_addr + 4096)) (u64 (phys_addr + 4096)) flags func)
          (map_loop-RangeMapped pages n m1 space1 z.layout (u64 (virt_addr + 4096))
            (u64 (phys_addr + 4096)) flags func z.state (ground (arith, room))
            (omega (arith, small)) low present))
      tt

-- On an address space, mapping `n` pages that do not go beyond the top of the address space, with
-- present flags below 4096 and physical addresses below 2^52, gives the address space in which
-- they are mapped one by one and every other page is mapped as before; or the system halts.
pub map_pages-RangeMapped :
    (pages n : ℕ) (m : Machine) (space : AddrSpace) (g : Layout)
    (virt_addr phys_addr flags func : ℕ)
    → IsAddrSpace pages m space g
    → page_of virt_addr + n ≤ 2 ^ 36
    → phys_addr + 4096 * n < 2 ^ 52
    → flags < 4096
    → flags % 2 ≡ 1
    → RangeMappedRun pages m space g n virt_addr phys_addr
        (map_pages n m space virt_addr phys_addr flags func)
unfolding map_pages
map_pages-RangeMapped pages n m space g virt_addr phys_addr flags func s room small low present =
    let rounds : n ≡ range_rounds n = omega arith in
    subst
      (λ k.
        RangeMappedRun pages m space g n virt_addr phys_addr
          (map_loop k m space virt_addr phys_addr flags func))
      rounds
      (map_loop-RangeMapped pages n m space g virt_addr phys_addr flags func s room small low
        present)
