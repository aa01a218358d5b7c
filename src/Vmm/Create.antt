-- ===== src/Vmm/Create.antt =====
-- `create_address_space` gives an address space with the shared mappings.
use horizon.Common.{ℕ, zero, suc, refl, arith, ◌+◌, ◌≤◌, ◌<◌, ◌≡◌, ◌∙◌}
use horizon.Kmalloc.{ok, halted, no_fuel, Machine, Run}
use horizon.Vmm.{AddrSpace}
use horizon.Vector.{Vector, bind_run}
use horizon.Vmm.Spaces.{mem_map_size, share_loop}
use horizon.Vmm.Share.{
  Held-kept, shared_map_ext, listed_kept, IsSharable, listed, Held, shared_map, start,
  IsSharable-same,
}
use horizon.Vmm.Space.{Confined-trans, Confined-refl, Confined, IsAddrSpace, Layout}
use horizon.Vmm.MapPages.{map_pages-RangeMapped, RangeMapped, RangeMappedRun}
use horizon.Vmm.Laws.{walk}

-- The address space in which the mappings of the list are made over those of `space`.
pub record Shared (pages : ℕ) (m : Machine) (space : AddrSpace) (g : Layout) (left i : ℕ)
    (list : Vector) (space' : AddrSpace) (m' : Machine) : Type 0 where
  pub layout : Layout
  pub state : IsAddrSpace pages m' space' layout
  pub same_top : space'.pml4 ≡ space.pml4
  pub confined : Confined m g m' layout
  pub walks :
      (v : ℕ)
      → walk m'.byte space'.pml4 v ≡ shared_map left i m.byte list (λ w. walk m.byte space.pml4 w) v

abbrev pub SharedRun : ℕ → Machine → AddrSpace → Layout → ℕ → ℕ → Vector → Run AddrSpace → Type 0
SharedRun pages m space g left i list (ok space' m') = Shared pages m space g left i list space' m'
SharedRun pages m space g left i list halted = Unit
SharedRun pages m space g left i list no_fuel = ⊥

module _ (pages left i : ℕ) (m m1 : Machine) (space space1 : AddrSpace) (g : Layout) (list : Vector)
    (held : Held m g list) (count : i + suc left ≡ list.length)
    (z : RangeMapped pages m space g
      (listed m.byte list i 24)
      (start m.byte list i)
      (listed m.byte list i 8)
      space1
      m1) where
  same_list :
      (j o : ℕ)
      → j < list.length
      → o + 8 ≤ mem_map_size
      → listed m1.byte list j o ≡ listed m.byte list j o
  same_list j o lt room = listed_kept m m1 g z.layout list j o z.confined held lt room

  then_shared :
      (r : Run AddrSpace)
      → SharedRun pages m1 space1 z.layout left (i + 1) list r
      → SharedRun pages m space g (suc left) i list r
  unfolding shared_map
  then_shared (ok space' m') y = record {
    layout = y.layout;
    state = y.state;
    same_top = y.same_top ∙ z.same_top;
    confined = Confined-trans m m1 m' g z.layout y.layout z.confined y.confined;
    walks = λ v.
        y.walks v
        ∙ shared_map_ext left (i + 1) m1.byte m.byte list _ _ v (omega (arith, count)) same_list
            (λ w. z.walks w);
  }
  then_shared halted y = tt
  then_shared no_fuel y = y

range_bind :
    (Q : Run AddrSpace → Type 0) (pages : ℕ) (m : Machine) (space : AddrSpace) (g : Layout)
    (n virt_addr phys_addr : ℕ) (r : Run AddrSpace) (next : AddrSpace → Machine → Run AddrSpace)
    → RangeMappedRun pages m space g n virt_addr phys_addr r
    → ((space' : AddrSpace) (m' : Machine)
        → RangeMapped pages m space g n virt_addr phys_addr space' m'
        → Q (next space' m'))
    → Q halted
    → Q (bind_run r next)
unfolding bind_run
range_bind Q pages m space g n virt_addr phys_addr (ok space' m') next z follow stop =
    follow space' m' z
range_bind Q pages m space g n virt_addr phys_addr halted next z follow stop = stop
range_bind Q pages m space g n virt_addr phys_addr no_fuel next z follow stop = absurd z

pub share_loop-Shared :
    (pages left i : ℕ) (m : Machine) (list : Vector) (space : AddrSpace) (g : Layout) (func : ℕ)
    → IsAddrSpace pages m space g
    → Held m g list
    → i + left ≡ list.length
    → ((j : ℕ) → j < list.length → IsSharable m.byte list j)
    → SharedRun pages m space g left i list (share_loop left i m list space func)
unfolding share_loop shared_map
share_loop-Shared pages zero i m list space g func s held count able = record {
  layout = g;
  state = s;
  same_top = refl;
  confined = Confined-refl m g;
  walks = λ v. refl;
}
share_loop-Shared pages (suc left) i m list space g func s held count able =
    let k = able i (omega (arith, count)) in
    range_bind (SharedRun pages m space g (suc left) i list) pages m space g
      (listed m.byte list i 24) (start m.byte list i) (listed m.byte list i 8) _ _
      (map_pages-RangeMapped pages (listed m.byte list i 24) m space g (start m.byte list i)
        (listed m.byte list i 8) (listed m.byte list i 16) func s k.room k.small k.low k.present)
      (λ space1 m1 z.
        then_shared pages left i m m1 space space1 g list held count z
          (share_loop left (i + 1) m1 list space1 func)
          (share_loop-Shared pages left (i + 1) m1 list space1 z.layout func z.state
            (Held-kept m m1 g z.layout list z.confined held) (omega (arith, count))
            (λ j lt.
              IsSharable-same m.byte m1.byte list j
                (λ o room. same_list pages left i m m1 space space1 g list held count z j o lt room)
                (able j lt))))
      tt
