-- ===== src/Vmm/Remapped.antt =====
-- The update of the address map that mapping a page comes to.
use horizon.Common.{ℕ, some, ◌*◌, ◌/◌, ◌≡◌, ◌==◌, if◌then◌else◌}
use horizon.Kmalloc.{ok, halted, no_fuel, Machine, Run}
use horizon.Vmm.{AddrSpace}
use horizon.Vector.{bind_run}
use horizon.Vmm.Space.{Confined, IsAddrSpace, Layout}
use horizon.Vmm.Laws.{walk}
use horizon.Vmm.Lookup.{page_of}

-- An address space whose map of addresses is that of `space` with one page mapped to the frame of `phys_addr`.
pub record Remapped (pages : ℕ) (m : Machine) (space : AddrSpace) (g : Layout)
    (virt_addr phys_addr : ℕ) (space' : AddrSpace) (m' : Machine) : Type 0 where
  pub layout : Layout
  pub state : IsAddrSpace pages m' space' layout
  pub same_top : space'.pml4 ≡ space.pml4
  pub confined : Confined m g m' layout
  pub walks :
      (v : ℕ)
      → walk m'.byte space'.pml4 v ≡ (
          if page_of v == page_of virt_addr
          then some (phys_addr / 4096 * 4096)
          else walk m.byte space.pml4 v)

abbrev pub RemappedRun : ℕ → Machine → AddrSpace → Layout → ℕ → ℕ → Run AddrSpace → Type 0
RemappedRun pages m space g virt_addr phys_addr (ok space' m') =
    Remapped pages m space g virt_addr phys_addr space' m'
RemappedRun pages m space g virt_addr phys_addr halted = Unit
RemappedRun pages m space g virt_addr phys_addr no_fuel = ⊥

-- What follows the mapping of a page.
pub remapped_bind :
    {A : Type 0} (Q : Run A → Type 0) (pages : ℕ) (m : Machine) (space : AddrSpace) (g : Layout)
    (virt_addr phys_addr : ℕ) (r : Run AddrSpace) (next : AddrSpace → Machine → Run A)
    → RemappedRun pages m space g virt_addr phys_addr r
    → ((space' : AddrSpace) (m' : Machine)
        → Remapped pages m space g virt_addr phys_addr space' m'
        → Q (next space' m'))
    → Q halted
    → Q (bind_run r next)
unfolding bind_run
remapped_bind Q pages m space g virt_addr phys_addr (ok space' m') next z follow stop =
    follow space' m' z
remapped_bind Q pages m space g virt_addr phys_addr halted next z follow stop = stop
remapped_bind Q pages m space g virt_addr phys_addr no_fuel next z follow stop = absurd z
