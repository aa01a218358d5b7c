-- ===== src/Vmm/Tabled.antt =====
-- What a step down the tables comes to in an address space.
use horizon.Common.{ℕ, suc, false, ◌+◌, ◌*◌, ◌^◌, ◌<◌, ◌≡◌}
use horizon.Kmalloc.{ok, halted, no_fuel, Machine, Run}
use horizon.Vmm.{not_present, AddrSpace}
use horizon.Vmm.Space.{IsAddrSpace, Layout, Confined}
use horizon.Kmalloc.Frame.{page_address}
use horizon.Vmm.Laws.{IsTableEntry}
use horizon.Vmm.Lookup.{lookup, child, entry_of}

-- The table `page` that stands at address `t` under entry `i` of table `q`, of level `l + 2`, in an
-- address space that has grown, and whose walks are the same.
pub record Tabled (pages : ℕ) (m : Machine) (space : AddrSpace) (g : Layout) (q l i t : ℕ)
    (space' : AddrSpace) (m' : Machine) : Type 0 where
  pub g' : Layout
  pub state : IsAddrSpace pages m' space' g'
  pub same_root : (g'.root ≡ g.root) × (space'.pml4 ≡ space.pml4)
  pub page : ℕ
  pub table_at : t ≡ page_address page
  pub table : (g'.level page ≡ suc l) × (g'.code page ≡ g.code q * 512 + i)
  pub entry : IsTableEntry (entry_of m'.byte q i) × (child (entry_of m'.byte q i) ≡ page)
  pub grown : (p : ℕ) → 0 < g.level p → (g'.level p ≡ g.level p) × (g'.code p ≡ g.code p)
  pub kept :
      (p k j : ℕ)
      → g.level p ≡ suc (suc k)
      → j < 512
      → not_present (entry_of m.byte p j) ≡ false
      → entry_of m'.byte p j ≡ entry_of m.byte p j
  pub confined : Confined m g m' g'
  pub lookups : (v : ℕ) → v < 2 ^ 36 → lookup 4 m'.byte g.root v ≡ lookup 4 m.byte g.root v

abbrev pub TabledRun : ℕ → Machine → AddrSpace → Layout → ℕ → ℕ → ℕ → Run (ℕ × AddrSpace) → Type 0
TabledRun pages m space g q l i (ok (t, space') m') = Tabled pages m space g q l i t space' m'
TabledRun pages m space g q l i halted = Unit
TabledRun pages m space g q l i no_fuel = ⊥
