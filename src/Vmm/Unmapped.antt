-- ===== src/Vmm/Unmapped.antt =====
-- What becomes of the walks when empty tables are given back.
use horizon.Common.{
  ℕ, zero, suc, inl, inr, true, refl, arith, ◌+◌, ◌^◌, ◌<◌, ◌≤◌, ◌≡◌, ◌==◌, not, if◌then◌else◌,
  Bool-cases, ap, ◌∙◌,
}
use horizon.Kmalloc.{ok, halted, no_fuel, Machine, Run}
use horizon.Pmm.{Status, sys_ok, sys_err, pm_free}
use horizon.Vector.{Vector, bind_run}
use horizon.Vmm.Cut.{
  cut-entry, cut-IsTree, cut-lookup_empty, same-IsTree, same-SameLookups, SameEntries, SameLookups,
}
use horizon.Vmm.Forget.{forget_loop-Forgot, HasRoom, Off}
use horizon.Vmm.Space.{entry_same, Layout}
use horizon.Kmalloc.Frame.{page_address, InPage}
use horizon.Vmm.Unmap.{is_empty_table, drop_table, is_empty_loop, when_freed, collect}
use horizon.Memory.{Mem}
use horizon.Vmm.{slot, default_pages, AddrSpace}
use horizon.Vmm.Lookup.{IsTree, entry_of, child}
use horizon.Memory.Words.{store64, load64}
use horizon.Pmm.Init.{virt_to_phys}

is_empty_loop_lem :
    (n i : ℕ) (m : Mem) (table j : ℕ)
    → is_empty_loop n i m table ≡ true
    → i ≤ j
    → j < i + n
    → load64 m (slot table j) ≡ 0
unfolding is_empty_loop
is_empty_loop_lem zero i m table j all lo hi = absurd (omega arith)
is_empty_loop_lem (suc n) i m table j all lo hi = elim (Bool-cases (j == i)) [
  | inl is ↦ let e : j ≡ i = ground (arith, is) in rw e (ground (arith, all))
  | inr other ↦
      is_empty_loop_lem n (i + 1) m table j (ground (arith, all)) (ground (arith, other))
        (omega arith)
]

-- The tables of a layout, apart from the storage of a vector.
module _ (g : Layout) (v0 : Vector) (top : (g.level g.root ≡ 4) × (g.code g.root ≡ 0))
    (low : (p : ℕ) → 0 < g.level p → p < 2 ^ 34)
    (off : (p x : ℕ) → 0 < g.level p → InPage p x → Off v0 x) where
  -- A list with that storage, with room for what `vector_erase` does.
  abbrev pub IsReady : Vector → Type 0
  IsReady v = HasRoom v × (v.elements ≡ v0.elements) × (v.capacity ≡ v0.capacity)

  -- A step that leaves the tables' entries alone.
  abbrev pub DropRun : Machine → AddrSpace → Run AddrSpace → Type 0
  DropRun m space (ok space' m') =
      (space'.pml4 ≡ space.pml4) × IsReady space'.memory_list × SameEntries g.level m.byte m'.byte
  DropRun m space halted = Unit
  DropRun m space no_fuel = ⊥

  when_freed-DropRun :
      (status : Status) (m m' : Machine) (space space' : AddrSpace)
      → DropRun m space (ok space' m')
      → DropRun m space (when_freed status space' m')
  unfolding when_freed
  when_freed-DropRun sys_err m m' space space' d = tt
  when_freed-DropRun sys_ok m m' space space' d = d

  drop_table-DropRun :
      (m : Machine) (space : AddrSpace) (table : ℕ)
      → IsReady space.memory_list
      → DropRun m space (drop_table m space table)
  unfolding drop_table
  drop_table-DropRun m space table ready =
      let v = space.memory_list in
      let f = forget_loop-Forgot v.length 0 m.byte v (virt_to_phys table) (ready.0) (omega arith) in
      when_freed-DropRun ((pm_free m.kmem (virt_to_phys table) default_pages).1) m _ space _ (
        refl,
        (
          (omega (arith, f.storage, f.shorter, ready.0), omega (arith, f.storage, ready.0)),
          f.storage.0 ∙ ready.1,
          f.storage.1 ∙ ready.2,
        ),
        λ p j there lt.
            entry_same m.byte _ p j (low p there) lt
              (λ x inside. f.others x (ground (arith, off p x there inside, ready.1, ready.2))),
      )

  drop_bind :
      (Q : Run AddrSpace → Type 0) (m : Machine) (space : AddrSpace) (r : Run AddrSpace)
      (next : AddrSpace → Machine → Run AddrSpace)
      → DropRun m space r
      → ((space' : AddrSpace) (m' : Machine) → DropRun m space (ok space' m') → Q (next space' m'))
      → Q halted
      → Q (bind_run r next)
  unfolding bind_run
  drop_bind Q m space (ok space' m') next d follow stop = follow space' m' d
  drop_bind Q m space halted next d follow stop = stop
  drop_bind Q m space no_fuel next d follow stop = absurd d

  -- The same top table and the same walks, of tables that are still a tree.
  abbrev pub CollectRun : Machine → AddrSpace → Run AddrSpace → Type 0
  CollectRun m space (ok space' m') =
      (space'.pml4 ≡ space.pml4)
      × SameLookups g.root m.byte m'.byte
      × IsTree m'.byte g.level g.code
      × IsReady space'.memory_list
  CollectRun m space halted = Unit
  CollectRun m space no_fuel = ⊥

  drop-CollectRun :
      (m : Machine) (space : AddrSpace) (r : Run AddrSpace)
      → IsTree m.byte g.level g.code
      → DropRun m space r
      → CollectRun m space r
  drop-CollectRun m space (ok space' m') tree d = (
    d.0,
    same-SameLookups g.level g.code g.root top m.byte m'.byte tree d.2,
    same-IsTree g.level g.code g.root top m.byte m'.byte tree d.2,
    d.1,
  )
  drop-CollectRun m space halted tree d = tt
  drop-CollectRun m space no_fuel tree d = d

  CollectRun-after :
      (m m1 : Machine) (space space1 : AddrSpace) (r : Run AddrSpace)
      → space1.pml4 ≡ space.pml4
      → SameLookups g.root m.byte m1.byte
      → CollectRun m1 space1 r
      → CollectRun m space r
  CollectRun-after m m1 space space1 (ok space' m') same walks c =
      (c.0 ∙ same, λ v small. c.1 v small ∙ walks v small, c.2, c.3)
  CollectRun-after m m1 space space1 halted same walks c = tt
  CollectRun-after m m1 space space1 no_fuel same walks c = c

  -- What follows a table that is given back.
  drop-CollectRun_then :
      (m : Machine) (space : AddrSpace) (table : ℕ) (next : AddrSpace → Machine → Run AddrSpace)
      → IsTree m.byte g.level g.code
      → IsReady space.memory_list
      → ((space' : AddrSpace) (m' : Machine)
          → DropRun m space (ok space' m')
          → CollectRun m' space' (next space' m'))
      → CollectRun m space (bind_run (drop_table m space table) next)
  drop-CollectRun_then m space table next tree ready follow =
      drop_bind (CollectRun m space) m space _ next (drop_table-DropRun m space table ready)
        (λ space' m' d.
          CollectRun-after m m' space space' _ (d.0)
            (same-SameLookups g.level g.code g.root top m.byte m'.byte tree (d.2))
            (follow space' m' d))
        tt

  module _ (m : Machine) (space : AddrSpace) (q i p l : ℕ) (tree : IsTree m.byte g.level g.code)
      (at : g.level q ≡ suc (suc l)) (lt : i < 512) (under : child (entry_of m.byte q i) ≡ p) where
    -- Entry `i` of table `q`, under which page `p` stands, is cleared.
    abbrev pub cleared : Machine
    cleared = record m { byte = store64 m.byte (slot (page_address q) i) 0 }

    pub cleared-IsTree : IsTree cleared.byte g.level g.code
    cleared-IsTree = cut-IsTree g.level g.code g.root top m.byte q i tree low (omega (arith, at)) lt

    cleared-SameLookups :
        is_empty_table m.byte (page_address p) ≡ true → SameLookups g.root m.byte cleared.byte
    cleared-SameLookups all v small =
        cut-lookup_empty g.level g.code g.root top m.byte q i tree low (omega (arith, at)) lt l v at
          small
          (λ j lt_j.
            rw under
              (is_empty_loop_lem 4096 0 m.byte (page_address p) j all (omega arith) (omega arith)))

    -- The table above one that was given back: it stays if it has entries left, and else the entry
    -- above it is cleared too.
    pub cleared-CollectRun :
        (rest : Run AddrSpace)
        → IsReady space.memory_list
        → CollectRun cleared space rest
        → CollectRun m space
            (if not (is_empty_table m.byte (page_address p)) then ok space m else rest)
    cleared-CollectRun rest ready c = elim (Bool-cases (is_empty_table m.byte (page_address p))) [
      | inr some_left ↦ rw some_left (refl, λ v small. refl, tree, ready)
      | inl all ↦
          rw all (CollectRun-after m cleared space space rest refl (cleared-SameLookups all) c)
    ]

  -- Giving back the page table and the tables above it that are empty keeps every walk, once the
  -- entry above the page table is cleared.
  pub collect-CollectRun :
      (m : Machine) (space : AddrSpace) (p2 p3 i3 i4 pt : ℕ)
      → IsTree m.byte g.level g.code
      → IsReady space.memory_list
      → g.level p3 ≡ 3
      → i3 < 512
      → i4 < 512
      → child (entry_of m.byte p3 i3) ≡ p2
      → child (entry_of m.byte g.root i4) ≡ p3
      → CollectRun m space (
          collect m space
            (slot (page_address g.root) i4)
            (page_address p3)
            (slot (page_address p3) i3)
            (page_address p2)
            pt)
  unfolding collect
  collect-CollectRun m space p2 p3 i3 i4 pt tree ready three lt3 lt4 under3 under4 =
      drop-CollectRun_then m space pt _ tree ready (λ space1 m1 d1.
        let tree1 = same-IsTree g.level g.code g.root top m.byte m1.byte tree (d1.2) in
        let under3' : child (entry_of m1.byte p3 i3) ≡ p2 =
          ap child (d1.2 p3 i3 (omega (arith, three)) lt3) ∙ under3 in
        let m1' = cleared m1 space1 p3 i3 p2 1 tree1 three lt3 under3' in
        let tree1' = cleared-IsTree m1 space1 p3 i3 p2 1 tree1 three lt3 under3' in
        cleared-CollectRun m1 space1 p3 i3 p2 1 tree1 three lt3 under3' _ (d1.1) (
          drop-CollectRun_then m1' space1 (page_address p2) _ tree1' (d1.1) (λ space2 m2 d2.
            let tree2 = same-IsTree g.level g.code g.root top m1'.byte m2.byte tree1' (d2.2) in
            let under4' : child (entry_of m2.byte g.root i4) ≡ p3 =
              ap child (
                d2.2 g.root i4 (omega (arith, top)) lt4
                ∙ cut-entry g.level g.code g.root top m1.byte p3 i3 tree1 low (omega (arith, three))
                    lt3 g.root i4 (omega (arith, top)) lt4
                    (ground (arith, ap g.level {x = g.root} {y = p3}, three, top))
                ∙ d1.2 g.root i4 (omega (arith, top)) lt4)
              ∙ under4 in
            let m2' = cleared m2 space2 g.root i4 p3 2 tree2 (top.0) lt4 under4' in
            cleared-CollectRun m2 space2 g.root i4 p3 2 tree2 (top.0) lt4 under4' _ (d2.1) (
              drop-CollectRun m2' space2 (drop_table m2' space2 (page_address p3))
                (cleared-IsTree m2 space2 g.root i4 p3 2 tree2 (top.0) lt4 under4')
                (drop_table-DropRun m2' space2 (page_address p3) (d2.1))))))
