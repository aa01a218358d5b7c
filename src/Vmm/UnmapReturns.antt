-- ===== src/Vmm/UnmapReturns.antt =====
-- When `unmap_page_entry` does not halt.
use horizon.Common.{
  ℕ, false, true, arith, ◌+◌, ◌*◌, ◌^◌, ◌≤◌, ◌<◌, ◌≡◌, ◌⊎◌, ◌==◌, if◌then◌else◌, sym, ap, Bool, ◌/◌,
  subst,
}
use horizon.Kmalloc.{ok, halted, no_fuel, Machine, Run}
use horizon.Vector.{bind_run}
use horizon.Pmm.Free.{pm_free_lem, AllUsed, pm_free-IsValid}
use horizon.Vmm.UnmapEntry.{unmap_page_entry-Unmapped, IsWalkable, UnmappedRun, unmap_cases}
use horizon.Vmm.{AddrSpace}
use horizon.Vmm.Space.{Layout}
use horizon.Vmm.Unmap.{when_freed, drop_table, collect, unmap_page_entry}
use horizon.Kmalloc.Frame.{page_address}
use horizon.Pmm.Init.{virt_to_phys}
use horizon.Pmm.Valid.{IsValid}
use horizon.Memory.Words.{store64}

-- A run that comes to a result.
abbrev pub IsOk : Run AddrSpace → Type 0
IsOk (ok space' m') = Unit
IsOk halted = ⊥
IsOk no_fuel = ⊥

-- Two tables whose pages do not meet.
abbrev pub IsApart : ℕ → ℕ → Type 0
IsApart p q = (p + 8 ≤ q) ⊎ (q + 8 ≤ p)

module _ (pages : ℕ) (few : pages ≤ 2 ^ 34) where
  -- The eight pages of a table are in use.
  abbrev pub IsHeld : Machine → ℕ → Type 0
  IsHeld m p = (p + 8 ≤ pages) × AllUsed m.kmem.bitmap p 8

  -- The tables of a layout hold eight pages each, and do not share any.
  pub record HoldsTables (m : Machine) (g : Layout) : Type 0 where
    pub valid : IsValid pages m.kmem
    pub held : (p : ℕ) → 0 < g.level p → IsHeld m p
    pub apart : (p q : ℕ) → 0 < g.level p → 0 < g.level q → (p == q) ≡ false → IsApart p q

  -- A table was given back, and no other was.
  abbrev GivenBack : Machine → ℕ → Run AddrSpace → Type 0
  GivenBack m p (ok space' m') =
      IsValid pages m'.kmem × ((q : ℕ) → IsApart p q → IsHeld m q → IsHeld m' q)
  GivenBack m p halted = ⊥
  GivenBack m p no_fuel = ⊥

  drop_table-GivenBack :
      (m : Machine) (space : AddrSpace) (p : ℕ)
      → IsValid pages m.kmem
      → IsHeld m p
      → GivenBack m p (drop_table m space (page_address p))
  unfolding drop_table when_freed
  drop_table-GivenBack m space p valid h =
      let at : virt_to_phys (page_address p) ≡ p * 4096 = omega (arith, h.0, few) in
      let number : p * 4096 / 4096 ≡ p = omega arith in
      let lem = pm_free_lem m.kmem (p * 4096) 8 (omega (arith, h.0, few)) valid.bytes in
      let freed = lem.1.1 (subst (λ x. AllUsed m.kmem.bitmap x 8) (sym number) (h.1)) in
      rw (at, freed)
        (
          pm_free-IsValid pages m.kmem (p * 4096) 8 (omega (arith, h.0)) valid,
          λ q apart held. (held.0, λ x lo hi. ground (arith, lem.0 x, held.1 x, apart)),
        )

  given_then :
      (m : Machine) (p : ℕ) (r : Run AddrSpace) (next : AddrSpace → Machine → Run AddrSpace)
      → GivenBack m p r
      → ((space' : AddrSpace) (m' : Machine) → GivenBack m p (ok space' m') → IsOk (next space' m'))
      → IsOk (bind_run r next)
  unfolding bind_run
  given_then m p (ok space' m') next d follow = follow space' m' d
  given_then m p halted next d follow = d
  given_then m p no_fuel next d follow = d

  GivenBack-IsOk : (m : Machine) (p : ℕ) (r : Run AddrSpace) → GivenBack m p r → IsOk r
  GivenBack-IsOk m p (ok space' m') d = tt
  GivenBack-IsOk m p halted d = d
  GivenBack-IsOk m p no_fuel d = d

  either :
      (b : Bool) (space : AddrSpace) (m : Machine) (rest : Run AddrSpace)
      → IsOk rest
      → IsOk (if b then ok space m else rest)
  either true space m rest h = tt
  either false space m rest h = h

  -- Three tables that hold their pages can be given back.
  collect-IsOk :
      (m : Machine) (space : AddrSpace) (p1 p2 p3 slot4 slot3 : ℕ)
      → IsValid pages m.kmem
      → IsHeld m p1
      → IsHeld m p2
      → IsHeld m p3
      → IsApart p1 p2
      → IsApart p1 p3
      → IsApart p2 p3
      → IsOk (collect m space slot4 (page_address p3) slot3 (page_address p2) (page_address p1))
  unfolding collect
  collect-IsOk m space p1 p2 p3 slot4 slot3 valid h1 h2 h3 a12 a13 a23 =
      given_then m p1 _ _ (drop_table-GivenBack m space p1 valid h1) (λ space1 m1 d1.
        either _ space1 m1 _ (
          given_then (record m1 { byte = store64 m1.byte slot3 0 }) p2 _ _
            (drop_table-GivenBack (record m1 { byte = store64 m1.byte slot3 0 }) space1 p2 (d1.0)
              (d1.1 p2 a12 h2))
            (λ space2 m2 d2. either _ space2 m2 _ (
              GivenBack-IsOk (record m2 { byte = store64 m2.byte slot4 0 }) p3 _
                (drop_table-GivenBack (record m2 { byte = store64 m2.byte slot4 0 }) space2 p3
                  (d2.0) (d2.1 p3 a23 (d1.1 p3 a13 h3)))))))

  -- On an address space whose list has room for what `vector_erase` writes, and whose tables hold eight
  -- pages in use each and share none, `unmap_page_entry` does not halt: it leaves an address space in
  -- which the whole region of an address that was mapped is not, and every other address is mapped as
  -- before.
  pub unmap_page_entry-Returns :
      (m : Machine) (space : AddrSpace) (g : Layout) (virt_addr : ℕ)
      → IsWalkable m space g
      → HoldsTables m g
      → IsOk (unmap_page_entry m space virt_addr)
        × UnmappedRun m space g virt_addr (unmap_page_entry m space virt_addr)
  unmap_page_entry-Returns m space g virt_addr s h = (
    unmap_cases m space g virt_addr s IsOk (λ gone. tt)
        (λ p3 p2 p1 e4 to3 at3 e3 to2 at2 at1 there2 to1 there1.
          let differ : (p q : ℕ) → 0 < g.level p → g.level p < g.level q → IsApart p q =
            λ p q there less.
              h.apart p q there (omega (arith, less))
                (ground (arith, ap g.level {x = p} {y = q}, less)) in
          collect-IsOk _ space p1 p2 p3 _ _ h.valid (h.held p1 (omega (arith, at1)))
            (h.held p2 (omega (arith, at2))) (h.held p3 (omega (arith, at3)))
            (differ p1 p2 (omega (arith, at1)) (omega (arith, at1, at2)))
            (differ p1 p3 (omega (arith, at1)) (omega (arith, at1, at3)))
            (differ p2 p3 (omega (arith, at2)) (omega (arith, at2, at3)))),
    unmap_page_entry-Unmapped m space g virt_addr s,
  )
