-- ===== src/Vmm/Entered.antt =====
-- The store of an entry into a page table of an address space.
use horizon.Common.{
  ℕ, zero, suc, inl, inr, false, arith, ◌+◌, ◌*◌, ◌/◌, ◌%◌, ◌^◌, ◌<◌, ◌≡◌, sym, ap, ◌∙◌, ◌&&◌, ◌==◌,
  Bool-cases,
}
use horizon.Kmalloc.{Machine}
use horizon.Memory.Words.{store64_other, load64-store64_apart, store64}
use horizon.Vmm.{not_present, slot, AddrSpace}
use horizon.Vmm.Space.{owned-IsUsed, IsVector_kept, SamePage, IsAddrSpace, Layout, Confined}
use horizon.Vmm.Lookup.{lookup_same, lookup, entry_of, up}
use horizon.Kmalloc.Frame.{page_address}

-- The store of the page's entry into a page table that is there.
module _ (pages : ℕ) (m : Machine) (space : AddrSpace) (g : Layout) (page i entry : ℕ)
    (s : IsAddrSpace pages m space g) (bottom : g.level page ≡ 1) (lt : i < 512) where
  abbrev pub entered : Machine
  entered = record m { byte = store64 m.byte (slot (page_address page) i) entry }

  page_low : page < 2 ^ 34
  page_low = (s.tables page (omega (arith, bottom))).0

  entered-same : (p : ℕ) → p < 2 ^ 34 → (p == page) ≡ false → SamePage m.byte entered.byte p
  entered-same p low apart x inside =
      store64_other m.byte (slot (page_address page) i) entry x (ground (arith, apart, page_low))

  entered-entry :
      (p j : ℕ)
      → 0 < g.level p
      → j < 512
      → ((p == page) && (j == i)) ≡ false
      → entry_of entered.byte p j ≡ entry_of m.byte p j
  entered-entry p j there small apart =
      load64-store64_apart m.byte (slot (page_address page) i) entry (slot (page_address p) j)
        (ground (arith, apart, page_low, (s.tables p there).0))

  pub entered-IsAddrSpace : IsAddrSpace pages entered space g
  entered-IsAddrSpace = record {
    safe = record { valid = s.safe.valid; limit = s.safe.limit; few = s.safe.few };
    list =
        IsVector_kept pages m entered space.memory_list g.owned g.count g.element s.safe s.list
          (λ p mine.
            let used =
              owned-IsUsed pages m space.memory_list g.owned g.count g.element p s.safe s.list
                mine in
            (
              used.0,
              entered-same p (used.1)
                  (ground (arith, mine, (s.tables page (omega (arith, bottom))).2)),
            ));
    root_at = s.root_at;
    root_level = s.root_level;
    tables = s.tables;
    tree = λ p k j at small there.
        let same = entered-entry p j (omega (arith, at)) small (ground (arith, at, bottom)) in
        rw same (s.tree p k j at small (ap not_present (sym same) ∙ there));
  }

  pub entered-Confined : Confined m g entered g
  entered-Confined = record {
    kept = λ p low used out. (used, entered-same p low (ground (arith, bottom, out)));
    own = λ p low inside. ground (arith, inside);
  }

  entry_apart :
      (v : ℕ)
      → (v == g.code page * 512 + i) ≡ false
      → (p k : ℕ) → g.level p ≡ suc k
      → up (suc k) v ≡ g.code p
      → ((p == page) && (up k v % 512 == i)) ≡ false
  unfolding up
  entry_apart v other p zero at here = elim (Bool-cases ((p == page) && (v % 512 == i))) [
    | inl is ↦
        let e : p ≡ page = ground (arith, is) in
        let there : v / 512 ≡ g.code page = here ∙ ap g.code e in
        absurd (ground (arith, is, there, other))
    | inr apart ↦ apart
  ]
  entry_apart v other p (suc k) at here = ground (arith, at, bottom)

  -- Every walk but that of the page ends where it did.
  pub entered-lookup :
      (v : ℕ)
      → v < 2 ^ 36
      → (v == g.code page * 512 + i) ≡ false
      → lookup 4 entered.byte g.root v ≡ lookup 4 m.byte g.root v
  unfolding up
  entered-lookup v low other =
      lookup_same m.byte entered.byte g.level g.code v s.tree
        (λ p k at here. inl (
          entered-entry p (up k v % 512) (omega (arith, at)) (omega arith)
            (entry_apart v other p k at here)))
        3 g.root (s.root_level.0) (omega (arith, s.root_level.1))
