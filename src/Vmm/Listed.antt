-- ===== src/Vmm/Listed.antt =====
-- The address space when a fresh table stands under an entry and in the list.
use horizon.Vector.Laws.{snoc, Appended}
use horizon.Common.{
  ℕ, suc, inl, inr, false, true, refl, arith, ◌+◌, ◌*◌, ◌^◌, ◌<◌, ◌≡◌, subst, ◌∙◌, ◌&&◌, ◌==◌,
  Bool-cases,
}
use horizon.Kmalloc.{Machine}
use horizon.Vmm.{not_present, AddrSpace}
use horizon.Vmm.Space.{IsAddrSpace, Layout, mine, Confined, SamePage}
use horizon.Kmalloc.Frame.{page_address, IsUsed}
use horizon.Vector.{Vector}
use horizon.Vmm.Table.{new_lookup, same_entry, with_page, new-IsTree, NewTable}
use horizon.Vmm.Tabled.{Tabled}
use horizon.Vmm.Lookup.{entry_of}
use horizon.Pmm.Pages.{page_free}

-- `before` is the machine with the fresh table before its address `x` is appended to the list.
module _ (pages : ℕ) (m before : Machine) (space : AddrSpace) (g : Layout) (q l i page x : ℕ)
    (s : IsAddrSpace pages m space g) (at : g.level q ≡ suc (suc l))
    (still_used : (p : ℕ) → IsUsed m p → IsUsed before p)
    (outside_kept : (p : ℕ)
      → p < 2 ^ 34
      → IsUsed m p
      → (p == q) ≡ false
      → SamePage m.byte before.byte p)
    (was_free : page_free m.kmem.bitmap page ≡ true)
    (fresh : (page < 2 ^ 34) × IsUsed before page × (g.owned page ≡ false)) (list : Vector)
    (m' : Machine) (a : Appended pages before g.owned g.count g.element x list m')
    (new : NewTable m.byte m'.byte g.level q i page) where
  abbrev g_new : Layout
  g_new = record {
    root = g.root;
    level = with_page g.level (page) (suc l);
    code = with_page g.code (page) (g.code q * 512 + i);
    owned = a.owned';
    count = g.count + 1;
    element = snoc g.count g.element x;
  }

  -- Pages in use that are not of the list are not of the longer list.
  still :
      (p : ℕ)
      → p < 2 ^ 34
      → IsUsed before p
      → g.owned p ≡ false
      → (p < 2 ^ 34) × IsUsed m' p × (a.owned' p ≡ false)
  still p low used other = (
    low,
    (a.kept p low used other).0,
    elim (Bool-cases (a.owned' p)) [
      | inl mine ↦ absurd (ground (arith, a.own p mine, used, other))
      | inr apart ↦ apart
    ],
  )

  g_new-tables : (p : ℕ) → 0 < g_new.level p → (p < 2 ^ 34) × IsUsed m' p × (a.owned' p ≡ false)
  g_new-tables p there = elim (Bool-cases (p == page)) [
    | inl is ↦
        let e : p ≡ page = ground (arith, is) in rw e (still (page) (fresh.0) (fresh.1) (fresh.2))
    | inr other ↦
        let used = s.tables p (ground (arith, other, there)) in
        still p (used.0) (still_used p (used.1)) (used.2)
  ]

  same_level : (p : ℕ) → 0 < g.level p → (g_new.level p ≡ g.level p) × (g_new.code p ≡ g.code p)
  same_level p there =
      let other : (p == page) ≡ false = ground (arith, there, new.unused) in
      (rw other refl, rw other refl)

  small_tables : (p : ℕ) → 0 < g.level p → p < 2 ^ 34
  small_tables p there = (s.tables p there).0

  not_gone : (p j : ℕ) → not_present (entry_of m.byte p j) ≡ false → ((p == q) && (j == i)) ≡ false
  not_gone p j there = elim (Bool-cases ((p == q) && (j == i))) [
    | inl is ↦
        let e : p ≡ q = ground (arith, is) in
        let e' : j ≡ i = ground (arith, is) in
        let there' =
          subst (λ y. not_present (entry_of m.byte q y) ≡ false) e'
            (subst (λ y. not_present (entry_of m.byte y j) ≡ false) e there) in
        absurd (ground (arith, new.gone, there'))
    | inr apart ↦ apart
  ]

  new_state : IsAddrSpace pages m' (record space { memory_list = list }) g_new
  new_state = record {
    safe = a.safe;
    list = a.vector;
    root_at = s.root_at;
    root_level =
        let same = same_level g.root (omega (arith, s.root_level)) in
        (same.0 ∙ s.root_level.0, same.1 ∙ s.root_level.1);
    tables = g_new-tables;
    tree = new-IsTree m.byte m'.byte g.level g.code q l i (page) at new small_tables s.tree;
  }

  listed-Confined : Confined m g m' g_new
  listed-Confined = record {
    kept = λ p low used out.
        let apart : (p == q) ≡ false = ground (arith, at, out) in
        let mine = a.kept p low (still_used p used) (ground (arith, out)) in
        (mine.0, λ x inside. mine.1 x inside ∙ outside_kept p low used apart x inside);
    own = λ p low inside. elim (Bool-cases (p == page)) [
      | inl is ↦ let e : p ≡ page = ground (arith, is) in rw (e, was_free) refl
      | inr other ↦ elim (Bool-cases (page_free m.kmem.bitmap p)) [
        | inl free ↦ rw free refl
        | inr used ↦ ground (arith, inside, other, still_used p used, a.own p)
      ]
    ];
  }

  pub listed-Tabled :
      Tabled pages m space g q l i (page_address page) (record space { memory_list = list }) m'
  listed-Tabled = record {
    g' = g_new;
    state = new_state;
    same_root = (refl, refl);
    page = page;
    table_at = refl;
    table = let self : (page == page) ≡ true = ground arith in (rw self refl, rw self refl);
    entry =
        let e = new.here in
        let low = fresh.0 in
        ((omega (arith, e, low), omega (arith, e, low)), omega (arith, e, low));
    grown = same_level;
    kept = λ p k j level_p small there.
        same_entry m.byte m'.byte g.level g.code q l i (page) at new small_tables s.tree p j
          (omega (arith, level_p)) small (not_gone p j there);
    confined = listed-Confined;
    lookups = λ v low.
        new_lookup m.byte m'.byte g.level g.code q l i (page) at new small_tables s.tree g.root v
          (s.root_level.0) (s.root_level.1) low;
  }
