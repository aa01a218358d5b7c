-- ===== src/Vmm/Empty.antt =====
-- An address space without a mapping.
use horizon.Common.{ℕ, false, refl, none, arith, ◌%◌, ◌^◌, ◌<◌, ◌≡◌, subst, ◌==◌, if◌then◌else◌}
use horizon.Vector.Laws.{empty}
use horizon.Vmm.Space.{entry_zero, IsAddrSpace, Layout}
use horizon.Kmalloc.{Machine}
use horizon.Kmalloc.Frame.{page_address, InPage, IsUsed, IsSafe}
use horizon.Vmm.Lookup.{walk-lookup, entry_of, page_of, up, lookup}
use horizon.Vmm.{not_present, AddrSpace}
use horizon.Vmm.Laws.{walk}

abbrev pub empty_layout : ℕ → Layout
empty_layout root = record {
  root = root;
  level = λ p. if p == root then 4 else 0;
  code = λ p. 0;
  owned = λ p. false;
  count = 0;
  element = λ i. 0;
}

module _ (pages : ℕ) (m : Machine) (root : ℕ) (s : IsSafe pages m) (used : IsUsed m root)
    (low : root < 2 ^ 34) (zeroed : (x : ℕ) → InPage root x → m.byte x ≡ 0) where
  abbrev pub empty_space : AddrSpace
  empty_space = record {
    pml4 = page_address root;
    memory_list = record { length = 0; capacity = 0; elements = 0 };
  }

  -- A zeroed page in use is the top table of an address space.
  pub empty-IsAddrSpace : IsAddrSpace pages m empty_space (empty_layout root)
  empty-IsAddrSpace = record {
    safe = s;
    list = record {
      storage = empty refl refl (λ p. refl);
      count = refl;
      fits = omega arith;
      words = λ i lt. absurd (omega (arith, lt));
    };
    root_at = refl;
    root_level = (ground arith, refl);
    tables = λ p there. let e : p ≡ root = ground (arith, there) in rw e (low, used, refl);
    tree = λ p l i at lt there.
        let e : p ≡ root = ground (arith, at) in
        let word = entry_zero m.byte root i low lt zeroed in
        absurd
          (ground (arith, word, subst (λ q. not_present (entry_of m.byte q i) ≡ false) e there));
  }

  -- It maps nothing.
  pub walk-empty : (v : ℕ) → walk m.byte (page_address root) v ≡ none
  unfolding lookup
  walk-empty v =
      let word = entry_zero m.byte root (up 3 (page_of v) % 512) low (omega arith) zeroed in
      rw (walk-lookup m.byte root v, word) refl
