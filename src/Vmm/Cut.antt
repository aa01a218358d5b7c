-- ===== src/Vmm/Cut.antt =====
-- An entry that is set to 0: the tables are still a tree, and the walks that end elsewhere.
use horizon.Common.{
  ℕ, suc, inl, inr, false, refl, arith, ◌+◌, ◌*◌, ◌/◌, ◌%◌, ◌^◌, ◌<◌, ◌≡◌, ◌&&◌, ◌==◌, Bool-cases,
  sym, ap, ◌∙◌, subst,
}
use horizon.Memory.{Mem}
use horizon.Memory.Words.{load64-store64_apart, load64-store64, store64}
use horizon.Vmm.{not_present, slot}
use horizon.Vmm.Lookup.{lookup_same, up, lookup, entry_of, IsTree, child}
use horizon.Kmalloc.Frame.{page_address}

-- Memories with the same entries in all tables.
abbrev pub SameEntries : (ℕ → ℕ) → Mem → Mem → Type 0
SameEntries level m m' = (p j : ℕ) → 0 < level p → j < 512 → entry_of m' p j ≡ entry_of m p j

-- Memories in which every page has the same walk from the table of level 4.
abbrev pub SameLookups : ℕ → Mem → Mem → Type 0
SameLookups root m m' = (v : ℕ) → v < 2 ^ 36 → lookup 4 m' root v ≡ lookup 4 m root v

module _ (level code : ℕ → ℕ) (root : ℕ) (top : (level root ≡ 4) × (code root ≡ 0)) where
  pub same-IsTree :
      (m m' : Mem) → IsTree m level code → SameEntries level m m' → IsTree m' level code
  same-IsTree m m' tree same p l j at lt there =
      let e = same p j (omega (arith, at)) lt in
      rw e (tree p l j at lt (ap not_present (sym e) ∙ there))

  pub same-SameLookups :
      (m m' : Mem) → IsTree m level code → SameEntries level m m' → SameLookups root m m'
  unfolding up
  same-SameLookups m m' tree same v low =
      lookup_same m m' level code v tree
        (λ p k at here. inl (same p (up k v % 512) (omega (arith, at)) (omega arith))) 3 root
        (top.0) (omega (arith, top.1))

  -- Entry `i` of table `q` is cleared.
  module _ (m : Mem) (q i : ℕ) (tree : IsTree m level code)
      (small : (p : ℕ) → 0 < level p → p < 2 ^ 34) (there_q : 0 < level q) (lt : i < 512) where
    abbrev pub cut : Mem
    cut = store64 m (slot (page_address q) i) 0

    pub cut-entry :
        (p j : ℕ)
        → 0 < level p
        → j < 512
        → ((p == q) && (j == i)) ≡ false
        → entry_of cut p j ≡ entry_of m p j
    cut-entry p j there lt_j apart =
        load64-store64_apart m (slot (page_address q) i) 0 (slot (page_address p) j)
          (ground (arith, apart, small p there, small q there_q))

    pub cut-here : entry_of cut q i ≡ 0
    cut-here = load64-store64 m (slot (page_address q) i) 0

    pub cut-IsTree : IsTree cut level code
    cut-IsTree p l j at lt_j there = elim (Bool-cases ((p == q) && (j == i))) [
      | inl is ↦
          let e : p ≡ q = ground (arith, is) in
          let e' : j ≡ i = ground (arith, is) in
          absurd (
            ground (
              arith,
              subst (λ x. not_present (entry_of cut x i) ≡ false) e
                  (subst (λ y. not_present (entry_of cut p y) ≡ false) e' there),
              cut-here,
            ))
      | inr other ↦
          let e = cut-entry p j (omega (arith, at)) lt_j other in
          rw e (tree p l j at lt_j (ap not_present (sym e) ∙ there))
    ]

    -- Every walk that does not come to the entry is as before.
    pub cut-lookup_other :
        (l v : ℕ)
        → level q ≡ suc l
        → v < 2 ^ 36
        → (up l v == code q * 512 + i) ≡ false
        → lookup 4 cut root v ≡ lookup 4 m root v
    unfolding up
    cut-lookup_other l v at_q low other =
        lookup_same m cut level code v tree
          (λ p k at here. elim (Bool-cases ((p == q) && (up k v % 512 == i))) [
            | inl is ↦
                let e : p ≡ q = ground (arith, is) in
                let same_level : k ≡ l = omega (arith, ap level e, at, at_q) in
                let there : up l v / 512 ≡ code q =
                  subst (λ x. up x v / 512 ≡ code p) same_level here ∙ ap code e in
                let digit : up l v % 512 ≡ i =
                  subst (λ x. up x v % 512 ≡ i) same_level (ground (arith, is)) in
                absurd (ground (arith, there, digit, other))
            | inr apart ↦ inl (cut-entry p (up k v % 512) (omega (arith, at)) (omega arith) apart)
          ])
          3 root (top.0) (omega (arith, top.1))

    -- So is every walk, if the table under the entry has no entries.
    pub cut-lookup_empty :
        (l v : ℕ)
        → level q ≡ suc (suc l)
        → v < 2 ^ 36
        → ((j : ℕ) → j < 512 → entry_of m (child (entry_of m q i)) j ≡ 0)
        → lookup 4 cut root v ≡ lookup 4 m root v
    unfolding up lookup
    cut-lookup_empty l v at_q low none_left = sym (
        lookup_same cut m level code v cut-IsTree
          (λ p k at here. elim (Bool-cases ((p == q) && (up k v % 512 == i))) [
            | inl is ↦
                let e : p ≡ q = ground (arith, is) in
                let e' : up k v % 512 ≡ i = ground (arith, is) in
                let same_level : k ≡ suc l = omega (arith, ap level e, at, at_q) in
                let gone : entry_of m (child (entry_of m q i)) (up l v % 512) ≡ 0 =
                  none_left (up l v % 512) (omega arith) in
                inr (rw (e, e', cut-here) refl, rw (e, e', same_level, gone) refl)
            | inr apart ↦
                inl (sym (cut-entry p (up k v % 512) (omega (arith, at)) (omega arith) apart))
          ])
          3 root (top.0) (omega (arith, top.1)))
