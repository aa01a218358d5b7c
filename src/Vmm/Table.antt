-- ===== src/Vmm/Table.antt =====
-- A fresh table under an entry that was not there: the tables are still a tree, and every walk ends
-- where it did.
use horizon.Common.{
  ℕ, suc, inl, inr, false, true, refl, none, arith, ◌+◌, ◌*◌, ◌%◌, ◌^◌, ◌<◌, ◌≡◌, ◌&&◌, ◌==◌,
  if◌then◌else◌, Bool-cases, sym, ap, ◌∙◌,
}
use horizon.Memory.{Mem}
use horizon.Vmm.{not_present}
use horizon.Vmm.Lookup.{lookup_same, up, lookup, entry_of, IsTree, child}
use horizon.Vmm.Space.{SamePage, entry_same}
use horizon.Vmm.Laws.{IsTableEntry}

-- Table `q` of level `l + 2` has the fresh page `page` under its entry `i`.
pub record NewTable (m m' : Mem) (level : ℕ → ℕ) (q i page : ℕ) : Type 0 where
  pub gone : not_present (entry_of m q i) ≡ true
  pub others : (p : ℕ) → 0 < level p → (p == q) ≡ false → SamePage m m' p
  pub old_entries : (j : ℕ) → j < 512 → (j == i) ≡ false → entry_of m' q j ≡ entry_of m q j
  pub here : entry_of m' q i ≡ page * 4096 + 7
  pub zeroed : (j : ℕ) → j < 512 → entry_of m' page j ≡ 0
  pub unused : level page ≡ 0
  pub small : page < 2 ^ 34

-- The ghost functions with the fresh page.
abbrev pub with_page : (ℕ → ℕ) → ℕ → ℕ → ℕ → ℕ
with_page level page value p = if p == page then value else level p

module _ (m m' : Mem) (level code : ℕ → ℕ) (q l i page : ℕ) (table : level q ≡ suc (suc l))
    (new : NewTable m m' level q i page) (small : (p : ℕ) → 0 < level p → p < 2 ^ 34)
    (tree : IsTree m level code) where
  pub same_entry :
      (p j : ℕ)
      → 0 < level p
      → j < 512
      → ((p == q) && (j == i)) ≡ false
      → entry_of m' p j ≡ entry_of m p j
  same_entry p j there lt other = elim (Bool-cases (p == q)) [
    | inl is ↦
        let e : p ≡ q = ground (arith, is) in
        rw e (new.old_entries j lt (ground (arith, is, other)))
    | inr apart ↦ entry_same m m' p j (small p there) lt (new.others p there apart)
  ]

  abbrev level' : ℕ → ℕ
  level' = with_page level page (suc l)

  abbrev code' : ℕ → ℕ
  code' = with_page code page (code q * 512 + i)

  abbrev IsBelow : ℕ → ℕ → ℕ → ℕ → Type 0
  IsBelow p k j entry =
      IsTableEntry entry
      × (level' (child entry) ≡ suc k)
      × (code' (child entry) ≡ code' p * 512 + j)

  fresh-IsBelow : (k : ℕ) → l ≡ k → IsBelow q k i (page * 4096 + 7)
  fresh-IsBelow k same =
      let leads : child (page * 4096 + 7) ≡ page = omega (arith, new.small) in
      let self : (page == page) ≡ true = ground arith in
      let apart : (q == page) ≡ false = ground (arith, table, new.unused) in
      (
        (omega (arith, new.small), omega arith),
        rw (leads, self) (ap suc same),
        rw (leads, self, apart) refl,
      )

  old-IsBelow :
      (p k j : ℕ)
      → level p ≡ suc (suc k)
      → j < 512
      → not_present (entry_of m p j) ≡ false
      → IsBelow p k j (entry_of m p j)
  old-IsBelow p k j at lt there =
      let t = tree p k j at lt there in
      let apart : (p == page) ≡ false = ground (arith, at, new.unused) in
      let apart' : (child (entry_of m p j) == page) ≡ false = ground (arith, t.1, new.unused) in
      (t.0, rw apart' (t.1), rw (apart, apart') (t.2))

  old_or_fresh :
      (p k j : ℕ)
      → level p ≡ suc (suc k)
      → j < 512
      → not_present (entry_of m' p j) ≡ false
      → IsBelow p k j (entry_of m' p j)
  old_or_fresh p k j at lt there = elim (Bool-cases ((p == q) && (j == i))) [
    | inl is ↦
        let e : p ≡ q = ground (arith, is) in
        let e' : j ≡ i = ground (arith, is) in
        let same : l ≡ k = ground (arith, e, at, table) in
        rw (e, e', new.here) (fresh-IsBelow k same)
    | inr other ↦
        let same = same_entry p j (omega (arith, at)) lt other in
        rw same (old-IsBelow p k j at lt (ap not_present (sym same) ∙ there))
  ]

  pub new-IsTree : IsTree m' level' code'
  new-IsTree p k j at lt there = elim (Bool-cases (p == page)) [
    | inl is ↦
        let e : p ≡ page = ground (arith, is) in absurd (ground (arith, e, new.zeroed j lt, there))
    | inr other ↦ old_or_fresh p k j (ground (arith, other, at)) lt there
  ]

  zeroed_lookup : (l v : ℕ) → lookup (suc l) m' page v ≡ none
  unfolding lookup
  zeroed_lookup l v = rw (new.zeroed (up l v % 512) (omega arith)) refl

  pub new_lookup :
      (root v : ℕ)
      → level root ≡ 4
      → code root ≡ 0
      → v < 2 ^ 36
      → lookup 4 m' root v ≡ lookup 4 m root v
  unfolding up
  new_lookup root v four top few =
      lookup_same m m' level code v tree
        (λ p k at here. elim (Bool-cases ((p == q) && (up k v % 512 == i))) [
          | inl is ↦
              let e : p ≡ q = ground (arith, is) in
              let e' : up k v % 512 ≡ i = ground (arith, is) in
              let same : k ≡ suc l = ground (arith, e, at, table) in
              let leads : child (entry_of m' q i) ≡ page = omega (arith, new.here, new.small) in
              inr (rw (e, e') new.gone, rw (e, e', leads, same) (zeroed_lookup l v))
          | inr other ↦ inl (same_entry p (up k v % 512) (omega (arith, at)) (omega arith) other)
        ])
        3 root four (omega (arith, top))
