-- ===== src/Vmm/Lookup.antt =====
-- The walk of the page tables as a recursion over their levels, and what a change of the memory
-- does to it.
use horizon.Common.{
  ℕ, zero, suc, inl, inr, false, true, refl, none, some, arith, ◌+◌, ◌*◌, ◌/◌, ◌%◌, ◌^◌, ◌<◌, ◌≡◌,
  ◌⊎◌, Option, if◌then◌else◌, Bool-cases, Bool, ◌||◌,
}
use horizon.Memory.{Mem}
use horizon.Vmm.Laws.{IsTableEntry, walk}
use horizon.Memory.Words.{load64}
use horizon.Kmalloc.Frame.{page_address}
use horizon.Vmm.{slot, not_present}

-- The part of a page's number that the tables of level `l` and above look at.
unfoldable pub up : ℕ → ℕ → ℕ
up zero v = v
up (suc l) v = up l v / 512

-- Entry `i` of the table on page `q`.
abbrev pub entry_of : Mem → ℕ → ℕ → ℕ
entry_of m q i = load64 m (slot (page_address q) i)

-- The page that an entry names.
abbrev pub child : ℕ → ℕ
child entry = entry / 4096 % 2 ^ 40

unfoldable pub lookup : ℕ → Mem → ℕ → ℕ → Option ℕ
lookup zero m q v = some (q * 4096)
lookup (suc l) m q v =
    let entry = entry_of m q (up l v % 512) in
    let rest = lookup l m (child entry) v in if not_present entry then none else rest

-- The number of the page of an address.
abbrev pub page_of : ℕ → ℕ
page_of virt_addr = virt_addr / 4096 % 2 ^ 36

nested :
    (a b c d : Bool) (x : Option ℕ)
    → (if a || b || c || d then none else x)
      ≡ (if a then none else if b then none else if c then none else if d then none else x)
nested a b c d x = ground arith

pub walk-lookup : (m : Mem) (r v : ℕ) → walk m (page_address r) v ≡ lookup 4 m r (page_of v)
unfolding walk lookup up
walk-lookup m r v =
    let i4 : v / 2 ^ 39 % 512 ≡ page_of v / 512 / 512 / 512 % 512 = omega arith in
    let i3 : v / 2 ^ 30 % 512 ≡ page_of v / 512 / 512 % 512 = omega arith in
    let i2 : v / 2 ^ 21 % 512 ≡ page_of v / 512 % 512 = omega arith in
    let i1 : v / 2 ^ 12 % 512 ≡ page_of v % 512 = omega arith in
    let e4 = entry_of m r (page_of v / 512 / 512 / 512 % 512) in
    let e3 = entry_of m (child e4) (page_of v / 512 / 512 % 512) in
    let e2 = entry_of m (child e3) (page_of v / 512 % 512) in
    let e1 = entry_of m (child e2) (page_of v % 512) in
    rw (i4, i3, i2, i1)
      (nested (not_present e4) (not_present e3) (not_present e2) (not_present e1)
        (some (child e1 * 4096)))

-- The pages of the tables have a level from 1, and the part of the page numbers that they are for.
abbrev pub IsTree : Mem → (ℕ → ℕ) → (ℕ → ℕ) → Type 0
IsTree m level code =
    (q l i : ℕ)
    → level q ≡ suc (suc l)
    → i < 512
    → not_present (entry_of m q i) ≡ false
    → IsTableEntry (entry_of m q i)
      × (level (child (entry_of m q i)) ≡ suc l)
      × (code (child (entry_of m q i)) ≡ code q * 512 + i)

-- An entry on the way of `v` is as it was, or was not there and now leads nowhere.
abbrev pub SameStep : Mem → Mem → ℕ → ℕ → ℕ → ℕ → Type 0
SameStep m m' v l q i =
    (entry_of m' q i ≡ entry_of m q i)
    ⊎ ((not_present (entry_of m q i) ≡ true) × (lookup l m' (child (entry_of m' q i)) v ≡ none))

module _ (m m' : Mem) (level code : ℕ → ℕ) (v : ℕ) (tree : IsTree m level code)
    (same : (q l : ℕ)
      → level q ≡ suc l
      → up (suc l) v ≡ code q
      → SameStep m m' v l q (up l v % 512)) where
  lookup_step :
      (l q : ℕ)
      → SameStep m m' v l q (up l v % 512)
      → (not_present (entry_of m q (up l v % 512)) ≡ false
          → lookup l m' (child (entry_of m q (up l v % 512))) v
            ≡ lookup l m (child (entry_of m q (up l v % 512))) v)
      → lookup (suc l) m' q v ≡ lookup (suc l) m q v
  unfolding lookup
  lookup_step l q (inl e) rest = elim (Bool-cases (not_present (entry_of m q (up l v % 512)))) [
    | inl gone ↦ rw (e, gone) refl
    | inr there ↦ rw (e, there) (rest there)
  ]
  lookup_step l q (inr (gone, leads)) rest =
      elim (Bool-cases (not_present (entry_of m' q (up l v % 512)))) [
        | inl still ↦ rw (gone, still) refl
        | inr there ↦ rw (gone, there) leads
      ]

  pub lookup_same :
      (l q : ℕ)
      → level q ≡ suc l
      → up (suc l) v ≡ code q
      → lookup (suc l) m' q v ≡ lookup (suc l) m q v
  unfolding up lookup
  lookup_same zero q at here = lookup_step 0 q (same q 0 at here) (λ there. refl)
  lookup_same (suc l) q at here = lookup_step (suc l) q (same q (suc l) at here) (λ there.
      let below = tree q l (up (suc l) v % 512) at (omega arith) there in
      lookup_same l (child (entry_of m q (up (suc l) v % 512))) (below.1)
        (omega (arith, below.2, here)))
