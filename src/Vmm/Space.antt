-- ===== src/Vmm/Space.antt =====
-- What holds of an address space between the calls: its tables are a tree of four levels on pages
-- in use, apart from the pages of its list.
use horizon.Common.{
  ℕ, inl, inr, false, true, refl, arith, ◌+◌, ◌*◌, ◌/◌, ◌^◌, ◌≤◌, ◌<◌, ◌≡◌, ◌∙◌, Bool, ◌||◌, ltb,
  Bool-cases,
}
use horizon.Kmalloc.{Machine}
use horizon.Memory.Words.{load64_shift, load_bytes, load64}
use horizon.Memory.{Mem}
use horizon.Vmm.{slot, AddrSpace}
use horizon.Vector.{Vector}
use horizon.Kmalloc.Frame.{IsUsed, page_address, IsSafe, InPage, Kept}
use horizon.Vmm.Lookup.{IsTree, entry_of}
use horizon.Vector.Laws.{empty, block, IsVector}
use horizon.Kmalloc.Realloc.{Describes_ext}
use horizon.Pmm.Pages.{page_free}

-- Which page is the top table; which table each page is, by level, 0 for none, and the part of the
-- page numbers that it is for; the pages of the list of the tables' addresses, and its elements.
pub record Layout : Type 0 where
  pub root : ℕ
  pub level : ℕ → ℕ
  pub code : ℕ → ℕ
  pub owned : ℕ → Bool
  pub count : ℕ
  pub element : ℕ → ℕ

pub record IsAddrSpace (pages : ℕ) (m : Machine) (space : AddrSpace) (g : Layout) : Type 0 where
  pub safe : IsSafe pages m
  pub list : IsVector pages m space.memory_list g.owned g.count g.element
  pub root_at : space.pml4 ≡ page_address g.root
  pub root_level : (g.level g.root ≡ 4) × (g.code g.root ≡ 0)
  pub tables : (q : ℕ) → 0 < g.level q → (q < 2 ^ 34) × IsUsed m q × (g.owned q ≡ false)
  pub tree : IsTree m.byte g.level g.code

-- The pages of the tables and of the list.
abbrev pub mine : Layout → ℕ → Bool
mine g p = ltb 0 (g.level p) || g.owned p

-- Only the pages of the layout and free pages are touched and taken.
pub record Confined (m : Machine) (g : Layout) (m' : Machine) (g' : Layout) : Type 0 where
  pub kept : Kept (mine g) m m'
  pub own : (p : ℕ) → p < 2 ^ 34 → mine g' p ≡ true → (page_free m.kmem.bitmap p || mine g p) ≡ true

pub Confined-refl : (m : Machine) (g : Layout) → Confined m g m g
Confined-refl m g = record {
  kept = λ p low used out. (used, λ x inside. refl);
  own = λ p low inside. ground (arith, inside);
}

-- A page in use that is not of the layout does not become so.
pub Confined-out :
    (m m' : Machine) (g g' : Layout)
    → Confined m g m' g'
    → (p : ℕ) → p < 2 ^ 34
    → IsUsed m p
    → mine g p ≡ false
    → mine g' p ≡ false
Confined-out m m' g g' c p low used out = elim (Bool-cases (mine g' p)) [
  | inl inside ↦ absurd (ground (arith, c.own p low inside, used, out))
  | inr apart ↦ apart
]

pub Confined-trans :
    (m m1 m2 : Machine) (g g1 g2 : Layout)
    → Confined m g m1 g1
    → Confined m1 g1 m2 g2
    → Confined m g m2 g2
Confined-trans m m1 m2 g g1 g2 c c1 = record {
  kept = λ p low used out.
      let first = c.kept p low used out in
      let second = c1.kept p low (first.0) (Confined-out m m1 g g1 c p low used out) in
      (second.0, λ x inside. second.1 x inside ∙ first.1 x inside);
  own = λ p low inside. elim (Bool-cases (page_free m.kmem.bitmap p || mine g p)) [
    | inl is ↦ is
    | inr other ↦
        let used : IsUsed m p = ground (arith, other) in
        let out : mine g p ≡ false = ground (arith, other) in
        let still = (c.kept p low used out).0 in
        absurd (ground (arith, c1.own p low inside, still, Confined-out m m1 g g1 c p low used out))
  ];
}

-- Pages whose bytes are the same.
abbrev pub SamePage : Mem → Mem → ℕ → Type 0
SamePage m m' q = (x : ℕ) → InPage q x → m' x ≡ m x

pub entry_same :
    (m m' : Mem) (q i : ℕ)
    → q < 2 ^ 34
    → i < 512
    → SamePage m m' q
    → entry_of m' q i ≡ entry_of m q i
entry_same m m' q i low lt same =
    load64_shift m' m (slot (page_address q) i) (slot (page_address q) i)
      (λ j small. same (slot (page_address q) i + j) (omega arith))

zero_word : (a : ℕ) → load64 (λ q. 0) a ≡ 0
unfolding load64 load_bytes
zero_word a = refl

-- A zeroed page of tables.
pub entry_zero :
    (m : Mem) (q i : ℕ)
    → q < 2 ^ 34
    → i < 512
    → ((x : ℕ) → InPage q x → m x ≡ 0)
    → entry_of m q i ≡ 0
entry_zero m q i low lt same =
    load64_shift m (λ x. 0) (slot (page_address q) i) (slot (page_address q) i)
      (λ j small. same (slot (page_address q) i + j) (omega arith))
    ∙ zero_word (slot (page_address q) i)

-- The pages that a vector owns are in use, below the limit of the heap.
pub owned-IsUsed :
    (pages : ℕ) (m : Machine) (v : Vector) (owned : ℕ → Bool) (n : ℕ) (f : ℕ → ℕ) (q : ℕ)
    → IsSafe pages m
    → IsVector pages m v owned n f
    → owned q ≡ true
    → IsUsed m q × (q < 2 ^ 34)
owned-IsUsed pages m v owned n f q s vec mine = elim vec.storage [
  | empty e c o ↦ absurd (ground (arith, o q))
  | block b e l o ↦ (l.used q (ground (arith, o q)), ground (arith, o q, l.below, s.few))
]

-- A vector whose pages are kept is kept.
pub IsVector_kept :
    (pages : ℕ) (m m' : Machine) (v : Vector) (owned : ℕ → Bool) (n : ℕ) (f : ℕ → ℕ)
    → IsSafe pages m
    → IsVector pages m v owned n f
    → ((q : ℕ) → owned q ≡ true → IsUsed m' q × SamePage m.byte m'.byte q)
    → IsVector pages m' v owned n f
IsVector_kept pages m m' v owned n f s vec kept = elim vec.storage [
  | empty e c o ↦ record {
    storage = empty e c o;
    count = vec.count;
    fits = vec.fits;
    words = λ i lt. absurd (omega (arith, vec.fits, c));
  }
  | block b e l o ↦
      let few : v.capacity ≤ 2 ^ 50 = omega (arith, l.low) in
      record {
        storage =
            block b e
              (record {
                described =
                    Describes_ext
                      (λ x inside. (kept b (ground (arith, o b))).1 x (ground (arith, l.low)))
                      l.described;
                used = λ q inside. (kept q (ground (arith, o q))).0;
                below = l.below;
                low = l.low;
              })
              o;
        count = vec.count;
        fits = vec.fits;
        words = λ i lt.
            load64_shift m'.byte m.byte (v.elements + 8 * i) (v.elements + 8 * i) (λ j small.
              let q = b + 1 + (8 * i + j) / 4096 in
              (kept q (ground (arith, o q, vec.fits))).1 (v.elements + 8 * i + j)
                (omega (arith, e, l.below, s.few, vec.fits)))
            ∙ vec.words i lt;
      }
]
