-- ===== src/Vmm/Share.antt =====
-- The mappings that every address space shares.
use horizon.Common.{
  ℕ, zero, suc, false, refl, some, arith, ◌+◌, ◌-◌, ◌*◌, ◌/◌, ◌%◌, ◌^◌, ◌≤◌, ◌<◌, ◌≡◌, ◌&&◌, Option,
  ltb, leb, if◌then◌else◌, sym, ap, ◌∙◌,
}
use horizon.Kmalloc.{Machine}
use horizon.Memory.{Mem}
use horizon.Pmm.Init.{virt_to_phys}
use horizon.Vmm.Space.{mine, Confined-out, Confined, Layout}
use horizon.Vector.{Vector}
use horizon.Vmm.Lookup.{page_of}
use horizon.Vmm.Spaces.{mem_map_size}
use horizon.Memory.Words.{load64_ext, load64}
use horizon.Kmalloc.Frame.{IsUsed, InPage}

-- Field `o` of entry `i` of the list of mappings.
abbrev pub listed : Mem → Vector → ℕ → ℕ → ℕ
listed m list i o = load64 m (list.elements + i * mem_map_size + o)

-- Its first field, the virtual address.
abbrev pub start : Mem → Vector → ℕ → ℕ
start m list i = load64 m (list.elements + i * mem_map_size)

pub start_same :
    (m m' : Mem) (list : Vector) (i : ℕ)
    → listed m list i 0 ≡ listed m' list i 0
    → start m list i ≡ start m' list i
start_same m m' list i e =
    let at : list.elements + i * mem_map_size ≡ list.elements + i * mem_map_size + 0 =
      omega arith in
    ap (load64 m) at ∙ e ∙ sym (ap (load64 m') at)

-- The address map with `left` listed mappings from the `i`-th on laid over it, in their order.
unfoldable pub shared_map : ℕ → ℕ → Mem → Vector → (ℕ → Option ℕ) → ℕ → Option ℕ
shared_map zero i m list old v = old v
shared_map (suc left) i m list old v =
    shared_map left (i + 1) m list
      (λ w.
        if leb (page_of (start m list i)) (page_of w)
          && ltb (page_of w) (page_of (start m list i) + listed m list i 24)
        then some ((listed m list i 8 / 4096 + (page_of w - page_of (start m list i))) * 4096)
        else old w)
      v

-- The listed mappings can be made.
pub record IsSharable (m : Mem) (list : Vector) (i : ℕ) : Type 0 where
  pub room : page_of (start m list i) + listed m list i 24 ≤ 2 ^ 36
  pub small : listed m list i 8 + 4096 * listed m list i 24 < 2 ^ 52
  pub low : listed m list i 16 < 4096
  pub present : listed m list i 16 % 2 ≡ 1

-- The page on which the kernel sees an address.
abbrev pub page_with : ℕ → ℕ
page_with x = virt_to_phys x / 4096

-- The list stands on pages in use, apart from those of the layout.
abbrev pub Held : Machine → Layout → Vector → Type 0
Held m g list =
    (x : ℕ)
    → list.elements ≤ x
    → x < list.elements + list.length * mem_map_size
    → InPage (page_with x) x
      × (page_with x < 2 ^ 34)
      × IsUsed m (page_with x)
      × (mine g (page_with x) ≡ false)

pub Held-kept :
    (m m' : Machine) (g g' : Layout) (list : Vector)
    → Confined m g m' g'
    → Held m g list
    → Held m' g' list
Held-kept m m' g g' list c h x from to =
    let z = h x from to in
    (
      z.0,
      z.1,
      (c.kept (page_with x) (z.1) (z.2) (z.3)).0,
      Confined-out m m' g g' c (page_with x) (z.1) (z.2) (z.3),
    )

pub listed_kept :
    (m m' : Machine) (g g' : Layout) (list : Vector) (i o : ℕ)
    → Confined m g m' g'
    → Held m g list
    → i < list.length
    → o + 8 ≤ mem_map_size
    → listed m'.byte list i o ≡ listed m.byte list i o
listed_kept m m' g g' list i o c h lt room =
    load64_ext m'.byte m.byte (list.elements + i * mem_map_size + o) (λ x from to.
      let z = h x (omega (arith, from)) (omega (arith, to, lt, room)) in
      (c.kept (page_with x) (z.1) (z.2) (z.3)).1 x (z.0))

-- The map depends on the entries alone.
pub shared_map_ext :
    (left i : ℕ) (m m' : Mem) (list : Vector) (old old' : ℕ → Option ℕ) (v : ℕ)
    → i + left ≡ list.length
    → ((j o : ℕ) → j < list.length → o + 8 ≤ mem_map_size → listed m list j o ≡ listed m' list j o)
    → ((w : ℕ) → old w ≡ old' w)
    → shared_map left i m list old v ≡ shared_map left i m' list old' v
unfolding shared_map
shared_map_ext zero i m m' list old old' v count same e = e v
shared_map_ext (suc left) i m m' list old old' v count same e =
    let s0 = start_same m m' list i (same i 0 (omega (arith, count)) (omega arith)) in
    let s8 = same i 8 (omega (arith, count)) (omega arith) in
    let s24 = same i 24 (omega (arith, count)) (omega arith) in
    shared_map_ext left (i + 1) m m' list _ _ v (omega (arith, count)) same
      (λ w. rw (s0, s8, s24, e w) refl)

pub IsSharable-same :
    (m m' : Mem) (list : Vector) (j : ℕ)
    → ((o : ℕ) → o + 8 ≤ mem_map_size → listed m' list j o ≡ listed m list j o)
    → IsSharable m list j
    → IsSharable m' list j
IsSharable-same m m' list j same k =
    let s0 = start_same m' m list j (same 0 (omega arith)) in
    let s8 = same 8 (omega arith) in
    let s16 = same 16 (omega arith) in
    let s24 = same 24 (omega arith) in
    record {
      room = rw (s0, s24) k.room;
      small = rw (s8, s24) k.small;
      low = rw s16 k.low;
      present = rw s16 k.present;
    }
