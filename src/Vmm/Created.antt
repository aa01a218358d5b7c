-- ===== src/Vmm/Created.antt =====
-- `create_address_space` on a safe machine.
use horizon.Vmm.Create.{share_loop-Shared, SharedRun}
use horizon.Vmm.Empty.{empty-IsAddrSpace, walk-empty, empty_space}
use horizon.Kmalloc.Frame.{kmalloc_impl-Fresh}
use horizon.Common.{ℕ, false, refl, none, arith, ◌+◌, ◌*◌, ◌^◌, ◌≤◌, ◌<◌, ◌≡◌, ◌∙◌, ◌==◌}
use horizon.Kmalloc.{ok, halted, no_fuel, Machine, Run}
use horizon.Vector.{bind_run, Vector}
use horizon.Vmm.Space.{IsAddrSpace, Layout}
use horizon.Kmalloc.Frame.{
  nothing, page_address, InPage, IsUsed, Kept, Fresh, KmallocedFresh, IsSafe,
}
use horizon.Vmm.{AddrSpace}
use horizon.Vmm.Share.{
  shared_map, page_with, listed, IsSharable, Held, shared_map_ext, IsSharable-same,
}
use horizon.Vmm.Empty.{empty_layout}
use horizon.Vmm.Spaces.{mem_map_size, Globals, share_loop, create_address_space}
use horizon.Memory.{memset}
use horizon.Memory.Laws.{memset_lem}
use horizon.Vmm.Laws.{walk}
use horizon.Memory.Words.{load64_ext}

-- An address space whose map is that of the listed mappings, on pages that were free.
pub record Created (pages : ℕ) (m : Machine) (list : Vector) (space : AddrSpace) (m' : Machine)
    : Type 0 where
  pub layout : Layout
  pub state : IsAddrSpace pages m' space layout
  pub kept : Kept nothing m m'
  pub walks :
      (v : ℕ) → walk m'.byte space.pml4 v ≡ shared_map list.length 0 m.byte list (λ w. none) v

abbrev pub CreatedRun : ℕ → Machine → Vector → Run (ℕ × AddrSpace) → Type 0
CreatedRun pages m list (ok (p, space) m') = Created pages m list space m'
CreatedRun pages m list halted = Unit
CreatedRun pages m list no_fuel = ⊥

-- No page is of a layout.
abbrev pub no_layout : Layout
no_layout = record {
  root = 0;
  level = λ p. 0;
  code = λ p. 0;
  owned = λ p. false;
  count = 0;
  element = λ i. 0;
}

fresh_bind :
    {A : Type 0} (Q : Run A → Type 0) (pages : ℕ) (m : Machine) (size : ℕ) (r : Run ℕ)
    (next : ℕ → Machine → Run A)
    → KmallocedFresh pages m size r
    → ((p : ℕ) (m' : Machine) → Fresh pages m size p m' → Q (next p m'))
    → Q halted
    → Q (bind_run r next)
unfolding bind_run
fresh_bind Q pages m size (ok p m') next z follow stop = follow p m' z
fresh_bind Q pages m size halted next z follow stop = stop
fresh_bind Q pages m size no_fuel next z follow stop = absurd z

module _ (pages : ℕ) (m : Machine) (list : Vector) (func : ℕ) (s : IsSafe pages m)
    (held : Held m no_layout list) (able : (j : ℕ) → j < list.length → IsSharable m.byte list j)
    (p : ℕ) (m1 : Machine) (f : Fresh pages m 48 p m1) where
  -- The structure is zeroed.
  abbrev cleared : Machine
  cleared = record m1 { byte = memset m1.byte p 0 48 }

  cleared-IsSafe : IsSafe pages cleared
  cleared-IsSafe = record { valid = f.safe.valid; limit = f.safe.limit; few = f.safe.few }

  cleared-Kept : Kept nothing m cleared
  cleared-Kept q low used out =
      let first = f.kept q low used out in
      (
        first.0,
        λ x inside.
            rw (memset_lem m1.byte p 0 48 x)
              (ground (arith, first.1 x inside, f.place, f.live.low, used, f.was_free q)),
      )

  module _ (pml4 : ℕ) (m3 : Machine) (f2 : Fresh pages cleared 32768 pml4 m3) where
    abbrev root : ℕ
    root = f2.page + 1

    root_used : IsUsed m3 root
    root_used = f2.live.used root (ground arith)

    root_low : root < 2 ^ 34
    root_low = omega (arith, f2.live.below, s.few)

    place : pml4 ≡ page_address root
    place = omega (arith, f2.place, root_low)

    zeroed : (x : ℕ) → InPage root x → m3.byte x ≡ 0
    zeroed x inside = f2.zero_bytes x (ground (arith, place))

    all-Kept : Kept nothing m m3
    all-Kept q low used out =
        let first = cleared-Kept q low used out in
        let second = f2.kept q low (first.0) out in
        (second.0, λ x inside. second.1 x inside ∙ first.1 x inside)

    not_root : (q : ℕ) → q < 2 ^ 34 → IsUsed m q → (q == root) ≡ false
    not_root q low used = ground (arith, (cleared-Kept q low used refl).0, f2.was_free root)

    list-Held : Held m3 (empty_layout root) list
    list-Held x from to =
        let z = held x from to in
        (
          z.0,
          z.1,
          (all-Kept (page_with x) (z.1) (z.2) refl).0,
          let apart = not_root (page_with x) (z.1) (z.2) in rw apart refl,
        )

    same_listed :
        (j o : ℕ)
        → j < list.length
        → o + 8 ≤ mem_map_size
        → listed m3.byte list j o ≡ listed m.byte list j o
    same_listed j o lt room =
        load64_ext m3.byte m.byte (list.elements + j * mem_map_size + o) (λ x from to.
          let z = held x (omega (arith, from)) (omega (arith, to, lt, room)) in
          (all-Kept (page_with x) (z.1) (z.2) refl).1 x (z.0))

    created :
        (r : Run AddrSpace)
        → SharedRun pages m3
            (empty_space pages m3 root f2.safe root_used root_low zeroed)
            (empty_layout root)
            list.length
            0
            list
            r
        → CreatedRun pages m list (bind_run r (λ space m4. ok (p, space) m4))
    unfolding bind_run
    created (ok space m4) y = record {
      layout = y.layout;
      state = y.state;
      kept = λ q low used out.
          let first = all-Kept q low used out in
          let apart = not_root q low used in
          let second = y.confined.kept q low (first.0) (rw apart refl) in
          (second.0, λ x inside. second.1 x inside ∙ first.1 x inside);
      walks = λ v.
          y.walks v
          ∙ shared_map_ext list.length 0 m3.byte m.byte list _ _ v (omega arith) same_listed
              (λ w. walk-empty pages m3 root f2.safe root_used root_low zeroed w);
    }
    created halted y = y
    created no_fuel y = y

    shared : CreatedRun pages m list (
        bind_run
          (share_loop list.length 0 m3 list
            (record {
              pml4 = pml4;
              memory_list = record { length = 0; capacity = 0; elements = 0 };
            })
            func)
          (λ space m4. ok (p, space) m4))
    shared = rw place (
        created
          (share_loop list.length 0 m3 list
            (empty_space pages m3 root f2.safe root_used root_low zeroed) func)
          (share_loop-Shared pages list.length 0 m3 list
            (empty_space pages m3 root f2.safe root_used root_low zeroed) (empty_layout root) func
            (empty-IsAddrSpace pages m3 root f2.safe root_used root_low zeroed) list-Held
            (omega arith)
            (λ j lt.
              IsSharable-same m.byte m3.byte list j (λ o room. same_listed j o lt room)
                (able j lt))))

-- On a safe machine whose list of shared mappings stands on pages in use and whose mappings stay in
-- the address space, below physical address 2^52 and with present flags below 4096,
-- `create_address_space` gives an address space that maps what the listed mappings laid over each
-- other in their order map, and keeps every page in use; or the system halts.
pub create_address_space-Created :
    (pages : ℕ) (m : Machine) (g : Globals) (func : ℕ)
    → IsSafe pages m
    → Held m no_layout g.mem_map
    → ((j : ℕ) → j < g.mem_map.length → IsSharable m.byte g.mem_map j)
    → CreatedRun pages m g.mem_map (create_address_space m g func)
unfolding create_address_space
create_address_space-Created pages m g func s held able =
    fresh_bind (CreatedRun pages m g.mem_map) pages m 48 _ _
      (kmalloc_impl-Fresh pages m 48 func 597 s (omega arith))
      (λ p m1 f.
        fresh_bind (CreatedRun pages m g.mem_map) pages
          (cleared pages m g.mem_map func s held able p m1 f) 32768 _ _
          (kmalloc_impl-Fresh pages (cleared pages m g.mem_map func s held able p m1 f) 32768 func
            606 (cleared-IsSafe pages m g.mem_map func s held able p m1 f) (omega arith))
          (λ pml4 m3 f2. shared pages m g.mem_map func s held able p m1 f pml4 m3 f2) tt)
      tt
