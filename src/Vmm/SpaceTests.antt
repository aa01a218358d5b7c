-- ===== src/Vmm/SpaceTests.antt =====
-- A machine of 64 pages, of which pages 1 and 2 are in use: page 1 is a zeroed top table, and on
-- page 2 stands a list of one mapping, of 3 pages from 0x40_3000 on to those from 0x9000 on.
use horizon.Common.{
  inl, inr, Bool-cases, ℕ, refl, arith, ◌+◌, ◌<◌, ◌≡◌, sym, subst, ◌∙◌, false, [], ◌∷◌, ltb, ◌==◌,
  if◌then◌else◌,
}
use horizon.Vmm.{map_pages, AddrSpace}
use horizon.Vmm.Created.{create_address_space-Created, no_layout, CreatedRun}
use horizon.Pmm.Pages.{page_free}
use horizon.Kmalloc.{Machine, kmalloc_impl}
use horizon.Memory.Words.{byte_of, store64, load_bytes, store64_other, load64}
use horizon.Vmm.MapPages.{map_pages-RangeMapped, RangeMappedRun}
use horizon.Vmm.Share.{IsSharable, page_with, Held}
use horizon.Vmm.Space.{IsAddrSpace}
use horizon.Memory.{Mem}
use horizon.Pmm.Count.{count_free}
use horizon.Vector.{vector_append, Vector}
use horizon.Vector.Laws.{AppendedRun}
use horizon.Kmalloc.Frame.{IsUsed, IsSafe, page_address, InPage}
use horizon.Pmm.{KernelMemInfo, num_pages}
use horizon.Pmm.Init.{phys_to_virt}
use horizon.Vmm.Empty.{empty-IsAddrSpace, empty_layout}
use horizon.Vmm.Spaces.{create_address_space}
use horizon.Pmm.Init.Laws.{page_free_of_zero}
use horizon.Vector.Append.{vector_append-Appended}
use horizon.Pmm.Scan.{AllFree}
use horizon.Kmalloc.Enough.{kmalloc_impl-Returns, Returns}

abbrev bitmap : ℕ → ℕ
bitmap q = if q == 0 then 0xf9 else if ltb q 8 then 0xff else 0

abbrev state : KernelMemInfo
state = record {
  physical_limit = 0x4_0000;
  total_size = 0x4_0000;
  free_size = 0x3_e000;
  bitmap_base = phys_to_virt 0;
  bitmap = bitmap;
}

abbrev list_at : ℕ
list_at = 0xffff_8000_0000_2000

abbrev memory : Mem
memory =
    store64
      (store64 (store64 (store64 (λ q. 0) list_at 0x40_3000) (list_at + 8) 0x9000) (list_at + 16) 3)
      (list_at + 24) 3

abbrev machine : Machine
machine = record { kmem = state; byte = memory }

abbrev list : Vector
list = record { length = 1; capacity = 128; elements = list_at }

machine-IsSafe : IsSafe 64 machine
unfolding count_free page_free
machine-IsSafe = record {
  valid = record {
    bytes = λ q. ground arith;
    counted = refl;
    bounded = λ q h. page_free_of_zero bitmap q (ground arith);
    addressable = omega arith;
  };
  limit = omega arith;
  few = omega arith;
}

page_1_used : IsUsed machine 1
unfolding page_free
page_1_used = refl

page_2_used : IsUsed machine 2
unfolding page_free
page_2_used = refl

page_1_zero : (x : ℕ) → InPage 1 x → memory x ≡ 0
page_1_zero x inside =
    store64_other _ (list_at + 24) 3 x (ground arith)
    ∙ store64_other _ (list_at + 16) 3 x (ground arith)
    ∙ store64_other _ (list_at + 8) 0x9000 x (ground arith)
    ∙ store64_other _ list_at 0x40_3000 x (ground arith)

abbrev space : AddrSpace
space = record {
  pml4 = page_address 1;
  memory_list = record { length = 0; capacity = 0; elements = 0 };
}

space-IsAddrSpace : IsAddrSpace 64 machine space (empty_layout 1)
space-IsAddrSpace =
    empty-IsAddrSpace 64 machine 1 machine-IsSafe page_1_used (omega arith) page_1_zero

list-Held : Held machine no_layout list
list-Held x from to =
    let e : page_with x ≡ 2 = omega (arith, from, to) in
    (
      (omega (arith, from, to), omega (arith, from, to)),
      omega (arith, e),
      subst (IsUsed machine) (sym e) page_2_used,
      refl,
    )

list_able : (j : ℕ) → j < 1 → IsSharable memory list j
unfolding load64 load_bytes store64 byte_of
list_able j lt =
    subst (IsSharable memory list) {x = 0} {y = j} (omega (arith, lt))
      (record { room = omega arith; small = omega arith; low = omega arith; present = refl })

map_pages-RangeMapped_example :
    RangeMappedRun 64 machine space
      (empty_layout 1)
      2
      0x40_3000
      0x9000
      (map_pages 2 machine space 0x40_3000 0x9000 3 40)
map_pages-RangeMapped_example =
    map_pages-RangeMapped 64 2 machine space (empty_layout 1) 0x40_3000 0x9000 3 40
      space-IsAddrSpace (omega arith) (omega arith) (omega arith) refl

create_address_space-Created_example :
    CreatedRun 64 machine list
      (create_address_space machine (record { kernel_space = space; mem_map = list }) 40)
create_address_space-Created_example =
    create_address_space-Created 64 machine (record { kernel_space = space; mem_map = list }) 40
      machine-IsSafe list-Held list_able

vector_append-Appended_example :
    AppendedRun 64 machine
      (λ p. false)
      0
      (λ i. 0)
      7
      (vector_append machine space.memory_list 8 (7 ∷ []) 40 50)
vector_append-Appended_example =
    vector_append-Appended 64 machine space.memory_list (λ p. false) 0 (λ i. 0) 7 40 50
      machine-IsSafe (space-IsAddrSpace.list)

pages_3_4_free : AllFree bitmap 3 (num_pages 100 + 1)
unfolding page_free
pages_3_4_free q lo hi = elim (Bool-cases (q == 3)) [
  | inl is ↦ let e : q ≡ 3 = ground (arith, is) in rw e refl
  | inr other ↦ let e : q ≡ 4 = ground (arith, other, hi) in rw e refl
]

kmalloc_impl-Returns_example : Returns 64 machine 100 (kmalloc_impl machine 100 40 50)
kmalloc_impl-Returns_example =
    kmalloc_impl-Returns 64 machine 100 3 machine-IsSafe (omega arith) (omega arith) pages_3_4_free
      40 50
