-- ===== src/Vmm/Fresh.antt =====
-- The fresh table that `next_table` makes: what the memory then holds, before and after the
-- table's address is listed.
use horizon.Common.{
  ℕ, suc, inl, inr, false, true, refl, arith, ◌+◌, ◌*◌, ◌/◌, ◌^◌, ◌≤◌, ◌<◌, ◌≡◌, ◌∙◌, ◌==◌,
  Bool-cases,
}
use horizon.Kmalloc.{Machine}
use horizon.Memory.Words.{load64-store64, load64-store64_apart, store64_other, store64}
use horizon.Vmm.{not_present, vm_usermode, slot, make_table_entry, AddrSpace}
use horizon.Vmm.Space.{
  entry_zero, entry_same, owned-IsUsed, IsVector_kept, SamePage, IsAddrSpace, Layout, mine,
}
use horizon.Pmm.{KernelMemInfo}
use horizon.Kmalloc.Frame.{page_address, IsSafe, IsUsed, InPage, Handed}
use horizon.Pmm.Init.{virt_to_phys, phys_to_virt}
use horizon.Vector.Laws.{Appended, IsVector}
use horizon.Vector.{Vector}
use horizon.Memory.{memset}
use horizon.Memory.Laws.{memset_lem, within}
use horizon.Pmm.Scan.{in_range}
use horizon.Vmm.Lookup.{entry_of}
use horizon.Vmm.Laws.{make_table_entry_lem}
use horizon.Vmm.Table.{NewTable}

module _ (pages : ℕ) (m : Machine) (space : AddrSpace) (g : Layout) (q l i : ℕ)
    (s : IsAddrSpace pages m space g) (at : g.level q ≡ suc (suc l)) (lt : i < 512) where
  -- The machine with the fresh table, before its address is listed.
  module _ (buffer : ℕ) (k : KernelMemInfo) (h : Handed pages m.kmem k 8 buffer) where
    abbrev pub table : ℕ
    table = phys_to_virt buffer

    abbrev pub with_table : Machine
    with_table = record {
      kmem = k;
      byte =
          store64 (memset m.byte table 0 32768) (slot (page_address q) i)
            (make_table_entry (virt_to_phys table) vm_usermode);
    }

    used_apart : (p : ℕ) → IsUsed m p → in_range (buffer / 4096) 8 p ≡ false
    used_apart p used = ground (arith, used, h.were_free p)

    outside :
        (x p : ℕ)
        → p < 2 ^ 34
        → InPage p x
        → in_range (buffer / 4096) 8 p ≡ false
        → within table 32768 x ≡ false
    outside x p low inside apart = ground (arith, apart, h.low, h.aligned)

    inside_table :
        (x p : ℕ) → InPage p x → in_range (buffer / 4096) 8 p ≡ true → within table 32768 x ≡ true
    inside_table x p inside range = ground (arith, range, h.low, h.aligned)

    slot_apart :
        (x p : ℕ)
        → p < 2 ^ 34
        → InPage p x
        → (p == q) ≡ false
        → within (slot (page_address q) i) 8 x ≡ false
    slot_apart x p low inside apart = ground (arith, apart, (s.tables q (omega (arith, at))).0)

    -- Pages in use keep their bytes, but for the table with the entry.
    pub with_table-kept :
        (p : ℕ)
        → p < 2 ^ 34
        → IsUsed m p
        → (p == q) ≡ false
        → IsUsed with_table p × SamePage m.byte with_table.byte p
    with_table-kept p low used apart = (
      ground (arith, h.now p, used),
      λ x inside.
          store64_other _ _ _ x (slot_apart x p low inside apart)
          ∙ rw (memset_lem m.byte table 0 32768 x, outside x p low inside (used_apart p used)) refl,
    )

    pub with_table-vector : IsVector pages with_table space.memory_list g.owned g.count g.element
    with_table-vector =
        IsVector_kept pages m with_table space.memory_list g.owned g.count g.element s.safe s.list
          (λ p mine.
            let used =
              owned-IsUsed pages m space.memory_list g.owned g.count g.element p s.safe s.list
                mine in
            with_table-kept p (used.1) (used.0)
              (ground (arith, mine, (s.tables q (omega (arith, at))).2)))

    pub with_table-IsSafe : IsSafe pages with_table
    with_table-IsSafe = record {
      few = s.safe.few;
      valid = h.valid;
      limit = omega (arith, h.same_limit, s.safe.limit);
    }

    pub made : make_table_entry (virt_to_phys table) vm_usermode ≡ buffer / 4096 * 4096 + 7
    made =
        let there : virt_to_phys table ≡ buffer = omega (arith, h.low) in
        rw there (make_table_entry_lem buffer vm_usermode (omega arith))

    -- After the address is listed, on pages that are apart from the tables.
    module _ (list : Vector) (m' : Machine)
        (a : Appended pages with_table g.owned g.count g.element (virt_to_phys table) list m')
        (gone : not_present (entry_of m.byte q i) ≡ true) where
      pub table_low : buffer / 4096 + 8 ≤ 2 ^ 34
      table_low = omega (arith, h.inside, s.safe.few)

      q_used : (q < 2 ^ 34) × IsUsed m q × (g.owned q ≡ false)
      q_used = s.tables q (omega (arith, at))

      q_kept : SamePage with_table.byte m'.byte q
      q_kept = (a.kept q (q_used.0) (ground (arith, h.now q, q_used.1)) (q_used.2)).1

      entry_q : (j : ℕ) → j < 512 → entry_of m'.byte q j ≡ entry_of with_table.byte q j
      entry_q j small = entry_same with_table.byte m'.byte q j (q_used.0) small q_kept

      page_unused : (p : ℕ) → 0 < g.level p → in_range (buffer / 4096) 8 p ≡ false
      page_unused p there = used_apart p ((s.tables p there).1)

      pub page_new : IsUsed with_table (buffer / 4096) × (g.owned (buffer / 4096) ≡ false)
      page_new = (
        ground (arith, h.now (buffer / 4096)),
        elim (Bool-cases (g.owned (buffer / 4096))) [
          | inl mine ↦
              let used =
                owned-IsUsed pages m space.memory_list g.owned g.count g.element (buffer / 4096)
                  s.safe s.list mine in
              absurd (ground (arith, used.0, h.were_free (buffer / 4096)))
          | inr other ↦ other
        ],
      )

      page_level : g.level (buffer / 4096) ≡ 0
      page_level = elim (Bool-cases (g.level (buffer / 4096) == 0)) [
        | inl is ↦ ground (arith, is)
        | inr other ↦ absurd (ground (arith, page_unused (buffer / 4096) (ground (arith, other))))
      ]

      page_apart : (buffer / 4096 == q) ≡ false
      page_apart = ground (arith, page_level, at)

      cleared_entry :
          (j : ℕ) → j < 512 → (j == i) ≡ false → entry_of with_table.byte q j ≡ entry_of m.byte q j
      cleared_entry j small apart =
          load64-store64_apart (memset m.byte table 0 32768) (slot (page_address q) i) _
            (slot (page_address q) j) (ground (arith, apart, q_used.0))
          ∙ entry_same m.byte (memset m.byte table 0 32768) q j (q_used.0) small (λ x inside.
            rw
              (
                memset_lem m.byte table 0 32768 x,
                outside x q (q_used.0) inside (used_apart q (q_used.1)),
              )
              refl)

      cleared : (x : ℕ) → InPage (buffer / 4096) x → with_table.byte x ≡ 0
      cleared x inside =
          store64_other (memset m.byte table 0 32768) _ _ x
            (slot_apart x (buffer / 4096) (omega (arith, table_low)) inside page_apart)
          ∙ rw
              (
                memset_lem m.byte table 0 32768 x,
                inside_table x (buffer / 4096) inside (ground arith),
              )
              refl

      pub new_table : NewTable m.byte m'.byte g.level q i (buffer / 4096)
      new_table = record {
        gone = gone;
        others = λ p there apart x inside.
            let used = s.tables p there in
            let first = with_table-kept p (used.0) (used.1) apart in
            (a.kept p (used.0) (first.0) (used.2)).1 x inside ∙ first.1 x inside;
        old_entries = λ j small apart. entry_q j small ∙ cleared_entry j small apart;
        here = entry_q i lt ∙ load64-store64 _ _ _ ∙ (let small = table_low in omega (arith, made));
        zeroed = λ j small.
            entry_zero m'.byte (buffer / 4096) j (omega (arith, table_low)) small (λ x inside.
              let z = a.kept (buffer / 4096) (omega (arith, table_low)) (page_new.0) (page_new.1) in
              z.1 x inside ∙ cleared x inside);
        unused = page_level;
        small = omega (arith, table_low);
      }
