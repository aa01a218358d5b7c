-- ===== src/Vmm/NextTable.antt =====
-- One level down in an address space.
use horizon.Pmm.{Got, got, out_of_memory, out_of_fuel, KernelMemInfo, pm_get, Got}
use horizon.Kmalloc.Frame.{pm_get-Handed, Handed}
use horizon.Pmm.Get.{pm_get-FirstFit, FirstFit}
use horizon.Vmm.Fresh.{
  with_table-IsSafe, with_table-vector, with_table, page_new, new_table, with_table-kept,
}
use horizon.Vmm.Listed.{listed-Tabled}
use horizon.Vector.Append.{vector_append-Appended}
use horizon.Vmm.Laws.{next_table-present}
use horizon.Common.{
  ℕ, suc, inl, inr, false, true, refl, arith, ◌<◌, ◌≡◌, ◌/◌, subst, [], ◌∷◌, ◌==◌, Bool-cases, sym,
}
use horizon.Kmalloc.{ok, halted, no_fuel, Machine, Run}
use horizon.Vmm.{slot, next_table, not_present, AddrSpace}
use horizon.Vmm.Space.{IsAddrSpace, Layout, Confined-refl}
use horizon.Vmm.Lookup.{child, entry_of}
use horizon.Vmm.Tabled.{TabledRun, Tabled}
use horizon.Kmalloc.Frame.{page_address}
use horizon.Vector.{Vector, bind_run, vector_append}
use horizon.Vector.Laws.{AppendedRun}
use horizon.Pmm.Init.{phys_to_virt, virt_to_phys}

module _ (pages : ℕ) (m : Machine) (space : AddrSpace) (g : Layout) (q l i func line : ℕ)
    (s : IsAddrSpace pages m space g) (at : g.level q ≡ suc (suc l)) (lt : i < 512) where
  present-Tabled :
      not_present (entry_of m.byte q i) ≡ false
      → TabledRun pages m space g q l i (next_table m space (slot (page_address q) i) func line)
  present-Tabled there =
      let t = s.tree q l i at lt there in
      rw (next_table-present m space (slot (page_address q) i) func line (t.0)) (record {
        g' = g;
        state = s;
        same_root = (refl, refl);
        page = child (entry_of m.byte q i);
        table_at = refl;
        table = (t.1, t.2);
        entry = (t.0, refl);
        grown = λ p used. (refl, refl);
        kept = λ p k j a b c. refl;
        confined = Confined-refl m g;
        lookups = λ v low. refl;
      })

  listed_outcome :
      (buffer : ℕ) (k : KernelMemInfo) (h : Handed pages m.kmem k 8 buffer) (r : Run Vector)
      → not_present (entry_of m.byte q i) ≡ true
      → AppendedRun pages
          (with_table pages m space g q l i s at lt buffer k h)
          g.owned
          g.count
          g.element
          (virt_to_phys (phys_to_virt buffer))
          r
      → TabledRun pages m space g q l i
          (bind_run r (λ list m'. ok (phys_to_virt buffer, record space { memory_list = list }) m'))
  unfolding bind_run
  listed_outcome buffer k h (ok list m') gone a =
      let page_at : phys_to_virt buffer ≡ page_address (buffer / 4096) = omega (arith, h.aligned) in
      rw page_at (
        listed-Tabled pages m (with_table pages m space g q l i s at lt buffer k h) space g q l i
          (buffer / 4096) (virt_to_phys (phys_to_virt buffer)) s at
          (λ p used. ground (arith, h.now p, h.were_free p, used))
          (λ p low used apart.
            (with_table-kept pages m space g q l i s at lt buffer k h p low used apart).1)
          (h.were_free (buffer / 4096) (ground arith))
          (
            omega (arith, h.inside, s.safe.few),
            (page_new pages m space g q l i s at lt buffer k h list m' a gone).0,
            (page_new pages m space g q l i s at lt buffer k h list m' a gone).1,
          )
          list m' a (new_table pages m space g q l i s at lt buffer k h list m' a gone))
  listed_outcome buffer k h halted gone a = tt
  listed_outcome buffer k h no_fuel gone a = a

  absent-Tabled :
      (r : Got)
      → not_present (entry_of m.byte q i) ≡ true
      → pm_get m.kmem 8 0 ≡ r
      → TabledRun pages m space g q l i (next_table m space (slot (page_address q) i) func line)
  unfolding next_table
  absent-Tabled (got buffer k) gone e =
      let h =
        pm_get-Handed pages m.kmem k 8 buffer s.safe.valid s.safe.limit (omega arith) (omega arith)
          e in
      elim (Bool-cases (buffer == 0)) [
        | inl null ↦ rw (gone, e, null) tt
        | inr other ↦
            rw (gone, e, other)
              (listed_outcome buffer k h
                (vector_append (with_table pages m space g q l i s at lt buffer k h)
                  space.memory_list 8 (virt_to_phys (phys_to_virt buffer) ∷ []) func line)
                gone
                (vector_append-Appended pages (with_table pages m space g q l i s at lt buffer k h)
                  space.memory_list g.owned g.count g.element (virt_to_phys (phys_to_virt buffer))
                  func line (with_table-IsSafe pages m space g q l i s at lt buffer k h)
                  (with_table-vector pages m space g q l i s at lt buffer k h)))
      ]
  absent-Tabled out_of_memory gone e = rw (gone, e) tt
  absent-Tabled out_of_fuel gone e =
      absurd
        (subst (FirstFit m.kmem 8 0) e (pm_get-FirstFit m.kmem 8 0 (omega (arith, s.safe.limit))))

  -- One step down in an address space finds or makes the table that the entry names, with every
  -- walk as before; or the system halts.
  pub next_table-Tabled :
      TabledRun pages m space g q l i (next_table m space (slot (page_address q) i) func line)
  next_table-Tabled = elim (Bool-cases (not_present (entry_of m.byte q i))) [
    | inl gone ↦ absent-Tabled (pm_get m.kmem 8 0) gone refl
    | inr there ↦ present-Tabled there
  ]

  pub next_table_at :
      (a : ℕ)
      → a ≡ page_address q
      → TabledRun pages m space g q l i (next_table m space (slot a i) func line)
  next_table_at a e =
      subst (λ x. TabledRun pages m space g q l i (next_table m space (slot x i) func line)) (sym e)
        next_table-Tabled

-- What follows a step down.
pub tabled_bind :
    {A : Type 0} (Q : Run A → Type 0) (pages : ℕ) (m : Machine) (space : AddrSpace) (g : Layout)
    (q l i : ℕ) (r : Run (ℕ × AddrSpace)) (next : ℕ × AddrSpace → Machine → Run A)
    → TabledRun pages m space g q l i r
    → ((t : ℕ) (space' : AddrSpace) (m' : Machine)
        → Tabled pages m space g q l i t space' m'
        → Q (next (t, space') m'))
    → Q halted
    → Q (bind_run r next)
unfolding bind_run
tabled_bind Q pages m space g q l i (ok (t, space') m') next z follow stop = follow t space' m' z
tabled_bind Q pages m space g q l i halted next z follow stop = stop
tabled_bind Q pages m space g q l i no_fuel next z follow stop = absurd z
