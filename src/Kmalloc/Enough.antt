-- ===== src/Kmalloc/Enough.antt =====
-- When `kmalloc` does not halt.
use horizon.Pmm.{out_of_memory, num_pages, Status, pm_allocate, pm_get}
use horizon.Common.{ℕ, arith, ◌+◌, ◌*◌, ◌/◌, ◌^◌, ◌<◌, ◌≡◌, sym, subst, ◌∙◌}
use horizon.Kmalloc.{ok, halted, no_fuel, Machine, Run, kmalloc_impl}
use horizon.Pmm.{sys_ok, sys_err}
use horizon.Pmm.Valid.{pm_allocate-ok_iff}
use horizon.Pmm.Get.{pm_get-FirstFit, FirstFit}
use horizon.Kmalloc.Frame.{kmalloc_impl-Fresh, IsSafe, Fresh, KmallocedFresh}
use horizon.Kmalloc.Laws.{kmalloc_impl-Kmalloced, Kmalloced}
use horizon.Pmm.Scan.{Fits, AllFree}

-- A run that returns a fresh block.
abbrev pub Returns : ℕ → Machine → ℕ → Run ℕ → Type 0
Returns pages m size (ok p m') = Fresh pages m size p m'
Returns pages m size halted = ⊥
Returns pages m size no_fuel = ⊥

module _ (pages : ℕ) (m : Machine) (size b : ℕ) (s : IsSafe pages m) (small : size < 2 ^ 50)
    (below : b * 4096 < m.kmem.physical_limit)
    (room : AllFree m.kmem.bitmap b (num_pages size + 1)) where
  not_refused :
      (r : Status) → (pm_allocate m.kmem (b * 4096) (num_pages size + 1)).1 ≡ r → r ≡ sys_ok
  not_refused r e =
      let fits : Fits (b * 4096) (num_pages size + 1) = omega (arith, below, s.limit, small) in
      let at : b * 4096 / 4096 ≡ b = omega arith in
      sym e
      ∙ (pm_allocate-ok_iff m.kmem (b * 4096) (num_pages size + 1) fits).1
          (λ q lo hi. room q (omega (arith, lo)) (omega (arith, hi)))

  status_apart : sys_err ≡ sys_ok → ⊥
  status_apart e = subst (λ x. elim x as (λ _. Type 0) [ sys_ok ↦ ⊥ | sys_err ↦ Unit ]) e tt

  not_out_of_memory : ¬ (pm_get m.kmem (num_pages size + 1) 0 ≡ out_of_memory)
  not_out_of_memory e =
      let refused : FirstFit m.kmem (num_pages size + 1) 0 out_of_memory =
        subst (FirstFit m.kmem (num_pages size + 1) 0) e
          (pm_get-FirstFit m.kmem (num_pages size + 1) 0 (omega (arith, s.limit))) in
      status_apart (not_refused sys_err (refused (b * 4096) (omega arith, omega arith) below))

  returns :
      (r : Run ℕ) → Kmalloced m size r → KmallocedFresh pages m size r → Returns pages m size r
  returns (ok p m') k f = f
  returns halted k f = not_out_of_memory k
  returns no_fuel k f = f

  -- On a safe machine, `kmalloc` returns a fresh block whenever somewhere below the limit the pages
  -- of the size and one more are free in a row.
  pub kmalloc_impl-Returns : (func line : ℕ) → Returns pages m size (kmalloc_impl m size func line)
  kmalloc_impl-Returns func line =
      returns (kmalloc_impl m size func line)
        (kmalloc_impl-Kmalloced m size func line (omega (arith, small)))
        (kmalloc_impl-Fresh pages m size func line s small)
