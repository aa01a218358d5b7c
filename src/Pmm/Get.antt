-- ===== src/Pmm/Get.antt =====
-- `pm_get`: a first-fit search.
use horizon.Common.{
  ℕ, ◌+◌, ◌-◌, ◌*◌, ◌%◌, ◌^◌, ◌≤◌, ◌<◌, ◌≡◌, zero, suc, refl, ◌⊎◌, inl, inr, arith, ltb, ◌==◌,
  if◌then◌else◌, ltb→lt, ==_iff, Bool-cases, u64, ◌/◌, subst,
}
use horizon.Pmm.{
  KernelMemInfo, pm_allocate, Got, pm_get_loop, sys_ok, sys_err, got, out_of_memory, out_of_fuel,
  Status, pm_get,
}

-- The addresses that the search from `i` tries: whole pages away.
abbrev pub Tried : ℕ → ℕ → Type 0
Tried i b = (i ≤ b) × ((b - i) % 4096 ≡ 0)

-- The request is refused at every address that is tried below `a`.
abbrev pub Refused : KernelMemInfo → ℕ → ℕ → ℕ → Type 0
Refused k n i a = (b : ℕ) → Tried i b → b < a → (pm_allocate k b n).1 ≡ sys_err

-- What a search from `i` may come to.
abbrev pub FirstFit : KernelMemInfo → ℕ → ℕ → Got → Type 0
FirstFit k n i (got a k') =
    Tried i a × (a < k.physical_limit) × (pm_allocate k a n ≡ (k', sys_ok)) × Refused k n i a
FirstFit k n i out_of_memory = Refused k n i k.physical_limit
FirstFit k n i out_of_fuel = ⊥

Status-cases : (s : Status) → (s ≡ sys_ok) ⊎ (s ≡ sys_err)
Status-cases sys_ok = inl refl
Status-cases sys_err = inr refl

Refused-next :
    (k : KernelMemInfo) (n i a : ℕ)
    → (pm_allocate k i n).1 ≡ sys_err
    → Refused k n (i + 4096) a
    → Refused k n i a
Refused-next k n i a e refused b tried below = elim (Bool-cases (b == i)) [
  | inl at ↦ rw ((==_iff b i).0 at) e
  | inr off ↦ refused b (ground arith, ground arith) below
]

FirstFit-next :
    (k : KernelMemInfo) (n i : ℕ) (g : Got)
    → (pm_allocate k i n).1 ≡ sys_err
    → FirstFit k n (i + 4096) g
    → FirstFit k n i g
FirstFit-next k n i (got a k') e (tried, below, ok, refused) =
    ((omega arith, omega arith), below, ok, Refused-next k n i a e refused)
FirstFit-next k n i out_of_memory e refused = Refused-next k n i k.physical_limit e refused
FirstFit-next k n i out_of_fuel e h = h

-- The round in which the search stops, whatever the later rounds would give.
pm_get_step :
    (k : KernelMemInfo) (n i : ℕ) (rest : Got)
    → (i < k.physical_limit → FirstFit k n (i + 4096) rest)
    → FirstFit k n i (
        if ltb i k.physical_limit
        then elim ((pm_allocate k i n).1) [ sys_ok ↦ got i (pm_allocate k i n).0 | sys_err ↦ rest ]
        else out_of_memory)
pm_get_step k n i rest next = elim (Bool-cases (ltb i k.physical_limit)) [
  | inl more ↦ rw more (elim (Status-cases (pm_allocate k i n).1) [
    | inl ok ↦ rw ok (
      (omega arith, omega arith),
      ltb→lt i k.physical_limit more,
      ground arith,
      λ b t below. absurd (omega arith),
    )
    | inr err ↦ rw err (FirstFit-next k n i rest err (next (ltb→lt i k.physical_limit more)))
  ])
  | inr done ↦ rw done (λ b t below. absurd (ground arith))
]

pm_get_loop-FirstFit :
    (fuel : ℕ) (k : KernelMemInfo) (n i : ℕ)
    → k.physical_limit + 4096 ≤ 2 ^ 64
    → k.physical_limit ≤ i + 4096 * fuel
    → FirstFit k n i (pm_get_loop (suc fuel) k n i)
unfolding pm_get_loop
pm_get_loop-FirstFit zero k n i small enough = pm_get_step k n i _ (λ h. absurd (omega arith))
pm_get_loop-FirstFit (suc fuel) k n i small enough =
    pm_get_step k n i (pm_get_loop (suc fuel) k n (u64 (i + 4096))) (λ h.
      let e : i + 4096 ≡ u64 (i + 4096) = omega arith in
      subst (λ x. FirstFit k n (i + 4096) (pm_get_loop (suc fuel) k n x)) e
        (pm_get_loop-FirstFit fuel k n (i + 4096) small (omega arith)))

-- If the last page below the limit does not end past the address space, `pm_get` ends within its
-- fuel. It gives the lowest of the addresses it tries (`address`, and whole pages above it, below
-- the limit) at which `pm_allocate` succeeds, with the state that `pm_allocate` leaves; it runs out
-- of memory only if all of them are refused.
pub pm_get-FirstFit :
    (k : KernelMemInfo) (n address : ℕ)
    → k.physical_limit + 4096 ≤ 2 ^ 64
    → FirstFit k n address (pm_get k n address)
unfolding pm_get
pm_get-FirstFit k n address small =
    let e : suc (k.physical_limit / 4096 + 1) ≡ k.physical_limit / 4096 + 2 = omega arith in
    subst (λ f. FirstFit k n address (pm_get_loop f k n address)) e
      (pm_get_loop-FirstFit (k.physical_limit / 4096 + 1) k n address small (omega arith))
