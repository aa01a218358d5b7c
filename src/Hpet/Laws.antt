-- ===== src/Hpet/Laws.antt =====
-- What `hpet_init` leaves.
use horizon.Common.{
  ℕ, zero, suc, false, true, none, some, inl, inr, arith, ◌+◌, ◌≤◌, ◌<◌, ◌≡◌, ◌∙◌, ◌&&◌, ◌||◌, ltb,
  leb, ◌==◌, if◌then◌else◌, Bool-cases, ◌/◌, ◌^◌, Bool, not, Option, refl,
}
use horizon.Pmm.{sys_ok, sys_err, Status}
use horizon.Hpet.{
  has_bit, Hpet, reset_timer, reset_loop, hpet_reset_comparators, HpetSdt, num_comparator_check,
  hpet_init, hpet_enable,
}

reset_loop_lem :
    (left i q : ℕ) (timers : ℕ → ℕ)
    → reset_loop left i timers q
      ≡ (if leb i q && ltb q (i + left) then reset_timer (timers q) else timers q)
unfolding reset_loop
reset_loop_lem zero i q timers = ground arith
reset_loop_lem (suc left) i q timers =
    let rest =
      reset_loop_lem left (i + 1) q (λ p. if p == i then reset_timer (timers i) else timers p) in
    elim (Bool-cases (q == i)) [
      | inl is ↦ let e : q ≡ i = ground (arith, is) in rest ∙ rw e (ground arith)
      | inr other ↦ rest ∙ ground (arith, other)
    ]

-- What `hpet_init` is to come to: enabled with every counted comparator off, or an error with no
-- timer left in use.
abbrev pub Outcome : Bool → Option (Hpet × Status) → Type 0
Outcome ready none = ⊥
Outcome ready (some (h, sys_ok)) =
    (ready ≡ true)
    × (h.mapped ≡ true)
    × (has_bit 0 h.registers.general_config ≡ true)
    × ((q : ℕ) → q < h.num_hpet_comparators → has_bit 2 (h.registers.timers q) ≡ false)
Outcome ready (some (h, sys_err)) = (ready ≡ false) × (h.mapped ≡ false)

-- `hpet_reset_comparators` of a mapped timer turns the interrupts and the FSB mapping of all its
-- comparators off, and leaves the registers of the comparators that had both off, and of those that
-- are not counted, as they were.
pub hpet_reset_comparators_lem :
    (h : Hpet) (q : ℕ)
    → h.mapped ≡ true
    → let after = (hpet_reset_comparators h).0.registers.timers q in
      let before = h.registers.timers q in
      (q < h.num_hpet_comparators → (has_bit 14 after ≡ false) × (has_bit 2 after ≡ false))
      × ((has_bit 14 before || has_bit 2 before) ≡ false → after ≡ before)
      × (h.num_hpet_comparators ≤ q → after ≡ before)
unfolding hpet_reset_comparators reset_timer
hpet_reset_comparators_lem h q mapped =
    let e = reset_loop_lem h.num_hpet_comparators 0 q h.registers.timers in
    rw (mapped, e)
      (
        λ lt. (ground (arith, lt), ground (arith, lt)),
        λ off. ground (arith, off),
        λ out. ground (arith, out),
      )

enabled :
    (h : Hpet) (sdt : HpetSdt) (period : ℕ)
    → let counted = record h { mapped = true; num_hpet_comparators = sdt.comparator_count + 1 } in
      Outcome true (
        some (
          hpet_enable (record ((hpet_reset_comparators counted).0) { hpet_period = period }),
          sys_ok,
        ))
unfolding hpet_enable hpet_reset_comparators reset_timer
enabled h sdt period = (
  refl,
  refl,
  ground arith,
  λ q lt.
      rw (reset_loop_lem (sdt.comparator_count + 1) 0 q h.registers.timers) (ground (arith, lt)),
)

-- For a table that is found and a period above 0, `hpet_init` succeeds if and only if the legacy
-- replacement is there and the number of comparators is not from 4 to 31; it then leaves the timer
-- enabled and the interrupts of every counted comparator off. Otherwise it gives an error and
-- `hpet` is NULL.
pub hpet_init_lem :
    (sdt : HpetSdt) (h : Hpet)
    → 0 < h.registers.general_capabilities / 2 ^ 32
    → let ready =
        has_bit 15 h.registers.general_capabilities
        && not (num_comparator_check (sdt.comparator_count + 1)) in
      Outcome ready (hpet_init (some sdt) h)
unfolding hpet_init
hpet_init_lem sdt h running =
    let some_period : (h.registers.general_capabilities / 2 ^ 32 == 0) ≡ false =
      ground (arith, running) in
    elim (Bool-cases (has_bit 15 h.registers.general_capabilities)) [
      | inl legacy ↦ elim (Bool-cases (num_comparator_check (sdt.comparator_count + 1))) [
        | inl refused ↦ rw (legacy, refused) (refl, refl)
        | inr accepted ↦
            rw (legacy, accepted, some_period)
              (enabled h sdt (h.registers.general_capabilities / 2 ^ 32 / 1000000))
      ]
      | inr plain ↦ rw plain (refl, refl)
    ]
