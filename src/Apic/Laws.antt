-- ===== src/Apic/Laws.antt =====
-- The checks of the local APIC and what becomes of its timer.
use native.Mathlib.Nat.{div-eq_of_lt}
use horizon.Common.{
  ℕ, false, true, none, some, arith, ◌%◌, ◌^◌, ◌<◌, ◌≡◌, refl, inl, inr, Option, ◌==◌,
  if◌then◌else◌, Bool-cases, u32, ◌+◌, ◌*◌, ◌/◌, ◌∙◌, u64, ◌-◌, ap,
}
use horizon.Apic.{
  halted, passed, Apic, error_status_reg, init_count_reg, Check, apic_write_reg, apic_read_reg,
  check_bits, apic_check_error_reg, apic_timer_start, apic_timer_set_freq, apic_timer_set_mode,
  periodic_mode, lvt_tmr_reg, timer_masked, timer_periodic, set_bit, clear_bit,
  apic_reset_error_reg, apic_timer_enable, apic_timer_init, divide_config_reg, apic_timer_stop,
}
use horizon.Timer.{Pic}

module _ {D : Type 0} (load : D → ℕ → ℕ) (store : D → ℕ → ℕ → D) where
  -- The tests halt exactly when one of the bits is set.
  check_value : (v : ℕ) → check_bits load store 8 0 v ≡ (if v % 256 == 0 then passed else halted)
  unfolding check_bits
  check_value v =
      let low : v % 256
          ≡ v / 1 % 2
            + 2 * (v / 2 % 2)
            + 4 * (v / 4 % 2)
            + 8 * (v / 8 % 2)
            + 16 * (v / 16 % 2)
            + 32 * (v / 32 % 2)
            + 64 * (v / 64 % 2)
            + 128 * (v / 128 % 2) =
        omega arith in
      ground (arith, low)

  -- `apic_check_error_reg` halts if and only if one of the low eight bits of the error register is
  -- set, and passes otherwise; a register that cannot be read halts.
  pub apic_check_error_reg_lem :
      (a : Apic D)
      → apic_check_error_reg load store a
        ≡ (if apic_read_reg load store a error_status_reg % 256 == 0 then passed else halted)
  unfolding apic_check_error_reg
  apic_check_error_reg_lem a = check_value (apic_read_reg load store a error_status_reg)

  -- A register that keeps what is written and that no other write changes.
  pub record IsMemory (at : ℕ) : Type 0 where
    pub keeps : (d : D) (v : ℕ) → load (store d at v) at ≡ v
    pub others : (d : D) (o v : ℕ) → (o == at) ≡ false → load (store d o v) at ≡ load d at

  -- The initial count of a running timer.
  abbrev pub StoppedTimer : Option (Apic D × Pic × Check) → Type 0
  StoppedTimer none = Unit
  StoppedTimer (some (a, p, c)) = apic_read_reg load store a init_count_reg ≡ 0

  init_count_after :
      (a : Apic D) (o v : ℕ)
      → IsMemory init_count_reg
      → (o == init_count_reg) ≡ false
      → apic_read_reg load store (apic_write_reg load store a o v) init_count_reg
        ≡ apic_read_reg load store a init_count_reg
  unfolding apic_read_reg apic_write_reg
  init_count_after a o v m apart = elim (Bool-cases (a.base == 0)) [
    | inl null ↦ rw (null, null) refl
    | inr mapped ↦ rw (mapped, mapped) (m.others a.device o (u32 v) apart)
  ]

  -- Start and mode.
  started :
      (ports : ℕ → ℕ) (a : Apic D) (p : Pic)
      → IsMemory init_count_reg
      → apic_read_reg load store
          (apic_timer_start load store ports (apic_timer_set_mode load store a periodic_mode) p).0
          init_count_reg
        ≡ apic_read_reg load store a init_count_reg
  unfolding apic_timer_start apic_timer_set_mode apic_read_reg
  started ports a p m =
      init_count_after (apic_timer_set_mode load store a periodic_mode) lvt_tmr_reg
        (clear_bit timer_masked
          (apic_read_reg load store (apic_timer_set_mode load store a periodic_mode) lvt_tmr_reg))
        m (ground arith)
      ∙ init_count_after a lvt_tmr_reg
          (set_bit timer_periodic (apic_read_reg load store a lvt_tmr_reg)) m (ground arith)

  abbrev Stopped : Option (Apic D) → Type 0
  Stopped none = Unit
  Stopped (some a) = apic_read_reg load store a init_count_reg ≡ 0

  -- A frequency divided by four times itself.
  set_freq-Stopped :
      (a : Apic D)
      → IsMemory init_count_reg
      → (a.base == 0) ≡ false
      → a.divisor ≡ 4
      → a.base_frequency < 2 ^ 32
      → Stopped (apic_timer_set_freq load store a a.base_frequency)
  unfolding apic_timer_set_freq apic_write_reg apic_read_reg
  set_freq-Stopped a m mapped four low = elim (Bool-cases (a.base_frequency == 0)) [
    | inl is ↦
        let e : (u64 (a.base_frequency * 4) == 0) ≡ true = ground (arith, is) in rw (four, e) tt
    | inr other ↦
        let e : (u64 (a.base_frequency * 4) == 0) ≡ false = ground (arith, other, low) in
        let by : u64 (a.base_frequency * 4) ≡ a.base_frequency * 4 = omega (arith, low) in
        let none_left : a.base_frequency / u64 (a.base_frequency * 4) ≡ 0 =
          rw by (div-eq_of_lt (ground (arith, other))) in
        rw (four, e, none_left, mapped, mapped) (m.keeps a.device 0)
  ]

  follow :
      (ports : ℕ → ℕ) (p : Pic) (r : Option (Apic D))
      → IsMemory init_count_reg
      → Stopped r
      → StoppedTimer (elim r [
        | none ↦ none
        | some a5 ↦
            let s =
              apic_timer_start load store ports
                (apic_timer_set_mode load store a5 periodic_mode)
                p in
            some (s.0, s.1, apic_check_error_reg load store (s.0))
      ])
  follow ports p none m stopped = tt
  follow ports p (some a) m stopped = started ports a p m ∙ stopped

  same_settings :
      (a : Apic D) (o v : ℕ)
      → ((apic_write_reg load store a o v).base ≡ a.base)
        × ((apic_write_reg load store a o v).divisor ≡ a.divisor)
  unfolding apic_write_reg
  same_settings a o v = elim (Bool-cases (a.base == 0)) [
    | inl null ↦ rw null (refl, refl)
    | inr mapped ↦ rw mapped (refl, refl)
  ]

  enable_settings :
      (a : Apic D)
      → ((apic_timer_enable load store a).base ≡ a.base)
        × ((apic_timer_enable load store a).divisor ≡ a.divisor)
  unfolding apic_timer_enable
  enable_settings a =
      let a1 = apic_write_reg load store a lvt_tmr_reg (2 ^ 16 + 32) in
      let a2 = apic_write_reg load store a1 divide_config_reg 1 in
      let s1 = same_settings a lvt_tmr_reg (2 ^ 16 + 32) in
      let s2 = same_settings a1 divide_config_reg 1 in
      let s3 = same_settings a2 init_count_reg (2 ^ 32 - 1) in
      (s3.0 ∙ s2.0 ∙ s1.0, s3.1 ∙ s2.1 ∙ s1.1)

  -- For a local APIC that is mapped and whose initial count is a register like memory:
  -- `apic_timer_init` divides by 0, or it leaves the initial count at 0, which stops the timer.
  pub apic_timer_init-StoppedTimer :
      (wait : D → D) (ports : ℕ → ℕ) (a : Apic D) (p : Pic)
      → IsMemory init_count_reg
      → (a.base == 0) ≡ false
      → StoppedTimer (apic_timer_init load store wait ports a p)
  unfolding apic_timer_init apic_reset_error_reg
  apic_timer_init-StoppedTimer wait ports a p m mapped =
      let a0 = (apic_reset_error_reg load store a).0 in
      let a1 = record a0 { divisor = 4 } in
      let s = enable_settings a1 in
      let base = s.0 ∙ (same_settings a error_status_reg 1).0 in
      follow ports p _ m (set_freq-Stopped _ m (ap (λ x. x == 0) base ∙ mapped) (s.1) (omega arith))

  set_bit_clear :
      (value : ℕ)
      → clear_bit timer_masked (set_bit timer_masked value) ≡ clear_bit timer_masked value
  set_bit_clear value = ground arith

  read_written :
      (a : Apic D) (at v : ℕ)
      → IsMemory at
      → (a.base == 0) ≡ false
      → v < 2 ^ 32
      → apic_read_reg load store (apic_write_reg load store a at v) at ≡ v
  unfolding apic_read_reg apic_write_reg
  read_written a at v m mapped small =
      let e : u32 v ≡ v = omega (arith, small) in rw (mapped, mapped, e) (m.keeps a.device v)

  -- For a local APIC that is mapped and whose timer entry is a register like memory: starting the
  -- timer after stopping it gives the entry that it had, without the mask bit.
  pub apic_timer_start-apic_timer_stop :
      (ports : ℕ → ℕ) (a : Apic D) (p : Pic)
      → IsMemory lvt_tmr_reg
      → (a.base == 0) ≡ false
      → apic_read_reg load store a lvt_tmr_reg < 2 ^ 32
      → let stopped = apic_timer_stop load store a p in
        let s = apic_timer_start load store ports (stopped.0) (stopped.1) in
        (apic_read_reg load store (s.0) lvt_tmr_reg
          ≡ clear_bit timer_masked (apic_read_reg load store a lvt_tmr_reg))
        × ((s.0).timer_enabled ≡ true)
        × ((stopped.0).timer_enabled ≡ false)
  unfolding apic_timer_start apic_timer_stop apic_read_reg
  apic_timer_start-apic_timer_stop ports a p m mapped small =
      let entry : ℕ = apic_read_reg load store a lvt_tmr_reg in
      let masked : ℕ = set_bit timer_masked entry in
      let st : Apic D = (apic_timer_stop load store a p).0 in
      let base : (st.base == 0) ≡ false =
        ap (λ x. x == 0) ((same_settings a lvt_tmr_reg masked).0) ∙ mapped in
      let read : apic_read_reg load store st lvt_tmr_reg ≡ masked =
        read_written a lvt_tmr_reg masked m mapped (ground (arith, small)) in
      let clear : clear_bit timer_masked (apic_read_reg load store st lvt_tmr_reg)
          ≡ clear_bit timer_masked entry =
        ap (clear_bit timer_masked) read ∙ set_bit_clear entry in
      (
        read_written st lvt_tmr_reg
              (clear_bit timer_masked (apic_read_reg load store st lvt_tmr_reg)) m base
              (ground (arith, small, clear))
            ∙ clear,
        refl,
        refl,
      )
