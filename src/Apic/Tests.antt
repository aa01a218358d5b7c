-- ===== src/Apic/Tests.antt =====
-- A local APIC whose registers are like memory.
use horizon.Common.{ℕ, refl, arith, false, [], ◌==◌, if◌then◌else◌}
use horizon.Apic.{Apic, apic_timer_init}
use horizon.Timer.{Pic}
use horizon.Apic.Laws.{apic_timer_init-StoppedTimer, StoppedTimer, IsMemory}

abbrev load : (ℕ → ℕ) → ℕ → ℕ
load d o = d o

abbrev store : (ℕ → ℕ) → ℕ → ℕ → ℕ → ℕ
store d o v q = if q == o then v else d q

abbrev apic : Apic (ℕ → ℕ)
apic = record {
  device = λ o. if o == 0x280 then 0x40 else if o == 0x390 then 0xfff0_0000 else 0;
  base = 0xffff_8000_fee0_0000;
  timer_enabled = false;
  base_frequency = 0;
  divisor = 0;
}

abbrev pic : Pic
pic = record { mask = 0; writes = [] }

store-IsMemory : (at : ℕ) → IsMemory load store at
store-IsMemory at = record {
  keeps = λ d v. ground arith;
  others = λ d o v apart. ground (arith, apart);
}

apic_timer_init-StoppedTimer_example :
    StoppedTimer load store (apic_timer_init load store (λ d. d) (λ q. 0) apic pic)
apic_timer_init-StoppedTimer_example =
    apic_timer_init-StoppedTimer load store (λ d. d) (λ q. 0) apic pic (store-IsMemory 0x380) refl
