-- ===== src/Hpet/Tests.antt =====
-- A timer of three comparators.
use horizon.Common.{refl, arith, true, none, some, ◌≡◌, ◌==◌, if◌then◌else◌}
use horizon.Pmm.{sys_ok, sys_err}
use horizon.Hpet.{hpet_init, Hpet, HpetSdt}
use horizon.Hpet.Laws.{hpet_init_lem, Outcome}

abbrev hpet : Hpet
hpet = record {
  mapped = true;
  registers = record {
    general_capabilities = 0x0098_9680_8086_a201;
    general_config = 0;
    main_counter_value = 0;
    timers = λ q. if q == 1 then 0x4034 else 0x8030;
  };
  num_hpet_comparators = 3;
  hpet_period = 0;
}

abbrev sdt : HpetSdt
sdt = record { comparator_count = 2 }

hpet_init_lem_example : Outcome true (hpet_init (some sdt) hpet)
hpet_init_lem_example = hpet_init_lem sdt hpet (omega arith)

-- A timer of eight comparators is refused.
eight_refused :
    (elim (hpet_init (some (record { comparator_count = 7 })) hpet) [
      | none ↦ sys_ok
      | some (h, s) ↦ s
    ])
    ≡ sys_err
unfolding hpet_init
eight_refused = refl
