-- ===== src/Timer/Tests.antt =====
-- The timer at its lowest frequency.
use horizon.Common.{refl, ◌≡◌}
use horizon.Timer.{pit_count}

-- The lowest frequency that the code accepts has a count of 17 bits.
pit_count_too_wide : pit_count 18 ≡ 66287
unfolding pit_count
pit_count_too_wide = refl
