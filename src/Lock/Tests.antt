-- ===== src/Lock/Tests.antt =====
-- Two processors: processor 1 takes the lock, and processor 2 waits for it.
use horizon.Common.{refl, true, false}
use horizon.Lock.{outside, waiting, take, find_set, start, next, Cpus, put, taken, Reached}
use horizon.Lock.Laws.{Reached-IsExclusive, IsExclusive}

abbrev idle : Cpus
idle = record {
  lock = false;
  rflags = false;
  place = λ i. outside;
  interrupts = λ i. true;
  saved = λ i. false;
}

abbrev held : Cpus
held = taken idle 1 true

abbrev contended : Cpus
contended = record held {
  place = put held.place 2 waiting;
  interrupts = put held.interrupts 2 false;
  saved = put held.saved 2 true;
}

contended-Reached : Reached contended
contended-Reached =
    next held contended (next idle held (start (λ i. true) (λ i. false)) (take idle 1 refl refl))
      (find_set held 2 refl refl)

Reached-IsExclusive_example : IsExclusive contended
Reached-IsExclusive_example = Reached-IsExclusive contended-Reached
