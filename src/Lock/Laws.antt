-- ===== src/Lock/Laws.antt =====
-- Mutual exclusion, and what becomes of the flags.
use horizon.Common.{ℕ, false, true, arith, ◌≡◌, refl, subst, Bool}
use horizon.Lock.{
  outside, waiting, seen_clear, inside, take, find_set, see_clear, see_set, retake, lose, unlock,
  start, next, Cpus, taken, Step, Reached,
}

-- While a processor is inside, it is the only one, the bit is set, interrupts are off on it, and
-- the structure holds the flags that it had before.
pub record IsExclusive (c : Cpus) : Type 0 where
  pub only : (i j : ℕ) → c.place i ≡ inside → c.place j ≡ inside → i ≡ j
  pub bit : (i : ℕ) → c.place i ≡ inside → c.lock ≡ true
  pub off : (i : ℕ) → c.place i ≡ inside → c.interrupts i ≡ false
  pub flags : (i : ℕ) → c.place i ≡ inside → c.rflags ≡ c.saved i

outside-inside : outside ≡ inside → ⊥
outside-inside e =
    subst
      (λ p. elim p as (λ _. Type 0) [
        | outside ↦ Unit
        | waiting ↦ Unit
        | seen_clear ↦ Unit
        | inside ↦ ⊥
      ])
      e tt

taken-IsExclusive :
    (c : Cpus) (i : ℕ) (f : Bool) → IsExclusive c → c.lock ≡ false → IsExclusive (taken c i f)
taken-IsExclusive c i f x free = record {
  only = λ j k h h'. ground (arith, h, h', x.bit j, x.bit k, free);
  bit = λ j h. refl;
  off = λ j h. ground (arith, h, x.bit j, free);
  flags = λ j h. ground (arith, h, x.bit j, free);
}

pub Step-IsExclusive : {c c' : Cpus} → Step c c' → IsExclusive c → IsExclusive c'
Step-IsExclusive (take c i at free) x = taken-IsExclusive c i (c.interrupts i) x free
Step-IsExclusive (find_set c i at full) x = record {
  only = λ j k h h'. x.only j k (ground (arith, h)) (ground (arith, h'));
  bit = λ j h. x.bit j (ground (arith, h));
  off = λ j h. ground (arith, h, x.off j);
  flags = λ j h. ground (arith, h, x.flags j);
}
Step-IsExclusive (see_clear c i at free) x = record {
  only = λ j k h h'. x.only j k (ground (arith, h)) (ground (arith, h'));
  bit = λ j h. x.bit j (ground (arith, h));
  off = λ j h. ground (arith, h, x.off j);
  flags = λ j h. ground (arith, h, x.flags j);
}
Step-IsExclusive (see_set c i at full) x = x
Step-IsExclusive (retake c i at free) x = taken-IsExclusive c i (c.saved i) x free
Step-IsExclusive (lose c i at full) x = record {
  only = λ j k h h'. x.only j k (ground (arith, h)) (ground (arith, h'));
  bit = λ j h. x.bit j (ground (arith, h));
  off = λ j h. ground (arith, h, x.off j);
  flags = λ j h. ground (arith, h, x.flags j);
}
Step-IsExclusive (unlock c i at) x = record {
  only = λ j k h h'. ground (arith, h, h', x.only i j at, x.only i k at);
  bit = λ j h. absurd (ground (arith, h, x.only i j at));
  off = λ j h. absurd (ground (arith, h, x.only i j at));
  flags = λ j h. absurd (ground (arith, h, x.only i j at));
}

-- However the steps of the processors interleave: at most one is between `lock` and `unlock`; while
-- one is, the bit is set, interrupts are off on it, and the structure holds the flag that it had
-- when it came, which `unlock` gives back.
pub Reached-IsExclusive : {c : Cpus} → Reached c → IsExclusive c
Reached-IsExclusive (start flags saved) = record {
  only = λ i j h h'. absurd (outside-inside h);
  bit = λ i h. absurd (outside-inside h);
  off = λ i h. absurd (outside-inside h);
  flags = λ i h. absurd (outside-inside h);
}
Reached-IsExclusive (next c c' r s) = Step-IsExclusive s (Reached-IsExclusive r)
