-- ===== src/Lock.antt =====
-- kernel/src/common/lock.c: the lock, whose operations are assembly, as steps of processors that
-- share it. A step is one instruction on the lock with what the processor does up to the next one.
pub mod Laws
pub mod Tests
use horizon.Common.{ℕ, false, true, ◌≡◌, Bool, ◌==◌, if◌then◌else◌}

-- Where a processor is: outside, in the wait loop at label 1 on a set bit, past a clear bit, or
-- between `lock` and `unlock`.
pub data Place : Type 0 where
  outside waiting seen_clear inside : Place

-- Bit 0 of `lock`, the place of each processor, and the flag of interrupts of each, which `pushfq`
-- saves; `rflags` is what the holder's `pop` leaves in the structure.
pub record Cpus : Type 0 where
  pub lock : Bool
  pub rflags : Bool
  pub place : ℕ → Place
  pub interrupts : ℕ → Bool
  pub saved : ℕ → Bool

abbrev pub put : {A : Type 0} → (ℕ → A) → ℕ → A → ℕ → A
put f i a j = if j == i then a else f j

-- After `lock btsl` found the bit clear: the flags go to the structure, interrupts are off.
abbrev pub taken : Cpus → ℕ → Bool → Cpus
taken c i flags = record c {
  lock = true;
  rflags = flags;
  place = put c.place i inside;
  interrupts = put c.interrupts i false;
  saved = put c.saved i flags;
}

pub data Step : Cpus → Cpus → Type 0 where
  -- pushfq; cli; lock btsl; pop
  take :
      (c : Cpus) (i : ℕ)
      → c.place i ≡ outside
      → c.lock ≡ false
      → Step c (taken c i (c.interrupts i))
  -- pushfq; cli; lock btsl, with the bit set
  find_set :
      (c : Cpus) (i : ℕ)
      → c.place i ≡ outside
      → c.lock ≡ true
      → Step c (record c {
        place = put c.place i waiting;
        interrupts = put c.interrupts i false;
        saved = put c.saved i (c.interrupts i);
      })
  -- btl, with the bit clear
  see_clear :
      (c : Cpus) (i : ℕ)
      → c.place i ≡ waiting
      → c.lock ≡ false
      → Step c (record c { place = put c.place i seen_clear })
  -- btl, with the bit set
  see_set : (c : Cpus) (i : ℕ) → c.place i ≡ waiting → c.lock ≡ true → Step c c
  -- lock btsl; pop
  retake :
      (c : Cpus) (i : ℕ) → c.place i ≡ seen_clear → c.lock ≡ false → Step c (taken c i (c.saved i))
  -- lock btsl, with the bit set again
  lose :
      (c : Cpus) (i : ℕ)
      → c.place i ≡ seen_clear
      → c.lock ≡ true
      → Step c (record c { place = put c.place i waiting })
  -- push; lock btrl; popfq
  unlock :
      (c : Cpus) (i : ℕ)
      → c.place i ≡ inside
      → Step c (record c {
        lock = false;
        place = put c.place i outside;
        interrupts = put c.interrupts i c.rflags;
      })

-- The states that are reached from LOCK_NEW() with every processor outside.
pub data Reached : Cpus → Type 0 where
  start :
      (flags saved : ℕ → Bool)
      → Reached (record {
        lock = false;
        rflags = false;
        place = λ i. outside;
        interrupts = flags;
        saved = saved;
      })
  next : (c c' : Cpus) → Reached c → Step c c' → Reached c'
