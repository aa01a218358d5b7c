-- ===== src/Interrupts/Laws.antt =====
-- The handlers after the initialization, and the clock that they keep.
use horizon.Common.{
  ℕ, zero, suc, none, some, [], ◌∷◌, List, Bool, true, false, inl, inr, ◌+◌, ◌-◌, ◌^◌, ◌≤◌, ◌<◌,
  ◌≡◌, ◌≢◌, ◌∙◌, ◌==◌, refl, Option, arith, if◌then◌else◌, u64, sym, ap, subst, Bool-cases,
}
use horizon.Timer.{Pic, Write, pic_probe}
use horizon.Interrupts.{
  clock_tick, other_irq, irq_dispatch, irq_register_handler, irq_handler, isr_register_handler,
  irq_init, clkhandler, register_irqs, Kernel, isr_handler, serve_irq, serve_isr, IrqHandler,
  IrqState,
}
use horizon.Memory.Laws.{within}

register_irqs-isr :
    (left i : ℕ) (k : Kernel) (v : ℕ)
    → (register_irqs left i k).isr_handlers v
      ≡ (if within (0x20 + i) left v then some irq_dispatch else k.isr_handlers v)
unfolding register_irqs isr_register_handler
register_irqs-isr zero i k v = ground arith
register_irqs-isr (suc left) i k v =
    ground
      (arith, register_irqs-isr left (i + 1) (isr_register_handler k (0x20 + i) irq_dispatch) v)

register_irqs-irq :
    (left i : ℕ) (k : Kernel)
    → ((register_irqs left i k).irq_handlers ≡ k.irq_handlers)
      × ((register_irqs left i k).system_time ≡ k.system_time)
      × ((register_irqs left i k).preempt_quantum ≡ k.preempt_quantum)
unfolding register_irqs isr_register_handler
register_irqs-irq zero i k = (refl, refl, refl)
register_irqs-irq (suc left) i k =
    register_irqs-irq left (i + 1) (isr_register_handler k (0x20 + i) irq_dispatch)

-- The state after an interrupt from each of the listed lines, if the system does not hang.
unfoldable pub serve_lines : (ℕ → Kernel → Kernel) → List ℕ → Kernel → Option Kernel
serve_lines run [] k = some k
serve_lines run (line ∷ lines) k = elim (isr_handler run k (0x20 + line)) [
  | none ↦ none
  | some k' ↦ serve_lines run lines k'
]

-- How many of the lines are line 0.
unfoldable pub ticks : List ℕ → ℕ
ticks [] = 0
ticks (line ∷ lines) = (if line == 0 then 1 else 0) + ticks lines

abbrev pub AllLines : List ℕ → Type 0
AllLines [] = Unit
AllLines (line ∷ lines) = (line < 16) × AllLines lines

-- The handlers of other modules leave the tables of handlers and the clock alone.
pub record KeepsClock (run : ℕ → Kernel → Kernel) : Type 0 where
  pub isr_kept : (h : ℕ) (k : Kernel) → (run h k).isr_handlers ≡ k.isr_handlers
  pub irq_kept : (h : ℕ) (k : Kernel) → (run h k).irq_handlers ≡ k.irq_handlers
  pub time_kept : (h : ℕ) (k : Kernel) → (run h k).system_time ≡ k.system_time
  pub quantum_kept : (h : ℕ) (k : Kernel) → (run h k).preempt_quantum ≡ k.preempt_quantum

-- Every line is dispatched, and line 0 alone leads to the clock, which is in its range.
record Ticking (k : Kernel) : Type 0 where
  dispatched : (line : ℕ) → line < 16 → k.isr_handlers (0x20 + line) ≡ some irq_dispatch
  clock : k.irq_handlers 0 ≡ some clock_tick
  others : (line : ℕ) → line ≢ 0 → k.irq_handlers line ≢ some clock_tick
  time_lt : k.system_time < 2 ^ 64
  quantum_pos : 1 ≤ k.preempt_quantum
  quantum_le : k.preempt_quantum ≤ 5

-- A clock that has counted `n` ticks from `start` on, with a quantum in its range.
abbrev pub Counted : ℕ → ℕ → Option Kernel → Type 0
Counted n start none = ⊥
Counted n start (some k') =
    (k'.system_time ≡ u64 (start + n)) × (1 ≤ k'.preempt_quantum) × (k'.preempt_quantum ≤ 5)

Counted-next :
    (a n start : ℕ) (r : Option Kernel) → Counted n (u64 (start + a)) r → Counted (a + n) start r
Counted-next a n start none c = c
Counted-next a n start (some k') c = (omega (arith, c.0), c.1, c.2)

abbrev Ticked : Kernel → ℕ → Kernel → Type 0
Ticked k line k' =
    Ticking k' × (k'.system_time ≡ u64 (k.system_time + (if line == 0 then 1 else 0)))

clkhandler-Ticking : (k : Kernel) → Ticking k → Ticking (clkhandler k)
unfolding clkhandler
clkhandler-Ticking k t = record {
  dispatched = t.dispatched;
  clock = t.clock;
  others = t.others;
  time_lt = omega arith;
  quantum_pos = ground (arith, t.quantum_pos, t.quantum_le);
  quantum_le = ground (arith, t.quantum_pos, t.quantum_le);
}

run-Ticking :
    (run : ℕ → Kernel → Kernel) (h : ℕ) (k : Kernel)
    → KeepsClock run
    → Ticking k
    → Ticking (run h k)
run-Ticking run h k keeps t = record {
  dispatched = λ line lt. ap (λ f. f (0x20 + line)) (keeps.isr_kept h k) ∙ t.dispatched line lt;
  clock = ap (λ f. f 0) (keeps.irq_kept h k) ∙ t.clock;
  others = λ line other.
      subst (λ f. f line ≢ some clock_tick) (sym (keeps.irq_kept h k)) (t.others line other);
  time_lt = omega (arith, keeps.time_kept h k, t.time_lt);
  quantum_pos = omega (arith, keeps.quantum_kept h k, t.quantum_pos);
  quantum_le = omega (arith, keeps.quantum_kept h k, t.quantum_le);
}

-- Only line 0 has the clock's handler, and it has no other.
line_of_clock :
    (k : Kernel) (line : ℕ) → Ticking k → k.irq_handlers line ≡ some clock_tick → line ≡ 0
line_of_clock k line t e = elim (Bool-cases (line == 0)) [
  | inl zeroth ↦ ground arith
  | inr other ↦ absurd (t.others line (ground arith) e)
]

line_of_other :
    (k : Kernel) (line : ℕ) → Ticking k → k.irq_handlers line ≢ some clock_tick → line ≢ 0
line_of_other k line t differs e =
    differs (subst (λ n. k.irq_handlers n ≡ some clock_tick) (sym e) t.clock)

serve_irq-Ticked :
    (run : ℕ → Kernel → Kernel) (k : Kernel) (line : ℕ) (h : Option IrqHandler)
    → KeepsClock run
    → Ticking k
    → k.irq_handlers line ≡ h
    → Ticked k line (serve_irq run k h)
unfolding serve_irq
serve_irq-Ticked run k line none keeps t e =
    let other : line ≢ 0 = line_of_other k line t (λ c. absurd (ground (arith, c, e))) in
    (t, ground (arith, t.time_lt))
serve_irq-Ticked run k line (some clock_tick) keeps t e =
    let zeroth : line ≡ 0 = line_of_clock k line t e in
    (clkhandler-Ticking k t, unfold clkhandler in ground arith)
serve_irq-Ticked run k line (some (other_irq h)) keeps t e =
    let other : line ≢ 0 = line_of_other k line t (λ c. absurd (ground (arith, c, e))) in
    (run-Ticking run h k keeps t, ground (arith, keeps.time_kept h k, t.time_lt))

isr_handler-line :
    (run : ℕ → Kernel → Kernel) (k : Kernel) (line : ℕ)
    → Ticking k
    → line < 16
    → isr_handler run k (0x20 + line) ≡ some (serve_irq run k (k.irq_handlers line))
unfolding isr_handler irq_handler serve_isr
isr_handler-line run k line t lt =
    let at : 0x20 + line - 0x20 ≡ line = omega arith in
    subst (λ h. serve_isr run k (0x20 + line) h ≡ some (serve_irq run k (k.irq_handlers line)))
      (sym (t.dispatched line lt)) (ap (λ n. some (serve_irq run k (k.irq_handlers n))) at)

serve_lines-Counted :
    (run : ℕ → Kernel → Kernel) (lines : List ℕ) (k : Kernel)
    → KeepsClock run
    → Ticking k
    → AllLines lines
    → Counted (ticks lines) k.system_time (serve_lines run lines k)
unfolding serve_lines ticks
serve_lines-Counted run [] k keeps t all = (omega (arith, t.time_lt), t.quantum_pos, t.quantum_le)
serve_lines-Counted run (line ∷ lines) k keeps t all =
    let k1 : Kernel = serve_irq run k (k.irq_handlers line) in
    let served : Ticked k line k1 =
      serve_irq-Ticked run k line (k.irq_handlers line) keeps t refl in
    let rest = serve_lines-Counted run lines k1 keeps served.0 all.1 in
    subst
      (λ r.
        Counted (ticks (line ∷ lines)) k.system_time
          (elim r [ none ↦ none | some k' ↦ serve_lines run lines k' ]))
      (sym (isr_handler-line run k line t all.0))
      (Counted-next (if line == 0 then 1 else 0) (ticks lines) k.system_time
        (serve_lines run lines k1)
        (subst (λ start. Counted (ticks lines) start (serve_lines run lines k1)) served.1 rest))

registered-Ticking :
    (k : Kernel)
    → ((line : ℕ) → k.irq_handlers line ≢ some clock_tick)
    → k.system_time < 2 ^ 64
    → 1 ≤ k.preempt_quantum
    → k.preempt_quantum ≤ 5
    → Ticking (register_irqs 16 0 (irq_register_handler k 0 clock_tick))
unfolding irq_register_handler
registered-Ticking k fresh small lo hi =
    let k0 : Kernel = irq_register_handler k 0 clock_tick in
    let kept = register_irqs-irq 16 0 k0 in
    record {
      dispatched = λ line lt. ground (arith, register_irqs-isr 16 0 k0 (0x20 + line));
      clock = ap (λ h. h 0) kept.0;
      others = λ line other.
          subst (λ f. f line ≢ some clock_tick) (sym kept.0)
            (subst (λ b. (if b then some clock_tick else k.irq_handlers line) ≢ some clock_tick)
              (sym (not_zero line other)) (fresh line));
      time_lt = omega (arith, kept.1);
      quantum_pos = omega (arith, kept.2);
      quantum_le = omega (arith, kept.2);
    }
  where
    not_zero : (line : ℕ) → line ≢ 0 → (line == 0) ≡ false
    not_zero line other = ground (arith, other)

-- What `irq_init` is to come to, by what the probe has found.
abbrev pub Initialised : Bool → (ℕ → Kernel → Kernel) → List ℕ → Kernel → IrqState → Type 0
Initialised true run lines k s =
    (s.interrupts ≡ true) × Counted (ticks lines) k.system_time (serve_lines run lines s.kernel)
Initialised false run lines k s = (s.interrupts ≡ false) × (s.kernel ≡ k)

-- When no line had the clock's handler before, the quantum is from 1 to 5, and the handlers of other
-- modules leave the tables of handlers and the clock alone: if the probe finds the controllers,
-- `irq_init` turns the interrupts on, and interrupts from the 16 lines in any order are then served
-- without hanging the system, those of lines without a handler included; the system time, modulo
-- 2^64, goes up by the interrupts of line 0, and the quantum stays from 1 to 5. If the probe fails,
-- the tables are as before and the interrupts stay off.
pub irq_init-Initialised :
    (device : List Write → ℕ → ℕ) (run : ℕ → Kernel → Kernel) (lines : List ℕ) (k : Kernel)
    (p : Pic)
    → KeepsClock run
    → AllLines lines
    → ((line : ℕ) → k.irq_handlers line ≢ some clock_tick)
    → k.system_time < 2 ^ 64
    → 1 ≤ k.preempt_quantum
    → k.preempt_quantum ≤ 5
    → Initialised (pic_probe device p).1 run lines k (irq_init device k p)
unfolding irq_init
irq_init-Initialised device run lines k p keeps all fresh small lo hi =
    elim (Bool-cases (pic_probe device p).1) [
      | inl found ↦
          let k1 : Kernel = register_irqs 16 0 (irq_register_handler k 0 clock_tick) in
          let same : k1.system_time ≡ k.system_time =
            (register_irqs-irq 16 0 (irq_register_handler k 0 clock_tick)).1
            ∙ (unfold irq_register_handler in refl) in
          rw found (
            refl,
            subst (λ start. Counted (ticks lines) start (serve_lines run lines k1)) same
                (serve_lines-Counted run lines k1 keeps (registered-Ticking k fresh small lo hi)
                  all),
          )
      | inr missing ↦ rw missing (refl, refl)
    ]
