-- ===== src/Interrupts.antt =====
-- kernel/src/sys/interrupts/isr.c and irq.c, and kernel/src/sys/tick/clkhandler.c: the tables of
-- handlers and the dispatch. A handler of another module is a number, and `run` what it does to the
-- state; the generated `isr_init_entries` is a parameter too.
pub mod Laws
pub mod Gates
pub mod Entries
pub mod Sleep
pub mod Tests
use horizon.Common.{
  ℕ, zero, suc, none, some, ◌+◌, ◌-◌, Option, List, Bool, true, false, not, ◌==◌, if◌then◌else◌, u8,
  u64,
}
use horizon.Timer.{Pic, Write, pic_probe, pic_configure, pit_init}
use horizon.Descriptors.{idt_disable_gate, Idt, idt_enable_gate}

-- The entries of `g_isr_handlers` and of `g_irq_handler`.
pub data IsrHandler : Type 0 where
  irq_dispatch : IsrHandler
  other_isr : ℕ → IsrHandler

pub data IrqHandler : Type 0 where
  clock_tick : IrqHandler
  other_irq : ℕ → IrqHandler

pub record Kernel : Type 0 where
  pub idt : Idt
  pub isr_handlers : ℕ → Option IsrHandler
  pub irq_handlers : ℕ → Option IrqHandler
  pub system_time : ℕ
  pub preempt_quantum : ℕ

abbrev pub quantum : ℕ
quantum = 5

-- `--preempt_quantum <= 0` on a `uint8_t`.
unfoldable pub clkhandler : Kernel → Kernel
clkhandler k =
    let left = u8 (k.preempt_quantum + 255) in
    record k {
      system_time = u64 (k.system_time + 1);
      preempt_quantum = if left == 0 then quantum else left;
    }

-- A line without a handler is only logged.
unfoldable pub serve_irq : (ℕ → Kernel → Kernel) → Kernel → Option IrqHandler → Kernel
serve_irq run k none = k
serve_irq run k (some clock_tick) = clkhandler k
serve_irq run k (some (other_irq h)) = run h k

unfoldable pub irq_handler : (ℕ → Kernel → Kernel) → Kernel → ℕ → Kernel
irq_handler run k interrupt = serve_irq run k (k.irq_handlers (interrupt - 0x20))

-- No state: the system is hung.
unfoldable pub serve_isr : (ℕ → Kernel → Kernel) → Kernel → ℕ → Option IsrHandler → Option Kernel
serve_isr run k interrupt none = none
serve_isr run k interrupt (some irq_dispatch) = some (irq_handler run k interrupt)
serve_isr run k interrupt (some (other_isr h)) = some (run h k)

unfoldable pub isr_handler : (ℕ → Kernel → Kernel) → Kernel → ℕ → Option Kernel
isr_handler run k interrupt = serve_isr run k interrupt (k.isr_handlers interrupt)

unfoldable pub isr_register_handler : Kernel → ℕ → IsrHandler → Kernel
isr_register_handler k interrupt handler = record k {
  isr_handlers = λ i. if i == interrupt then some handler else k.isr_handlers i;
  idt = idt_enable_gate k.idt interrupt;
}

unfoldable pub irq_register_handler : Kernel → ℕ → IrqHandler → Kernel
irq_register_handler k irq handler = record k {
  irq_handlers = λ i. if i == irq then some handler else k.irq_handlers i;
}

unfoldable pub irq_unregister_handler : Kernel → ℕ → Kernel
irq_unregister_handler k irq = record k {
  irq_handlers = λ i. if i == irq then none else k.irq_handlers i;
}

unfoldable pub enable_gates : ℕ → ℕ → Idt → Idt
enable_gates zero i idt = idt
enable_gates (suc left) i idt = enable_gates left (i + 1) (idt_enable_gate idt i)

-- `entries` is `isr_init_entries`.
unfoldable pub isr_init : (Idt → Idt) → Kernel → Kernel
isr_init entries k = record k { idt = idt_disable_gate (enable_gates 256 0 (entries k.idt)) 0x80 }

unfoldable pub register_irqs : ℕ → ℕ → Kernel → Kernel
register_irqs zero i k = k
register_irqs (suc left) i k =
    register_irqs left (i + 1) (isr_register_handler k (0x20 + i) irq_dispatch)

-- PIC_REMAP_OFFSET and PIT_1MS.
abbrev pub pic_remap_offset : ℕ
pic_remap_offset = 0x20

abbrev pub pit_1ms : ℕ
pit_1ms = 1000

-- The tables, the controllers, and whether the processor takes interrupts.
pub record IrqState : Type 0 where
  pub kernel : Kernel
  pub pic : Pic
  pub interrupts : Bool

-- A probe that fails returns at once, with the interrupts off. `device` gives the ports of the
-- controllers after the writes; `g_auto_eoi` is 1.
unfoldable pub irq_init : (List Write → ℕ → ℕ) → Kernel → Pic → IrqState
irq_init device k p =
    let (probed, found) = pic_probe device p in
    let configured = pic_configure true probed pic_remap_offset (pic_remap_offset + 8) in
    if not found then record { kernel = k; pic = probed; interrupts = false } else record {
      kernel = register_irqs 16 0 (irq_register_handler k 0 clock_tick);
      pic = pit_init configured pit_1ms;
      interrupts = true;
    }
