-- ===== src/Timer.antt =====
-- kernel/src/sys/tick/pic.c and pit.c: the interrupt controllers and the timer, as the bytes that
-- they are sent. The state is the mask `g_pic_mask` and the writes to the ports, the last one first;
-- `io_wait` is left out. What is read from a port is a parameter.
pub mod Laws
pub mod Tests
use horizon.Common.{
  ℕ, ◌∷◌, ◌+◌, ◌-◌, ◌*◌, ◌/◌, ◌%◌, ◌^◌, bit_and, bit_or, Bool, ◌||◌, List, ltb, ◌==◌, if◌then◌else◌,
  u8, u16,
}

-- A byte sent to a port.
pub record Write : Type 0 where
  pub port : ℕ
  pub byte : ℕ

pub record Pic : Type 0 where
  pub mask : ℕ
  pub writes : List Write

abbrev pub pic1_command_port : ℕ
pic1_command_port = 0x20

abbrev pub pic1_data_port : ℕ
pic1_data_port = 0x21

abbrev pub pic2_command_port : ℕ
pic2_command_port = 0xa0

abbrev pub pic2_data_port : ℕ
pic2_data_port = 0xa1

unfoldable pub outb : Pic → ℕ → ℕ → Pic
outb p port byte = record p { writes = record { port = port; byte = u8 byte } ∷ p.writes }

unfoldable pub pic_set_mask : Pic → ℕ → Pic
pic_set_mask p mask =
    outb (outb (record p { mask = mask }) pic1_data_port (mask % 256)) pic2_data_port (mask / 256)

unfoldable pub pic_disable : Pic → Pic
pic_disable p = pic_set_mask p 0xffff

-- `irq` is one of the 16 lines.
unfoldable pub pic_mask : Pic → ℕ → Pic
pic_mask p irq = pic_set_mask p (u16 (bit_or p.mask (2 ^ irq)))

unfoldable pub pic_unmask : Pic → ℕ → Pic
pic_unmask p irq = pic_set_mask p (bit_and p.mask (0xffff - 2 ^ irq))

-- `inb port` is what the port gives.
unfoldable pub pic_get_mask : (ℕ → ℕ) → ℕ
pic_get_mask inb = bit_or (inb pic1_data_port) (inb pic2_data_port * 2 ^ 8)

unfoldable pub pic_save_mask : (ℕ → ℕ) → Pic → Pic
pic_save_mask inb p = record p { mask = pic_get_mask inb }

unfoldable pub pic_restore_mask : Pic → Pic
pic_restore_mask p = pic_set_mask p p.mask

-- Both command ports are sent `command` and read, for the in-request (0x0a) and the in-service
-- register (0x0b).
unfoldable pub pic_read_register : (ℕ → ℕ) → Pic → ℕ → Pic × ℕ
pic_read_register inb p command = (
  outb (outb p pic1_command_port command) pic2_command_port command,
  bit_or (inb pic1_command_port) (inb pic2_command_port * 2 ^ 8),
)

-- `device` gives the ports after the writes.
unfoldable pub pic_probe : (List Write → ℕ → ℕ) → Pic → Pic × Bool
pic_probe device p =
    let cleared = pic_set_mask (pic_disable p) 0 in
    (cleared, pic_get_mask (device cleared.writes) == 0)

unfoldable pub pic_send_end_of_interrupt : Pic → ℕ → Pic
pic_send_end_of_interrupt p irq =
    outb (if ltb 8 irq then outb p pic2_command_port 0x20 else p) pic1_command_port 0x20

-- The four control words, with automatic end of interrupt if `auto_eoi` is set.
unfoldable pub pic_configure : Bool → Pic → ℕ → ℕ → Pic
pic_configure auto_eoi p offset_pic_1 offset_pic_2 =
    let icw4 = if auto_eoi then 0x03 else 0x01 in
    let p1 = pic_set_mask p 0xffff in
    let p2 = outb (outb p1 pic1_command_port 0x11) pic2_command_port 0x11 in
    let p3 = outb (outb p2 pic1_data_port offset_pic_1) pic2_data_port offset_pic_2 in
    let p4 = outb (outb p3 pic1_data_port 0x4) pic2_data_port 0x2 in
    let p5 = outb (outb p4 pic1_data_port icw4) pic2_data_port icw4 in pic_set_mask p5 0xffff

abbrev pub pit_min_freq : ℕ
pit_min_freq = 18

abbrev pub pit_max_freq : ℕ
pit_max_freq = 1193182

abbrev pub pit_default_freq : ℕ
pit_default_freq = 1000

-- The count that `pit_init` computes; the rounding test reads `hertz` after it became the quotient.
unfoldable pub pit_count : ℕ → ℕ
pit_count hertz =
    let wanted =
      if ltb hertz pit_min_freq || ltb pit_max_freq hertz then pit_default_freq else hertz in
    let count = pit_max_freq / wanted in
    if ltb (count / 2) (pit_max_freq % count) then count + 1 else count

-- Square wave, low and high byte, channel 0; then the two bytes of the count, and line 0 unmasked.
unfoldable pub pit_init : Pic → ℕ → Pic
pit_init p hertz =
    let count = pit_count hertz in
    let p1 = outb p 0x43 0x36 in
    let p2 = outb p1 0x40 (count % 256) in
    let p3 = outb p2 0x40 (count / 256 % 256) in pic_unmask p3 0

unfoldable pub pit_set_event : Pic → ℕ → Pic
pit_set_event p delta = outb (outb p 0x40 (delta % 256)) 0x40 (delta / 256)

-- `low` and `high` are the two bytes read after the latch command.
unfoldable pub pit_read_frequency : Pic → ℕ → ℕ → Pic × ℕ
pit_read_frequency p low high = (outb p 0x43 0, bit_or low (high * 2 ^ 8))
