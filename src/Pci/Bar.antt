-- ===== src/Pci/Bar.antt =====
-- The base address registers: `read_bar` and `find_bar`. The configuration space is a state of the
-- devices that the ports read and write, `ind` and `outd`; both are parameters.
use horizon.Common.{
  ℕ, false, ◌+◌, ◌-◌, ◌*◌, ◌/◌, ◌%◌, ◌^◌, ◌<◌, bit_or, ◌≡◌, ◌==◌, if◌then◌else◌, u16, u32, u64,
  refl, sym, subst, ◌∙◌, arith,
}
use horizon.Pci.{config_address}

-- PCI_BAR: the union holds an address or a port.
pub data PciBar : Type 0 where
  memory : (address size flags : ℕ) → PciBar
  io : (port size flags : ℕ) → PciBar

module _ {C : Type 0} (ind : C → ℕ → ℕ) (outd : C → ℕ → ℕ → C) where
  -- The address, the mask, and the register written back.
  unfoldable pub read_bar : C → ℕ → ℕ × ℕ × C
  read_bar c at =
      let address = ind c at in
      let c1 = outd c at 0xffff_ffff in (address, ind c1 at, outd c1 at address)

  -- Bits 2 and 0 of the register tell the kind. The second word of a 64-bit register is read from
  -- the same register again.
  unfoldable pub find_bar : C → ℕ → ℕ → ℕ → ℕ → PciBar × C
  unfolding read_bar
  find_bar c bus slot func bar =
      let at = config_address bus slot func bar in
      let low = read_bar c at in
      let high = read_bar (low.2) at in
      if low.0 / 4 % 2 == 1
      then (
        memory (bit_or (u64 (high.0 * 2 ^ 32)) (low.0 / 16 * 16))
            (u64 (bit_or (u64 (high.1 * 2 ^ 32)) (low.1 / 16 * 16) + 1)) (low.0 % 16),
        high.2,
      )
      else if low.0 % 2 == 1
      then (
        io (u16 (low.0 / 4 * 4)) (u16 (u32 (2 ^ 32 - 1 - low.1 / 4 * 4 + 1))) (low.0 % 4),
        low.2,
      )
      else (memory (low.0 / 16 * 16) (u32 (2 ^ 32 - 1 - low.1 / 16 * 16 + 1)) (low.0 % 16), low.2)

  -- A register for a range of `size` bytes, as the PCI standard has it: it holds a multiple of the
  -- size, of which the low bits are wired to `flags`.
  pub record IsBar (at size flags : ℕ) : Type 0 where
    pub base : C → ℕ
    pub holds : (c : C) → ind c at ≡ base c * size + flags
    pub low : (c : C) → ind c at < 2 ^ 32
    pub writes :
        (c : C) (h r : ℕ)
        → r < size
        → h * size + r < 2 ^ 32
        → ind (outd c at (h * size + r)) at ≡ h * size + flags

  -- For a memory register that is not of 64 bits, of a size that is a multiple of 16 and divides
  -- 2^32, `find_bar` gives its address, its size and its flags, and the register holds afterwards
  -- what it held before.
  pub find_bar-memory :
      (c : C) (bus slot func bar m n flags : ℕ)
      → IsBar (config_address bus slot func bar) (16 * m) flags
      → n * (16 * m) + 16 * m ≡ 2 ^ 32
      → 0 < n
      → 0 < m
      → flags < 16
      → flags / 4 % 2 ≡ 0
      → flags % 2 ≡ 0
      → let at = config_address bus slot func bar in
        ((find_bar c bus slot func bar).0 ≡ memory (ind c at - flags) (16 * m) flags)
        × (ind ((find_bar c bus slot func bar).1) at ≡ ind c at)
  unfolding find_bar read_bar
  find_bar-memory c bus slot func bar m n flags h whole many some_size small narrow mem =
      let at : ℕ = config_address bus slot func bar in
      let holds : ind c at ≡ 16 * (h.base c * m) + flags = h.holds c ∙ omega arith in
      let ones : n * (16 * m) + (16 * m - 1) ≡ 0xffff_ffff = omega (arith, whole) in
      let mask : ind (outd c at 0xffff_ffff) at ≡ n * (16 * m) + flags =
        subst (λ v. ind (outd c at v) at ≡ n * (16 * m) + flags) ones
          (h.writes c n (16 * m - 1) (omega arith) (omega (arith, ones))) in
      let wide : (ind c at / 4 % 2 == 1) ≡ false = ground (arith, holds) in
      let port : (ind c at % 2 == 1) ≡ false = ground (arith, holds) in
      let address : ind c at / 16 * 16 ≡ ind c at - flags = omega (arith, holds) in
      let spread : n * (16 * m) + flags ≡ 16 * (2 ^ 28 - m) + flags = omega (arith, whole) in
      let low_m : m < 2 ^ 28 = grind (arith, whole, many, some_size) in
      let masked : (n * (16 * m) + flags) / 16 * 16 ≡ 16 * (2 ^ 28 - m) =
        omega (arith, spread, small) in
      let size : u32 (2 ^ 32 - 1 - (n * (16 * m) + flags) / 16 * 16 + 1) ≡ 16 * m =
        omega (arith, masked, low_m) in
      let kind : ind c at % 16 ≡ flags = omega (arith, holds) in
      let back : ind (outd (outd c at 0xffff_ffff) at (ind c at)) at ≡ ind c at =
        subst (λ v. ind (outd (outd c at 0xffff_ffff) at v) at ≡ v) (sym (h.holds c))
          (h.writes (outd c at 0xffff_ffff) (h.base c) flags (omega arith)
            (omega (arith, h.holds c, h.low c))) in
      rw (wide, port, mask, address, size, kind) (refl, back)
