-- ===== src/Timer/Laws.antt =====
-- The masks that the controllers hold, and the count of the timer.
use native.Mathlib.Nat.{mod-add-div, mod-lt, mul-le-mul_right}
use horizon.Common.{
  bit_or-sum_low, subst, inl, inr, ℕ, [], ◌∷◌, ◌+◌, ◌*◌, ◌/◌, ◌%◌, ◌^◌, ◌≤◌, ◌<◌, bit_or, ◌≡◌, refl,
  true, List, arith, ◌==◌, if◌then◌else◌, u8, false, ◌||◌, ltb, Bool-cases,
}
use horizon.Timer.{Pic, pic_disable, pic_probe, outb, pic_set_mask, pic_get_mask, Write, pit_count}

-- A chip whose port reads back the last byte written to it, and 0 before.
unfoldable pub last_write : List Write → ℕ → ℕ
last_write [] port = 0
last_write (w ∷ ws) port = if w.port == port then w.byte else last_write ws port

-- On chips whose data ports read back what was written last, `pic_get_mask` after `pic_set_mask` of
-- a 16-bit mask gives that mask, and so does the copy that the driver keeps; and the probe finds
-- the chips.
pub pic_get_mask-pic_set_mask :
    (p : Pic) (mask : ℕ)
    → mask < 2 ^ 16
    → (pic_get_mask (last_write (pic_set_mask p mask).writes) ≡ mask)
      × ((pic_set_mask p mask).mask ≡ mask)
      × ((pic_probe last_write p).1 ≡ true)
unfolding pic_get_mask pic_set_mask last_write outb pic_probe pic_disable
pic_get_mask-pic_set_mask p mask small =
    let e : bit_or (u8 (mask % 256)) (u8 (mask / 256) * 2 ^ 8) ≡ mask =
      omega (arith, bit_or-sum_low 8 (u8 (mask / 256)) (u8 (mask % 256)) (omega arith)) in
    (e, refl, refl)

-- The quotient for a frequency in range.
quotient-bounds :
    (hertz : ℕ) → 19 ≤ hertz → hertz ≤ 1193182 → (1 ≤ 1193182 / hertz) × (1193182 / hertz ≤ 62799)
quotient-bounds hertz lo hi =
    let q : ℕ = 1193182 / hertz in
    let whole : 1193182 % hertz + hertz * q ≡ 1193182 = mod-add-div 1193182 hertz in
    let less : 1193182 % hertz < hertz = mod-lt 1193182 (omega arith) in
    let many : 19 * q ≤ hertz * q = mul-le-mul_right q lo in
    (
      elim (Bool-cases (q == 0)) [
        | inl none_left ↦
            let e : q ≡ 0 = ground (arith, none_left) in
            let no_multiple : 1193182 % hertz + hertz * 0 ≡ 1193182 =
              subst (λ x. 1193182 % hertz + hertz * x ≡ 1193182) e whole in
            absurd (omega (arith, no_multiple, less))
        | inr some_left ↦ ground (arith, some_left)
      ],
      omega (arith, whole, many),
    )

-- `pit_init` of a frequency from 19 to 1193182 sends a count from 1 to 65535, so that the two bytes
-- sent are the whole count; and the count is the quotient or one more.
pub pit_count-bounds :
    (hertz : ℕ)
    → 19 ≤ hertz
    → hertz ≤ 1193182
    → (1 ≤ pit_count hertz)
      × (pit_count hertz % 256 + 256 * (pit_count hertz / 256 % 256) ≡ pit_count hertz)
      × (pit_count hertz ≤ 1193182 / hertz + 1)
unfolding pit_count
pit_count-bounds hertz lo hi =
    let inside : (ltb hertz 18 || ltb 1193182 hertz) ≡ false = ground arith in
    let q = quotient-bounds hertz lo hi in
    rw inside (elim (Bool-cases (ltb (1193182 / hertz / 2) (1193182 % (1193182 / hertz)))) [
      | inl up ↦ rw up (omega (arith, q), omega (arith, q), omega arith)
      | inr down ↦ rw down (omega (arith, q), omega (arith, q), omega arith)
    ])
