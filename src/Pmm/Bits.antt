-- ===== src/Pmm/Bits.antt =====
-- The bit operations on one byte of the bitmap, as tests of its eight bits.
use horizon.Common.{
  ℕ, ◌-◌, ◌^◌, ◌<◌, ◌≡◌, refl, bit_and, bit_or, Bool, true, false, not, ◌&&◌, ◌||◌, ◌==◌, ltb,
  passes, passes_at, arith,
}

-- Bit `j` of `b`, by the code's test.
abbrev pub bit : ℕ → ℕ → Bool
bit b j = not (bit_and b (2 ^ j) == 0)

abbrev beq : Bool → Bool → Bool
beq true b = b
beq false b = not b

beq_sound : (a b : Bool) → beq a b ≡ true → a ≡ b
beq_sound true b h = ground arith
beq_sound false b h = ground arith

-- All that is needed of a byte `b` at bits `k` and `j`.
abbrev laws : ℕ → ℕ → ℕ → Bool
laws k j b =
    beq (bit (bit_or b (2 ^ k)) j) (j == k || bit b j)
    && beq (bit (bit_and b (255 - 2 ^ k)) j) (not (j == k) && bit b j)
    && ltb (bit_or b (2 ^ k)) 256
    && ltb (bit_and b (255 - 2 ^ k)) 256

abbrev laws_at : ℕ → ℕ → Bool
laws_at k j = passes (laws k j) 256

laws_table : passes (λ k. passes (laws_at k) 8) 8 ≡ true
unfolding passes
laws_table = refl

laws_hold : (k j b : ℕ) → k < 8 → j < 8 → b < 256 → laws k j b ≡ true
laws_hold k j b hk hj hb =
    passes_at (laws k j) b hb
      (passes_at (laws_at k) j hj (passes_at (λ k. passes (laws_at k) 8) k hk laws_table))

module _ (k j b : ℕ) (hk : k < 8) (hj : j < 8) (hb : b < 256) where
  pub bit-bit_or : bit (bit_or b (2 ^ k)) j ≡ (j == k || bit b j)
  bit-bit_or =
      ground (arith, laws_hold k j b, beq_sound (bit (bit_or b (2 ^ k)) j) (j == k || bit b j))

  pub bit-bit_and : bit (bit_and b (255 - 2 ^ k)) j ≡ (not (j == k) && bit b j)
  bit-bit_and = ground (
    arith,
    laws_hold k j b,
    beq_sound (bit (bit_and b (255 - 2 ^ k)) j) (not (j == k) && bit b j),
  )

  pub bit_or-lt : bit_or b (2 ^ k) < 256
  bit_or-lt = ground (arith, laws_hold k j b)

  pub bit_and-lt : bit_and b (255 - 2 ^ k) < 256
  bit_and-lt = ground (arith, laws_hold k j b)
