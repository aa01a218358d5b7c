-- ===== src/Kprint/Laws.antt =====
-- The printed digits are read back as the number.
use mathlib.Core.Option
use native.Mathlib.Numerals.{unary_clauses}
use horizon.Common.{
  ◌∙◌, ℕ, zero, suc, none, some, [], ◌∷◌, ◌+◌, ◌-◌, ◌*◌, ◌/◌, ◌%◌, ◌^◌, ◌<◌, ◌≡◌, sym, ap, subst,
  inl, inr, Option, List, arith, ltb, ◌==◌, if◌then◌else◌, ==_iff, Bool-cases, refl,
}
use horizon.Kprint.{fill_digits, kprint_hex, kprint_dec, conversion_table, decimal, hex_prefix}

-- The number that digits in a base stand for, behind those already read.
unfoldable pub value : (ℕ → ℕ) → ℕ → ℕ → List ℕ → ℕ
value digit base start [] = start
value digit base start (c ∷ cs) = value digit base (start * base + digit c) cs

-- What the characters `0` to `9` and `a` to `f` stand for.
abbrev pub digit_value : ℕ → ℕ
digit_value c = if ltb c 58 then c - 48 else c - 87

-- The characters printed before `tail`, which stand for `num` in front of it.
abbrev pub Prints : ℕ → ℕ → List ℕ → Option (List ℕ) → Type 0
Prints base num tail none = ⊥
Prints base num tail (some s) = value digit_value base 0 s ≡ value digit_value base num tail

Prints-next :
    (base n' n : ℕ) (tail' tail : List ℕ) (r : Option (List ℕ))
    → value digit_value base n' tail' ≡ value digit_value base n tail
    → Prints base n' tail' r
    → Prints base n tail r
Prints-next base n' n tail' tail none e p = p
Prints-next base n' n tail' tail (some s) e p = p ∙ e

module _ (table : ℕ → ℕ) (base : ℕ)
    (split : (n : ℕ) → n / base * base + digit_value (table (n % base)) ≡ n)
    (shrink : (n p : ℕ) → n < base * p → n / base < p) where
  -- A number that fits the room is printed.
  fill_digits-Prints :
      (room num : ℕ) (tail : List ℕ)
      → num < base ^ room
      → Prints base num tail (fill_digits room table base num tail)
  unfolding fill_digits value
  fill_digits-Prints zero num tail fits = elim (Bool-cases (num == 0)) [
    | inl done ↦ rw done (ap (λ n. value digit_value base n tail) (sym ((==_iff num 0).0 done)))
    | inr more ↦
        (let one : base ^ zero ≡ 1 = simp unary_clauses refl in absurd (ground (arith, one)))
  ]
  fill_digits-Prints (suc room) num tail fits = elim (Bool-cases (num == 0)) [
    | inl done ↦ rw done (ap (λ n. value digit_value base n tail) (sym ((==_iff num 0).0 done)))
    | inr more ↦
        let power : base ^ suc room ≡ base * base ^ room = simp unary_clauses (grind arith) in
        let room_left : num / base < base ^ room =
          shrink num (base ^ room) (subst (λ p. num < p) power fits) in
        rw more (
          Prints-next base (num / base) num (table (num % base) ∷ tail) tail
            (fill_digits room table base (num / base) (table (num % base) ∷ tail))
            (ap (λ n. value digit_value base n tail) (split num))
            (fill_digits-Prints room (num / base) (table (num % base) ∷ tail) room_left))
  ]

-- What a number is to be printed as: characters that stand for it, behind a prefix.
abbrev pub Reads : ℕ → ℕ → List ℕ → Type 0
Reads base num s = value digit_value base 0 s ≡ num

abbrev pub ReadsDec : ℕ → Option (List ℕ) → Type 0
ReadsDec num none = ⊥
ReadsDec num (some s) = Reads 10 num s

abbrev pub ReadsHex : ℕ → Option (List ℕ) → Type 0
ReadsHex num none = ⊥
ReadsHex num (some []) = ⊥
ReadsHex num (some (z ∷ [])) = ⊥
ReadsHex num (some (z ∷ x ∷ s)) = (z ≡ 48) × (x ≡ 120) × Reads 16 num s

ReadsDec-Prints : (num : ℕ) (r : Option (List ℕ)) → Prints 10 num [] r → ReadsDec num r
unfolding value
ReadsDec-Prints num none p = p
ReadsDec-Prints num (some s) p = p

ReadsHex-Prints :
    (num : ℕ) (r : Option (List ℕ)) → Prints 16 num [] r → ReadsHex num (Option.map hex_prefix r)
unfolding value
ReadsHex-Prints num none p = p
ReadsHex-Prints num (some s) p = (refl, refl, p)

decimal_split : (n : ℕ) → n / 10 * 10 + digit_value (decimal (n % 10)) ≡ n
unfolding decimal
decimal_split n = ground arith

hex_split : (n : ℕ) → n / 16 * 16 + digit_value (conversion_table (n % 16)) ≡ n
unfolding conversion_table
hex_split n = ground arith

-- Every 64-bit number is printed in decimal within the 20 cells of the buffer, and the digits
-- read back as the number.
pub kprint_dec-ReadsDec : (num : ℕ) → num < 2 ^ 64 → ReadsDec num (kprint_dec num)
unfolding kprint_dec value
kprint_dec-ReadsDec num small = elim (Bool-cases (num == 0)) [
  | inl none_left ↦ rw none_left (ground arith)
  | inr more ↦ rw more (
      ReadsDec-Prints num (fill_digits 20 decimal 10 num []) (
        fill_digits-Prints decimal 10 decimal_split (λ n p lt. omega arith) 20 num []
          (omega arith)))
]

-- Every 64-bit number is printed in hexadecimal, without a width, within the 16 cells of the
-- buffer: "0x", and then digits that read back as the number.
pub kprint_hex-ReadsHex : (num : ℕ) → num < 2 ^ 64 → ReadsHex num (kprint_hex num 0)
unfolding kprint_hex value
kprint_hex-ReadsHex num small = elim (Bool-cases (num == 0)) [
  | inl none_left ↦ rw none_left (refl, refl, ground arith)
  | inr more ↦ rw more (
      ReadsHex-Prints num (fill_digits 16 conversion_table 16 num []) (
        fill_digits-Prints conversion_table 16 hex_split (λ n p lt. omega arith) 16 num []
          (omega arith)))
]
