-- ===== src/Kprint/Tests.antt =====
-- A few prints.
use horizon.Common.{some, none, [], ◌∷◌, refl, ◌≡◌, arith}
use horizon.Kprint.Laws.{kprint_dec-ReadsDec, ReadsDec}
use horizon.Kprint.{
  number, conversion_table, decimal, fill_width, fill_digits, kprint_dec, kprint_hex, convert,
  kprintf,
}

kprint_dec-ReadsDec_example : ReadsDec 18446744073709551615 (kprint_dec 18446744073709551615)
kprint_dec-ReadsDec_example = kprint_dec-ReadsDec 18446744073709551615 (omega arith)

-- "%d:%2x" of 42 and 0xabc, and a format that ends in `%`.
kprintf_runs :
    (kprintf (37 ∷ 100 ∷ 58 ∷ 37 ∷ 50 ∷ 120 ∷ []) (number 42 ∷ number 0xabc ∷ [])
      ≡ some (52 ∷ 50 ∷ 58 ∷ 48 ∷ 120 ∷ 98 ∷ 99 ∷ []))
    × (kprintf (65 ∷ 37 ∷ []) [] ≡ none)
unfolding kprintf convert kprint_dec kprint_hex fill_digits fill_width decimal conversion_table
kprintf_runs = (refl, refl)
