-- ===== src/Common/Table.antt =====
-- Decidable laws about small numbers: a test that passes for every number under a bound.
use Prim.Native.Nat.{ℕ, zero, suc, ◌<◌}
use mathlib.Core.Path.{◌≡◌}
use mathlib.Core.Bool.{Bool, true, false}
use native.Mathlib.Omega.{arith}

unfoldable pub passes : (ℕ → Bool) → ℕ → Bool
passes test zero = true
passes test (suc bound) = elim (test bound) [ true ↦ passes test bound | false ↦ false ]

pub passes_at :
    (test : ℕ → Bool) {bound : ℕ} (n : ℕ) → n < bound → passes test bound ≡ true → test n ≡ true
unfolding passes
passes_at test {bound = zero} n below table = elim below [ ]
passes_at test {bound = suc bound} n below table =
    ground (arith, λ (lt : n < bound). passes_at test {bound = bound} n lt)
