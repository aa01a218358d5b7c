-- ===== src/Memory/Words.antt =====
-- 64-bit words in the byte memory, little endian: `uint64_t` and `size_t` fields of structures.
use horizon.Common.{
  ℕ, zero, suc, ◌+◌, ◌-◌, ◌*◌, ◌/◌, ◌%◌, ◌^◌, ◌≤◌, ◌<◌, ◌≡◌, refl, ap, arith, if◌then◌else◌, ◌⊎◌,
  false, ◌∙◌,
}
use horizon.Memory.{Mem}
use horizon.Memory.Laws.{within}

-- Byte `k` of a number.
unfoldable pub byte_of : ℕ → ℕ → ℕ
byte_of v zero = v % 256
byte_of v (suc k) = byte_of (v / 256) k

unfoldable pub store64 : Mem → ℕ → ℕ → Mem
store64 m a v q = if within a 8 q then byte_of v (q - a) else m q

-- The number that `n` bytes stand for.
unfoldable pub load_bytes : ℕ → Mem → ℕ → ℕ
load_bytes zero m a = 0
load_bytes (suc n) m a = m a + 256 * load_bytes n m (a + 1)

unfoldable pub load64 : Mem → ℕ → ℕ
load64 = load_bytes 8

-- Words that agree on all their bytes are equal.
pub load_bytes_ext :
    (n : ℕ) (m m' : Mem) (a : ℕ)
    → ((q : ℕ) → a ≤ q → q < a + n → m q ≡ m' q)
    → load_bytes n m a ≡ load_bytes n m' a
unfolding load_bytes
load_bytes_ext zero m m' a same = refl
load_bytes_ext (suc n) m m' a same = rw (
  same a (omega arith) (omega arith),
  load_bytes_ext n m m' (a + 1) (λ q lo hi. same q (omega arith) (omega arith)),
)

-- A byte of a word that was stored.
store64-byte : (m : Mem) (a v k : ℕ) → k < 8 → store64 m a v (a + k) ≡ byte_of v k
unfolding store64
store64-byte m a v k h = let e : a + k - a ≡ k = omega arith in ground (arith, ap (byte_of v) e)

-- A store leaves the bytes outside its word alone.
pub store64_other : (m : Mem) (a v q : ℕ) → within a 8 q ≡ false → store64 m a v q ≡ m q
unfolding store64
store64_other m a v q h = rw h

-- The low `n` bytes of a number.
abbrev low_bytes : ℕ → ℕ → ℕ
low_bytes zero v = 0
low_bytes (suc n) v = v % 256 + 256 * low_bytes n (v / 256)

load_bytes_of_digits :
    (n : ℕ) (m : Mem) (a v : ℕ)
    → ((k : ℕ) → k < n → m (a + k) ≡ byte_of v k)
    → load_bytes n m a ≡ low_bytes n v
unfolding load_bytes byte_of
load_bytes_of_digits zero m a v digits = refl
load_bytes_of_digits (suc n) m a v digits = ground (
  arith,
  digits 0 (omega arith),
  ap m {x = a + 0} {y = a} (omega arith),
  load_bytes_of_digits n m (a + 1) (v / 256)
      (λ k lt. let e : a + 1 + k ≡ a + suc k = omega arith in rw e (digits (suc k) (omega arith))),
)

-- What was stored is read back, cut to 64 bits.
pub load64-store64 : (m : Mem) (a v : ℕ) → load64 (store64 m a v) a ≡ v % 2 ^ 64
unfolding load64
load64-store64 m a v =
    omega (arith, load_bytes_of_digits 8 (store64 m a v) a v (λ k lt. store64-byte m a v k lt))

-- A word that does not meet the one stored reads as before.
pub load64-store64_apart :
    (m : Mem) (a v b : ℕ) → (a + 8 ≤ b) ⊎ (b + 8 ≤ a) → load64 (store64 m a v) b ≡ load64 m b
unfolding load64
load64-store64_apart m a v b apart =
    load_bytes_ext 8 (store64 m a v) m b (λ q lo hi. store64_other m a v q (ground arith))

-- A word is its eight bytes.
pub load64_ext :
    (m m' : Mem) (a : ℕ) → ((q : ℕ) → a ≤ q → q < a + 8 → m q ≡ m' q) → load64 m a ≡ load64 m' a
unfolding load64
load64_ext m m' a same = load_bytes_ext 8 m m' a same

-- 32-bit words.
unfoldable pub store32 : Mem → ℕ → ℕ → Mem
store32 m a v q = if within a 4 q then byte_of v (q - a) else m q

unfoldable pub load32 : Mem → ℕ → ℕ
load32 = load_bytes 4

store32-byte : (m : Mem) (a v k : ℕ) → k < 4 → store32 m a v (a + k) ≡ byte_of v k
unfolding store32
store32-byte m a v k h = let e : a + k - a ≡ k = omega arith in ground (arith, ap (byte_of v) e)

pub store32_other : (m : Mem) (a v q : ℕ) → within a 4 q ≡ false → store32 m a v q ≡ m q
unfolding store32
store32_other m a v q h = rw h

pub load32-store32 : (m : Mem) (a v : ℕ) → load32 (store32 m a v) a ≡ v % 2 ^ 32
unfolding load32
load32-store32 m a v =
    omega (arith, load_bytes_of_digits 4 (store32 m a v) a v (λ k lt. store32-byte m a v k lt))

pub load32-store32_apart :
    (m : Mem) (a v b : ℕ) → (a + 4 ≤ b) ⊎ (b + 4 ≤ a) → load32 (store32 m a v) b ≡ load32 m b
unfolding load32
load32-store32_apart m a v b apart =
    load_bytes_ext 4 (store32 m a v) m b (λ q lo hi. store32_other m a v q (ground arith))

-- Two words whose bytes agree, wherever they stand.
pub load_bytes_shift :
    (n : ℕ) (m m' : Mem) (a b : ℕ)
    → ((j : ℕ) → j < n → m (a + j) ≡ m' (b + j))
    → load_bytes n m a ≡ load_bytes n m' b
unfolding load_bytes
load_bytes_shift zero m m' a b same = refl
load_bytes_shift (suc n) m m' a b same =
    let first : m a ≡ m' b =
      ap m {x = a} {y = a + 0} (omega arith)
      ∙ same 0 (omega arith)
      ∙ ap m' {x = b + 0} {y = b} (omega arith) in
    let rest = load_bytes_shift n m m' (a + 1) (b + 1) (λ j lt.
      ap m {x = a + 1 + j} {y = a + (j + 1)} (omega arith)
      ∙ same (j + 1) (omega arith)
      ∙ ap m' {x = b + (j + 1)} {y = b + 1 + j} (omega arith)) in
    rw (first, rest) refl

pub load64_shift :
    (m m' : Mem) (a b : ℕ) → ((j : ℕ) → j < 8 → m (a + j) ≡ m' (b + j)) → load64 m a ≡ load64 m' b
unfolding load64
load64_shift m m' a b same = load_bytes_shift 8 m m' a b same
