-- ===== src/CString/Laws.antt =====
-- What `strncpy` and `strlen` do with a NUL-terminated string.
use horizon.Common.{
  ℕ, zero, suc, ◌+◌, ◌-◌, ◌≤◌, ◌<◌, min, ◌≡◌, ◌≢◌, ◌⊎◌, some, arith, ltb, if◌then◌else◌, ap,
}
use horizon.CString.{strncpy, strncpy_copy, strncpy_pad, strlen_loop, strlen}
use horizon.Memory.{store8, Mem}
use horizon.Memory.Laws.{within}

-- A string of `len` bytes before the NUL stands at `p`.
abbrev pub IsString : Mem → ℕ → ℕ → Type 0
IsString m p len = (m (p + len) ≡ 0) × ((j : ℕ) → j < len → m (p + j) ≢ 0)

pub strlen_loop-lem :
    (fuel : ℕ) (m : Mem) (p i len : ℕ)
    → IsString m p len
    → i ≤ len
    → len < i + fuel
    → strlen_loop fuel m (p + i) ≡ some (p + len)
unfolding strlen_loop
strlen_loop-lem zero m p i len str lo enough = absurd (omega arith)
strlen_loop-lem (suc fuel) m p i len str lo enough = ground (
  arith,
  str.0,
  str.1 i,
  ap m {x = p + i} {y = p + len},
  ap (strlen_loop fuel m) {x = p + i + 1} {y = p + (i + 1)},
  strlen_loop-lem fuel m p (i + 1) len str,
)

-- With more fuel than the string has bytes, `strlen` returns their number.
pub strlen_lem :
    (fuel : ℕ) (m : Mem) (p len : ℕ) → IsString m p len → len < fuel → strlen fuel m p ≡ some len
unfolding strlen
strlen_lem fuel m p len str enough =
    ground (arith, strlen_loop-lem fuel m p 0 len str, ap (strlen_loop fuel m) {x = p + 0} {y = p})

-- What `strncpy` is to leave: the string, cut at `num`, and NULs up to `num`.
abbrev pub padded : Mem → ℕ → ℕ → ℕ → ℕ → ℕ → ℕ
padded m dest src len num q =
    if within dest num q then (if ltb (q - dest) len then m (src + (q - dest)) else 0) else m q

pub strncpy_pad-lem :
    (left i dest : ℕ) (m : Mem) (q : ℕ)
    → strncpy_pad left i dest m q ≡ (if within (dest + i) left q then 0 else m q)
unfolding strncpy_pad
strncpy_pad-lem zero i dest m q = ground arith
strncpy_pad-lem (suc left) i dest m q =
    ground (arith, strncpy_pad-lem left (i + 1) dest (store8 m (dest + i) 0) q)

-- The `n` bytes written at `dest` do not meet the string.
abbrev pub Disjoint : ℕ → ℕ → ℕ → ℕ → Type 0
Disjoint dest n src len = (dest + n ≤ src) ⊎ (src + len < dest)

IsString-store8 :
    (m : Mem) (src len p v n i : ℕ)
    → IsString m src len
    → Disjoint p n src len
    → i < n
    → IsString (store8 m (p + i) v) src len
IsString-store8 m src len p v n i str apart lt =
    (ground arith, λ j below. ground (arith, str.1 j below))

strncpy_copy-index :
    (left i dest src len : ℕ) (m : Mem)
    → IsString m src len
    → Disjoint dest (i + left) src len
    → i ≤ len
    → (strncpy_copy left i dest src m).0 ≡ min len (i + left)
unfolding strncpy_copy
strncpy_copy-index zero i dest src len m str apart lo = omega arith
strncpy_copy-index (suc left) i dest src len m str apart lo = ground (
  arith,
  str.0,
  str.1 i,
  ap m {x = src + i} {y = src + len},
  strncpy_copy-index left (i + 1) dest src len (store8 m (dest + i) (m (src + i)))
      (IsString-store8 m src len dest (m (src + i)) (i + suc left) i str apart (omega arith)),
)

strncpy_copy-bytes :
    (left i dest src len : ℕ) (m : Mem) (q : ℕ)
    → IsString m src len
    → Disjoint dest (i + left) src len
    → i ≤ len
    → (strncpy_copy left i dest src m).1 q
      ≡ (if within (dest + i) (min len (i + left) - i) q then m (src + (q - dest)) else m q)
unfolding strncpy_copy
strncpy_copy-bytes zero i dest src len m q str apart lo = ground arith
strncpy_copy-bytes (suc left) i dest src len m q str apart lo = ground (
  arith,
  str.0,
  str.1 i,
  ap m {x = src + i} {y = src + len},
  strncpy_copy-bytes left (i + 1) dest src len (store8 m (dest + i) (m (src + i))) q
      (IsString-store8 m src len dest (m (src + i)) (i + suc left) i str apart (omega arith)),
)

-- `strncpy` to a pointer that is not NULL, from a string that the destination does not meet, leaves
-- the string cut at `num` bytes, then NULs up to `num`, and every other byte as it was.
pub strncpy-padded :
    (m : Mem) (dest src num len q : ℕ)
    → dest ≢ 0
    → IsString m src len
    → Disjoint dest num src len
    → strncpy m dest src num q ≡ padded m dest src len num q
unfolding strncpy
strncpy-padded m dest src num len q some_place str apart =
    let apart0 : Disjoint dest (0 + num) src len = ground arith in
    let c = strncpy_copy num 0 dest src m in
    ground (
      arith,
      strncpy_copy-index num 0 dest src len m str apart0 (omega arith),
      strncpy_copy-bytes num 0 dest src len m q str apart0 (omega arith),
      strncpy_pad-lem (num - c.0) (c.0) dest (c.1) q,
    )
