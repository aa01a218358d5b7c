-- ===== src/IsoFile/Laws.antt =====
-- Which file the search gives.
use horizon.Common.{
  ℕ, zero, suc, [], ◌∷◌, none, some, true, Bool, Option, List, ◌&&◌, ◌==◌, leb, if◌then◌else◌,
  sub64, ◌≤◌, ◌<◌, ◌≡◌, arith, ◌^◌, ◌+◌, ◌-◌, ap, refl, ◌∙◌, inl, inr, Bool-cases,
}
use horizon.Memory.{Mem}
use horizon.CString.Laws.{IsString, strlen_loop-lem}
use horizon.IsoFile.{
  ending_loop, check_string_ending, LimineFile, module_loop, get_iso_file, looked, module_answer,
}
use horizon.CString.{strlen_loop}

-- The `n` bytes at `p` are those at `q`.
unfoldable pub alike : ℕ → Mem → ℕ → ℕ → Bool
alike zero m p q = true
alike (suc n) m p q = m (p + n) == m (q + n) && alike n m p q

down_one : (a k : ℕ) → a + suc k < 2 ^ 64 → sub64 (a + suc k) 1 ≡ a + k
down_one a k h = omega arith

ending_loop_lem :
    (fuel : ℕ) (m : Mem) (s e d n : ℕ)
    → 1 ≤ d
    → 1 ≤ n
    → n ≤ fuel
    → s + d < 2 ^ 64
    → e + n < 2 ^ 64
    → ending_loop fuel m s e (s + d) (e + n) ≡ some (leb n d && alike n m (s + (d - n) + 1) (e + 1))
unfolding ending_loop alike
ending_loop_lem zero m s e d n hd hn hf hs he = absurd (omega arith)
ending_loop_lem (suc fuel) m s e d zero hd hn hf hs he = absurd (omega arith)
ending_loop_lem (suc fuel) m s e zero n hd hn hf hs he = absurd (omega arith)
ending_loop_lem (suc fuel) m s e (suc d) (suc zero) hd hn hf hs he =
    let down = down_one e zero he in
    let last : m (s + (suc d - 1) + 1 + 0) ≡ m (s + suc d) = ap m (omega arith) in
    let first : m (e + 1 + 0) ≡ m (e + 1) = ap m (omega arith) in
    rw down (ground (arith, last, first))
ending_loop_lem (suc fuel) m s e (suc zero) (suc (suc n)) hd hn hf hs he =
    rw (down_one s zero hs, down_one e (suc n) he) (ground arith)
ending_loop_lem (suc fuel) m s e (suc (suc d)) (suc (suc n)) hd hn hf hs he =
    let rest =
      ending_loop_lem fuel m s e (suc d) (suc n) (omega arith) (omega arith) (omega arith)
        (omega arith) (omega arith) in
    let last : n ≤ d → m (s + (d - n) + 1 + suc n) ≡ m (s + suc (suc d)) =
      λ h. ap m (omega arith) in
    let first : m (e + 1 + suc n) ≡ m (e + suc (suc n)) = ap m (omega arith) in
    rw (down_one s (suc d) hs, down_one e (suc n) he, rest) (ground (arith, last, first))

-- The tail of the string that starts one byte into where the ending would stand.
abbrev pub ends_with : Mem → ℕ → ℕ → ℕ → ℕ → Bool
ends_with m str ls end le = leb le ls && alike (le - 1) m (str + (ls - le) + 1) (end + 1)

nul_at :
    (fuel : ℕ) (m : Mem) (p len : ℕ)
    → IsString m p len
    → len < fuel
    → strlen_loop fuel m p ≡ some (p + len)
nul_at fuel m p len is enough =
    ap (strlen_loop fuel m) {x = p} {y = p + 0} (omega arith)
    ∙ strlen_loop-lem fuel m p 0 len is (omega arith) (omega arith)

-- For strings of at least two bytes that do not run past the address space, with more fuel than they
-- have bytes, `check_string_ending` is true exactly when the string is not shorter than the ending
-- and ends with all of it but the first byte, which is never compared.
pub check_string_ending_lem :
    (fuel : ℕ) (m : Mem) (str ls end le : ℕ)
    → IsString m str ls
    → IsString m end le
    → 2 ≤ ls
    → 2 ≤ le
    → ls < fuel
    → le < fuel
    → str + ls < 2 ^ 64
    → end + le < 2 ^ 64
    → check_string_ending fuel m str end ≡ some (ends_with m str ls end le)
unfolding check_string_ending
check_string_ending_lem fuel m str ls end le is_str is_end two_str two_end enough_str enough_end
      in_str in_end =
    let last_str : sub64 (str + ls) 1 ≡ str + (ls - 1) = omega arith in
    let last_end : sub64 (end + le) 1 ≡ end + (le - 1) = omega arith in
    let looped =
      ending_loop_lem fuel m str end (ls - 1) (le - 1) (omega arith) (omega arith) (omega arith)
        (omega arith) (omega arith) in
    let room : leb (le - 1) (ls - 1) ≡ leb le ls = ground arith in
    let start : ls - 1 - (le - 1) ≡ ls - le = omega arith in
    rw
      (
        nul_at fuel m str ls is_str enough_str,
        nul_at fuel m end le is_end enough_end,
        last_str,
        last_end,
        looped,
        room,
        start,
      )
      refl

-- The paths of the files are strings of at least two bytes, which `fuel` is enough for.
abbrev pub PathsOk : ℕ → Mem → (LimineFile → ℕ) → List LimineFile → Type 0
PathsOk fuel m len [] = Unit
PathsOk fuel m len (f ∷ modules) =
    (IsString m f.path (len f) × (2 ≤ len f) × (len f < fuel) × (f.path + len f < 2 ^ 64))
    × PathsOk fuel m len modules

-- The first file that passes a test.
abbrev pub first : (LimineFile → Bool) → List LimineFile → Option LimineFile
first test [] = none
first test (f ∷ modules) = if test f then some f else first test modules

-- When the paths and the name are such strings, `get_iso_file` gives the first file whose path ends
-- with the name but for its first byte, and NULL when there is none.
pub get_iso_file-first :
    (fuel : ℕ) (m : Mem) (name le : ℕ) (len : LimineFile → ℕ) (modules : List LimineFile)
    → IsString m name le
    → 2 ≤ le
    → le < fuel
    → name + le < 2 ^ 64
    → PathsOk fuel m len modules
    → get_iso_file fuel m name (some modules)
      ≡ looked (first (λ f. ends_with m f.path (len f) name le) modules)
unfolding get_iso_file module_loop module_answer
get_iso_file-first fuel m name le len [] is two enough inside paths = refl
get_iso_file-first fuel m name le len (f ∷ modules) is two enough inside (here, paths) =
    let tested =
      check_string_ending_lem fuel m f.path (len f) name le here.0 is here.1 two here.2 enough
        here.3 inside in
    let rest = get_iso_file-first fuel m name le len modules is two enough inside paths in
    ap (module_answer f (module_loop fuel m name modules)) tested
    ∙ elim (Bool-cases (ends_with m f.path (len f) name le)) [
      | inl ends ↦ rw ends refl
      | inr not_it ↦ rw not_it rest
    ]
