-- ===== src/Acpi/Laws.antt =====
-- What the checksum and the search come to.
use horizon.Common.{
  ℕ, zero, suc, none, some, inl, inr, ◌+◌, ◌%◌, ◌≤◌, ◌<◌, ◌≡◌, refl, sym, ap, subst, ◌≢◌, ◌↔◌, Bool,
  false, Option, arith, ◌==◌, ==_iff, Bool-cases, u8,
}
use horizon.Pmm.{sys_ok}
use horizon.Acpi.{
  rsdp_length, sdt_entries, calculate_checksum, sdt_entry, rsdp_revision, sdt_loop, checksum_loop,
  rsdp_checksum_check, acpi_get_sdt,
}
use horizon.Memory.{memcmp, Mem}

-- The sum of `n` bytes.
unfoldable pub byte_sum : Mem → ℕ → ℕ → ℕ
byte_sum m a zero = 0
byte_sum m a (suc n) = m a + byte_sum m (a + 1) n

checksum_loop-lem :
    (left i : ℕ) (m : Mem) (addr sum : ℕ)
    → sum < 256
    → checksum_loop left i m addr sum ≡ (sum + byte_sum m (addr + i) left) % 256
unfolding checksum_loop byte_sum
checksum_loop-lem zero i m addr sum small = omega arith
checksum_loop-lem (suc left) i m addr sum small =
    let e : addr + (i + 1) ≡ addr + i + 1 = omega arith in
    let rest = checksum_loop-lem left (i + 1) m addr (u8 (sum + m (addr + i))) (omega arith) in
    omega (arith, rest, ap (λ a. byte_sum m a left) e)

-- The checksum is the sum of the bytes modulo 256.
calculate_checksum_lem :
    (m : Mem) (addr n : ℕ) → calculate_checksum m addr n ≡ byte_sum m addr n % 256
unfolding calculate_checksum
calculate_checksum_lem m addr n =
    let e : addr + 0 ≡ addr = omega arith in
    omega (arith, checksum_loop-lem n 0 m addr 0 (omega arith), ap (λ a. byte_sum m a n) e)

-- The revision is at least 2, and the bytes of the declared length sum up to 0.
abbrev pub Extended : Mem → ℕ → Type 0
Extended m rsdp = 2 ≤ rsdp_revision m rsdp → byte_sum m rsdp (rsdp_length m rsdp) % 256 ≡ 0

-- `rsdp_checksum_check` succeeds exactly when the 20 bytes of the first version sum up to a multiple
-- of 256, and, from revision 2 on, so do the bytes of the declared length.
pub rsdp_checksum_check_iff :
    (m : Mem) (rsdp : ℕ)
    → (rsdp_checksum_check m rsdp ≡ sys_ok) ↔ ((byte_sum m rsdp 20 % 256 ≡ 0) × Extended m rsdp)
unfolding rsdp_checksum_check
rsdp_checksum_check_iff m rsdp =
    let c1 = calculate_checksum_lem m rsdp 20 in
    let c2 = calculate_checksum_lem m rsdp (rsdp_length m rsdp) in ground (arith, c1, c2)

-- No entry from `i` on, below `n`, has the signature.
abbrev pub Unmatched : Mem → Bool → ℕ → ℕ → ℕ → ℕ → ℕ → Type 0
Unmatched m use_xsdt sdt signature len i n =
    (j : ℕ) → i ≤ j → j < n → (memcmp m (sdt_entry m use_xsdt sdt j) signature len == 0) ≡ false

-- The first table whose signature matches, if there is one.
abbrev pub FirstTable : Mem → Bool → ℕ → ℕ → ℕ → ℕ → ℕ → Option ℕ → Type 0
FirstTable m use_xsdt sdt signature len i n none = Unmatched m use_xsdt sdt signature len i n
FirstTable m use_xsdt sdt signature len i n (some table) =
    (j : ℕ) × (j < n)
    × (table ≡ sdt_entry m use_xsdt sdt j)
    × (memcmp m table signature len ≡ 0)
    × Unmatched m use_xsdt sdt signature len i j

Unmatched-next :
    (m : Mem) (use_xsdt : Bool) (sdt signature len i n : ℕ)
    → (memcmp m (sdt_entry m use_xsdt sdt i) signature len == 0) ≡ false
    → Unmatched m use_xsdt sdt signature len (i + 1) n
    → Unmatched m use_xsdt sdt signature len i n
Unmatched-next m use_xsdt sdt signature len i n here later j lo hi = elim (Bool-cases (j == i)) [
  | inl same ↦
      subst (λ k. (memcmp m (sdt_entry m use_xsdt sdt k) signature len == 0) ≡ false)
        (sym ((==_iff j i).0 same)) here
  | inr other ↦ later j (ground (arith, other)) hi
]

FirstTable-next :
    (m : Mem) (use_xsdt : Bool) (sdt signature len i n : ℕ) (r : Option ℕ)
    → (memcmp m (sdt_entry m use_xsdt sdt i) signature len == 0) ≡ false
    → FirstTable m use_xsdt sdt signature len (i + 1) n r
    → FirstTable m use_xsdt sdt signature len i n r
FirstTable-next m use_xsdt sdt signature len i n none here later =
    Unmatched-next m use_xsdt sdt signature len i n here later
FirstTable-next m use_xsdt sdt signature len i n (some table) here (j, lt, e, same, before) =
    (j, lt, e, same, Unmatched-next m use_xsdt sdt signature len i j here before)

sdt_loop-FirstTable :
    (left i n : ℕ) (m : Mem) (use_xsdt : Bool) (sdt signature len : ℕ)
    → i + left ≡ n
    → FirstTable m use_xsdt sdt signature len i n (sdt_loop left i m use_xsdt sdt signature len)
unfolding sdt_loop
sdt_loop-FirstTable zero i n m use_xsdt sdt signature len e = λ j lo hi. absurd (omega (arith, e))
sdt_loop-FirstTable (suc left) i n m use_xsdt sdt signature len e =
    elim (Bool-cases (memcmp m (sdt_entry m use_xsdt sdt i) signature len == 0)) [
      | inl found ↦
          rw found
            (i, omega (arith, e), refl, (==_iff _ 0).0 found, λ j lo hi. absurd (omega arith))
      | inr missed ↦ rw missed (
          FirstTable-next m use_xsdt sdt signature len i n
            (sdt_loop left (i + 1) m use_xsdt sdt signature len) missed
            (sdt_loop-FirstTable left (i + 1) n m use_xsdt sdt signature len (omega (arith, e))))
    ]

-- With a signature and a root table that are not NULL, `acpi_get_sdt` gives the first table of the
-- root table whose signature matches, and NULL only if none of its entries matches.
pub acpi_get_sdt-FirstTable :
    (m : Mem) (use_xsdt : Bool) (sdt signature len : ℕ)
    → signature ≢ 0
    → sdt ≢ 0
    → FirstTable m use_xsdt sdt signature len 0
        (sdt_entries m use_xsdt sdt)
        (acpi_get_sdt m use_xsdt sdt signature len)
unfolding acpi_get_sdt
acpi_get_sdt-FirstTable m use_xsdt sdt signature len s t =
    let s0 : (signature == 0) ≡ false = ground (arith, s) in
    let t0 : (sdt == 0) ≡ false = ground (arith, t) in
    rw (s0, t0)
      (sdt_loop-FirstTable (sdt_entries m use_xsdt sdt) 0 (sdt_entries m use_xsdt sdt) m use_xsdt
        sdt signature len (omega arith))
