-- ===== src/Acpi.antt =====
-- kernel/src/sys/acpi: the checksums, the search for a table, and the records of the MADT, over the
-- byte memory. Pointers of the tables are physical and read through `phys_to_virt`.
pub mod Laws
pub mod Madt
pub mod Init
pub mod Tests
use horizon.Common.{
  ℕ, zero, suc, none, some, ◌+◌, ◌*◌, ◌/◌, Bool, true, false, not, ◌&&◌, Option, leb, ◌==◌,
  if◌then◌else◌, length, u8, sub64,
}
use horizon.Pmm.{sys_ok, sys_err, Status}
use horizon.Memory.{memcmp, Mem}
use horizon.Memory.Words.{load64, load32}
use horizon.Pmm.Init.{phys_to_virt}

-- The loop of `calculate_checksum`, a `uint8_t` sum.
unfoldable pub checksum_loop : ℕ → ℕ → Mem → ℕ → ℕ → ℕ
checksum_loop zero i m addr sum = sum
checksum_loop (suc left) i m addr sum = checksum_loop left (i + 1) m addr (u8 (sum + m (addr + i)))

unfoldable pub calculate_checksum : Mem → ℕ → ℕ → ℕ
calculate_checksum m addr length = checksum_loop length 0 m addr 0

-- sizeof(RSDP), and where the revision and the length stand.
abbrev pub rsdp_size : ℕ
rsdp_size = 20

abbrev pub rsdp_revision : Mem → ℕ → ℕ
rsdp_revision m rsdp = m (rsdp + 15)

abbrev pub rsdp_length : Mem → ℕ → ℕ
rsdp_length m rsdp = load32 m (rsdp + 20)

unfoldable pub rsdp_checksum_check : Mem → ℕ → Status
rsdp_checksum_check m rsdp =
    if not (calculate_checksum m rsdp rsdp_size == 0)
    then sys_err
    else if leb 2 (rsdp_revision m rsdp)
        && not (calculate_checksum m rsdp (rsdp_length m rsdp) == 0)
    then sys_err
    else sys_ok

-- sizeof(ACPI_SDT_HEADER); the length stands behind the signature.
abbrev pub sdt_header_size : ℕ
sdt_header_size = 36

-- Entry `i` of the root table, of 8 bytes if `use_xsdt`, else of 4.
abbrev pub sdt_entry : Mem → Bool → ℕ → ℕ → ℕ
sdt_entry m use_xsdt sdt i = phys_to_virt (
    if use_xsdt
    then load64 m (sdt + sdt_header_size + i * 8)
    else load32 m (sdt + sdt_header_size + i * 4))

abbrev pub sdt_entries : Mem → Bool → ℕ → ℕ
sdt_entries m use_xsdt sdt =
    sub64 (load32 m (sdt + 4)) sdt_header_size / (if use_xsdt then 8 else 4)

-- `len` is `strlen(signature)`.
unfoldable pub sdt_loop : ℕ → ℕ → Mem → Bool → ℕ → ℕ → ℕ → Option ℕ
sdt_loop zero i m use_xsdt sdt signature len = none
sdt_loop (suc left) i m use_xsdt sdt signature len =
    let table = sdt_entry m use_xsdt sdt i in
    let rest = sdt_loop left (i + 1) m use_xsdt sdt signature len in
    if memcmp m table signature len == 0 then some table else rest

-- NULL is no table.
unfoldable pub acpi_get_sdt : Mem → Bool → ℕ → ℕ → ℕ → Option ℕ
acpi_get_sdt m use_xsdt sdt signature len =
    if signature == 0
    then none
    else if sdt == 0
    then none
    else sdt_loop (sdt_entries m use_xsdt sdt) 0 m use_xsdt sdt signature len

-- The root table that `acpi_init` sets: where it is and whether its entries have 8 bytes. A bad
-- checksum sets none.
unfoldable pub acpi_root : Mem → ℕ → Option (ℕ × Bool)
acpi_root m rsdp = elim (rsdp_checksum_check m rsdp) [
  | sys_err ↦ none
  | sys_ok ↦
      if rsdp_revision m rsdp == 2
      then some (phys_to_virt (load64 m (rsdp + 24)), true)
      else some (phys_to_virt (load32 m (rsdp + 16)), false)
]
