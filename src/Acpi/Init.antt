-- ===== src/Acpi/Init.antt =====
-- `acpi_init` of kernel/src/sys/acpi/acpi.c: the root table, the test of the signature, and the scan of
-- the MADT. `rsd_ptr` and `apic` are the addresses of the literals "RSD PTR " and "APIC".
use horizon.Common.{
  ℕ, none, some, [], List, ◌+◌, ◌≡◌, refl, sym, subst, Option, Bool, not, ◌==◌, if◌then◌else◌,
  sub64, inl, inr, Bool-cases,
}
use horizon.Memory.{Mem, memcmp}
use horizon.Memory.Words.{load32}
use horizon.Acpi.Madt.{
  madt_init-recorded, Apics, madt_size, madt_init, Records, push_all, take, of_type,
}
use horizon.Acpi.{acpi_root, acpi_get_sdt}

-- `halt()`, an early return, a scan of the MADT that outran its fuel, or the APICS that it found.
pub data AcpiInit : Type 0 where
  hung refused endless : AcpiInit
  started : Apics → AcpiInit

unfoldable pub scan_result : Option Apics → AcpiInit
scan_result none = endless
scan_result (some a) = started a

unfoldable pub start_madt : Mem → Option ℕ → AcpiInit
start_madt m none = hung
start_madt m (some madt) = scan_result (madt_init m madt)

unfoldable pub after_root : Mem → ℕ → ℕ → ℕ → Option (ℕ × Bool) → AcpiInit
after_root m rsdp rsd_ptr apic none = refused
after_root m rsdp rsd_ptr apic (some (sdt, use_xsdt)) =
    if not (memcmp m rsdp rsd_ptr 8 == 0)
    then refused
    else start_madt m (acpi_get_sdt m use_xsdt sdt apic 4)

-- The response is none for NULL, else the address of the RSDP.
unfoldable pub acpi_init : Mem → ℕ → ℕ → Option ℕ → AcpiInit
acpi_init m rsd_ptr apic none = hung
acpi_init m rsd_ptr apic (some rsdp) = after_root m rsdp rsd_ptr apic (acpi_root m rsdp)

-- The table found, if there is one, consists of records that end where the next one starts.
abbrev pub HasRecords : Mem → Option ℕ → Type 0
HasRecords m none = Unit
HasRecords m (some madt) =
    (rs : List ℕ) × Records m (madt + madt_size) (sub64 (load32 m (madt + 4)) madt_size) 0 rs

-- The first 256 local APICS and the first 3 IO APICS of some records.
abbrev pub AreRecorded : Mem → Apics → Type 0
AreRecorded m a =
    (rs : List ℕ) × (a.local_apics ≡ push_all (take 256 (of_type m 0 rs)) [])
    × (a.io_apics ≡ push_all (take 3 (of_type m 1 rs)) [])

-- An end that is not an endless scan.
abbrev pub Ends : Mem → AcpiInit → Type 0
Ends m hung = Unit
Ends m refused = Unit
Ends m endless = ⊥
Ends m (started a) = AreRecorded m a

start_madt-Ends : (m : Mem) (table : Option ℕ) → HasRecords m table → Ends m (start_madt m table)
unfolding start_madt scan_result
start_madt-Ends m none found = tt
start_madt-Ends m (some madt) (rs, records) =
    subst (λ r. Ends m (scan_result r)) (sym (madt_init-recorded m madt rs records))
      (rs, refl, refl)

-- What the search finds from the root table on.
abbrev pub FoundHasRecords : Mem → ℕ → Option (ℕ × Bool) → Type 0
FoundHasRecords m apic none = Unit
FoundHasRecords m apic (some (sdt, use_xsdt)) = HasRecords m (acpi_get_sdt m use_xsdt sdt apic 4)

after_root-Ends :
    (m : Mem) (rsdp rsd_ptr apic : ℕ) (root : Option (ℕ × Bool))
    → FoundHasRecords m apic root
    → Ends m (after_root m rsdp rsd_ptr apic root)
unfolding after_root
after_root-Ends m rsdp rsd_ptr apic none found = tt
after_root-Ends m rsdp rsd_ptr apic (some (sdt, use_xsdt)) found =
    elim (Bool-cases (memcmp m rsdp rsd_ptr 8 == 0)) [
      | inl same ↦ rw same (start_madt-Ends m (acpi_get_sdt m use_xsdt sdt apic 4) found)
      | inr other ↦ rw other tt
    ]

-- If the table that the search finds consists of records, none of length 0, `acpi_init` ends, and
-- what it has recorded are the first APICS of some records.
pub acpi_init-Ends :
    (m : Mem) (rsd_ptr apic rsdp : ℕ)
    → FoundHasRecords m apic (acpi_root m rsdp)
    → Ends m (acpi_init m rsd_ptr apic (some rsdp))
unfolding acpi_init
acpi_init-Ends m rsd_ptr apic rsdp found =
    after_root-Ends m rsdp rsd_ptr apic (acpi_root m rsdp) found
