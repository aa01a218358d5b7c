-- ===== src/Acpi/Tests.antt =====
-- Tables at concrete addresses.
use horizon.Common.{
  ℕ, ◌||◌, List, [], ◌+◌, ◌∷◌, sub64, refl, some, ◌≡◌, false, arith, ◌==◌, if◌then◌else◌,
}
use horizon.Acpi.Laws.{acpi_get_sdt-FirstTable, FirstTable}
use horizon.Memory.{memcmp_loop, memcmp, Mem}
use horizon.Acpi.{sdt_entries, sdt_loop, acpi_get_sdt}
use horizon.Acpi.Madt.{madt_init-recorded, madt_init, Records, push_all, take, of_type}
use horizon.Memory.Words.{load_bytes, load32}

-- A root table at 0x100 with two entries of 4 bytes; the second names the page 0x1000, where the
-- signature 'A' of 0x200 stands.
abbrev tables : Mem
tables q =
    if q == 0x104
    then 44
    else if q == 0x200
    then 65
    else if q == 0x129
    then 0x10
    else if q == 0xffff_8000_0000_1000
    then 65
    else 0

acpi_get_sdt-FirstTable_example :
    FirstTable tables false 0x100 0x200 1 0
      (sdt_entries tables false 0x100)
      (acpi_get_sdt tables false 0x100 0x200 1)
acpi_get_sdt-FirstTable_example =
    acpi_get_sdt-FirstTable tables false 0x100 0x200 1 (λ e. omega (arith, e))
      (λ e. omega (arith, e))

second_found : acpi_get_sdt tables false 0x100 0x200 1 ≡ some 0xffff_8000_0000_1000
unfolding acpi_get_sdt sdt_loop load32 load_bytes memcmp memcmp_loop
second_found = refl

-- A MADT at 0x100 with 36 bytes of records: two local APICS of 8 bytes, an IO APIC of 12 and another
-- local APIC.
abbrev madt_bytes : Mem
madt_bytes q =
    if q == 0x104
    then 80
    else if q == 0x12d || q == 0x135 || q == 0x149
    then 8
    else if q == 0x13c
    then 1
    else if q == 0x13d
    then 12
    else 0

abbrev madt_records : List ℕ
madt_records = 0x12c ∷ 0x134 ∷ 0x13c ∷ 0x148 ∷ []

madt_bytes-Records :
    Records madt_bytes (0x100 + 44) (sub64 (load32 madt_bytes (0x100 + 4)) 44) 0 madt_records
unfolding load_bytes load32
madt_bytes-Records = (refl, omega arith, omega arith, last_three)
  where
    last_three : Records madt_bytes 300 36 8 (0x134 ∷ 0x13c ∷ 0x148 ∷ [])
    last_three = (
      refl,
      omega arith,
      omega arith,
      (refl, omega arith, omega arith, (refl, omega arith, omega arith, omega arith)),
    )

madt_init-recorded_example :
    madt_init madt_bytes 0x100
    ≡ some (record {
      local_apics = push_all (take 256 (of_type madt_bytes 0 madt_records)) [];
      io_apics = push_all (take 3 (of_type madt_bytes 1 madt_records)) [];
    })
madt_init-recorded_example = madt_init-recorded madt_bytes 0x100 madt_records madt_bytes-Records

three_local :
    push_all (take 256 (of_type madt_bytes 0 madt_records)) [] ≡ 0x148 ∷ 0x134 ∷ 0x12c ∷ []
unfolding push_all take of_type
three_local = refl
