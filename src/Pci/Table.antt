-- ===== src/Pci/Table.antt =====
-- kernel/include/sys/pci_io.h: the table of known devices, without their descriptions.
use horizon.Common.{ℕ, List, [], ◌∷◌}

-- PCI_TABLE_ENTRY.
pub record PciTableEntry : Type 0 where
  pub vendor_id : ℕ
  pub device_id : ℕ

abbrev entry : ℕ → ℕ → PciTableEntry
entry vendor_id device_id = record { vendor_id = vendor_id; device_id = device_id }

abbrev pub table : List PciTableEntry
table =
    entry 0x1022 0x2000
    ∷ entry 0x1022 0x1450
    ∷ entry 0x1022 0x43b9
    ∷ entry 0x1022 0x7814
    ∷ entry 0x1022 0x43b1
    ∷ entry 0x1022 0x15d0
    ∷ entry 0x1022 0x1439
    ∷ entry 0x1022 0x1485
    ∷ entry 0x1022 0x145a
    ∷ entry 0x1002 0x67df
    ∷ entry 0x1002 0x73bf
    ∷ entry 0x1002 0x6860
    ∷ entry 0x1002 0x67b1
    ∷ entry 0x1002 0x6819
    ∷ entry 0x1002 0x6613
    ∷ entry 0x1002 0x687f
    ∷ entry 0x1002 0x67df
    ∷ entry 0x1002 0x73df
    ∷ entry 0x1002 0x7310
    ∷ entry 0x1002 0x7340
    ∷ entry 0x1002 0x7341
    ∷ entry 0x1002 0x731f
    ∷ entry 0x1002 0x15d8
    ∷ entry 0x1002 0x1636
    ∷ entry 0x1002 0x15dd
    ∷ entry 0x1002 0x1638
    ∷ entry 0x1002 0x15e7
    ∷ entry 0x10de 0x13c2
    ∷ entry 0x10de 0x1b80
    ∷ entry 0x10de 0x1c03
    ∷ entry 0x10de 0x1b06
    ∷ entry 0x10de 0x1c82
    ∷ entry 0x10de 0x1e04
    ∷ entry 0x10de 0x1f02
    ∷ entry 0x10de 0x1f07
    ∷ entry 0x10de 0x1e84
    ∷ entry 0x10de 0x1f08
    ∷ entry 0x10de 0x2484
    ∷ entry 0x10de 0x2206
    ∷ entry 0x10de 0x2504
    ∷ entry 0x10de 0x2489
    ∷ entry 0x10de 0x2610
    ∷ entry 0x10de 0x2684
    ∷ entry 0x10de 0x26c0
    ∷ entry 0x10de 0x2784
    ∷ entry 0x10de 0x1c60
    ∷ entry 0x10de 0x1c20
    ∷ entry 0x10de 0x1ba1
    ∷ entry 0x10de 0x1c81
    ∷ entry 0x10de 0x1e90
    ∷ entry 0x10de 0x1f10
    ∷ entry 0x10de 0x1eab
    ∷ entry 0x10de 0x2520
    ∷ entry 0x10de 0x24dd
    ∷ entry 0x10de 0x2525
    ∷ entry 0x10ec 0x8139
    ∷ entry 0x10ec 0x8168
    ∷ entry 0x10ec 0x5229
    ∷ entry 0x1106 0x3044
    ∷ entry 0x1a03 0x2000
    ∷ entry 0x1b21 0x0612
    ∷ entry 0x14e4 0x1693
    ∷ entry 0x168c 0x0030
    ∷ entry 0x80ee 0xbeef
    ∷ entry 0x80ee 0xcafe
    ∷ entry 0x80ee 0xcaca
    ∷ entry 0x80ee 0xdead
    ∷ entry 0x80ee 0xbeeb
    ∷ entry 0x1234 0x1111
    ∷ entry 0x1234 0x1110
    ∷ entry 0x1af4 0x1000
    ∷ entry 0x1af4 0x1001
    ∷ entry 0x1af4 0x1002
    ∷ entry 0x1af4 0x1003
    ∷ entry 0x1af4 0x1004
    ∷ entry 0x8086 0x0154
    ∷ entry 0x8086 0x100e
    ∷ entry 0x8086 0x1c20
    ∷ entry 0x8086 0x1d3b
    ∷ entry 0x8086 0x24d3
    ∷ entry 0x8086 0x2918
    ∷ entry 0x8086 0x3b42
    ∷ entry 0x8086 0x3b64
    ∷ entry 0x8086 0x9d14
    ∷ entry 0x8086 0x0c01
    ∷ entry 0x8086 0x1503
    ∷ entry 0x8086 0x153a
    ∷ entry 0x8086 0x10d3
    ∷ entry 0x8086 0x0f00
    ∷ entry 0x8086 0x10c9
    ∷ entry 0x8086 0x1f3c
    ∷ entry 0x8086 0x8d02
    ∷ entry 0x8086 0x1f40
    ∷ entry 0x8086 0x8c31
    ∷ entry 0x8086 0x8c22
    ∷ entry 0x8086 0x8c10
    ∷ entry 0x8086 0x8c16
    ∷ entry 0x8086 0x8c50
    ∷ entry 0x8086 0x1533
    ∷ entry 0x8086 0x0a16
    ∷ entry 0x8086 0x0c04
    ∷ entry 0x8086 0x0f31
    ∷ entry 0x8086 0x29c0
    ∷ entry 0x8086 0x2922
    ∷ entry 0x8086 0x2930
    ∷ []
