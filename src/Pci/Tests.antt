-- ===== src/Pci/Tests.antt =====
-- A bus with one device, two bridges that lead to each other, and a register of 4096 bytes.
use horizon.Pci.Bar.{memory, IsBar, find_bar, find_bar-memory}
use horizon.Common.{ℕ, refl, [], ◌∷◌, arith, ◌+◌, ◌-◌, ◌*◌, ◌/◌, ◌%◌, ◌^◌, ◌≡◌, ◌==◌, if◌then◌else◌}
use horizon.Pci.{
  scanned, too_deep, config_address, function_exists, is_bridge, read_subbus_id,
  is_dev_multifunction, PciDevice, bind_scan, read_device, scan_device, scan_slots, pci_init,
  find_loop, find_device_desc,
}
use horizon.Pci.Bridges.{pci_init-Ends, LeadsAway, Ends, pci_init-too_deep}
use horizon.Pci.Complete.{pci_init-ListsBus, ListsBus, NoBridge}

-- An Ethernet controller in slot 3 of bus 0; all else reads as ones.
abbrev one_device : ℕ → ℕ
one_device a = if a == 0x8000_1800 then 0x100e_8086 else if a == 0x8000_180c then 0 else 0xffff_ffff

one_device-NoBridge : (bus : ℕ) → NoBridge one_device bus
unfolding is_bridge
one_device-NoBridge bus slot lt = ground arith

abbrev ethernet : PciDevice
ethernet = record {
  bus = 0;
  device = 3;
  func = 0;
  device_id = 0x100e;
  vendor_id = 0x8086;
  multifunction = 0;
}

pci_init_runs : pci_init 0 one_device ≡ scanned (ethernet ∷ [])
unfolding pci_init scan_slots scan_device bind_scan function_exists is_bridge read_subbus_id
    is_dev_multifunction read_device config_address
pci_init_runs = refl

pci_init-ListsBus_example : ListsBus one_device (pci_init 0 one_device)
pci_init-ListsBus_example = pci_init-ListsBus 0 one_device (one_device-NoBridge 0)

pci_init-Ends_example : Ends one_device (pci_init 1 one_device)
pci_init-Ends_example = pci_init-Ends one_device 0 (one_device-NoBridge 1)

-- Slot 0 of bus 0 and slot 0 of bus 1 read as bridges to each other.
abbrev two_bridges : ℕ → ℕ
two_bridges a =
    if a % 256 == 0
    then 0x0001_1234
    else if a % 256 == 0xc
    then 0x0001_0000
    else if a % 256 == 8
    then 0x0006_0000
    else if a == 0x8000_0018
    then 0x0100_0000
    else 0

two_bridges-LeadsAway_0 : LeadsAway two_bridges 0
unfolding function_exists is_bridge read_subbus_id config_address
two_bridges-LeadsAway_0 = record { there = refl; bridge = refl; away = refl }

two_bridges-LeadsAway_1 : LeadsAway two_bridges 1
unfolding function_exists is_bridge read_subbus_id config_address
two_bridges-LeadsAway_1 = record { there = refl; bridge = refl; away = refl }

pci_init-too_deep_example : pci_init 40 two_bridges ≡ too_deep
pci_init-too_deep_example =
    pci_init-too_deep two_bridges two_bridges-LeadsAway_0 two_bridges-LeadsAway_1 40

-- The register keeps the number of its page; bit 3 is wired.
abbrev page_read : ℕ → ℕ → ℕ
page_read c a = c % 2 ^ 20 * 4096 + 8

abbrev page_write : ℕ → ℕ → ℕ → ℕ
page_write c a v = v / 4096

page-IsBar : (at : ℕ) → IsBar page_read page_write at 4096 8
page-IsBar at = record {
  base = λ c. c % 2 ^ 20;
  holds = λ c. refl;
  low = λ c. omega arith;
  writes = λ c h r small low. omega (arith, small, low);
}

find_bar-memory_example :
    ((find_bar page_read page_write 0xfebc0 0 3 0 0x10).0 ≡ memory 0xfebc_0000 4096 8)
    × (page_read ((find_bar page_read page_write 0xfebc0 0 3 0 0x10).1) (config_address 0 3 0 0x10)
        ≡ page_read 0xfebc0 (config_address 0 3 0 0x10))
find_bar-memory_example =
    find_bar-memory page_read page_write 0xfebc0 0 3 0 0x10 256 (2 ^ 20 - 1) 8
      (page-IsBar (config_address 0 3 0 0x10)) (omega arith) (omega arith) (omega arith)
      (omega arith) refl refl

-- The Radeon RX 480 has the numbers of the RX 580, which stands before it.
find_device_desc_runs :
    find_device_desc (record ethernet { vendor_id = 0x1002; device_id = 0x67df }) ≡ 9
unfolding find_device_desc find_loop
find_device_desc_runs = refl
