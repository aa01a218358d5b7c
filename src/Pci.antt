-- ===== src/Pci.antt =====
-- kernel/src/sys/pci.c and the macros of kernel/include/sys/pci_io.h: the scan of the PCI bus. The
-- configuration space is a parameter: `ind` gives the word that the data port reads after an
-- address was written to the address port. Names for people and messages are left out.
pub mod Table
pub mod Found
pub mod Complete
pub mod Bridges
pub mod Registers
pub mod Bar
pub mod Tests
use horizon.Pci.Table.{table, PciTableEntry}
use horizon.Common.{
  ℕ, zero, suc, [], ◌∷◌, List, ◌+◌, ◌-◌, ◌*◌, ◌/◌, ◌%◌, ◌^◌, bit_or, Bool, not, ◌&&◌, ◌++◌, ◌==◌,
  if◌then◌else◌, u32,
}

-- The address of a register: `(bus << 16) | (slot << 11) | (func << 8) | (offset & 0xFC) | 1 << 31`.
unfoldable pub config_address : ℕ → ℕ → ℕ → ℕ → ℕ
config_address bus slot func offset =
    bit_or
      (bit_or (bit_or (bit_or (u32 (bus * 2 ^ 16)) (u32 (slot * 2 ^ 11))) (u32 (func * 2 ^ 8)))
        (offset % 256 / 4 * 4))
      0x8000_0000

abbrev pub pci_ind : (ℕ → ℕ) → ℕ → ℕ → ℕ → ℕ → ℕ
pci_ind ind bus slot func offset = ind (config_address bus slot func offset)

-- PCI_READ_VENDOR_ID, PCI_READ_DEVICE_ID and PCI_FUNCTION_EXISTS.
abbrev pub read_vendor_id : (ℕ → ℕ) → ℕ → ℕ → ℕ → ℕ
read_vendor_id ind bus slot func = pci_ind ind bus slot func 0 % 2 ^ 16

abbrev pub read_device_id : (ℕ → ℕ) → ℕ → ℕ → ℕ → ℕ
read_device_id ind bus slot func = pci_ind ind bus slot func 0 / 2 ^ 16 % 2 ^ 16

unfoldable pub function_exists : (ℕ → ℕ) → ℕ → ℕ → ℕ → Bool
function_exists ind bus slot func = not (read_vendor_id ind bus slot func == 0xffff)

-- PCI_DEV_IS_BRIDGE: the byte of the header type and the 16 bits of class and subclass.
unfoldable pub is_bridge : (ℕ → ℕ) → ℕ → ℕ → ℕ → Bool
is_bridge ind bus slot func =
    (pci_ind ind bus slot func 0xc / 2 ^ 16 % 2 ^ 8 == 1)
    && (pci_ind ind bus slot func 8 / 2 ^ 16 == 6)

-- PCI_READ_SUBBUS_ID, with its logical `&&`.
unfoldable pub read_subbus_id : (ℕ → ℕ) → ℕ → ℕ → ℕ → ℕ
read_subbus_id ind bus slot func = if pci_ind ind bus slot func 0x18 / 2 ^ 24 == 0 then 0 else 1

-- PCI_IS_DEV_MULTIFUNCTION.
unfoldable pub is_dev_multifunction : (ℕ → ℕ) → ℕ → ℕ → ℕ → ℕ
is_dev_multifunction ind bus slot func = pci_ind ind bus slot func 0xc / 2 ^ 16 / 2 ^ 7 % 2 * 2 ^ 7

-- PCI_DEVICE, with the fields that the scan sets; the others stay 0.
pub record PciDevice : Type 0 where
  pub bus : ℕ
  pub device : ℕ
  pub func : ℕ
  pub device_id : ℕ
  pub vendor_id : ℕ
  pub multifunction : ℕ

-- `device_list` after a scan, or a scan deeper than the fuel.
pub data Scan : Type 0 where
  scanned : List PciDevice → Scan
  too_deep : Scan

unfoldable pub bind_scan : Scan → (List PciDevice → Scan) → Scan
bind_scan (scanned list) next = next list
bind_scan too_deep next = too_deep

-- The record of a function; that of function 0 is `dev`, with its flag, the others are `dev_2`.
unfoldable pub read_device : (ℕ → ℕ) → ℕ → ℕ → ℕ → PciDevice
read_device ind bus slot func = record {
  bus = bus;
  device = slot;
  func = func;
  device_id = read_device_id ind bus slot func;
  vendor_id = read_vendor_id ind bus slot func;
  multifunction = if func == 0 then is_dev_multifunction ind bus slot 0 else 0;
}

-- The loop over functions 1 to 7, `left` of them from `i` on.
unfoldable pub add_functions : ℕ → ℕ → (ℕ → ℕ) → ℕ → ℕ → List PciDevice → List PciDevice
add_functions zero i ind bus slot list = list
add_functions (suc left) i ind bus slot list =
    add_functions left (i + 1) ind bus slot
      (if function_exists ind bus slot i then list ++ (read_device ind bus slot i ∷ []) else list)

-- `scan_bus` is the call of `pci_scan_bus` behind a bridge.
unfoldable pub scan_device : (ℕ → ℕ) → (ℕ → List PciDevice → Scan) → ℕ → ℕ → List PciDevice → Scan
unfolding bind_scan
scan_device ind scan_bus bus slot list =
    let sub = read_subbus_id ind bus slot 0 in
    let behind = scan_bus sub list in
    let listed : List PciDevice → List PciDevice = λ l. l ++ (read_device ind bus slot 0 ∷ []) in
    if function_exists ind bus slot 0
    then bind_scan (if is_bridge ind bus slot 0 && not (sub == bus) then behind else scanned list)
        (λ l. scanned (
          if is_dev_multifunction ind bus slot 0 == 0
          then listed l
          else add_functions 7 1 ind bus slot (listed l)))
    else scanned list

-- The loop over the slots, `left` of them from `i` on.
unfoldable pub scan_slots :
    ℕ → ℕ → (ℕ → ℕ) → (ℕ → List PciDevice → Scan) → ℕ → List PciDevice → Scan
unfolding bind_scan
scan_slots zero i ind scan_bus bus list = scanned list
scan_slots (suc left) i ind scan_bus bus list =
    bind_scan (scan_device ind scan_bus bus i list)
      (λ l. scan_slots left (i + 1) ind scan_bus bus l)

-- MAX_DEVICE_NUM slots; the fuel is the depth of the calls.
unfoldable pub pci_scan_bus : ℕ → (ℕ → ℕ) → ℕ → List PciDevice → Scan
pci_scan_bus zero ind bus list = too_deep
pci_scan_bus (suc fuel) ind bus list =
    scan_slots 32 0 ind (λ sub l. pci_scan_bus fuel ind sub l) bus list

-- MAX_BUS_NUM is 1.
unfoldable pub pci_init : ℕ → (ℕ → ℕ) → Scan
pci_init fuel ind = scan_slots 32 0 ind (λ sub l. pci_scan_bus fuel ind sub l) 0 []

-- `find_device_desc`: NOT_IN_TABLE is -1 as a 64-bit number.
abbrev pub not_in_table : ℕ
not_in_table = 2 ^ 64 - 1

unfoldable pub find_loop : List PciTableEntry → ℕ → PciDevice → ℕ
find_loop [] i device = not_in_table
find_loop (e ∷ es) i device =
    let rest = find_loop es (i + 1) device in
    if (e.vendor_id == device.vendor_id) && (e.device_id == device.device_id) then i else rest

unfoldable pub find_device_desc : PciDevice → ℕ
find_device_desc device = find_loop table 0 device
