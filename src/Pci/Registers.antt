-- ===== src/Pci/Registers.antt =====
-- The addresses of the configuration space, and the search of the table.
use horizon.Common.{
  ℕ, inl, inr, [], ◌∷◌, List, bit_or-sum, bit_or-sum_low, ◌+◌, ◌*◌, ◌/◌, ◌%◌, ◌^◌, ◌<◌, ◌≡◌, ◌∙◌,
  ◌↔◌, ◌&&◌, arith, ◌==◌, Bool-cases, u32,
}
use horizon.Pci.{not_in_table, find_device_desc, find_loop, config_address, PciDevice}
use horizon.Pci.Table.{table, PciTableEntry}

config_address_lem :
    (bus slot func offset : ℕ)
    → bus < 256
    → slot < 32
    → func < 8
    → offset < 256
    → config_address bus slot func offset
      ≡ 2 ^ 31 + bus * 2 ^ 16 + slot * 2 ^ 11 + func * 2 ^ 8 + offset / 4 * 4
unfolding config_address
config_address_lem bus slot func offset b s f o =
    let e1 : u32 (bus * 2 ^ 16) ≡ bus * 2 ^ 16 = omega (arith, b) in
    let e2 : u32 (slot * 2 ^ 11) ≡ slot * 2 ^ 11 = omega (arith, s) in
    let e3 : u32 (func * 2 ^ 8) ≡ func * 2 ^ 8 = omega (arith, f) in
    let e4 : offset % 256 / 4 * 4 ≡ offset / 4 * 4 = omega (arith, o) in
    let s1 = bit_or-sum 16 bus (slot * 2 ^ 11) (omega (arith, s)) in
    let h2 : bus * 2 ^ 16 + slot * 2 ^ 11 ≡ (bus * 32 + slot) * 2 ^ 11 = omega arith in
    let s2 = bit_or-sum 11 (bus * 32 + slot) (func * 2 ^ 8) (omega (arith, f)) in
    let h3 : (bus * 32 + slot) * 2 ^ 11 + func * 2 ^ 8 ≡ ((bus * 32 + slot) * 8 + func) * 2 ^ 8 =
      omega arith in
    let s3 = bit_or-sum 8 ((bus * 32 + slot) * 8 + func) (offset / 4 * 4) (omega (arith, o)) in
    let s4 =
      bit_or-sum_low 31 1 (((bus * 32 + slot) * 8 + func) * 2 ^ 8 + offset / 4 * 4)
        (omega (arith, b, s, f, o)) in
    rw (e1, e2, e3, e4, s1, h2, s2, h3, s3) (s4 ∙ omega arith)

-- Two registers have one address if and only if bus, slot and function are the same and the offsets
-- are in one word.
pub config_address_iff :
    (bus slot func offset bus' slot' func' offset' : ℕ)
    → bus < 256
    → slot < 32
    → func < 8
    → offset < 256
    → bus' < 256
    → slot' < 32
    → func' < 8
    → offset' < 256
    → (config_address bus slot func offset ≡ config_address bus' slot' func' offset')
      ↔ ((bus ≡ bus') × (slot ≡ slot') × (func ≡ func') × (offset / 4 ≡ offset' / 4))
config_address_iff bus slot func offset bus' slot' func' offset' b s f o b' s' f' o' =
    let e = config_address_lem bus slot func offset b s f o in
    let e' = config_address_lem bus' slot' func' offset' b' s' f' o' in
    (
      λ same. (
        omega (arith, e, e', same),
        omega (arith, e, e', same),
        omega (arith, e, e', same),
        omega (arith, e, e', same),
      ),
      λ same. omega (arith, e, e', same.0, same.1, same.2, same.3),
    )

-- An entry that is for a device.
abbrev pub Matches : PciTableEntry → PciDevice → Type 0
Matches e device = (e.vendor_id ≡ device.vendor_id) × (e.device_id ≡ device.device_id)

-- The outcome of the search from index `i` on: the first entry that matches, or none does.
pub data FirstMatch (device : PciDevice) : List PciTableEntry → ℕ → ℕ → Type 0 where
  missing : (i : ℕ) → FirstMatch device [] i not_in_table
  hit :
      (e : PciTableEntry) (es : List PciTableEntry) (i : ℕ)
      → Matches e device
      → FirstMatch device (e ∷ es) i i
  skip :
      (e : PciTableEntry) (es : List PciTableEntry) (i r : ℕ)
      → ¬ Matches e device
      → FirstMatch device es (i + 1) r
      → FirstMatch device (e ∷ es) i r

find_loop-FirstMatch :
    (es : List PciTableEntry) (i : ℕ) (device : PciDevice)
    → FirstMatch device es i (find_loop es i device)
unfolding find_loop
find_loop-FirstMatch [] i device = missing i
find_loop-FirstMatch (e ∷ es) i device =
    elim (Bool-cases ((e.vendor_id == device.vendor_id) && (e.device_id == device.device_id))) [
      | inl is ↦ rw is (hit e es i (ground (arith, is), ground (arith, is)))
      | inr other ↦ rw other (
          skip e es i _ (λ m. ground (arith, other, m.0, m.1))
            (find_loop-FirstMatch es (i + 1) device))
    ]

-- `find_device_desc` gives the index of the first entry of the table for the device, or NOT_IN_TABLE
-- when there is none.
pub find_device_desc-FirstMatch :
    (device : PciDevice) → FirstMatch device table 0 (find_device_desc device)
unfolding find_device_desc
find_device_desc-FirstMatch device = find_loop-FirstMatch table 0 device
