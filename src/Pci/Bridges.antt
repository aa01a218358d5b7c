-- ===== src/Pci/Bridges.antt =====
-- The scan behind bridges: how deep it goes.
use horizon.Common.{
  ℕ, zero, suc, false, true, inl, inr, [], List, ◌+◌, ◌-◌, ◌≤◌, ◌<◌, ◌≡◌, refl, sym, subst, not,
  ◌&&◌, arith, ◌==◌, Bool-cases, Bool, if◌then◌else◌,
}
use horizon.Pci.{
  scanned, too_deep, function_exists, is_bridge, read_subbus_id, PciDevice, Scan, bind_scan,
  scan_device, scan_slots, pci_scan_bus, pci_init,
}
use horizon.Pci.Complete.{NoBridge}

-- Function 0 of slot 0 is there and reads as a bridge to the other of the buses 0 and 1.
pub record LeadsAway (ind : ℕ → ℕ) (bus : ℕ) : Type 0 where
  pub there : function_exists ind bus 0 0 ≡ true
  pub bridge : is_bridge ind bus 0 0 ≡ true
  pub away : read_subbus_id ind bus 0 0 ≡ 1 - bus

module _ (ind : ℕ → ℕ) where
  deep_slots :
      (below : ℕ → List PciDevice → Scan) (bus left : ℕ) (list : List PciDevice)
      → bus ≤ 1
      → LeadsAway ind bus
      → below (1 - bus) list ≡ too_deep
      → scan_slots (suc left) 0 ind below bus list ≡ too_deep
  unfolding scan_slots scan_device bind_scan
  deep_slots below bus left list small l deep =
      let apart : (1 - bus == bus) ≡ false = ground arith in
      rw (l.away, l.there, l.bridge, apart, deep) refl

  deep_bus :
      (fuel bus : ℕ) (list : List PciDevice)
      → bus ≤ 1
      → LeadsAway ind bus
      → LeadsAway ind (1 - bus)
      → pci_scan_bus fuel ind bus list ≡ too_deep
  unfolding pci_scan_bus
  deep_bus zero bus list small l l' = refl
  deep_bus (suc fuel) bus list small l l' =
      let back : 1 - (1 - bus) ≡ bus = omega arith in
      deep_slots (λ sub k. pci_scan_bus fuel ind sub k) bus 31 list small l
        (deep_bus fuel (1 - bus) list (omega arith) l' (subst (LeadsAway ind) (sym back) l))

  -- When function 0 of slot 0 reads as a bridge on bus 0, with a subordinate bus that is not 0, and
  -- on bus 1, with subordinate bus 0, the scan does not end: it is deeper than every bound.
  pub pci_init-too_deep :
      LeadsAway ind 0 → LeadsAway ind 1 → (fuel : ℕ) → pci_init fuel ind ≡ too_deep
  unfolding pci_init
  pci_init-too_deep l0 l1 fuel =
      deep_slots (λ sub k. pci_scan_bus fuel ind sub k) 0 31 [] (omega arith) l0
        (deep_bus fuel 1 [] (omega arith) l1 l0)

  -- A scan that ends.
  abbrev pub Ends : Scan → Type 0
  Ends (scanned list) = Unit
  Ends too_deep = ⊥

  bind_scan-Ends :
      (r : Scan) (next : List PciDevice → Scan)
      → Ends r
      → ((list : List PciDevice) → Ends (next list))
      → Ends (bind_scan r next)
  unfolding bind_scan
  bind_scan-Ends (scanned list) next e follow = follow list
  bind_scan-Ends too_deep next e follow = e

  if_Ends :
      (b : Bool) (r : Scan) (list : List PciDevice)
      → (b ≡ true → Ends r)
      → Ends (if b then r else scanned list)
  if_Ends true r list e = e refl
  if_Ends false r list e = tt

  scan_device-Ends :
      (below : ℕ → List PciDevice → Scan) (bus slot : ℕ) (list : List PciDevice)
      → ((is_bridge ind bus slot 0 && not (read_subbus_id ind bus slot 0 == bus)) ≡ true
          → Ends (below (read_subbus_id ind bus slot 0) list))
      → Ends (scan_device ind below bus slot list)
  unfolding scan_device
  scan_device-Ends below bus slot list e =
      let sub = read_subbus_id ind bus slot 0 in
      let guarded : Ends
          (if is_bridge ind bus slot 0 && not (sub == bus) then below sub list else scanned list) =
        if_Ends (is_bridge ind bus slot 0 && not (sub == bus)) (below sub list) list e in
      elim (Bool-cases (function_exists ind bus slot 0)) [
        | inl there ↦ rw there (
            bind_scan-Ends
              (if is_bridge ind bus slot 0 && not (sub == bus)
                then below sub list
                else scanned list)
              _ guarded (λ l. tt))
        | inr gone ↦ rw gone tt
      ]

  scan_slots-Ends :
      (below : ℕ → List PciDevice → Scan) (bus left i : ℕ) (list : List PciDevice)
      → ((slot : ℕ) (l : List PciDevice)
          → slot < i + left
          → (is_bridge ind bus slot 0 && not (read_subbus_id ind bus slot 0 == bus)) ≡ true
          → Ends (below (read_subbus_id ind bus slot 0) l))
      → Ends (scan_slots left i ind below bus list)
  unfolding scan_slots
  scan_slots-Ends below bus zero i list e = tt
  scan_slots-Ends below bus (suc left) i list e =
      bind_scan-Ends (scan_device ind below bus i list) _
        (scan_device-Ends below bus i list (e i list (omega arith)))
        (λ l. scan_slots-Ends below bus left (i + 1) l (λ slot k lt. e slot k (omega (arith, lt))))

  subbus_one :
      (bridge : Bool) (slot : ℕ)
      → (bridge && not (read_subbus_id ind 0 slot 0 == 0)) ≡ true
      → read_subbus_id ind 0 slot 0 ≡ 1
  unfolding read_subbus_id
  subbus_one bridge slot away = ground (arith, away)

  -- When function 0 of no slot of bus 1 reads as a bridge, the scan ends: one call of
  -- `pci_scan_bus` inside the scan of bus 0 is as deep as it goes.
  pub pci_init-Ends : (fuel : ℕ) → NoBridge ind 1 → Ends (pci_init (suc fuel) ind)
  unfolding pci_init pci_scan_bus
  pci_init-Ends fuel plain =
      scan_slots-Ends (λ sub k. pci_scan_bus (suc fuel) ind sub k) 0 32 0 []
        (λ slot l lt away.
          let other : read_subbus_id ind 0 slot 0 ≡ 1 =
            subbus_one (is_bridge ind 0 slot 0) slot away in
          rw other (
            scan_slots-Ends (λ sub k. pci_scan_bus fuel ind sub k) 1 32 0 l
              (λ s k small is. absurd (ground (arith, plain s, is)))))
