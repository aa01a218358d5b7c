-- ===== src/Pci/Complete.antt =====
-- On a bus without bridges, the scan lists the functions that are there and no others.
use horizon.Common.{
  ℕ, zero, suc, false, true, inl, inr, [], ◌∷◌, List, ◌<◌, ◌≡◌, refl, ap, ◌⊎◌, ◌++◌, ◌==◌,
  if◌then◌else◌, Bool-cases, ◌+◌, ◌≤◌, sym, subst, ◌↔◌, arith,
}
use horizon.Pci.{
  scanned, too_deep, function_exists, is_bridge, is_dev_multifunction, PciDevice, Scan, bind_scan,
  read_device, add_functions, scan_device, scan_slots, pci_scan_bus, pci_init,
}
use mathlib.Core.List.{Memᴰ}
use mathlib.Core.List.Memᴰ
use horizon.Pci.Found.{add_functions-found, add_functions-kept, add_functions-IsThere, IsThere}

-- The functions that a slot shows: function 0, and the others of a device that says it has some.
pub data OnSlot (ind : ℕ → ℕ) (bus slot : ℕ) (d : PciDevice) : Type 0 where
  first :
      function_exists ind bus slot 0 ≡ true → d ≡ read_device ind bus slot 0 → OnSlot ind bus slot d
  other :
      function_exists ind bus slot 0 ≡ true
      → (is_dev_multifunction ind bus slot 0 == 0) ≡ false
      → IsThere ind bus slot 1 8 d
      → OnSlot ind bus slot d

-- No function 0 reads as a bridge.
abbrev pub NoBridge : (ℕ → ℕ) → ℕ → Type 0
NoBridge ind bus = (slot : ℕ) → slot < 32 → is_bridge ind bus slot 0 ≡ false

abbrev with_device : (ℕ → ℕ) → ℕ → ℕ → List PciDevice → List PciDevice
with_device ind bus slot list =
    let listed = list ++ (read_device ind bus slot 0 ∷ []) in
    if function_exists ind bus slot 0
    then (if is_dev_multifunction ind bus slot 0 == 0
        then listed
        else add_functions 7 1 ind bus slot listed)
    else list

scan_device-with_device :
    (ind : ℕ → ℕ) (below : ℕ → List PciDevice → Scan) (bus slot : ℕ) (list : List PciDevice)
    → is_bridge ind bus slot 0 ≡ false
    → scan_device ind below bus slot list ≡ scanned (with_device ind bus slot list)
unfolding scan_device bind_scan
scan_device-with_device ind below bus slot list plain =
    elim (Bool-cases (function_exists ind bus slot 0)) [
      | inl there ↦ rw (there, plain) refl
      | inr gone ↦ rw gone refl
    ]

module _ (ind : ℕ → ℕ) (bus : ℕ) (d : PciDevice) where
  device_of : (slot : ℕ) → OnSlot ind bus slot d → d.device ≡ slot
  unfolding read_device
  device_of slot (first there e) = ap (λ x. x.device) e
  device_of slot (other there multi t) = ap (λ x. x.device) t.same

  with_device-OnSlot :
      (slot : ℕ) (list : List PciDevice)
      → Memᴰ d (with_device ind bus slot list)
      → Memᴰ d list ⊎ OnSlot ind bus slot d
  with_device-OnSlot slot list m = elim (Bool-cases (function_exists ind bus slot 0)) [
    | inl there ↦
        let single : Memᴰ d (list ++ (read_device ind bus slot 0 ∷ []))
            → Memᴰ d list ⊎ OnSlot ind bus slot d =
          λ m'. elim (Memᴰ.append_cases list m') [
            | inl old ↦ inl old
            | inr new ↦ inr (first there (Memᴰ.eq_of_singleton new))
          ] in
        elim (Bool-cases (is_dev_multifunction ind bus slot 0 == 0)) [
          | inl alone ↦ single (rw (there, alone) at m)
          | inr multi ↦
              elim (add_functions-IsThere ind bus slot d 7 1
                (list ++ (read_device ind bus slot 0 ∷ [])) (rw (there, multi) at m)) [
                  | inl old ↦ single old
                  | inr t ↦ inr (other there multi t)
                ]
        ]
    | inr gone ↦ inl (rw gone at m)
  ]

  with_device-kept :
      (slot : ℕ) (list : List PciDevice) → Memᴰ d list → Memᴰ d (with_device ind bus slot list)
  with_device-kept slot list m = elim (Bool-cases (function_exists ind bus slot 0)) [
    | inl there ↦ elim (Bool-cases (is_dev_multifunction ind bus slot 0 == 0)) [
      | inl alone ↦ rw (there, alone) (Memᴰ.append_left _ m)
      | inr multi ↦
          rw (there, multi) (add_functions-kept ind bus slot d 7 1 _ (Memᴰ.append_left _ m))
    ]
    | inr gone ↦ rw gone m
  ]

  with_device-found :
      (slot : ℕ) (list : List PciDevice)
      → OnSlot ind bus slot d
      → Memᴰ d (with_device ind bus slot list)
  with_device-found slot list (first there e) =
      elim (Bool-cases (is_dev_multifunction ind bus slot 0 == 0)) [
        | inl alone ↦ rw (there, alone) (Memᴰ.append_right list (Memᴰ.head e))
        | inr multi ↦
            rw (there, multi)
              (add_functions-kept ind bus slot d 7 1 _ (Memᴰ.append_right list (Memᴰ.head e)))
      ]
  with_device-found slot list (other there multi t) =
      rw (there, multi) (add_functions-found ind bus slot d 7 1 _ t)

  -- A device of the slots from `lo` up to `hi`.
  abbrev Between : ℕ → ℕ → Type 0
  Between lo hi = (lo ≤ d.device) × (d.device < hi) × OnSlot ind bus d.device d

  -- The list of a scan is that before it with the devices of the slots.
  abbrev Lists : List PciDevice → ℕ → ℕ → Scan → Type 0
  Lists list lo hi (scanned l) =
      (Memᴰ d l → Memᴰ d list ⊎ Between lo hi) × (Memᴰ d list ⊎ Between lo hi → Memᴰ d l)
  Lists list lo hi too_deep = ⊥

  step-Lists :
      (list : List PciDevice) (i hi : ℕ) (r : Scan)
      → i < hi
      → Lists (with_device ind bus i list) (i + 1) hi r
      → Lists list i hi r
  step-Lists list i hi (scanned l) lt z = (
    λ m. elim (z.0 m) [
      | inl old ↦ elim (with_device-OnSlot i list old) [
        | inl older ↦ inl older
        | inr on ↦
            let e = device_of i on in
            inr (omega (arith, e), omega (arith, e), subst (λ s. OnSlot ind bus s d) (sym e) on)
      ]
      | inr b ↦ inr (omega (arith, b.0), b.1, b.2)
    ],
    λ c. z.1 (elim c [
      | inl old ↦ inl (with_device-kept i list old)
      | inr b ↦ elim (Bool-cases (d.device == i)) [
        | inl is ↦
            let e : d.device ≡ i = ground (arith, is) in
            inl (with_device-found i list (subst (λ s. OnSlot ind bus s d) e (b.2)))
        | inr apart ↦ inr (ground (arith, apart, b.0), b.1, b.2)
      ]
    ]),
  )
  step-Lists list i hi too_deep lt z = z

  pub scan_slots-Lists :
      (below : ℕ → List PciDevice → Scan) (left i : ℕ) (list : List PciDevice)
      → ((slot : ℕ) → slot < i + left → is_bridge ind bus slot 0 ≡ false)
      → Lists list i (i + left) (scan_slots left i ind below bus list)
  unfolding scan_slots bind_scan
  scan_slots-Lists below zero i list plain =
      (λ m. inl m, λ c. elim c [ inl old ↦ old | inr b ↦ absurd (omega (arith, b.0, b.1)) ])
  scan_slots-Lists below (suc left) i list plain =
      let e : i + 1 + left ≡ i + suc left = omega arith in
      rw (scan_device-with_device ind below bus i list (plain i (omega arith))) (
        step-Lists list i (i + suc left) _ (omega arith) (
          subst
            (λ h.
              Lists (with_device ind bus i list) (i + 1) h
                (scan_slots left (i + 1) ind below bus (with_device ind bus i list)))
            e
            (scan_slots-Lists below left (i + 1) (with_device ind bus i list)
              (λ slot lt. plain slot (omega (arith, lt))))))

-- What `pci_init` is to list: the functions of bus 0 that are there, and no others.
abbrev pub ListsBus : (ℕ → ℕ) → Scan → Type 0
ListsBus ind (scanned list) =
    (d : PciDevice) → Memᴰ d list ↔ ((d.device < 32) × OnSlot ind 0 d.device d)
ListsBus ind too_deep = ⊥

lists_bus : (ind : ℕ → ℕ) (r : Scan) → ((d : PciDevice) → Lists ind 0 d [] 0 32 r) → ListsBus ind r
lists_bus ind (scanned list) z = λ d. (
  λ m. elim ((z d).0 m) [ inl old ↦ absurd (Memᴰ.not-nil old) | inr b ↦ (b.1, b.2) ],
  λ b. (z d).1 (inr (omega arith, b.0, b.1)),
)
lists_bus ind too_deep z = z (read_device ind 0 0 0)

-- When function 0 of no slot of bus 0 reads as a bridge, `pci_init` ends, whatever the depth allowed,
-- and a device is in its list if and only if it is what is read of a function that is there: function
-- 0 of one of the 32 slots, or another of the 8 functions of a slot whose function 0 is there and
-- says that it has several.
pub pci_init-ListsBus : (fuel : ℕ) (ind : ℕ → ℕ) → NoBridge ind 0 → ListsBus ind (pci_init fuel ind)
unfolding pci_init
pci_init-ListsBus fuel ind plain = lists_bus ind (pci_init fuel ind) (λ d.
    scan_slots-Lists ind 0 d (λ sub l. pci_scan_bus fuel ind sub l) 32 0 []
      (λ slot lt. plain slot (omega (arith, lt))))
