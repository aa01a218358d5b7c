-- ===== src/Pci/Found.antt =====
-- Which devices the scan of a bus lists.
use horizon.Common.{
  ℕ, zero, suc, false, true, inl, inr, [], ◌∷◌, List, ◌+◌, ◌≤◌, ◌<◌, ◌≡◌, refl, sym, ap, subst, ◌∙◌,
  ◌⊎◌, Bool, ◌++◌, arith, ◌==◌, if◌then◌else◌, Bool-cases,
}
use horizon.Pci.{function_exists, PciDevice, read_device, add_functions}
use mathlib.Core.List.{Memᴰ}
use mathlib.Core.List.Memᴰ

-- A function between `lo` and `hi` of a slot that is there, with what is read of it.
pub record IsThere (ind : ℕ → ℕ) (bus slot lo hi : ℕ) (d : PciDevice) : Type 0 where
  pub same : d ≡ read_device ind bus slot d.func
  pub from : lo ≤ d.func
  pub to : d.func < hi
  pub there : function_exists ind bus slot d.func ≡ true

IsThere-read_device :
    (ind : ℕ → ℕ) (bus slot i hi : ℕ) (d : PciDevice)
    → d ≡ read_device ind bus slot i
    → i < hi
    → function_exists ind bus slot i ≡ true
    → IsThere ind bus slot i hi d
unfolding read_device
IsThere-read_device ind bus slot i hi d e lt there =
    let same : d.func ≡ i = ap (λ x. x.func) e in
    record {
      same = e ∙ ap (read_device ind bus slot) (sym same);
      from = omega (arith, same);
      to = omega (arith, same);
      there = rw same there;
    }

module _ (ind : ℕ → ℕ) (bus slot : ℕ) (d : PciDevice) where
  added_case :
      (i hi : ℕ) (list : List PciDevice) (b : Bool)
      → function_exists ind bus slot i ≡ b
      → i < hi
      → Memᴰ d (if b then list ++ (read_device ind bus slot i ∷ []) else list)
      → Memᴰ d list ⊎ IsThere ind bus slot i hi d
  added_case i hi list true e lt m = elim (Memᴰ.append_cases list m) [
    | inl old ↦ inl old
    | inr new ↦ inr (IsThere-read_device ind bus slot i hi d (Memᴰ.eq_of_singleton new) lt e)
  ]
  added_case i hi list false e lt m = inl m

  widen : (i lo hi : ℕ) → lo ≤ i → IsThere ind bus slot i hi d → IsThere ind bus slot lo hi d
  widen i lo hi le t = record {
    same = t.same;
    from = omega (arith, t.from);
    to = t.to;
    there = t.there;
  }

  pub add_functions-IsThere :
      (left i : ℕ) (list : List PciDevice)
      → Memᴰ d (add_functions left i ind bus slot list)
      → Memᴰ d list ⊎ IsThere ind bus slot i (i + left) d
  unfolding add_functions
  add_functions-IsThere zero i list m = inl m
  add_functions-IsThere (suc left) i list m =
      let e : i + 1 + left ≡ i + suc left = omega arith in
      elim (add_functions-IsThere left (i + 1) _ m) [
        | inl old ↦
            added_case i (i + suc left) list (function_exists ind bus slot i) refl (omega arith) old
        | inr t ↦ inr (
            subst (λ h. IsThere ind bus slot i h d) e
              (widen (i + 1) i (i + 1 + left) (omega arith) t))
      ]

  pub add_functions-kept :
      (left i : ℕ) (list : List PciDevice)
      → Memᴰ d list
      → Memᴰ d (add_functions left i ind bus slot list)
  unfolding add_functions
  add_functions-kept zero i list m = m
  add_functions-kept (suc left) i list m =
      add_functions-kept left (i + 1) _ (elim (Bool-cases (function_exists ind bus slot i)) [
        | inl is ↦ rw is (Memᴰ.append_left _ m)
        | inr other ↦ rw other m
      ])

  pub add_functions-found :
      (left i : ℕ) (list : List PciDevice)
      → IsThere ind bus slot i (i + left) d
      → Memᴰ d (add_functions left i ind bus slot list)
  unfolding add_functions
  add_functions-found zero i list t = absurd (omega (arith, t.from, t.to))
  add_functions-found (suc left) i list t = elim (Bool-cases (d.func == i)) [
    | inl is ↦
        let e : d.func ≡ i = ground (arith, is) in
        let there : function_exists ind bus slot i ≡ true =
          subst (λ x. function_exists ind bus slot x ≡ true) e t.there in
        let same : d ≡ read_device ind bus slot i = t.same ∙ ap (read_device ind bus slot) e in
        add_functions-kept left (i + 1) _ (rw there (Memᴰ.append_right list (Memᴰ.head same)))
    | inr other ↦ add_functions-found left (i + 1) _ (record {
      same = t.same;
      from = ground (arith, other, t.from);
      to = omega (arith, t.to);
      there = t.there;
    })
  ]
