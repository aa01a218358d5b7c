-- ===== src/Kmalloc/Grow.antt =====
-- `krealloc` in terms of pages, as a growing vector uses it.
use horizon.Common.{
  ℕ, inl, inr, false, true, ◌+◌, ◌-◌, ◌^◌, ◌<◌, ◌≡◌, sym, ap, subst, ◌∙◌, Bool, ◌||◌, arith, ◌*◌,
  ◌/◌, ◌≤◌, refl, ◌==◌, Bool-cases,
}
use horizon.Kmalloc.{ok, halted, no_fuel, Machine, Run, kmalloc_impl, krealloc_impl}
use horizon.Pmm.{num_pages, pm_free}
use horizon.Kmalloc.Frame.{
  Fresh, Kept, kmalloc_impl-Fresh, nothing, IsLive, IsSafe, KmallocedFresh, page_address,
}
use horizon.Pmm.Scan.{in_range, Fits}
use horizon.Kmalloc.Header.{Describes}
use horizon.Kmalloc.Realloc.{Resized, krealloc_impl-Resized}
use horizon.Kmalloc.Move.{MovedTo, Separate, Moved, krealloc_impl-Moved}
use horizon.Pmm.Pages.{page_free}
use horizon.Pmm.Valid.{IsValid}
use horizon.Pmm.Init.{virt_to_phys}
use horizon.Pmm.Free.{pm_free-IsValid, pm_free_lem}
use horizon.Pmm.Limit.{physical_limit-pm_free}
use horizon.Memory.Words.{load64}

-- What `krealloc` makes of a block of `old` bytes at `address`, whose pages are `lost`.
pub record Grown (pages : ℕ) (m : Machine) (lost : ℕ → Bool) (address old size p : ℕ) (m' : Machine)
    : Type 0 where
  pub page : ℕ
  pub place : p ≡ page_address page + 4096
  pub safe : IsSafe pages m'
  pub live : IsLive pages m' page size
  pub kept : Kept lost m m'
  pub own :
      (q : ℕ)
      → in_range page (num_pages size + 1) q ≡ true
      → (page_free m.kmem.bitmap q || lost q) ≡ true
  pub contents : (j : ℕ) → j < old → j < size → m'.byte (p + j) ≡ m.byte (address + j)

abbrev pub GrownRun : ℕ → Machine → (ℕ → Bool) → ℕ → ℕ → ℕ → Run ℕ → Type 0
GrownRun pages m lost address old size (ok p m') = Grown pages m lost address old size p m'
GrownRun pages m lost address old size halted = Unit
GrownRun pages m lost address old size no_fuel = ⊥

fresh-Grown :
    (pages : ℕ) (m : Machine) (size : ℕ) (r : Run ℕ)
    → KmallocedFresh pages m size r
    → GrownRun pages m nothing 0 0 size r
fresh-Grown pages m size (ok p m') f = record {
  page = f.page;
  place = f.place;
  safe = f.safe;
  live = f.live;
  kept = f.kept;
  own = λ q inside. ground (arith, f.was_free q inside);
  contents = λ j lt lt'. absurd (omega arith);
}
fresh-Grown pages m size halted f = f
fresh-Grown pages m size no_fuel f = f

-- From NULL.
pub krealloc_null-Grown :
    (pages : ℕ) (m : Machine) (size func line : ℕ)
    → IsSafe pages m
    → size < 2 ^ 50
    → GrownRun pages m nothing 0 0 size (krealloc_impl m 0 size func line)
unfolding krealloc_impl
krealloc_null-Grown pages m size func line s small =
    fresh-Grown pages m size (kmalloc_impl m size func line)
      (kmalloc_impl-Fresh pages m size func line s small)

module _ (pages : ℕ) (m : Machine) (b old size func line : ℕ) (s : IsSafe pages m)
    (l : IsLive pages m b old) (small : size < 2 ^ 50) where
  abbrev block : ℕ → Bool
  block = in_range b (num_pages old + 1)

  abbrev at : ℕ
  at = page_address b + 4096

  meta_at : page_address b ≡ at - 4096
  meta_at = omega (arith, l.low)

  described_at : Describes m.byte (at - 4096) old
  described_at = subst (λ x. Describes m.byte x old) meta_at l.described

  same_pages-Grown :
      (r : Run ℕ)
      → num_pages old ≡ num_pages size
      → Resized m at size r
      → GrownRun pages m block at old size r
  same_pages-Grown (ok p m') same z = record {
    page = b;
    place = z.0;
    safe = record {
      few = s.few;
      valid = subst (IsValid pages) (sym z.1) s.valid;
      limit = omega (arith, ap (λ k. k.physical_limit) z.1, s.limit);
    };
    live = record {
      described = subst (λ x. Describes m'.byte x size) (sym meta_at) z.2;
      used = λ q inside. ap (λ k. page_free k.bitmap q) z.1 ∙ l.used q (ground (arith, same));
      below = omega (arith, same, l.below);
      low = (l.low.0, small);
    };
    kept = λ q low used out. (
      ap (λ k. page_free k.bitmap q) z.1 ∙ used,
      λ x inside. z.3 x (ground (arith, l.low, meta_at)),
    );
    own = λ q inside. ground (arith, same);
    contents =
        λ j lt lt'. ap m'.byte (ap (λ a. a + j) z.0) ∙ z.3 (at + j) (ground (arith, meta_at));
  }
  same_pages-Grown halted same z = absurd z
  same_pages-Grown no_fuel same z = z

  apart_blocks : (p : ℕ) (m1 : Machine) → (f : Fresh pages m size p m1) → Separate p size at old
  apart_blocks p m1 f =
      ground (
        arith,
        f.place,
        f.was_free f.page,
        f.was_free b,
        l.used f.page,
        l.used b,
        f.live.low,
        l.low,
      )

  moved-Grown :
      (p : ℕ) (m1 m' : Machine)
      → Fresh pages m size p m1
      → MovedTo m m1 m' p at old size
      → Grown pages m block at old size p m'
  moved-Grown p m1 m' f z =
      let n : ℕ = num_pages old + 1 in
      let phys : virt_to_phys (at - 4096) ≡ b * 4096 = omega (arith, l.low) in
      let state : m'.kmem ≡ (pm_free m1.kmem (b * 4096) n).0 =
        z.old_freed ∙ ap (λ a. (pm_free m1.kmem a n).0) phys in
      let fits : Fits (b * 4096) n = omega (arith, l.low) in
      let below : b * 4096 / 4096 + n ≤ pages = omega (arith, l.below) in
      let freed : (q : ℕ)
          → page_free m'.kmem.bitmap q ≡ (in_range b n q || page_free m1.kmem.bitmap q) =
        λ q. ground (
          arith,
          ap (λ k. page_free k.bitmap q) state,
          (pm_free_lem m1.kmem (b * 4096) n fits f.safe.valid.bytes).0 q,
        ) in
      let new_at : page_address f.page ≡ p - 4096 = omega (arith, f.place) in
      record {
        page = f.page;
        place = f.place;
        safe = record {
          few = s.few;
          valid =
              subst (IsValid pages) (sym state)
                (pm_free-IsValid pages m1.kmem (b * 4096) n below f.safe.valid);
          limit = omega (
            arith,
            ap (λ k. k.physical_limit) state,
            physical_limit-pm_free m1.kmem (b * 4096) n,
            f.safe.limit,
          );
        };
        live = record {
          described = subst (λ x. Describes m'.byte x size) (sym new_at) z.described;
          used = λ q inside. ground (arith, freed q, f.live.used q, f.was_free q, l.used q);
          below = f.live.below;
          low = f.live.low;
        };
        kept = λ q low used out. (
          ground (arith, freed q, (f.kept q low used refl).0),
          λ x inside.
              z.rest_kept x (ground (arith, new_at, used, f.was_free q, f.live.low, f.place))
                (ground (arith, meta_at, l.low)),
        );
        own = λ q inside. ground (arith, f.was_free q inside);
        contents = λ j lt lt'. ground (arith, z.contents j lt');
      }

  other_block-Grown :
      (p : ℕ) (m1 : Machine) (r : Run ℕ)
      → Fresh pages m size p m1
      → Moved m m1 p at old size r
      → GrownRun pages m block at old size r
  other_block-Grown p m1 (ok q m') f z =
      subst (λ x. Grown pages m block at old size x m') (sym z.0) (moved-Grown p m1 m' f z.1)
  other_block-Grown p m1 halted f z = absurd z
  other_block-Grown p m1 no_fuel f z = z

  krealloc_impl-halted :
      (num_pages old == num_pages size) ≡ false
      → kmalloc_impl m size func line ≡ halted
      → krealloc_impl m at size func line ≡ halted
  unfolding krealloc_impl
  krealloc_impl-halted differ e =
      let live : (at == 0) ≡ false = ground arith in
      let moves : (num_pages (load64 m.byte (at - 4096 + 24)) == num_pages size) ≡ false =
        ground (arith, described_at.bytes) in
      rw (live, moves, e) refl

  moved_outcome :
      (r1 : Run ℕ)
      → (num_pages old == num_pages size) ≡ false
      → kmalloc_impl m size func line ≡ r1
      → KmallocedFresh pages m size r1
      → GrownRun pages m block at old size (krealloc_impl m at size func line)
  moved_outcome (ok p m1) differ e f =
      other_block-Grown p m1 (krealloc_impl m at size func line) f (
        krealloc_impl-Moved m m1 at old size func line p (omega arith) (omega (arith, l.low))
          (omega arith) described_at differ e (apart_blocks p m1 f))
  moved_outcome halted differ e f =
      subst (GrownRun pages m block at old size) (sym (krealloc_impl-halted differ e)) tt
  moved_outcome no_fuel differ e f = absurd f

  -- `krealloc` of a live block on a safe machine gives a live block of the new size that keeps the
  -- bytes up to the smaller size, on free pages or on those of the old block; every other page in
  -- use stays in use and keeps its bytes. Or the system halts.
  pub krealloc_impl-Grown : GrownRun pages m block at old size (krealloc_impl m at size func line)
  krealloc_impl-Grown = elim (Bool-cases (num_pages old == num_pages size)) [
    | inl same ↦
        let e : num_pages old ≡ num_pages size = ground (arith, same) in
        same_pages-Grown (krealloc_impl m at size func line) e
          (krealloc_impl-Resized m at old size func line (omega arith) (omega arith) described_at e)
    | inr differ ↦
        moved_outcome (kmalloc_impl m size func line) differ refl
          (kmalloc_impl-Fresh pages m size func line s small)
  ]
