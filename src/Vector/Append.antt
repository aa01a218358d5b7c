-- ===== src/Vector/Append.antt =====
-- `vector_append` of a word implements appending to a sequence.
use horizon.Common.{
  ℕ, inl, inr, false, true, [], ◌∷◌, ◌+◌, ◌-◌, ◌*◌, ◌%◌, ◌^◌, ◌≤◌, ◌<◌, ◌≡◌, refl, ap, ◌∙◌, Bool,
  ◌||◌, arith, length, sym, subst, ltb, Bool-cases, u64,
}
use horizon.Kmalloc.{ok, halted, no_fuel, Machine, Run, krealloc_impl}
use horizon.Vector.Laws.{
  block, empty, Appended, IsVector, AppendedRun, stored, stored-IsLive, stored-words, stored-Kept,
}
use horizon.Kmalloc.Frame.{Kept, page_address, IsLive, IsSafe, nothing}
use horizon.Kmalloc.Grow.{Grown, GrownRun, krealloc_null-Grown, krealloc_impl-Grown}
use horizon.Memory.Words.{load64_shift, load64}
use horizon.Pmm.Scan.{in_range}
use horizon.Pmm.{num_pages}
use horizon.Pmm.Pages.{page_free}
use horizon.Vector.{store_words, Vector, bind_run, vector_append}

-- The store of the last element, seen from the machine before the block grew.
module _ (pages : ℕ) (m0 m : Machine) (owned : ℕ → Bool) (b capacity n : ℕ) (f : ℕ → ℕ) (x : ℕ)
    (s : IsSafe pages m) (l : IsLive pages m b capacity) (room : 8 * (n + 1) ≤ capacity)
    (words : (i : ℕ) → i < n → load64 m.byte (page_address b + 4096 + 8 * i) ≡ f i % 2 ^ 64)
    (kept : Kept owned m0 m)
    (own : (q : ℕ)
      → in_range b (num_pages capacity + 1) q ≡ true
      → (page_free m0.kmem.bitmap q || owned q) ≡ true) where
  last_stored-Appended :
      Appended pages m0 owned n f x
        (record { length = n + 1; capacity = capacity; elements = page_address b + 4096 })
        (stored pages m b capacity n f x s l room words)
  last_stored-Appended = record {
    owned' = in_range b (num_pages capacity + 1);
    vector = record {
      storage = block b refl (stored-IsLive pages m b capacity n f x s l room words) (λ q. refl);
      count = refl;
      fits = room;
      words = stored-words pages m b capacity n f x s l room words;
    };
    safe = record { valid = s.valid; limit = s.limit; few = s.few };
    kept = λ q low used out.
        let before = kept q low used out in
        let after =
          stored-Kept pages m b capacity n f x s l room words q low (before.0)
            (ground (arith, own q, used, out)) in
        (after.0, λ y inside. after.1 y inside ∙ before.1 y inside);
    own = own;
  }

  pub stored_vector-Appended :
      (length elements : ℕ)
      → length ≡ n + 1
      → elements ≡ page_address b + 4096
      → Appended pages m0 owned n f x
          (record { length = length; capacity = capacity; elements = elements })
          (record m { byte = store_words m.byte (elements + (length - 1) * 8) (x ∷ []) })
  unfolding store_words
  stored_vector-Appended length elements el ee =
      let at : page_address b + 4096 + 8 * n ≡ page_address b + 4096 + (n + 1 - 1) * 8 =
        omega arith in
      rw (el, ee, ← at) last_stored-Appended

-- The elements of a vector that `krealloc` has moved.
load64-Grown :
    (pages : ℕ) (m m' : Machine) (lost : ℕ → Bool) (address old size p n : ℕ) (f : ℕ → ℕ)
    → (g : Grown pages m lost address old size p m') → 8 * n ≤ old
    → old ≤ size
    → ((i : ℕ) → i < n → load64 m.byte (address + 8 * i) ≡ f i % 2 ^ 64)
    → (i : ℕ) → i < n
    → load64 m'.byte (page_address g.page + 4096 + 8 * i) ≡ f i % 2 ^ 64
load64-Grown pages m m' lost address old size p n f g few more words i lt =
    load64_shift m'.byte m.byte (page_address g.page + 4096 + 8 * i) (address + 8 * i) (λ j small.
      ap m'.byte {x = page_address g.page + 4096 + 8 * i + j} {y = p + (8 * i + j)}
        (omega (arith, g.place))
      ∙ g.contents (8 * i + j) (omega arith) (omega arith)
      ∙ ap m.byte {x = address + (8 * i + j)} {y = address + 8 * i + j} (omega arith))
    ∙ words i lt

-- What follows the growth of the storage.
abbrev then_put : ℕ → ℕ → ℕ → Run ℕ → Run Vector
then_put length grown x r = bind_run r (λ elements m'.
    ok (record { length = length; capacity = grown; elements = elements })
      (record m' { byte = store_words m'.byte (elements + (length - 1) * 8) (x ∷ []) }))

module _ (pages : ℕ) (m : Machine) (v : Vector) (owned : ℕ → Bool) (n : ℕ) (f : ℕ → ℕ) (x : ℕ)
    (func line : ℕ) (s : IsSafe pages m) (vec : IsVector pages m v owned n f) where
  put_grown :
      (lost : ℕ → Bool) (address old : ℕ) (r : Run ℕ)
      → ((q : ℕ) → lost q ≡ owned q)
      → 8 * n ≤ old
      → old ≤ 32 * (n + 1)
      → ((i : ℕ) → i < n → load64 m.byte (address + 8 * i) ≡ f i % 2 ^ 64)
      → GrownRun pages m lost address old (32 * (n + 1)) r
      → AppendedRun pages m owned n f x (then_put (n + 1) (32 * (n + 1)) x r)
  unfolding bind_run
  put_grown lost address old (ok p m') same few more words g =
      stored_vector-Appended pages m m' owned g.page (32 * (n + 1)) n f x g.safe g.live
        (omega arith)
        (load64-Grown pages m m' lost address old (32 * (n + 1)) p n f g few more words)
        (λ q low used out. g.kept q low used (ground (arith, same q)))
        (λ q inside. ground (arith, same q, g.own q inside)) (n + 1) p refl g.place
  put_grown lost address old halted same few more words g = tt
  put_grown lost address old no_fuel same few more words g = absurd g

  small_count : 8 * n ≤ 2 ^ 46
  small_count = elim vec.storage [
    | empty e c o ↦ omega (arith, vec.fits, c)
    | block b e l o ↦ omega (arith, vec.fits, l.below, l.low, s.few)
  ]

  new_length : u64 (v.length + 1) ≡ n + 1
  new_length = omega (arith, vec.count, small_count)

  when_grown :
      ltb v.capacity (8 * (n + 1)) ≡ true
      → AppendedRun pages m owned n f x
          (then_put (n + 1) (32 * (n + 1)) x (krealloc_impl m v.elements (32 * (n + 1)) func line))
      → AppendedRun pages m owned n f x (vector_append m v 8 (x ∷ []) func line)
  unfolding vector_append
  when_grown test goal =
      let bytes : u64 ((n + 1) * 8) ≡ 8 * (n + 1) = omega (arith, small_count) in
      let grown : u64 ((n + 1) * 8 * 4) ≡ 32 * (n + 1) = omega (arith, small_count) in
      rw (new_length, bytes, grown, test) goal

  when_room :
      ltb v.capacity (8 * (n + 1)) ≡ false
      → Appended pages m owned n f x
          (record { length = n + 1; capacity = v.capacity; elements = v.elements })
          (record m { byte = store_words m.byte (v.elements + (n + 1 - 1) * 8) (x ∷ []) })
      → AppendedRun pages m owned n f x (vector_append m v 8 (x ∷ []) func line)
  unfolding vector_append
  when_room test goal =
      let bytes : u64 ((n + 1) * 8) ≡ 8 * (n + 1) = omega (arith, small_count) in
      rw (new_length, bytes, test) goal

  -- On a safe machine, `vector_append` of a word to a vector of `n` elements gives the vector of
  -- those elements with the new one behind, and keeps the pages in use that are not the vector's;
  -- or the system halts.
  pub vector_append-Appended :
      AppendedRun pages m owned n f x (vector_append m v 8 (x ∷ []) func line)
  vector_append-Appended = elim vec.storage [
    | empty e c o ↦
        let none_yet : n ≡ 0 = omega (arith, vec.fits, c) in
        when_grown (ground (arith, c)) (
          put_grown nothing 0 0 (krealloc_impl m v.elements (32 * (n + 1)) func line)
            (λ q. sym (o q)) (omega (arith, none_yet)) (omega arith)
            (λ i lt. absurd (omega (arith, lt, none_yet)))
            (rw e (
              krealloc_null-Grown pages m (32 * (n + 1)) func line s (omega (arith, small_count)))))
    | block b e l o ↦
        let words : (i : ℕ) → i < n → load64 m.byte (page_address b + 4096 + 8 * i) ≡ f i % 2 ^ 64 =
          λ i lt. subst (λ a. load64 m.byte (a + 8 * i) ≡ f i % 2 ^ 64) e (vec.words i lt) in
        elim (Bool-cases (ltb v.capacity (8 * (n + 1)))) [
          | inl test ↦ when_grown test (
              put_grown (in_range b (num_pages v.capacity + 1)) (page_address b + 4096) v.capacity
                (krealloc_impl m v.elements (32 * (n + 1)) func line) (λ q. sym (o q)) vec.fits
                (ground (arith, test)) words
                (rw e (
                  krealloc_impl-Grown pages m b v.capacity (32 * (n + 1)) func line s l
                    (omega (arith, small_count)))))
          | inr test ↦ when_room test (
              stored_vector-Appended pages m m owned b v.capacity n f x s l (ground (arith, test))
                words (λ q low used out. (used, λ y inside. refl)) (λ q inside. ground (arith, o q))
                (n + 1) v.elements refl e)
        ]
  ]
