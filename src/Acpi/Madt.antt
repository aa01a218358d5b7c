-- ===== src/Acpi/Madt.antt =====
-- kernel/src/sys/acpi/madt.c: the records behind the header of the table, in the order of the scan.
use horizon.Common.{
  ℕ, zero, suc, none, some, [], ◌∷◌, ◌+◌, ◌≤◌, ◌<◌, ◌-◌, refl, sym, true, Option, List, arith, ltb,
  leb, ◌==◌, if◌then◌else◌, length, sub64, ◌≡◌, subst, false,
}
use horizon.Memory.{Mem}
use horizon.Memory.Words.{load32}

-- The pointers recorded, the last one first.
pub record Apics : Type 0 where
  pub local_apics : List ℕ
  pub io_apics : List ℕ

abbrev pub max_cpus : ℕ
max_cpus = 256

abbrev pub max_io_apics : ℕ
max_io_apics = 2

-- The `switch` on the type of the record at `record_at`. The IO APICS are counted with `>`.
unfoldable pub classify : Mem → ℕ → Apics → Apics
classify m record_at a =
    if m record_at == 0
    then if leb max_cpus (length a.local_apics)
      then a
      else record a { local_apics = record_at ∷ a.local_apics }
    else if m record_at == 1
    then if ltb max_io_apics (length a.io_apics)
      then a
      else record a { io_apics = record_at ∷ a.io_apics }
    else a

-- The loop over the `size` bytes of records: no result when it outruns the fuel, as it does at a
-- record of length 0.
unfoldable pub madt_loop : ℕ → Mem → ℕ → ℕ → ℕ → Apics → Option Apics
madt_loop zero m records size i a = none
madt_loop (suc fuel) m records size i a =
    let rest =
      madt_loop fuel m records size (i + m (records + i + 1)) (classify m (records + i) a) in
    if ltb i size then rest else some a

-- sizeof(MADT): the header, the address of the local APIC and the flags.
abbrev pub madt_size : ℕ
madt_size = 44

unfoldable pub madt_init : Mem → ℕ → Option Apics
madt_init m madt =
    let size = sub64 (load32 m (madt + 4)) madt_size in
    madt_loop (size + 1) m (madt + madt_size) size 0 (record { local_apics = []; io_apics = [] })

-- The addresses of the records, in their order, from offset `i` of the `size` bytes on: each ends
-- where the next one starts, and none is of length 0.
abbrev pub Records : Mem → ℕ → ℕ → ℕ → List ℕ → Type 0
Records m records size i [] = size ≤ i
Records m records size i (r ∷ rs) =
    (r ≡ records + i)
    × (i < size)
    × (1 ≤ m (records + i + 1))
    × Records m records size (i + m (records + i + 1)) rs

-- The records of one type.
unfoldable pub of_type : Mem → ℕ → List ℕ → List ℕ
of_type m type [] = []
of_type m type (r ∷ rs) = if m r == type then r ∷ of_type m type rs else of_type m type rs

unfoldable pub take : ℕ → List ℕ → List ℕ
take zero rs = []
take (suc n) [] = []
take (suc n) (r ∷ rs) = r ∷ take n rs

-- The elements of the first list put in front of the second one by one.
unfoldable pub push_all : List ℕ → List ℕ → List ℕ
push_all [] acc = acc
push_all (r ∷ rs) acc = push_all rs (r ∷ acc)

-- What is to be recorded of `rs` beside what `a` holds, with room for 256 and for 3.
abbrev pub recorded : Mem → List ℕ → Apics → Apics
recorded m rs a = record {
  local_apics = push_all (take (256 - length a.local_apics) (of_type m 0 rs)) a.local_apics;
  io_apics = push_all (take (3 - length a.io_apics) (of_type m 1 rs)) a.io_apics;
}

-- A record that fits is put in front, one that does not is dropped.
take-full :
    (limit : ℕ) (rs acc : List ℕ)
    → limit ≤ length acc
    → push_all (take (limit - length acc) rs) acc ≡ acc
take-full limit rs acc full =
    let e : limit - length acc ≡ 0 = omega arith in
    subst (λ n. push_all (take n rs) acc ≡ acc) (sym e) (unfold take push_all in refl)

take-room :
    (limit r : ℕ) (rs acc : List ℕ)
    → length acc < limit
    → push_all (take (limit - length acc) (r ∷ rs)) acc
      ≡ push_all (take (limit - length (r ∷ acc)) rs) (r ∷ acc)
take-room limit r rs acc room =
    let e : limit - length acc ≡ suc (limit - length (r ∷ acc)) = omega arith in
    subst
      (λ n.
        push_all (take n (r ∷ rs)) acc ≡ push_all (take (limit - length (r ∷ acc)) rs) (r ∷ acc))
      (sym e) (unfold take push_all in refl)

recorded-classify :
    (m : Mem) (r : ℕ) (rs : List ℕ) (a : Apics)
    → recorded m (r ∷ rs) a ≡ recorded m rs (classify m r a)
unfolding classify of_type
recorded-classify m r rs a = ground (
  arith,
  take-full 256 (of_type m 0 rs) a.local_apics,
  take-full 256 (r ∷ of_type m 0 rs) a.local_apics,
  take-room 256 r (of_type m 0 rs) a.local_apics,
  take-full 3 (of_type m 1 rs) a.io_apics,
  take-full 3 (r ∷ of_type m 1 rs) a.io_apics,
  take-room 3 r (of_type m 1 rs) a.io_apics,
)

take-none : (n : ℕ) (acc : List ℕ) → push_all (take n []) acc ≡ acc
unfolding take push_all
take-none zero acc = refl
take-none (suc n) acc = refl

recorded-none : (m : Mem) (a : Apics) → recorded m [] a ≡ a
unfolding of_type
recorded-none m a =
    rw
      (
        take-none (256 - length a.local_apics) a.local_apics,
        take-none (3 - length a.io_apics) a.io_apics,
      )
      refl

madt_loop-recorded :
    (fuel : ℕ) (m : Mem) (records size i : ℕ) (rs : List ℕ) (a : Apics)
    → Records m records size i rs
    → size ≤ i + fuel
    → madt_loop (suc fuel) m records size i a ≡ some (recorded m rs a)
unfolding madt_loop
madt_loop-recorded fuel m records size i [] a over enough =
    let done : ltb i size ≡ false = ground arith in rw (done, recorded-none m a) refl
madt_loop-recorded zero m records size i (r ∷ rs) a (at, more, long, rest) enough =
    absurd (omega arith)
madt_loop-recorded (suc fuel) m records size i (r ∷ rs) a (at, more, long, rest) enough =
    let go : ltb i size ≡ true = ground arith in
    rw (go, recorded-classify m r rs a, at)
      (madt_loop-recorded fuel m records size (i + m (records + i + 1)) rs
        (classify m (records + i) a) rest (omega arith))

-- If the bytes behind the header of the table are records that end where the next one starts, none
-- of length 0, the scan ends within its fuel. It has recorded, in their order, the first 256 of the
-- records of type 0 as local APICS and the first 3 of those of type 1 as IO APICS, and no other.
pub madt_init-recorded :
    (m : Mem) (madt : ℕ) (rs : List ℕ)
    → Records m (madt + 44) (sub64 (load32 m (madt + 4)) 44) 0 rs
    → madt_init m madt
      ≡ some (record {
        local_apics = push_all (take 256 (of_type m 0 rs)) [];
        io_apics = push_all (take 3 (of_type m 1 rs)) [];
      })
unfolding madt_init
madt_init-recorded m madt rs table =
    let size : ℕ = sub64 (load32 m (madt + 4)) 44 in
    let e : suc size ≡ size + 1 = omega arith in
    let empty : Apics = record { local_apics = []; io_apics = [] } in
    subst (λ fuel. madt_loop fuel m (madt + 44) size 0 empty ≡ some (recorded m rs empty)) e
      (madt_loop-recorded size m (madt + 44) size 0 rs empty table (omega arith))
