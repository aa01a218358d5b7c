-- ===== src/Cmos/Laws.antt =====
-- A time that the chip holds still is read, and read as what it stands for.
use horizon.Common.{
  ℕ, zero, suc, none, some, ◌+◌, ◌*◌, ◌/◌, ◌%◌, ◌<◌, ◌≡◌, refl, ap, true, false, arith, ltb, ◌==◌,
  if◌then◌else◌, u8, u16, ◌-◌, subst, inl, inr, Option, Bool-cases, not, ◌≤◌, ◌≢◌,
}
use horizon.Cmos.{
  full_year, convert_hours, check_time_eq, convert_fields, convert_time, Time, to_binary, read_loop,
  read_time,
}

-- The two decimal digits of a number as the chip keeps them.
abbrev pub bcd : ℕ → ℕ
bcd n = n / 10 * 16 + n % 10

abbrev pub encoded : Time → Time
encoded t = record {
  seconds = bcd t.seconds;
  minutes = bcd t.minutes;
  hours = bcd t.hours;
  weekdays = bcd t.weekdays;
  day = bcd t.day;
  month = bcd t.month;
  year = bcd t.year;
  century = bcd t.century;
}

-- Every field has two decimal digits, and the hours are those of a day.
pub record IsClock (t : Time) : Type 0 where
  pub seconds_lt : t.seconds < 100
  pub minutes_lt : t.minutes < 100
  pub hours_lt : t.hours < 24
  pub weekdays_lt : t.weekdays < 100
  pub day_lt : t.day < 100
  pub month_lt : t.month < 100
  pub year_lt : t.year < 100
  pub century_lt : t.century < 100

to_binary-bcd : (n : ℕ) → n < 100 → to_binary (bcd n) ≡ n
unfolding to_binary
to_binary-bcd n small = omega arith

convert_fields-encoded :
    (b : ℕ) (t : Time) → IsClock t → b / 4 % 2 ≡ 0 → convert_fields b (encoded t) ≡ t
unfolding convert_fields
convert_fields-encoded b t c mode =
    let bcd_mode : (b / 4 % 2 == 0) ≡ true = ground arith in
    let e1 : u8 (to_binary (bcd t.seconds)) ≡ t.seconds =
      omega (arith, to_binary-bcd t.seconds c.seconds_lt, c.seconds_lt) in
    let e2 : u8 (to_binary (bcd t.minutes)) ≡ t.minutes =
      omega (arith, to_binary-bcd t.minutes c.minutes_lt, c.minutes_lt) in
    let e3 : u8 (to_binary (bcd t.hours)) ≡ t.hours =
      omega (arith, to_binary-bcd t.hours (omega (arith, c.hours_lt)), c.hours_lt) in
    let e4 : u8 (to_binary (bcd t.weekdays)) ≡ t.weekdays =
      omega (arith, to_binary-bcd t.weekdays c.weekdays_lt, c.weekdays_lt) in
    let e5 : u8 (to_binary (bcd t.day)) ≡ t.day =
      omega (arith, to_binary-bcd t.day c.day_lt, c.day_lt) in
    let e6 : u8 (to_binary (bcd t.month)) ≡ t.month =
      omega (arith, to_binary-bcd t.month c.month_lt, c.month_lt) in
    let e7 : u16 (to_binary (bcd t.year)) ≡ t.year =
      omega (arith, to_binary-bcd t.year c.year_lt, c.year_lt) in
    let e8 : u8 (to_binary (bcd t.century)) ≡ t.century =
      omega (arith, to_binary-bcd t.century c.century_lt, c.century_lt) in
    rw (bcd_mode, e1, e2, e3, e4, e5, e6, e7, e8) refl

-- The year of two digits that is not before the current year.
abbrev pub year_from_2024 : ℕ → ℕ
year_from_2024 yy = if ltb yy 24 then 2100 + yy else 2000 + yy

-- A clock that counts 24 hours in decimal digits, with no century register known, is converted to
-- the same time with the full year, from 2024 to 2123.
pub convert_time-encoded :
    (b : ℕ) (t : Time)
    → IsClock t
    → b / 4 % 2 ≡ 0
    → b / 2 % 2 ≡ 1
    → convert_time 0 b (encoded t) ≡ record t { year = year_from_2024 t.year }
unfolding convert_time convert_hours full_year
convert_time-encoded b t c mode day_hours =
    let h24 : (b / 2 % 2 == 0) ≡ false = ground arith in
    let short : ltb t.year 100 ≡ true = ground (arith, c.year_lt) in
    let year : (if ltb (t.year + 2024 / 100 * 100) 2024
          then t.year + 2024 / 100 * 100 + 100
          else t.year + 2024 / 100 * 100)
        ≡ year_from_2024 t.year =
      ground arith in
    rw (convert_fields-encoded b t c mode, h24, short) (ap (λ y. record t { year = y }) year)

-- Two readings that differ in the seconds and agree in every other field.
pub record OnlySeconds (one two : Time) : Type 0 where
  pub seconds_differ : one.seconds ≢ two.seconds
  pub minutes_same : one.minutes ≡ two.minutes
  pub hours_same : one.hours ≡ two.hours
  pub weekdays_same : one.weekdays ≡ two.weekdays
  pub day_same : one.day ≡ two.day
  pub month_same : one.month ≡ two.month
  pub year_same : one.year ≡ two.year
  pub century_same : one.century ≡ two.century

check_time_eq-OnlySeconds :
    (one two : Time) → check_time_eq not one two ≡ true → OnlySeconds one two
unfolding check_time_eq
check_time_eq-OnlySeconds one two h = record {
  seconds_differ = ground arith;
  minutes_same = ground arith;
  hours_same = ground arith;
  weekdays_same = ground arith;
  day_same = ground arith;
  month_same = ground arith;
  year_same = ground arith;
  century_same = ground arith;
}

OnlySeconds-check_time_eq :
    (one two : Time) → OnlySeconds one two → check_time_eq not one two ≡ true
unfolding check_time_eq
OnlySeconds-check_time_eq one two s = ground arith

-- The reading after the first two neighbours from `i` on that do not differ in the seconds alone.
abbrev pub FirstStop : (ℕ → Time) → ℕ → Option Time → Type 0
FirstStop readings i none = ⊥
FirstStop readings i (some t) =
    (j : ℕ) × (i ≤ j)
    × (t ≡ readings (j + 1))
    × ¬ OnlySeconds (readings (j + 1)) (readings j)
    × ((k : ℕ) → i ≤ k → k < j → OnlySeconds (readings (k + 1)) (readings k))

FirstStop-next :
    (readings : ℕ → Time) (i : ℕ) (r : Option Time)
    → OnlySeconds (readings (i + 1)) (readings i)
    → FirstStop readings (i + 1) r
    → FirstStop readings i r
FirstStop-next readings i none first h = h
FirstStop-next readings i (some t) first (j, from, same, stop, before) = (
  j,
  omega arith,
  same,
  stop,
  λ k lo hi. elim (Bool-cases (ltb i k)) [
    | inl later ↦ before k (ground arith) hi
    | inr now ↦
        let e : i ≡ k = ground arith in
        subst (λ n. OnlySeconds (readings (n + 1)) (readings n)) e first
  ],
)

-- If among the readings there are two neighbours that do not differ in the seconds alone, and there
-- is fuel for as many rounds, then the loop ends, with the second of the first two such neighbours.
-- So it goes on only while nothing but the seconds changes, and stops at readings that agree and at
-- those that differ in any other field alike.
pub read_loop-FirstStop :
    (fuel : ℕ) (readings : ℕ → Time) (i d : ℕ)
    → ¬ OnlySeconds (readings (i + d + 1)) (readings (i + d))
    → d < fuel
    → FirstStop readings i (read_loop fuel readings i)
unfolding read_loop
read_loop-FirstStop zero readings i d stop enough = absurd (omega arith)
read_loop-FirstStop (suc fuel) readings i d stop enough =
    elim (Bool-cases (check_time_eq not (readings (i + 1)) (readings i))) [
      | inr ends ↦ rw ends (
        i,
        omega arith,
        refl,
        λ s.
            absurd
              (ground (arith, ends, OnlySeconds-check_time_eq (readings (i + 1)) (readings i) s)),
        λ k lo hi. absurd (omega arith),
      )
      | inl moved ↦
          let first = check_time_eq-OnlySeconds (readings (i + 1)) (readings i) moved in
          rw moved (elim (Bool-cases (d == 0)) [
            | inl now ↦
                let e : i + d ≡ i = ground arith in
                absurd (subst (λ k. ¬ OnlySeconds (readings (k + 1)) (readings k)) e stop first)
            | inr later ↦
                let e : i + d ≡ i + 1 + (d - 1) = ground arith in
                FirstStop-next readings i _ first (
                  read_loop-FirstStop fuel readings (i + 1) (d - 1)
                    (subst (λ k. ¬ OnlySeconds (readings (k + 1)) (readings k)) e stop)
                    (ground arith))
          ])
    ]

-- Two first readings of which the minutes differ end the loop: the second is taken unconfirmed.
read_loop-unconfirmed :
    (fuel : ℕ) (readings : ℕ → Time)
    → (readings 1).minutes ≢ (readings 0).minutes
    → read_loop (suc fuel) readings 0 ≡ some (readings 1)
unfolding read_loop
read_loop-unconfirmed fuel readings differ =
    let e : check_time_eq not (readings 1) (readings 0) ≡ false =
      unfold check_time_eq in ground arith in
    rw e refl

read_time-unconfirmed :
    (fuel : ℕ) (readings : ℕ → Time) (century_register b : ℕ)
    → (readings 1).minutes ≢ (readings 0).minutes
    → read_time (suc fuel) readings century_register b
      ≡ some (convert_time century_register b (readings 1))
unfolding read_time
read_time-unconfirmed fuel readings century_register b differ =
    ap (λ r. elim r [ none ↦ none | some t ↦ some (convert_time century_register b t) ])
      (read_loop-unconfirmed fuel readings differ)
