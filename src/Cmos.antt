-- ===== src/Cmos.antt =====
-- kernel/src/sys/cmos.c: the clock. The registers come from the chip: a reading is a parameter, the
-- values that one `GET_TIME` gets. The century register of the ACPI tables is 0 until it is set.
pub mod Laws
pub mod Tests
use horizon.Common.{
  ℕ, zero, suc, none, some, ◌+◌, ◌*◌, ◌/◌, ◌%◌, Bool, not, ◌&&◌, Option, ltb, ◌==◌, if◌then◌else◌,
  u8, u16,
}

-- CMOS, with a year of 16 bits and the other fields of 8.
pub record Time : Type 0 where
  pub seconds : ℕ
  pub minutes : ℕ
  pub hours : ℕ
  pub weekdays : ℕ
  pub day : ℕ
  pub month : ℕ
  pub year : ℕ
  pub century : ℕ

-- CHECK_TIME_EQ, which has no parentheses around it: an operator that stands before it, as the `!`
-- of its only use, is applied to the test of the seconds alone. `before` is that operator.
unfoldable pub check_time_eq : (Bool → Bool) → Time → Time → Bool
check_time_eq before one two =
    before (one.seconds == two.seconds)
    && one.minutes == two.minutes
    && one.hours == two.hours
    && one.weekdays == two.weekdays
    && one.day == two.day
    && one.month == two.month
    && one.year == two.year
    && one.century == two.century

-- The `do` loop: `readings i` is what the `i`-th GET_TIME gets, `prev` the reading before.
unfoldable pub read_loop : ℕ → (ℕ → Time) → ℕ → Option Time
read_loop zero readings i = none
read_loop (suc fuel) readings i =
    let rest = read_loop fuel readings (i + 1) in
    if check_time_eq not (readings (i + 1)) (readings i) then rest else some (readings (i + 1))

-- TO_BINARY
unfoldable pub to_binary : ℕ → ℕ
to_binary val = val % 16 + val / 16 * 10

-- Register B has bit 2 set for binary values: all fields are converted if it is not.
unfoldable pub convert_fields : ℕ → Time → Time
convert_fields b t =
    if b / 4 % 2 == 0
    then record {
      seconds = u8 (to_binary t.seconds);
      minutes = u8 (to_binary t.minutes);
      hours = u8 (to_binary t.hours);
      weekdays = u8 (to_binary t.weekdays);
      day = u8 (to_binary t.day);
      month = u8 (to_binary t.month);
      year = u16 (to_binary t.year);
      century = u8 (to_binary t.century);
    }
    else t

-- Bit 1 is set for 24 hours; bit 7 of the hours is the afternoon.
unfoldable pub convert_hours : ℕ → Time → Time
convert_hours b t =
    if b / 2 % 2 == 0 && not (t.hours / 128 % 2 == 0)
    then record t { hours = (t.hours % 128 + 12) % 24 }
    else t

abbrev pub current_year : ℕ
current_year = 2024

unfoldable pub full_year : ℕ → Time → Time
full_year century_register t =
    let guessed = t.year + current_year / 100 * 100 in
    if ltb t.year 100
    then if not (century_register == 0)
      then record t { year = u16 (t.year + t.century * 100) }
      else record t { year = if ltb guessed current_year then guessed + 100 else guessed }
    else t

-- What `read_time` makes of the reading, where `b` is register B.
unfoldable pub convert_time : ℕ → ℕ → Time → Time
convert_time century_register b t =
    full_year century_register (convert_hours b (convert_fields b t))

unfoldable pub read_time : ℕ → (ℕ → Time) → ℕ → ℕ → Option Time
read_time fuel readings century_register b = elim (read_loop fuel readings 0) [
  | none ↦ none
  | some t ↦ some (convert_time century_register b t)
]
