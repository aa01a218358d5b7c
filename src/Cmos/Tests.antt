-- ===== src/Cmos/Tests.antt =====
-- Clocks at concrete times.
use horizon.Common.{ℕ, refl, ◌≡◌, arith, some, ◌==◌, if◌then◌else◌}
use horizon.Cmos.Laws.{
  convert_time-encoded, year_from_2024, read_loop-FirstStop, encoded, IsClock, FirstStop,
  OnlySeconds,
}
use horizon.Cmos.{
  full_year, convert_hours, to_binary, read_loop, convert_fields, check_time_eq, convert_time, Time,
}

-- 23:59:58 on the fourth of July, in the year 24 of the century 20.
abbrev late : Time
late = record {
  seconds = 58;
  minutes = 59;
  hours = 23;
  weekdays = 5;
  day = 4;
  month = 7;
  year = 24;
  century = 20;
}

late-IsClock : IsClock late
late-IsClock = record {
  seconds_lt = omega arith;
  minutes_lt = omega arith;
  hours_lt = omega arith;
  weekdays_lt = omega arith;
  day_lt = omega arith;
  month_lt = omega arith;
  year_lt = omega arith;
  century_lt = omega arith;
}

convert_time-encoded_example :
    convert_time 0 2 (encoded late) ≡ record late { year = year_from_2024 late.year }
convert_time-encoded_example = convert_time-encoded 2 late late-IsClock refl refl

-- The second changes after the first reading.
abbrev ticking : ℕ → Time
ticking i = if i == 0 then record late { seconds = 57 } else late

repeats : ¬ OnlySeconds (ticking 2) (ticking 1)
repeats s = s.seconds_differ refl

read_loop-FirstStop_example : FirstStop ticking 0 (read_loop 3 ticking 0)
read_loop-FirstStop_example = read_loop-FirstStop 3 ticking 0 1 repeats (omega arith)

-- The minute ends while the chip is read: 58 minutes and 59 seconds, then 59 minutes and 0 seconds.
abbrev minute_ends : ℕ → Time
minute_ends i =
    if i == 0
    then record late { minutes = 58; seconds = 59 }
    else if i == 1
    then record late { seconds = 0 }
    else late

taken_unconfirmed : read_loop 9 minute_ends 0 ≡ some (record late { seconds = 0 })
unfolding read_loop check_time_eq
taken_unconfirmed = refl

-- In the 12-hour mode with decimal digits, the conversion loses the mark of the afternoon: 1 pm,
-- which is kept as 0x81, becomes 81.
afternoon_lost : (convert_time 0 0 (record (encoded late) { hours = 0x81 })).hours ≡ 81
unfolding convert_time convert_fields to_binary convert_hours full_year
afternoon_lost = refl
