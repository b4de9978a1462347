-- ===== src/Log/Timestamp/Utc.antt =====
-- The time in seconds that the calendar fields of a timestamp stand for, in UTC. It describes what
-- the library's `gmtime_r` is relied on for in platform/ara-log/src/console_record_formatter.cpp.
use adaptive_pi.Prelude.{
  ℕ, zero, suc, ◌+◌, ◌-◌, ◌*◌, ◌/◌, ◌%◌, ◌≡◌, Bool, ◌&&◌, ◌||◌, some, ◌==◌, not, if◌then◌else◌,
}
use adaptive_pi.Prelude.Int.{ℤ, pos, ◌-ℤ◌}
use adaptive_pi.Log.Timestamp.{Gmtime}
use adaptive_pi.Log.Timestamp.Fields.{Date, IsDate, tm_of}

-- A year of 366 days in the Gregorian calendar.
abbrev pub is_leap : ℕ → Bool
is_leap year = year % 4 == 0 && (not (year % 100 == 0) || year % 400 == 0)

-- The days between the beginning of the year 0 and that of `year`.
abbrev pub days_before_year : ℕ → ℕ
days_before_year year = year * 365 + (year + 3) / 4 - (year + 99) / 100 + (year + 399) / 400

abbrev days_of_month : Bool → ℕ → ℕ
days_of_month leap month =
    if month == 2
    then if leap then 29 else 28
    else if month == 4 || month == 6 || (month == 9 || month == 11)
    then 30
    else 31

-- The days of the year before its month `suc months`.
unfoldable pub days_before_month : Bool → (months : ℕ) → ℕ
days_before_month leap zero = 0
days_before_month leap (suc months) =
    days_before_month leap months + days_of_month leap (suc months)

-- The days between the beginning of the year 0 and 1970.
abbrev days_before_epoch : ℕ
days_before_epoch = 719528

-- The seconds since 1970 in UTC, negative before.
unfoldable pub unix_seconds : Date → ℤ
unfolding days_before_month
unix_seconds d =
    let days =
      days_before_year d.year + days_before_month (is_leap d.year) (d.month - 1) + (d.day - 1) in
    pos (((days * 24 + d.hour) * 60 + d.minute) * 60 + d.second) -ℤ pos (days_before_epoch * 86400)

-- Fields that `gmtime_r` gives, in a year of four digits, stand for the time that it was given.
abbrev pub IsUtc : Gmtime → Type 0
IsUtc gmtime_r = (s : ℤ) (d : Date) → IsDate d → gmtime_r s ≡ some (tm_of d) → unix_seconds d ≡ s
