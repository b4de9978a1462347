-- ===== src/Log/Timestamp.antt =====
-- AppendTimestamp of platform/ara-log/src/console_record_formatter.cpp. The library's `gmtime_r` is
-- a parameter: it gives the calendar fields of a time in seconds, or fails.
pub mod Fields
pub mod Showing
pub mod Utc
use adaptive_pi.Prelude.{
  ℕ, ◌+◌, ◌-◌, ◌≤◌, ◌≡◌, Bool, true, false, ◌||◌, Option, none, some, ◌∷◌, [], ◌++◌, Bytes, length,
  take, ◌==◌, if◌then◌else◌, arith,
}
use adaptive_pi.Prelude.Int.{ℤ, pos, negsuc, ◌+ℤ◌, ◌-ℤ◌, ◌*ℤ◌, ◌/ℤ◌, ◌%ℤ◌, ◌≤ℤ◌, leb_ℤ, ltb_ℤ}
use adaptive_pi.Prelude.Decimal.{zero_padded}
use adaptive_pi.Log.RecordBuffer.{RecordBuffer, append}
use adaptive_pi.Log.RecordBuffer.Appending.{Appender, Appends, append-Appends, failed}

-- `std::tm`, the fields that are used.
pub record Tm : Type 0 where
  pub tm_sec : ℤ
  pub tm_min : ℤ
  pub tm_hour : ℤ
  pub tm_mday : ℤ
  pub tm_mon : ℤ
  pub tm_year : ℤ

abbrev pub Gmtime : Type 0
Gmtime = ℤ → Option Tm

-- The seconds and the milliseconds of a time, the milliseconds not negative.
unfoldable pub split_milliseconds : ℤ → ℤ × ℤ
split_milliseconds unix_milliseconds =
    let seconds = unix_milliseconds /ℤ 1000 in
    let milliseconds = unix_milliseconds %ℤ 1000 in
    if ltb_ℤ milliseconds (pos 0)
    then (seconds -ℤ pos 1, milliseconds +ℤ pos 1000)
    else (seconds, milliseconds)

-- `std::snprintf` by "%04d-%02d-%02dT%02d:%02d:%02d.%03dZ".
unfoldable pub format_timestamp : Tm → ℤ → Bytes
format_timestamp utc milliseconds =
    zero_padded 4 (utc.tm_year +ℤ pos 1900)
    ++ (b'-'
        ∷ (zero_padded 2 (utc.tm_mon +ℤ pos 1)
            ++ (b'-'
                ∷ (zero_padded 2 utc.tm_mday
                    ++ (b'T'
                        ∷ (zero_padded 2 utc.tm_hour
                            ++ (b':'
                                ∷ (zero_padded 2 utc.tm_min
                                    ++ (b':'
                                        ∷ (zero_padded 2 utc.tm_sec
                                            ++ (b'.'
                                                ∷ (zero_padded 3 milliseconds
                                                    ++ b'Z' ∷ []))))))))))))

-- The text is kept if the year has four digits and `snprintf` wrote 24 bytes.
unfoldable pub checked_timestamp : ℤ → Option Tm → Option Bytes
checked_timestamp milliseconds none = none
checked_timestamp milliseconds (some utc) =
    if ltb_ℤ utc.tm_year (pos 0 -ℤ pos 1900) || ltb_ℤ (pos 9999 -ℤ pos 1900) utc.tm_year
    then none
    else if length (format_timestamp utc milliseconds) == 24
    then some (take 24 (format_timestamp utc milliseconds))
    else none

unfoldable pub timestamp_text : Gmtime → ℤ → Option Bytes
unfolding split_milliseconds checked_timestamp
timestamp_text gmtime_r unix_milliseconds =
    let (seconds, milliseconds) = split_milliseconds unix_milliseconds in
    checked_timestamp milliseconds (gmtime_r seconds)

-- Appends a text that was formatted, or fails.
unfoldable pub append_formatted : Option Bytes → Appender
append_formatted none output = (false, output)
append_formatted (some text) output = append text output

unfoldable pub append_timestamp : Gmtime → ℤ → Appender
unfolding timestamp_text append_formatted
append_timestamp gmtime_r unix_milliseconds =
    append_formatted (timestamp_text gmtime_r unix_milliseconds)

pub append_formatted-Appends : (t : Option Bytes) → Appends (append_formatted t) t
unfolding append_formatted
append_formatted-Appends none b v = failed v
append_formatted-Appends (some t) b v = append-Appends t b v

pub append_timestamp-Appends :
    (gmtime_r : Gmtime) (ms : ℤ)
    → Appends (append_timestamp gmtime_r ms) (timestamp_text gmtime_r ms)
unfolding append_timestamp
append_timestamp-Appends gmtime_r ms = append_formatted-Appends (timestamp_text gmtime_r ms)

-- Seconds and milliseconds that make up a time.
pub record IsSplit (ms : ℤ) (parts : ℤ × ℤ) : Type 0 where
  pub whole : parts.0 *ℤ pos 1000 +ℤ parts.1 ≡ ms
  pub lower : pos 0 ≤ℤ parts.1
  pub upper : parts.1 ≤ℤ pos 999

-- The seconds and the milliseconds make up the time, with milliseconds from 0 to 999, also before 1970.
pub split_milliseconds-IsSplit : (ms : ℤ) → IsSplit ms (split_milliseconds ms)
unfolding split_milliseconds ◌*ℤ◌ ◌+ℤ◌ ◌-ℤ◌ ◌/ℤ◌ ◌%ℤ◌
split_milliseconds-IsSplit (pos n) = record {
  whole = ground arith;
  lower = ground arith;
  upper = ground arith;
}
split_milliseconds-IsSplit (negsuc n) = record {
  whole = ground arith;
  lower = ground arith;
  upper = ground arith;
}
