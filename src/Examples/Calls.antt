-- ===== src/Examples/Calls.antt =====
-- A record of one day, read back as the call that it was rendered from.
use mathlib.Core.Path.{subst}
use adaptive_pi.Prelude.{
  ℕ, Bool, ◌+◌, ◌*◌, ◌/◌, ◌%◌, ◌≡◌, refl, ap, true, some, none, [], codes, length, ◌==◌,
  if◌then◌else◌, arith,
}
use adaptive_pi.Prelude.Int.{ℤ, pos, negsuc}
use adaptive_pi.Log.Level.{k_warn}
use adaptive_pi.Log.RecordBuffer.{RecordBuffer, empty, view, empty-IsValid, view-empty}
use adaptive_pi.Log.RecordBuffer.Appending.{Appended, Appended_fits}
use adaptive_pi.Log.Timestamp.{Tm, Gmtime, timestamp_text}
use adaptive_pi.Log.Timestamp.Fields.{InRange, IsCalendar, tm_of}
use adaptive_pi.Log.Timestamp.Utc.{IsUtc, unix_seconds}
use adaptive_pi.Log.Console.{render_console_record}
use adaptive_pi.Log.Console.Escaping.{escaped}
use adaptive_pi.Log.Console.Rendering.{console_text, render_console_record-Appended}
use adaptive_pi.Log.Console.Calls.{Call, read_call, read_call-render_console_record}

-- The fields of the seconds of 2026-01-01; other times are not converted.
abbrev first_day : ℕ → Tm
first_day n = record {
  tm_sec = pos (n % 60);
  tm_min = pos (n / 60 % 60);
  tm_hour = pos (n / 3600 % 24);
  tm_mday = pos 1;
  tm_mon = pos 0;
  tm_year = pos 126;
}

abbrev pub day_clock : Gmtime
day_clock (pos n) = if n / 86400 == 20454 then some (first_day n) else none
day_clock (negsuc n) = none

first_day-InRange : (n : ℕ) → InRange (first_day n)
first_day-InRange n = record {
  sec = (omega arith, omega arith);
  min = (omega arith, omega arith);
  hour = (omega arith, omega arith);
  mday = (omega arith, omega arith);
  mon = (omega arith, omega arith);
}

pub day_clock-IsCalendar : IsCalendar day_clock
day_clock-IsCalendar (pos n) tm h = subst InRange (ground arith) (first_day-InRange n)
day_clock-IsCalendar (negsuc n) tm h = cc h

unix_seconds-first_day :
    (n year month day hour minute second millisecond : ℕ)
    → n / 86400 ≡ 20454
    → year ≡ 2026
    → month ≡ 1
    → day ≡ 1
    → hour ≡ n / 3600 % 24
    → minute ≡ n / 60 % 60
    → second ≡ n % 60
    → unix_seconds (record {
      year = year;
      month = month;
      day = day;
      hour = hour;
      minute = minute;
      second = second;
      millisecond = millisecond;
    })
      ≡ pos n
unfolding unix_seconds adaptive_pi.Prelude.Int.◌-ℤ◌ adaptive_pi.Log.Timestamp.Utc.days_before_month
unix_seconds-first_day n year month day hour minute second millisecond e y mo d h mi s =
    rw (y, mo, d, h, mi, s) (ground arith)

pub day_clock-IsUtc : IsUtc day_clock
unfolding adaptive_pi.Prelude.Int.◌-ℤ◌
day_clock-IsUtc (pos n) d v h =
    let tm : first_day n ≡ tm_of d = ground arith in
    unix_seconds-first_day n d.year d.month d.day d.hour d.minute d.second d.millisecond
      (ground arith) (ground arith) (ground arith) (ground arith) (ground arith) (ground arith)
      (ground arith)
day_clock-IsUtc (negsuc n) d v h = cc h

abbrev call : Call
call = record {
  metadata = record {
    unix_milliseconds = pos 1767230625042;
    process_id = pos 12;
    thread_id = pos 34;
  };
  level = k_warn;
  context = codes "a]";
  message = codes "up\nINFO";
}

call_text :
    console_text day_clock call.metadata call.level call.context call.message
    ≡ some (codes "[2026-01-01T01:23:45.042Z][12][34][WARN][a\\]] up\\nINFO\n")
unfolding console_text adaptive_pi.Log.Level.level_name timestamp_text adaptive_pi.Prelude.Int.◌-ℤ◌
    adaptive_pi.Log.Timestamp.format_timestamp adaptive_pi.Prelude.Decimal.zero_padded
    adaptive_pi.Prelude.Int.◌+ℤ◌ adaptive_pi.Prelude.Int.◌%ℤ◌ adaptive_pi.Prelude.Decimal.to_chars
    adaptive_pi.Log.Console.Rendering.layout escaped adaptive_pi.Log.Console.replacement
    adaptive_pi.Prelude.Int.◌/ℤ◌
call_text = refl

abbrev rendered : Bool × RecordBuffer
rendered = render_console_record day_clock call.metadata call.level call.context call.message empty

rendered_ok : rendered ≡ (true, rendered.1)
rendered_ok =
    Appended_fits
      (subst (λ o. Appended empty o rendered) call_text
        (render_console_record-Appended day_clock call.metadata call.level call.context call.message
          empty empty-IsValid view-empty))
      (omega (arith, ap length view-empty))

read_call-render_console_record_example : read_call (view rendered.1) ≡ some call
read_call-render_console_record_example =
    read_call-render_console_record day_clock day_clock-IsCalendar day_clock-IsUtc call empty
      empty-IsValid view-empty rendered_ok
