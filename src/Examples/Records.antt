-- ===== src/Examples/Records.antt =====
-- Records, timestamps, metadata and loggers at concrete values.
use mathlib.Core.Path.{subst}
use adaptive_pi.Prelude.{
  ℕ, ◌≡◌, ◌≢◌, ◌↔◌, ◌≤◌, refl, Bool, true, false, not, Option, none, some, List, [], ◌∷◌, ◌++◌,
  Bytes, codes, arith, inl, inr, length, ap,
}
use adaptive_pi.Prelude.Int.{ℤ, pos, negsuc}
use adaptive_pi.Log.Level.{LogLevel, IsSeverity, k_off, k_warn, k_info, k_debug, k_verbose}
use adaptive_pi.Log.Metadata.{
  RuntimeMetadata, MetadataProvider, returns, zero_metadata, Clock, linux_read, Published,
  linux_read-Published, Refusal, linux_read-Refusal,
}
use adaptive_pi.Log.RecordBuffer.{RecordBuffer, empty, view, empty-IsValid, view-empty}
use adaptive_pi.Log.RecordBuffer.Appending.{Appended, Appended_fits}
use adaptive_pi.Log.Timestamp.{Tm, Gmtime, split_milliseconds, timestamp_text}
use adaptive_pi.Log.Timestamp.Fields.{InRange, IsCalendar}
use adaptive_pi.Log.Console.{render_console_record}
use adaptive_pi.Log.Console.Escaping.{escaped}
use adaptive_pi.Log.Console.Rendering.{console_text, render_console_record-Appended}
use adaptive_pi.Log.Console.Capacity.{record_of, render_console_record-fits}
use adaptive_pi.Log.Sink.{Sink, success}
use adaptive_pi.Log.Logger.{Logger, context_id, is_enabled}
use adaptive_pi.Log.Logger.Submission.{emit_reading}

-- The first second of 2026 in UTC, for every time.
abbrev pub new_year : Tm
new_year = record {
  tm_sec = pos 0;
  tm_min = pos 0;
  tm_hour = pos 0;
  tm_mday = pos 1;
  tm_mon = pos 0;
  tm_year = pos 126;
}

abbrev pub stopped_clock : Gmtime
stopped_clock s = some new_year

new_year-InRange : InRange new_year
new_year-InRange = record {
  sec = (omega arith, omega arith);
  min = (omega arith, omega arith);
  hour = (omega arith, omega arith);
  mday = (omega arith, omega arith);
  mon = (omega arith, omega arith);
}

stopped_clock-IsCalendar : IsCalendar stopped_clock
stopped_clock-IsCalendar s utc h = subst InRange (cc) new_year-InRange

abbrev pub metadata : RuntimeMetadata
metadata = record { unix_milliseconds = pos 1767225600123; process_id = pos 12; thread_id = pos 34 }

-- The world is the list of the records that were written.
abbrev pub World : Type 0
World = List Bytes

abbrev pub recorder : Sink World
recorder = record { write = λ record_bytes w. (success, record_bytes ∷ w) }

abbrev pub fixed_provider : MetadataProvider World
fixed_provider = record { read = λ m w. (returns true metadata, w) }

abbrev pub net : Logger World
net = record {
  context_id_bytes = codes "NET";
  context_id_size = 3;
  description_bytes = codes "Network";
  description_size = 7;
  threshold = k_info;
  sink = recorder;
  metadata_provider = fixed_provider;
  next = none;
}

split_before_1970 : split_milliseconds (negsuc 0) ≡ (negsuc 0, pos 999)
unfolding split_milliseconds adaptive_pi.Prelude.Int.◌%ℤ◌ adaptive_pi.Prelude.Int.◌-ℤ◌
    adaptive_pi.Prelude.Int.◌+ℤ◌ adaptive_pi.Prelude.Int.◌/ℤ◌
split_before_1970 = refl

new_year_text :
    timestamp_text stopped_clock (pos 1767225600123) ≡ some (codes "2026-01-01T00:00:00.123Z")
unfolding timestamp_text adaptive_pi.Prelude.Int.◌-ℤ◌ adaptive_pi.Log.Timestamp.format_timestamp
    adaptive_pi.Prelude.Decimal.zero_padded adaptive_pi.Prelude.Int.◌+ℤ◌
    adaptive_pi.Prelude.Int.◌%ℤ◌
new_year_text = refl

abbrev pub answers : Clock
answers = record {
  status = pos 0;
  tv_sec = negsuc 0;
  tv_nsec = pos 250000000;
  pid = pos 12;
  tid = pos 34;
}

abbrev read_before_1970 : RuntimeMetadata
read_before_1970 = record {
  unix_milliseconds = negsuc 749;
  process_id = pos 12;
  thread_id = pos 34;
}

answered : linux_read answers zero_metadata ≡ (true, read_before_1970)
unfolding linux_read adaptive_pi.Prelude.Int.◌/ℤ◌ adaptive_pi.Prelude.Int.◌-ℤ◌
    adaptive_pi.Prelude.Int.◌+ℤ◌ adaptive_pi.Prelude.Int.◌*ℤ◌
answered = refl

linux_read-Published_example : Published answers read_before_1970
linux_read-Published_example =
    linux_read-Published answers zero_metadata read_before_1970
      (record { above = omega arith; below = omega arith }) answered

render_console_record-Appended_example :
    Appended empty
      (console_text stopped_clock metadata k_info (codes "NET") (codes "up"))
      (render_console_record stopped_clock metadata k_info (codes "NET") (codes "up") empty)
render_console_record-Appended_example =
    render_console_record-Appended stopped_clock metadata k_info (codes "NET") (codes "up") empty
      empty-IsValid view-empty

record_text :
    console_text stopped_clock metadata k_info (codes "NET") (codes "up")
    ≡ some (codes "[2026-01-01T00:00:00.123Z][12][34][INFO][NET] up\n")
unfolding console_text adaptive_pi.Log.Level.level_name timestamp_text adaptive_pi.Prelude.Int.◌-ℤ◌
    adaptive_pi.Log.Timestamp.format_timestamp adaptive_pi.Prelude.Decimal.zero_padded
    adaptive_pi.Prelude.Int.◌+ℤ◌ adaptive_pi.Prelude.Int.◌%ℤ◌ adaptive_pi.Prelude.Decimal.to_chars
    adaptive_pi.Log.Console.Rendering.layout escaped adaptive_pi.Log.Console.replacement
record_text = refl

-- The buffer after the record of the message "up".
abbrev pub written : RecordBuffer
written = (render_console_record stopped_clock metadata k_info (codes "NET") (codes "up") empty).1

pub written_ok :
    render_console_record stopped_clock metadata k_info (codes "NET") (codes "up") empty
    ≡ (true, written)
written_ok =
    Appended_fits
      (subst
        (λ o.
          Appended empty o
            (render_console_record stopped_clock metadata k_info (codes "NET") (codes "up") empty))
        record_text
        (render_console_record-Appended stopped_clock metadata k_info (codes "NET") (codes "up")
          empty empty-IsValid view-empty))
      (omega (arith, ap length view-empty))

pub enabled : is_enabled net k_warn ≡ true
unfolding is_enabled
enabled = refl

pub emitted :
    emit_reading net stopped_clock k_warn (codes "up") (returns true metadata, [])
    ≡ codes "[2026-01-01T00:00:00.123Z][12][34][WARN][NET] up\n" ∷ []
unfolding emit_reading console_text context_id adaptive_pi.Log.Level.level_name timestamp_text
    adaptive_pi.Prelude.Int.◌-ℤ◌ adaptive_pi.Log.Timestamp.format_timestamp
    adaptive_pi.Prelude.Decimal.zero_padded adaptive_pi.Prelude.Int.◌+ℤ◌
    adaptive_pi.Prelude.Int.◌%ℤ◌ adaptive_pi.Prelude.Decimal.to_chars
    adaptive_pi.Log.Console.Rendering.layout escaped adaptive_pi.Log.Console.replacement
emitted = refl

render_console_record-fits_example :
    ((render_console_record stopped_clock metadata k_info (codes "NET") (codes "up") empty).0
      ≡ true)
    × (view (render_console_record stopped_clock metadata k_info (codes "NET") (codes "up") empty).1
        ≡ record_of stopped_clock metadata k_info
            (codes "NET")
            (codes "up")
            (codes "2026-01-01T00:00:00.123Z"))
render_console_record-fits_example =
    render_console_record-fits stopped_clock metadata k_info (codes "NET") (codes "up")
      (codes "2026-01-01T00:00:00.123Z") empty empty-IsValid view-empty
      (record { above = omega arith; below = omega arith }) (omega arith, omega arith)
      (omega arith, omega arith) new_year_text (omega arith) (omega arith)

-- A clock past the last millisecond that 64 bits hold.
abbrev late : Clock
late = record {
  status = pos 0;
  tv_sec = pos 9223372036854776;
  tv_nsec = pos 0;
  pid = pos 12;
  tid = pos 34;
}

too_late : linux_read late zero_metadata ≡ (false, zero_metadata)
unfolding linux_read adaptive_pi.Prelude.Int.◌/ℤ◌ adaptive_pi.Prelude.Int.◌-ℤ◌
too_late = refl

linux_read-Refusal_example : (zero_metadata ≡ zero_metadata) × Refusal late
linux_read-Refusal_example =
    linux_read-Refusal late zero_metadata zero_metadata
      (record { above = omega arith; below = omega arith }) too_late
