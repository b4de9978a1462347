-- ===== src/Log/Console/Calls.antt =====
-- The call that made a record, read back from the text of the record.
use adaptive_pi.Prelude.{◌≡◌, ap, ◌∙◌, true, Option, none, some, [], Bytes}
use adaptive_pi.Prelude.Int.{pos, ◌+ℤ◌, ◌*ℤ◌}
use adaptive_pi.Log.Level.{LogLevel}
use adaptive_pi.Log.Metadata.{RuntimeMetadata}
use adaptive_pi.Log.RecordBuffer.{RecordBuffer, IsValid, view}
use adaptive_pi.Log.Timestamp.{Gmtime}
use adaptive_pi.Log.Timestamp.Fields.{IsCalendar}
use adaptive_pi.Log.Timestamp.Utc.{IsUtc, unix_seconds}
use adaptive_pi.Log.Console.{render_console_record}
use adaptive_pi.Log.Console.Parsing.{Entry, read_record}
use adaptive_pi.Log.Console.RoundTrip.{Recorded, read_record-render_console_record}

-- What a record is rendered from.
pub record Call : Type 0 where
  pub metadata : RuntimeMetadata
  pub level : LogLevel
  pub context : Bytes
  pub message : Bytes

-- The call with the fields of an entry.
abbrev call_of : Entry → Call
call_of e = record {
  metadata = record {
    unix_milliseconds = unix_seconds e.date *ℤ pos 1000 +ℤ pos e.date.millisecond;
    process_id = pos e.process_id;
    thread_id = pos e.thread_id;
  };
  level = e.level;
  context = e.context;
  message = e.message;
}

abbrev read_entry : Option Entry → Option Call
read_entry none = none
read_entry (some e) = some (call_of e)

unfoldable pub read_call : Bytes → Option Call
read_call text = read_entry (read_record text)

module _ (gmtime_r : Gmtime) (gregorian : IsCalendar gmtime_r) (utc : IsUtc gmtime_r)
    (call : Call) where
  Recorded-read_call :
      (text : Bytes)
      → Recorded gmtime_r call.metadata call.level call.context call.message text
      → read_call text ≡ some call
  unfolding read_call
  Recorded-read_call text r =
      let seconds = utc r.seconds r.entry.date r.valid r.calendar in
      let time = ap (λ s. s *ℤ pos 1000 +ℤ pos r.entry.date.millisecond) seconds in
      let whole = time ∙ r.whole in rw r.read (ap some (cc))

  -- A record that was rendered into a fresh buffer is read back as the metadata, to the millisecond,
  -- the level, the context and the message that it was rendered from, if `gmtime_r` follows the
  -- calendar of UTC in the years of four digits.
  pub read_call-render_console_record :
      (b : RecordBuffer) {b' : RecordBuffer}
      → IsValid b
      → view b ≡ []
      → render_console_record gmtime_r call.metadata call.level call.context call.message b
        ≡ (true, b')
      → read_call (view b') ≡ some call
  read_call-render_console_record b {b'} v fresh h = Recorded-read_call (view b') (
      read_record-render_console_record gmtime_r gregorian call.metadata call.level call.context
        call.message b v fresh h)
