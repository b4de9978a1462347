-- ===== src/Log/Console/RoundTrip.antt =====
-- A record that was written is read back.
use adaptive_pi.Prelude.{
  ◌≡◌, refl, sym, ap, ◌∙◌, true, false, some, [], ◌++◌, Bytes, inl, inr, arith,
}
use mathlib.Core.Path.{subst}
use adaptive_pi.Prelude.Int.{ℤ, pos, pos_part, ◌+ℤ◌, ◌*ℤ◌, ◌≤ℤ◌}
use adaptive_pi.Prelude.Decimal.{decimal, decimal_ℤ, decimal_ℤ-pos, expect_lem, read_field-decimal}
use adaptive_pi.Log.Level.{LogLevel, IsSeverity, level_name}
use adaptive_pi.Log.Metadata.{RuntimeMetadata}
use adaptive_pi.Log.RecordBuffer.{RecordBuffer, IsValid, view}
use adaptive_pi.Log.RecordBuffer.Appending.{Appended_true}
use adaptive_pi.Log.Timestamp.{Gmtime}
use adaptive_pi.Log.Timestamp.Fields.{IsCalendar, IsDate, tm_of, date_text, read_date-date_text}
use adaptive_pi.Log.Timestamp.Showing.{timestamp_text-Shows}
use adaptive_pi.Log.Console.{render_console_record}
use adaptive_pi.Log.Console.Escaping.{escaped, read_escaped-escaped}
use adaptive_pi.Log.Console.Rendering.{
  layout, Parts, console_text-Parts, render_console_record-Appended,
}
use adaptive_pi.Log.Console.Parsing.{
  Entry, read_record, level_of-level_name, read_escaped-level_name,
}

read_record-layout :
    (e : Entry)
    → IsSeverity e.level
    → read_record (
        layout
          (date_text e.date)
          (decimal e.process_id)
          (decimal e.thread_id)
          (level_name e.level)
          (escaped true e.context)
          (escaped false e.message))
      ≡ some e
unfolding read_record layout
read_record-layout e s = simp (
  expect_lem,
  read_date-date_text,
  read_field-decimal,
  read_escaped-level_name e.level _ s,
  level_of-level_name e.level s,
  read_escaped-escaped true b']' _ _ (inr (refl, refl)),
  read_escaped-escaped false b'\n' _ _ (inl refl),
)

-- What the record shows of the call that wrote it.
pub record Recorded (gmtime_r : Gmtime) (m : RuntimeMetadata) (level : LogLevel)
    (context message text : Bytes) : Type 0 where
  pub entry : Entry
  pub read : read_record text ≡ some entry
  pub process : pos entry.process_id ≡ m.process_id
  pub thread : pos entry.thread_id ≡ m.thread_id
  pub severity : entry.level ≡ level
  pub from : entry.context ≡ context
  pub says : entry.message ≡ message
  pub valid : IsDate entry.date
  pub seconds : ℤ
  pub calendar : gmtime_r seconds ≡ some (tm_of entry.date)
  pub whole : seconds *ℤ pos 1000 +ℤ pos entry.date.millisecond ≡ m.unix_milliseconds

positive : (a : ℤ) → pos 1 ≤ℤ a → a ≡ pos (pos_part a)
positive a h = ground arith

module _ (gmtime_r : Gmtime) (gregorian : IsCalendar gmtime_r) (m : RuntimeMetadata)
    (level : LogLevel) (context message : Bytes) where
  Parts-Recorded :
      (t : Bytes)
      → Parts gmtime_r m level context message t
      → Recorded gmtime_r m level context message t
  Parts-Recorded t p =
      let shows = timestamp_text-Shows gmtime_r gregorian m.unix_milliseconds p.time p.timed in
      let e : Entry = record {
        date = shows.date;
        process_id = pos_part m.process_id;
        thread_id = pos_part m.thread_id;
        level = level;
        context = context;
        message = message;
      } in
      let pid : decimal_ℤ m.process_id ≡ decimal e.process_id =
        ap decimal_ℤ (positive m.process_id p.process) ∙ decimal_ℤ-pos e.process_id in
      let tid : decimal_ℤ m.thread_id ≡ decimal e.thread_id =
        ap decimal_ℤ (positive m.thread_id p.thread) ∙ decimal_ℤ-pos e.thread_id in
      record {
        entry = e;
        read = rw (p.laid_out, shows.shown, pid, tid) (read_record-layout e p.severity);
        process = sym (positive m.process_id p.process);
        thread = sym (positive m.thread_id p.thread);
        severity = refl;
        from = refl;
        says = refl;
        valid = shows.valid;
        seconds = shows.seconds;
        calendar = shows.calendar;
        whole = shows.whole;
      }

  -- A record that was rendered into a fresh buffer is read back by the reader of the format, as an
  -- entry with the level, the context, the message and the positive ids that it was made of, and
  -- with the calendar fields that gmtime_r gives for its time in seconds, rounded down, and its
  -- milliseconds. The fields that gmtime_r gives are in range.
  pub read_record-render_console_record :
      (b : RecordBuffer) {b' : RecordBuffer}
      → IsValid b
      → view b ≡ []
      → render_console_record gmtime_r m level context message b ≡ (true, b')
      → Recorded gmtime_r m level context message (view b')
  read_record-render_console_record b v fresh h =
      let (t, text, written, _) =
        Appended_true (render_console_record-Appended gmtime_r m level context message b v fresh)
          h in
      let whole : t ≡ view _ = sym (written ∙ ap (λ s. s ++ t) fresh) in
      subst (Recorded gmtime_r m level context message) whole
        (Parts-Recorded t (console_text-Parts gmtime_r m level context message text))
