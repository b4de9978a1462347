-- ===== src/Log/Console.antt =====
-- platform/ara-log/src/console_record_formatter.cpp: the text of a record on the console.
pub mod Escaping
pub mod Rendering
pub mod Parsing
pub mod RoundTrip
pub mod Calls
pub mod Capacity
pub mod Lines
pub mod Splitting
use adaptive_pi.Prelude.{
  Bool, true, false, ◌||◌, not, ◌∷◌, [], ℕ, Bytes, codes, is_empty, ◌==◌, if◌then◌else◌,
}
use adaptive_pi.Prelude.Int.{ℤ, pos, leb_ℤ}
use adaptive_pi.Prelude.Decimal.{to_chars}
use adaptive_pi.Log.Level.{LogLevel, level_name}
use adaptive_pi.Log.Metadata.{RuntimeMetadata}
use adaptive_pi.Log.RecordBuffer.{RecordBuffer, append, view}
use adaptive_pi.Log.RecordBuffer.Appending.{Appender, ◌&&&◌}
use adaptive_pi.Log.Timestamp.{Gmtime, append_timestamp, append_formatted}

-- The text that stands for one byte.
unfoldable pub replacement : Bool → ℕ → Bytes
replacement escape_brackets character =
    if character == b'\\'
    then b'\\' ∷ b'\\' ∷ []
    else if character == b'\n'
    then b'\\' ∷ b'n' ∷ []
    else if character == b'\r'
    then b'\\' ∷ b'r' ∷ []
    else if character == b'['
    then (if escape_brackets then b'\\' ∷ b'[' ∷ [] else b'[' ∷ [])
    else if character == b']'
    then (if escape_brackets then b'\\' ∷ b']' ∷ [] else b']' ∷ [])
    else character ∷ []

-- The loop stops at the first byte whose text does not fit.
unfoldable pub append_escaped : Bytes → Bool → Appender
append_escaped [] escape_brackets output = (true, output)
append_escaped (character ∷ value) escape_brackets output =
    (append (replacement escape_brackets character) &&& append_escaped value escape_brackets) output

-- `text` has `digits10 + 2` bytes.
abbrev pub c_decimal_capacity : ℕ
c_decimal_capacity = 20

unfoldable pub append_decimal : ℤ → Appender
append_decimal value = append_formatted (to_chars c_decimal_capacity value)

-- The part behind the guards: each step runs only if those before it succeeded.
unfoldable pub render_parts : Gmtime → RuntimeMetadata → Bytes → Bytes → Bytes → Appender
render_parts gmtime_r metadata level_name context message =
    append (codes "[")
    &&& append_timestamp gmtime_r metadata.unix_milliseconds
    &&& append (codes "][")
    &&& append_decimal metadata.process_id
    &&& append (codes "][")
    &&& append_decimal metadata.thread_id
    &&& append (codes "][")
    &&& append level_name
    &&& append (codes "][")
    &&& append_escaped context true
    &&& append (codes "] ")
    &&& append_escaped message false
    &&& append (codes "\n")

-- `RenderConsoleRecord`.
unfoldable pub render_console_record :
    Gmtime → RuntimeMetadata → LogLevel → Bytes → Bytes → Appender
unfolding render_parts
render_console_record gmtime_r metadata level context message output =
    if not (is_empty (view output))
      || (is_empty (level_name level)
          || (leb_ℤ metadata.process_id (pos 0) || leb_ℤ metadata.thread_id (pos 0)))
    then (false, output)
    else render_parts gmtime_r metadata (level_name level) context message output
