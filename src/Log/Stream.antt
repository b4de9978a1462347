-- ===== src/Log/Stream.antt =====
-- platform/ara-log/include/ara/log/log_stream.h and src/log_stream.cpp: a pending record.
pub mod Values
pub mod Pending
pub mod Inserting
pub mod Lifetime
pub mod Steps
pub mod Submitting
pub mod Living
use adaptive_pi.Prelude.{
  ℕ, ◌+◌, ◌-◌, Bool, true, false, not, ◌||◌, ◌&&◌, Option, none, some, [], ◌∷◌, Bytes, codes,
  length, take, replicate, memcpy, ltb, is_some, is_empty, ◌==◌, if◌then◌else◌,
}
use adaptive_pi.Prelude.Int.{ℤ}
use adaptive_pi.Prelude.Decimal.{to_chars}
use adaptive_pi.Log.Level.{LogLevel}
use adaptive_pi.Log.Timestamp.{Gmtime}
use adaptive_pi.Log.Logger.{Logger, is_enabled, submit}

abbrev pub c_message_capacity : ℕ
c_message_capacity = 4096

-- `std::string_view{const char*}` ends before the first null character.
unfoldable pub until_null : Bytes → Bytes
until_null [] = []
until_null (c ∷ s) = let rest = until_null s in if c == 0 then [] else c ∷ rest

-- A stream without a logger has been moved from. Loggers do not change while streams are in use.
pub record LogStream (W : Type 0) : Type 0 where
  pub buffer : Bytes
  pub size : ℕ
  pub logger : Option (Logger W)
  pub level : LogLevel
  pub failed : Bool
  pub enabled : Bool

module _ {W : Type 0} where
  -- `LogStream::LogStream(const Logger&, LogLevel)`.
  unfoldable pub open_stream : Logger W → LogLevel → LogStream W
  open_stream logger level = record {
    buffer = replicate c_message_capacity 0;
    size = 0;
    logger = some logger;
    level = level;
    failed = false;
    enabled = is_enabled logger level;
  }

  -- The test before formatting: the stream cannot accumulate a record.
  abbrev pub is_closed : LogStream W → Bool
  is_closed s = not (is_some s.logger) || (not s.enabled || s.failed)

  -- `LogStream::Append`.
  unfoldable pub append : Bytes → LogStream W → LogStream W
  append value s =
      if not (is_some s.logger) || (not s.enabled || (s.failed || is_empty value))
      then s
      else if ltb (c_message_capacity - s.size) (length value)
      then record s { failed = true }
      else record s { buffer = memcpy s.buffer s.size value; size = s.size + length value }

  -- `operator<<(std::string_view)`.
  unfoldable pub insert_view : Bytes → LogStream W → LogStream W
  unfolding append
  insert_view value s = append value s

  -- `operator<<(const std::string&)`.
  unfoldable pub insert_string : Bytes → LogStream W → LogStream W
  unfolding append
  insert_string value s = append value s

  -- `operator<<(const char*)`; `none` is the null pointer.
  unfoldable pub insert_c_string : Option Bytes → LogStream W → LogStream W
  unfolding append until_null
  insert_c_string none s = if is_closed s then s else record s { failed = true }
  insert_c_string (some value) s = if is_closed s then s else append (until_null value) s

  -- `operator<<(char)`.
  unfoldable pub insert_char : ℕ → LogStream W → LogStream W
  unfolding append
  insert_char value s = append (value ∷ []) s

  -- `operator<<(bool)`.
  unfoldable pub insert_bool : Bool → LogStream W → LogStream W
  unfolding append
  insert_bool value s = append (if value then codes "true" else codes "false") s

  -- Appends what a library formatter made of the value, or fails.
  unfoldable pub insert_formatted : Option Bytes → LogStream W → LogStream W
  unfolding append
  insert_formatted none s = record s { failed = true }
  insert_formatted (some text) s = append text s

  -- `operator<<(T)` for an integral type with the given `std::numeric_limits<T>::digits10`.
  unfoldable pub insert_integer : (digits10 : ℕ) → ℤ → LogStream W → LogStream W
  unfolding insert_formatted
  insert_integer digits10 value s =
      if is_closed s then s else insert_formatted (to_chars (digits10 + 2) value) s

-- What the library knows of a floating-point type: the classification of its values,
-- `std::numeric_limits<T>::max_digits10`, and `std::to_chars` in the general format, with a precision, into
-- an array of a size.
pub record Floating (F : Type 0) : Type 0 where
  pub is_nan : F → Bool
  pub is_inf : F → Bool
  pub sign_bit : F → Bool
  pub max_digits10 : ℕ
  pub to_chars : (size precision : ℕ) → F → Option Bytes

abbrev c_floating_buffer_size : ℕ
c_floating_buffer_size = 64

-- `FormatFloating`, into the array of its callers.
abbrev pub format_floating : {F : Type 0} → Floating F → F → Option Bytes
format_floating f value = f.to_chars c_floating_buffer_size f.max_digits10 value

module _ {W F : Type 0} (f : Floating F) where
  -- `operator<<(float)` and `operator<<(double)`, which differ in the type alone.
  unfoldable pub insert_floating : F → LogStream W → LogStream W
  unfolding append insert_formatted
  insert_floating value s =
      if is_closed s
      then s
      else if f.is_nan value
      then append (codes "nan") s
      else if f.is_inf value
      then append (if f.sign_bit value then codes "-inf" else codes "inf") s
      else insert_formatted (format_floating f value) s

module _ {W : Type 0} where
  -- `LogStream::LogStream(LogStream&&)`: the new stream and what is left of the old one.
  unfoldable pub move_stream : LogStream W → LogStream W × LogStream W
  move_stream other = (
    record {
      buffer =
          if other.size == 0
          then replicate c_message_capacity 0
          else memcpy (replicate c_message_capacity 0) 0 (take other.size other.buffer);
      size = other.size;
      logger = other.logger;
      level = other.level;
      failed = other.failed;
      enabled = other.enabled;
    },
    record other { size = 0; logger = none; failed = false; enabled = false },
  )

  -- The bytes that `Flush` lends to `Submit`.
  unfoldable pub contents : LogStream W → Bytes
  contents s = take s.size s.buffer

  unfoldable pub submit_pending : (gmtime_r : Gmtime) → Option (Logger W) → LogStream W → W → W
  submit_pending gmtime_r none s w = w
  submit_pending gmtime_r (some logger) s w =
      if s.enabled && (not s.failed && not (s.size == 0))
      then submit gmtime_r logger s.level (contents s) w
      else w

  -- `LogStream::Flush`.
  unfoldable pub flush : (gmtime_r : Gmtime) → LogStream W → W → LogStream W × W
  flush gmtime_r s w = (record s { size = 0; failed = false }, submit_pending gmtime_r s.logger s w)

  -- `LogStream::~LogStream`.
  unfoldable pub destroy : (gmtime_r : Gmtime) → LogStream W → W → W
  unfolding flush
  destroy gmtime_r s w = (flush gmtime_r s w).1
