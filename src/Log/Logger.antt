-- ===== src/Log/Logger.antt =====
-- platform/ara-log/include/ara/log/logger.h and src/logger.cpp: a logging context. `W` is the state
-- of the world: what the metadata provider reads and the sink changes.
pub mod Submission
pub mod Threads
use adaptive_pi.Prelude.{
  ℕ, Bool, true, false, not, ◌&&◌, ◌||◌, Option, none, Bytes, take, ltb, leb, Run, done, terminates,
  is_empty, if◌then◌else◌,
}
use adaptive_pi.Log.Level.{LogLevel, k_fatal, k_verbose}
use adaptive_pi.Log.Metadata.{
  RuntimeMetadata, MetadataProvider, Reading, returns, throws, zero_metadata,
}
use adaptive_pi.Log.Sink.{Sink}
use adaptive_pi.Log.RecordBuffer.{RecordBuffer, empty, view}
use adaptive_pi.Log.Timestamp.{Gmtime}
use adaptive_pi.Log.Console.{render_console_record}

-- The address of a logger.
abbrev pub Pointer : Type 0
Pointer = ℕ

-- The sink and the provider are borrowed from the registry; `next` links its list.
pub record Logger (W : Type 0) : Type 0 where
  pub context_id_bytes : Bytes
  pub context_id_size : ℕ
  pub description_bytes : Bytes
  pub description_size : ℕ
  pub threshold : LogLevel
  pub sink : Sink W
  pub metadata_provider : MetadataProvider W
  pub next : Option Pointer

module _ {W : Type 0} where
  -- `Logger::Logger`. The buffers come with their sizes; `next_` starts as null.
  unfoldable pub make_logger :
      (context_id : Bytes) (context_id_size : ℕ) (description : Bytes) (description_size : ℕ)
      → LogLevel
      → Sink W
      → MetadataProvider W
      → Run ⊥ (Logger W)
  make_logger context_id context_id_size description description_size threshold sink provider =
      if ltb k_verbose threshold
      then terminates
      else done (record {
        context_id_bytes = context_id;
        context_id_size = context_id_size;
        description_bytes = description;
        description_size = description_size;
        threshold = threshold;
        sink = sink;
        metadata_provider = provider;
        next = none;
      })

  unfoldable pub context_id : Logger W → Bytes
  context_id logger = take logger.context_id_size logger.context_id_bytes

  unfoldable pub context_description : Logger W → Bytes
  context_description logger = take logger.description_size logger.description_bytes

  unfoldable pub default_threshold : Logger W → LogLevel
  default_threshold logger = logger.threshold

  unfoldable pub is_enabled : Logger W → LogLevel → Bool
  is_enabled logger severity =
      leb k_fatal severity
      && (leb severity k_verbose
          && (leb logger.threshold k_verbose && leb severity logger.threshold))

  -- The write to the sink; its status is looked at and dropped.
  unfoldable pub write_rendered : Logger W → Bool × RecordBuffer → W → W
  write_rendered logger (false, output) w = w
  write_rendered logger (true, output) w = (logger.sink.write (view output) w).1

  -- What follows the reading of the metadata. A reading that throws is caught.
  unfoldable pub after_reading : (gmtime_r : Gmtime) → Logger W → LogLevel → Bytes → Reading × W → W
  unfolding write_rendered
  after_reading gmtime_r logger level message (throws, w) = w
  after_reading gmtime_r logger level message (returns false metadata, w) = w
  after_reading gmtime_r logger level message (returns true metadata, w) =
      write_rendered logger
        (render_console_record gmtime_r metadata level (context_id logger) message empty) w

  -- `Logger::Submit`.
  unfoldable pub submit : (gmtime_r : Gmtime) → Logger W → LogLevel → Bytes → W → W
  unfolding after_reading
  submit gmtime_r logger level message w =
      if is_empty message || not (is_enabled logger level)
      then w
      else after_reading gmtime_r logger level message
          (logger.metadata_provider.read zero_metadata w)
