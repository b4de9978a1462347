-- ===== src/Log/Logger/Threads.antt =====
-- Logger::Submit of platform/ara-log/src/logger.cpp as threads run it: the reading of the metadata and the write
-- to the sink are moves of their own, so that other threads can come between them.
pub mod Reaching
pub mod Output
pub mod Alone
pub mod Telling
use adaptive_pi.Prelude.{
  ℕ, ◌≡◌, Bool, true, false, not, ◌||◌, Option, List, [], ◌∷◌, ◌++◌, Bytes, is_empty, ◌==◌,
  if◌then◌else◌,
}
use adaptive_pi.Prelude.Updates.{update}
use adaptive_pi.Log.Level.{LogLevel}
use adaptive_pi.Log.Metadata.{RuntimeMetadata, Reading, returns, throws, zero_metadata}
use adaptive_pi.Log.RecordBuffer.{RecordBuffer, empty, view}
use adaptive_pi.Log.Timestamp.{Gmtime}
use adaptive_pi.Log.Console.{render_console_record}
use adaptive_pi.Log.Logger.{Logger, context_id, is_enabled}

-- Where a thread stands: outside of Submit, or before the write of the bytes that `output` holds.
pub data Place (W : Type 0) : Type 0 where
  outside : Place W
  rendered : Logger W → Bytes → Place W

-- One move of a thread. A reading is taken as a whole, as is a write.
pub data Act {W : Type 0} (gmtime_r : Gmtime) (logger : Logger W) (level : LogLevel)
    (message : Bytes) (w : W) : Place W → W → Place W → Type 0 where
  suppress :
      (is_empty message || not (is_enabled logger level)) ≡ true
      → Act gmtime_r logger level message w outside w outside
  miss_metadata :
      {m : RuntimeMetadata} {w' : W}
      → (is_empty message || not (is_enabled logger level)) ≡ false
      → logger.metadata_provider.read zero_metadata w ≡ (returns false m, w')
      → Act gmtime_r logger level message w outside w' outside
  contain_exception :
      {w' : W}
      → (is_empty message || not (is_enabled logger level)) ≡ false
      → logger.metadata_provider.read zero_metadata w ≡ (throws, w')
      → Act gmtime_r logger level message w outside w' outside
  reject_record :
      {m : RuntimeMetadata} {w' : W} {output : RecordBuffer}
      → (is_empty message || not (is_enabled logger level)) ≡ false
      → logger.metadata_provider.read zero_metadata w ≡ (returns true m, w')
      → render_console_record gmtime_r m level (context_id logger) message empty ≡ (false, output)
      → Act gmtime_r logger level message w outside w' outside
  render :
      {m : RuntimeMetadata} {w' : W} {output : RecordBuffer}
      → (is_empty message || not (is_enabled logger level)) ≡ false
      → logger.metadata_provider.read zero_metadata w ≡ (returns true m, w')
      → render_console_record gmtime_r m level (context_id logger) message empty ≡ (true, output)
      → Act gmtime_r logger level message w outside w' (rendered logger (view output))
  write :
      {bytes : Bytes}
      → Act gmtime_r logger level message w
          (rendered logger bytes)
          (logger.sink.write bytes w).1
          outside
