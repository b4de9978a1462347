-- ===== src/Log/Facade.antt =====
-- The public operations of platform/ara-log: the streams of the severities (src/logger.cpp) and the
-- process-wide registry (src/ara_log.cpp).
pub mod Severities
pub mod Output
pub mod Whole
pub mod Sharing
pub mod Transcript
pub mod Printing
use adaptive_pi.Prelude.{ℕ, ◌≡◌, refl, Option, none, some, Bytes, Run}
use adaptive_pi.Log.Level.{LogLevel, k_fatal, k_error, k_warn, k_info, k_debug, k_verbose}
use adaptive_pi.Log.Metadata.{
  Clock, RuntimeMetadata, MetadataProvider, Reading, returns, linux_read,
}
use adaptive_pi.Log.Sink.{console_sink}
use adaptive_pi.Log.Logger.{Pointer, Logger}
use adaptive_pi.Log.Stream.{LogStream, open_stream}
use adaptive_pi.Log.Registry.{
  Heap, LoggerCreationResult, Registry, Answers, make_registry, register, find,
}

module _ {W : Type 0} where
  -- `Logger::WithLevel`, and its six callers.
  unfoldable pub with_level : Logger W → LogLevel → LogStream W
  with_level logger level = open_stream logger level

  unfoldable pub log_fatal : Logger W → LogStream W
  unfolding with_level
  log_fatal logger = with_level logger k_fatal

  unfoldable pub log_error : Logger W → LogStream W
  unfolding with_level
  log_error logger = with_level logger k_error

  unfoldable pub log_warn : Logger W → LogStream W
  unfolding with_level
  log_warn logger = with_level logger k_warn

  unfoldable pub log_info : Logger W → LogStream W
  unfolding with_level
  log_info logger = with_level logger k_info

  unfoldable pub log_debug : Logger W → LogStream W
  unfolding with_level
  log_debug logger = with_level logger k_debug

  unfoldable pub log_verbose : Logger W → LogStream W
  unfolding with_level
  log_verbose logger = with_level logger k_verbose

  -- The reading of the Linux provider, which does not throw, where `ask` asks the kernel.
  answered : RuntimeMetadata → Clock × W → Reading × W
  answered metadata (clock, w) =
      let (success, m) = linux_read clock metadata in (returns success m, w)

  unfoldable pub linux_provider : (ask : W → Clock × W) → MetadataProvider W
  unfolding answered
  linux_provider ask = record { read = λ metadata w. answered metadata (ask w) }

  pub linux_provider_lem :
      (ask : W → Clock × W) (metadata : RuntimeMetadata) (w : W)
      → (linux_provider ask).read metadata w
        ≡ (returns (linux_read (ask w).0 metadata).0 (linux_read (ask w).0 metadata).1, (ask w).1)
  unfolding linux_provider answered
  linux_provider_lem ask metadata w = refl

  -- `LoggerRegistry()`: the registry works on its own console sink and Linux provider.
  unfoldable pub make_default_registry :
      (fwrite : Bytes → W → ℕ × W) → (ask : W → Clock × W) → Heap W → Registry W
  unfolding linux_provider
  make_default_registry fwrite ask heap =
      make_registry (console_sink fwrite) (linux_provider ask) heap

  -- `GetLoggerRegistry`: the static registry, which the first use makes.
  unfoldable pub get_logger_registry :
      (fwrite : Bytes → W → ℕ × W)
      → (ask : W → Clock × W) → Heap W
      → Option (Registry W)
      → Registry W
  unfolding make_default_registry
  get_logger_registry fwrite ask heap none = make_default_registry fwrite ask heap
  get_logger_registry fwrite ask heap (some registry) = registry

  -- `TryCreateLogger` and `CreateLogger`, on the registry that GetLoggerRegistry gave.
  unfoldable pub try_create_logger :
      Answers → Bytes → Bytes → LogLevel → Registry W → Registry W × Run ⊥ LoggerCreationResult
  unfolding register
  try_create_logger answers context_id description threshold registry =
      register answers context_id description threshold registry

  unfoldable pub create_logger :
      (fuel : ℕ) → Answers → Bytes → Bytes → LogLevel → Registry W → Option (Run ⊥ Pointer)
  unfolding find
  create_logger fuel answers context_id description threshold registry =
      find fuel answers context_id description threshold registry
