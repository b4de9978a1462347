-- ===== src/Log/Sink.antt =====
-- platform/ara-log/src/sink.h, console_sink.h and console_sink.cpp: where records go. `W` is the
-- state of the world that a sink changes.
use adaptive_pi.Prelude.{ℕ, ◌≡◌, false, Bytes, length, is_empty, ◌==◌, if◌then◌else◌}

pub data SinkStatus : Type 0 where
  success write_failed : SinkStatus

pub record Sink (W : Type 0) : Type 0 where
  pub write : Bytes → W → SinkStatus × W

module _ {W : Type 0} where
  -- The status by the number of bytes that `std::fwrite` wrote.
  written_status : Bytes → ℕ × W → SinkStatus × W
  written_status record_bytes (written, w) =
      (if written == length record_bytes then success else write_failed, w)

  -- `ConsoleSink::Write`; `fwrite` to the standard output is a parameter.
  unfoldable pub console_write : (fwrite : Bytes → W → ℕ × W) → Bytes → W → SinkStatus × W
  unfolding written_status
  console_write fwrite record_bytes w =
      if is_empty record_bytes
      then (success, w)
      else written_status record_bytes (fwrite record_bytes w)

  abbrev pub console_sink : (fwrite : Bytes → W → ℕ × W) → Sink W
  console_sink fwrite = record { write = console_write fwrite }

  -- Behind a write the world is as `fwrite` left it, whatever the status.
  pub console_write-fwrite :
      (fwrite : Bytes → W → ℕ × W) (record_bytes : Bytes) (w : W)
      → is_empty record_bytes ≡ false
      → (console_write fwrite record_bytes w).1 ≡ (fwrite record_bytes w).1
  unfolding console_write written_status
  console_write-fwrite fwrite record_bytes w h = rw h
