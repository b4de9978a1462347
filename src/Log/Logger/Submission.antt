-- ===== src/Log/Logger/Submission.antt =====
-- What Logger::Submit does to the world, on every path.
use adaptive_pi.Prelude.{
  ◌≤◌, ◌≡◌, refl, sym, ap, ◌∙◌, ◌≢◌, ◌↔◌, ◌⊎◌, inl, inr, Bool, true, false, Option, none, some, [],
  Bytes, if◌then◌else◌, arith, length, leb, le→leb, lt→leb_false, ◌∷◌, ◌++◌,
}
use mathlib.Core.Path.{subst}
use adaptive_pi.Log.Level.{LogLevel, IsSeverity, k_verbose}
use adaptive_pi.Log.Metadata.{Reading, returns, throws, zero_metadata}
use adaptive_pi.Log.RecordBuffer.{
  RecordBuffer, empty, view, view-empty, empty-IsValid, length-view, c_record_capacity,
}
use adaptive_pi.Log.RecordBuffer.Appending.{Appended, wrote, full, failed}
use adaptive_pi.Log.Timestamp.{Gmtime}
use adaptive_pi.Log.Console.Rendering.{console_text, render_console_record-Appended}
use adaptive_pi.Log.Logger.{Logger, context_id, is_enabled, write_rendered, after_reading, submit}

module _ {W : Type 0} (logger : Logger W) (level : LogLevel) where
  -- A level is enabled exactly if it is a severity and the threshold is a defined level that reaches it.
  pub is_enabled_iff :
      (is_enabled logger level ≡ true)
      ↔ (IsSeverity level × (logger.threshold ≤ k_verbose) × (level ≤ logger.threshold))
  unfolding is_enabled
  is_enabled_iff = (λ h. ground arith, λ h. ground arith)

module _ {W : Type 0} (logger : Logger W) where
  -- A text that fits the buffer goes to the sink in one write; nothing else does.
  unfoldable pub emit : Option Bytes → W → W
  emit none w = w
  emit (some t) w = if leb (length t) c_record_capacity then (logger.sink.write t w).1 else w

  write_rendered-emit :
      {o : Option Bytes} {r : Bool × RecordBuffer} (w : W)
      → Appended empty o r
      → write_rendered logger r w ≡ emit o w
  unfolding write_rendered emit
  write_rendered-emit w (wrote {t} {b'} v e) =
      let same : view b' ≡ t = e ∙ ap (λ s. s ++ t) view-empty in
      let fits : length (view b') ≤ c_record_capacity = omega (arith, length-view v, v.bounded) in
      ap (λ s. (logger.sink.write s w).1) same
      ∙ sym (
          ap (λ c. if c then (logger.sink.write t w).1 else w)
            (le→leb (length t) c_record_capacity
              (subst (λ s. length s ≤ c_record_capacity) same fits)))
  write_rendered-emit w (full {t} v h) = sym (
      ap (λ c. if c then (logger.sink.write t w).1 else w)
        (lt→leb_false (length t) c_record_capacity (omega (arith, h, ap length view-empty))))
  write_rendered-emit w (failed v) = refl

  -- What is to become of the answer of the provider.
  unfoldable pub emit_reading : Gmtime → LogLevel → Bytes → Reading × W → W
  unfolding emit
  emit_reading gmtime_r level message (throws, w) = w
  emit_reading gmtime_r level message (returns false m, w) = w
  emit_reading gmtime_r level message (returns true m, w) =
      emit (console_text gmtime_r m level (context_id logger) message) w

  after_reading-emit_reading :
      (gmtime_r : Gmtime) (level : LogLevel) (message : Bytes) (r : Reading × W)
      → after_reading gmtime_r logger level message r ≡ emit_reading gmtime_r level message r
  unfolding after_reading emit_reading
  after_reading-emit_reading gmtime_r level message (throws, w) = refl
  after_reading-emit_reading gmtime_r level message (returns false m, w) = refl
  after_reading-emit_reading gmtime_r level message (returns true m, w) = write_rendered-emit w (
      render_console_record-Appended gmtime_r m level (context_id logger) message empty
        empty-IsValid view-empty)

  -- A message that is not empty, at an enabled level, makes one reading of the metadata; then the
  -- record goes to the sink in one write if the provider succeeded, the record has a text and the
  -- text fits the buffer, and otherwise nothing is written.
  pub submit_enabled :
      (gmtime_r : Gmtime) (level : LogLevel) (message : Bytes) (w : W)
      → message ≢ []
      → is_enabled logger level ≡ true
      → submit gmtime_r logger level message w
        ≡ emit_reading gmtime_r level message (logger.metadata_provider.read zero_metadata w)
  unfolding submit
  submit_enabled gmtime_r level [] w h e = absurd (h refl)
  submit_enabled gmtime_r level (c ∷ message) w h e =
      rw e (after_reading-emit_reading gmtime_r level (c ∷ message) _)

  -- An empty message, or one at a level that is not enabled, leaves the world alone: neither the
  -- provider nor the sink is called.
  pub submit_suppressed :
      (gmtime_r : Gmtime) (level : LogLevel) (message : Bytes) (w : W)
      → (message ≡ []) ⊎ (is_enabled logger level ≡ false)
      → submit gmtime_r logger level message w ≡ w
  unfolding submit
  submit_suppressed gmtime_r level message w (inl e) = rw e
  submit_suppressed gmtime_r level [] w (inr e) = refl
  submit_suppressed gmtime_r level (c ∷ message) w (inr e) = rw e
