-- ===== src/Log/Facade/Output.antt =====
-- What a message comes to on the standard output, from the stream down to the library: through the stream,
-- Submit, the provider of linux_metadata_provider.cpp, the formatter and the sink of console_sink.cpp.
use adaptive_pi.Prelude.{
  ℕ, ◌≡◌, ◌≢◌, ◌≤◌, refl, sym, ap, ◌∙◌, Bool, true, false, Option, none, some, List, [], Bytes,
  length, le→leb, is_empty, if◌then◌else◌, arith, Option-cases, inl, inr,
}
use mathlib.Core.Path.{subst}
use adaptive_pi.Prelude.Int.{◌≤ℤ◌}
use adaptive_pi.Log.Level.{LogLevel, IsSeverity}
use adaptive_pi.Log.Metadata.{
  Clock, RuntimeMetadata, zero_metadata, linux_read, linux_read-Published, IsTimespec, int64_max,
  returns,
}
use adaptive_pi.Log.RecordBuffer.{c_record_capacity}
use adaptive_pi.Log.Sink.{console_sink, console_write-fwrite}
use adaptive_pi.Log.Timestamp.{Gmtime, timestamp_text}
use adaptive_pi.Log.Console.Rendering.{console_text, parts_text, layout}
use adaptive_pi.Log.Console.Capacity.{IsId, record_of, console_text-record_of, length-record_of}
use adaptive_pi.Log.Logger.{Logger, context_id, is_enabled, submit}
use adaptive_pi.Log.Logger.Submission.{is_enabled_iff, submit_enabled, emit, emit_reading}
use adaptive_pi.Log.Stream.{Floating, destroy, c_message_capacity}
use adaptive_pi.Log.Stream.Inserting.{Value, insert_all, texts}
use adaptive_pi.Log.Stream.Submitting.{submit_texts, destroy-insert_all}
use adaptive_pi.Log.Facade.{with_level, linux_provider, linux_provider_lem}

-- What the kernel promises: nanoseconds of one second, ids of at most 64 bits.
pub record Answered (c : Clock) : Type 0 where
  pub timespec : IsTimespec c
  pub process : c.pid ≤ℤ int64_max
  pub thread : c.tid ≤ℤ int64_max

console_text-none :
    (gmtime_r : Gmtime) (m : RuntimeMetadata) (level : LogLevel) (context message : Bytes)
    → timestamp_text gmtime_r m.unix_milliseconds ≡ none
    → console_text gmtime_r m level context message ≡ none
unfolding console_text parts_text
console_text-none gmtime_r m level context message h = rw h (ground arith)

module _ {W : Type 0} (gmtime_r : Gmtime) (fwrite : Bytes → W → ℕ × W) where
  -- The record of a message in one call of `fwrite`, if its time can be shown.
  unfoldable pub print_at : LogLevel → Bytes → Bytes → RuntimeMetadata → Option Bytes → W → W
  print_at level context message m none w = w
  print_at level context message m (some time) w =
      (fwrite (record_of gmtime_r m level context message time) w).1

  -- What follows the answer of the kernel.
  unfoldable pub print : LogLevel → Bytes → Bytes → Bool × RuntimeMetadata → W → W
  unfolding print_at
  print level context message (false, m) w = w
  print level context message (true, m) w =
      print_at level context message m (timestamp_text gmtime_r m.unix_milliseconds) w

  emit_write :
      (logger : Logger W) (t : Bytes) (w : W)
      → logger.sink ≡ console_sink fwrite
      → is_empty t ≡ false
      → length t ≤ c_record_capacity
      → emit logger (some t) w ≡ (fwrite t w).1
  unfolding emit
  emit_write logger t w s e l =
      ap (λ b. if b then (logger.sink.write t w).1 else w) (le→leb (length t) c_record_capacity l)
      ∙ ap (λ k. (k.write t w).1) s
      ∙ console_write-fwrite fwrite t w e

  record_of-ne-nil :
      (level : LogLevel) (context message time : Bytes) (m : RuntimeMetadata)
      → is_empty (record_of gmtime_r m level context message time) ≡ false
  unfolding layout
  record_of-ne-nil level context message time m = refl

  emit-print_at :
      (logger : Logger W) (level : LogLevel) (message : Bytes) (m : RuntimeMetadata) (w : W)
      → logger.sink ≡ console_sink fwrite
      → IsSeverity level
      → IsId m.process_id
      → IsId m.thread_id
      → length (context_id logger) ≤ 4055
      → length message ≤ 4096
      → emit logger (console_text gmtime_r m level (context_id logger) message) w
        ≡ print_at level
            (context_id logger)
            message
            m
            (timestamp_text gmtime_r m.unix_milliseconds)
            w
  unfolding emit print_at
  emit-print_at logger level message m w s v p q c l =
      elim (Option-cases (timestamp_text gmtime_r m.unix_milliseconds)) [
        | inl none_shown ↦
            (ap (λ o. emit logger o w)
                (console_text-none gmtime_r m level (context_id logger) message none_shown)
              ∙ sym (ap (λ o. print_at level (context_id logger) message m o w) none_shown))
        | inr (time, shown) ↦
            (ap (λ o. emit logger o w)
                (console_text-record_of gmtime_r m level (context_id logger) message time v p q
                  shown)
              ∙ emit_write logger (record_of gmtime_r m level (context_id logger) message time) w s
                  (record_of-ne-nil level (context_id logger) message time m)
                  (length-record_of gmtime_r m level (context_id logger) message time p q shown c l)
              ∙ sym (ap (λ o. print_at level (context_id logger) message m o w) shown))
      ]

  emit_reading-print :
      (logger : Logger W) (level : LogLevel) (message : Bytes) (c : Clock) (w : W)
      (r : Bool × RuntimeMetadata)
      → linux_read c zero_metadata ≡ r
      → logger.sink ≡ console_sink fwrite
      → IsSeverity level
      → Answered c
      → length (context_id logger) ≤ 4055
      → length message ≤ 4096
      → emit_reading logger gmtime_r level message (returns r.0 r.1, w)
        ≡ print level (context_id logger) message r w
  unfolding emit_reading print
  emit_reading-print logger level message c w (false, m) e s v a k l = refl
  emit_reading-print logger level message c w (true, m) e s v a k l =
      let p = linux_read-Published c zero_metadata m a.timespec e in
      emit-print_at logger level message m w s v
        (subst IsId (sym p.process.0) (p.process.1, a.process))
        (subst IsId (sym p.thread.0) (p.thread.1, a.thread)) k l

  -- What Submit does at an enabled level on a logger with the console sink and the Linux provider.
  pub submit-print :
      (ask : W → Clock × W) (logger : Logger W) (level : LogLevel) (message : Bytes) (w : W)
      → logger.sink ≡ console_sink fwrite
      → logger.metadata_provider ≡ linux_provider ask
      → is_enabled logger level ≡ true
      → Answered (ask w).0
      → length (context_id logger) ≤ 4055
      → message ≢ []
      → length message ≤ 4096
      → submit gmtime_r logger level message w
        ≡ print level (context_id logger) message (linux_read (ask w).0 zero_metadata) (ask w).1
  submit-print ask logger level message w s p e a k n l =
      submit_enabled logger gmtime_r level message w n e
      ∙ ap (λ q. emit_reading logger gmtime_r level message (q.read zero_metadata w)) p
      ∙ ap (emit_reading logger gmtime_r level message) (linux_provider_lem ask zero_metadata w)
      ∙ emit_reading-print logger level message (ask w).0 (ask w).1
          (linux_read (ask w).0 zero_metadata) refl s ((is_enabled_iff logger level).0 e).0 a k l

  -- A stream that is opened at an enabled level on a logger with the console sink and the Linux provider, filled
  -- with values whose texts make up a message of 1 to 4096 bytes and destroyed, asks the kernel once; then its record goes
  -- to the standard output, whole and in one call of `fwrite`, or nothing does, since the kernel or the
  -- time was of no use. The context has at most 4055 bytes.
  pub destroy-print :
      {F : Type 0} (f : Floating F) (ask : W → Clock × W) (logger : Logger W) (level : LogLevel)
      (vs : List (Value F)) (message : Bytes) (w : W)
      → logger.sink ≡ console_sink fwrite
      → logger.metadata_provider ≡ linux_provider ask
      → is_enabled logger level ≡ true
      → Answered (ask w).0
      → length (context_id logger) ≤ 4055
      → texts f vs ≡ some message
      → message ≢ []
      → length message ≤ 4096
      → destroy gmtime_r (insert_all f vs (with_level logger level)) w
        ≡ print level (context_id logger) message (linux_read (ask w).0 zero_metadata) (ask w).1
  unfolding with_level submit_texts
  destroy-print f ask logger level vs message w s p e a k t n l =
      destroy-insert_all gmtime_r f logger level vs w
      ∙ ap (λ o. submit_texts gmtime_r logger level o w) t
      ∙ ap (λ b. if b then submit gmtime_r logger level message w else w)
          (le→leb (length message) c_message_capacity l)
      ∙ submit-print ask logger level message w s p e a k n l
