-- ===== src/Log/Facade/Printing.antt =====
-- A message on the standard output as one line, which reads back as its call.
use adaptive_pi.Prelude.{
  ℕ, ◌≡◌, ◌≢◌, ◌≤◌, refl, sym, ap, ◌∙◌, true, some, [], ◌∷◌, ◌++◌, append-nil, Bytes, length,
  Bool-cases, inl, inr,
}
use adaptive_pi.Prelude.Int.{pos, ◌+ℤ◌, ◌*ℤ◌, ◌/ℤ◌}
use mathlib.Core.Path.{subst}
use adaptive_pi.Log.Level.{LogLevel}
use adaptive_pi.Log.Metadata.{
  Clock, RuntimeMetadata, zero_metadata, linux_read, Refusal, linux_read-Published,
  linux_read-Refusal,
}
use adaptive_pi.Log.RecordBuffer.{empty, empty-IsValid, view-empty}
use adaptive_pi.Log.Sink.{console_sink}
use adaptive_pi.Log.Timestamp.{Gmtime, timestamp_text}
use adaptive_pi.Log.Timestamp.Fields.{IsCalendar}
use adaptive_pi.Log.Timestamp.Utc.{IsUtc}
use adaptive_pi.Log.Console.{render_console_record}
use adaptive_pi.Log.Console.Calls.{Call, read_call, read_call-render_console_record}
use adaptive_pi.Log.Console.Capacity.{IsId, record_of, render_console_record-fits}
use adaptive_pi.Log.Console.Lines.{IsLine, render_console_record-IsLine}
use adaptive_pi.Log.Console.Splitting.{split_lines, split_lines-joined_records}
use adaptive_pi.Log.Logger.{Logger, context_id, is_enabled, submit}
use adaptive_pi.Log.Logger.Submission.{is_enabled_iff}
use adaptive_pi.Log.Logger.Threads.Telling.{read_calls}
use adaptive_pi.Log.Facade.{linux_provider}
use adaptive_pi.Log.Facade.Output.{Answered, print, print_at, submit-print}
use adaptive_pi.Log.Facade.Sharing.{IsConsole}

module _ {W : Type 0} (ask : W → Clock × W) where
  -- What the kernel answers: the time in milliseconds, the process and the thread.
  abbrev pub stamp : W → RuntimeMetadata
  stamp w =
      let clock = (ask w).0 in
      record {
        unix_milliseconds = clock.tv_sec *ℤ pos 1000 +ℤ clock.tv_nsec /ℤ 1000000;
        process_id = clock.pid;
        thread_id = clock.tid;
      }

  -- The kernel answers, with ids that are positive and with a time that 64 bits hold and that can be
  -- shown.
  pub record Ready (gmtime_r : Gmtime) (w : W) : Type 0 where
    pub answered : Answered (ask w).0
    pub reads : ¬ (Refusal (ask w).0)
    pub time : Bytes
    pub shown : timestamp_text gmtime_r (stamp w).unix_milliseconds ≡ some time

  metadata_eq :
      {m : RuntimeMetadata} (w : W)
      → m.unix_milliseconds ≡ (stamp w).unix_milliseconds
      → m.process_id ≡ (stamp w).process_id
      → m.thread_id ≡ (stamp w).thread_id
      → m ≡ stamp w
  metadata_eq w t p i = cc

  -- Where the kernel answers, the provider reads what it answered.
  linux_read-Ready :
      (gmtime_r : Gmtime) (w : W)
      → Ready gmtime_r w
      → linux_read (ask w).0 zero_metadata ≡ (true, stamp w)
  linux_read-Ready gmtime_r w ready =
      let found = linux_read (ask w).0 zero_metadata in
      elim (Bool-cases found.0) [
        | inl e ↦
            let p =
              linux_read-Published (ask w).0 zero_metadata found.1 ready.answered.timespec
                (ap (λ b. (b, found.1)) e) in
            ap (λ b. (b, found.1)) e
            ∙ ap (λ m. (true, m)) (metadata_eq w p.time p.process.0 p.thread.0)
        | inr e ↦ absurd (
            ready.reads (
              (linux_read-Refusal (ask w).0 zero_metadata found.1 ready.answered.timespec
                (ap (λ b. (b, found.1)) e)).1))
      ]

-- What a message does: the kernel is asked once, then one call of `fwrite` writes the line of the call,
-- behind what the standard output holds.
pub record Printed {W : Type 0} (fwrite : Bytes → W → ℕ × W) (ask : W → Clock × W)
    (stdout : W → Bytes) (w w' : W) (call : Call) : Type 0 where
  pub line : Bytes
  pub wrote : w' ≡ (fwrite line (ask w).1).1
  pub out : stdout w' ≡ stdout w ++ line
  pub single : IsLine line
  pub read : read_call line ≡ some call

module _ {W : Type 0} (fwrite : Bytes → W → ℕ × W) (ask : W → Clock × W) (stdout : W → Bytes)
    (gmtime_r : Gmtime) where
  module _ (law : IsConsole fwrite ask stdout) (gregorian : IsCalendar gmtime_r)
      (utc : IsUtc gmtime_r) where
    pub submit-Printed :
        (logger : Logger W) (level : LogLevel) (message : Bytes) (w : W)
        → logger.sink ≡ console_sink fwrite
        → logger.metadata_provider ≡ linux_provider ask
        → is_enabled logger level ≡ true
        → Ready ask gmtime_r w
        → length (context_id logger) ≤ 4055
        → message ≢ []
        → length message ≤ 4096
        → Printed fwrite ask stdout w (submit gmtime_r logger level message w) (record {
          metadata = stamp ask w;
          level = level;
          context = context_id logger;
          message = message;
        })
    unfolding print print_at
    submit-Printed logger level message w s p e ready k n l =
        let m = stamp ask w in
        let reading : linux_read (ask w).0 zero_metadata ≡ (true, m) =
          linux_read-Ready ask gmtime_r w ready in
        let ids = linux_read-Published (ask w).0 zero_metadata m ready.answered.timespec reading in
        let severe = ((is_enabled_iff logger level).0 e).0 in
        let process : IsId m.process_id =
          subst IsId (sym ids.process.0) (ids.process.1, ready.answered.process) in
        let thread : IsId m.thread_id =
          subst IsId (sym ids.thread.0) (ids.thread.1, ready.answered.thread) in
        let fits =
          render_console_record-fits gmtime_r m level (context_id logger) message ready.time empty
            empty-IsValid view-empty severe process thread ready.shown k l in
        let rendered : render_console_record gmtime_r m level (context_id logger) message empty
            ≡ (true, _) =
          ap
            (λ b. (b, (render_console_record gmtime_r m level (context_id logger) message empty).1))
            fits.0 in
        let line = record_of gmtime_r m level (context_id logger) message ready.time in
        let put =
          submit-print gmtime_r fwrite ask logger level message w s p e ready.answered k n l in
        let wrote : submit gmtime_r logger level message w ≡ (fwrite line (ask w).1).1 =
          put
          ∙ ap (λ r. print gmtime_r fwrite level (context_id logger) message r (ask w).1) reading
          ∙ ap (λ o. print_at gmtime_r fwrite level (context_id logger) message m o (ask w).1)
              ready.shown in
        record {
          line = line;
          wrote = wrote;
          out = ap stdout wrote ∙ law.appends line (ask w).1 ∙ ap (λ o. o ++ line) (law.silent w);
          single = subst IsLine fits.1 (
              render_console_record-IsLine gmtime_r m level (context_id logger) message empty _
                empty-IsValid view-empty rendered);
          read =
              ap read_call (sym fits.1)
              ∙ read_call-render_console_record gmtime_r gregorian utc
                  (record {
                    metadata = m;
                    level = level;
                    context = context_id logger;
                    message = message;
                  })
                  empty empty-IsValid view-empty rendered;
        }

-- Two messages on an output that was empty are two lines.
pub two_lines-Printed :
    {W : Type 0} (fwrite : Bytes → W → ℕ × W) (ask : W → Clock × W) (stdout : W → Bytes)
    {w w' w'' : W} {first second : Call}
    → stdout w ≡ []
    → (a : Printed fwrite ask stdout w w' first) → (b : Printed fwrite ask stdout w' w'' second)
    → (split_lines (stdout w'') ≡ (a.line ∷ b.line ∷ [], []))
      × (read_calls (a.line ∷ b.line ∷ []) ≡ some (first ∷ second ∷ []))
unfolding read_calls
two_lines-Printed fwrite ask stdout e a b = (
  ap split_lines (
        b.out
        ∙ ap (λ o. o ++ b.line) (a.out ∙ ap (λ o. o ++ a.line) e)
        ∙ ap (λ o. a.line ++ o) (sym (append-nil b.line)))
      ∙ split_lines-joined_records (a.line ∷ b.line ∷ []) (a.single, (b.single, tt)),
  rw (a.read, b.read) (refl),
)
