-- ===== src/Log/Facade/Transcript.antt =====
-- What a reader of the standard output learns of threads that log through the console sink and the
-- Linux provider of the process-wide registry.
use adaptive_pi.Prelude.{ℕ, ◌≡◌, sym, ap, ◌∙◌, some, List, [], ◌++◌, append-nil, Bytes}
use adaptive_pi.Log.Metadata.{Clock}
use adaptive_pi.Log.Sink.{console_sink}
use adaptive_pi.Log.Timestamp.{Gmtime}
use adaptive_pi.Log.Timestamp.Fields.{IsCalendar}
use adaptive_pi.Log.Timestamp.Utc.{IsUtc}
use adaptive_pi.Log.Console.Calls.{Call}
use adaptive_pi.Log.Console.Splitting.{split_lines}
use adaptive_pi.Log.Logger.{Logger}
use adaptive_pi.Log.Logger.Threads.{outside}
use adaptive_pi.Log.Logger.Threads.Reaching.{Logging, texts_of, of_thread, held}
use adaptive_pi.Log.Logger.Threads.Telling.{
  read_calls, LogHistory, LogHistory-LogReach, read_calls-made,
}
use adaptive_pi.Log.Facade.{linux_provider}
use adaptive_pi.Log.Facade.Sharing.{IsConsole, LogReach-lines}

module _ {W : Type 0} (fwrite : Bytes → W → ℕ × W) (ask : W → Clock × W) (stdout : W → Bytes)
    (gmtime_r : Gmtime) where
  -- Threads log through any loggers with the console sink and the Linux provider, however they
  -- interleave, on a standard output that was empty, where `fwrite` succeeds and `gmtime_r` follows
  -- the calendar of UTC. The lines of the output are the records that were written; and those of a
  -- thread that has none left to write read back as the calls that it made a record of, in their
  -- order, with their metadata, levels, contexts and messages.
  pub LogHistory-lines :
      (logger : ℕ → Logger W) {w : W} {calls : ℕ → List Call} {s : Logging W}
      → IsConsole fwrite ask stdout
      → IsCalendar gmtime_r
      → IsUtc gmtime_r
      → ((k : ℕ) → (logger k).sink ≡ console_sink fwrite)
      → ((k : ℕ) → (logger k).metadata_provider ≡ linux_provider ask)
      → stdout w ≡ []
      → LogHistory gmtime_r logger w calls s
      → (split_lines (stdout s.world) ≡ (texts_of s.written, []))
        × ((i : ℕ) → s.place i ≡ outside → read_calls (of_thread i s.written) ≡ some (calls i))
  LogHistory-lines logger {w} {calls} {s} law gregorian utc k p e r =
      let (lines, order) =
        LogReach-lines fwrite ask stdout gmtime_r logger law k p e
          (LogHistory-LogReach gmtime_r logger w r) in
      (
        lines,
        λ i out.
            let mine : s.made i ≡ of_thread i s.written =
              order i ∙ ap (λ q. of_thread i s.written ++ held q) out ∙ append-nil _ in
            ap read_calls (sym mine) ∙ read_calls-made gmtime_r gregorian utc logger w r i,
      )
