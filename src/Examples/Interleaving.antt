-- ===== src/Examples/Interleaving.antt =====
-- Two threads that log through one logger at the same time.
use adaptive_pi.Prelude.{length, ℕ, ◌≡◌, refl, true, none, [], ◌∷◌, ◌++◌, List, Bytes, codes}
use adaptive_pi.Log.Level.{k_info, k_off}
use adaptive_pi.Log.Metadata.{Clock, returns, zero_metadata, linux_read}
use adaptive_pi.Log.Sink.{console_sink, console_write}
use adaptive_pi.Log.RecordBuffer.{view}
use adaptive_pi.Log.Console.Splitting.{split_lines}
use adaptive_pi.Log.Logger.{Logger, context_id, is_enabled, submit}
use adaptive_pi.Prelude.Updates.{update}
use adaptive_pi.Log.Logger.Threads.{Place, outside, rendered, Act, render, write}
use adaptive_pi.Log.Logger.Threads.Alone.{Acts, submit-Acts}
use adaptive_pi.Log.Logger.Threads.Reaching.{
  Logging, of_thread, held, LogReach, begin, afterwards, act,
}
use adaptive_pi.Log.Facade.{linux_provider}
use adaptive_pi.Log.Facade.Sharing.{IsConsole, LogReach-lines}
use adaptive_pi.Prelude.Int.{pos}
use adaptive_pi.Examples.Records.{stopped_clock, metadata, written, written_ok}

-- The world is the output, which `fwrite` appends to; the clock stands.
abbrev pub append_all : Bytes → Bytes → ℕ × Bytes
append_all record_bytes w = (length record_bytes, w ++ record_bytes)

abbrev pub steady : Bytes → Clock × Bytes
steady w = (
  record {
    status = pos 0;
    tv_sec = pos 1767225600;
    tv_nsec = pos 123000000;
    pid = pos 12;
    tid = pos 34;
  },
  w,
)

pub steady_read :
    (w : Bytes) → (linux_provider steady).read zero_metadata w ≡ (returns true metadata, w)
unfolding linux_read linux_provider adaptive_pi.Prelude.Int.◌/ℤ◌ adaptive_pi.Prelude.Int.◌-ℤ◌
    adaptive_pi.Prelude.Int.◌+ℤ◌ adaptive_pi.Prelude.Int.◌*ℤ◌
steady_read w = refl

abbrev pub shared_net : ℕ → Logger Bytes
shared_net k = record {
  context_id_bytes = codes "NET";
  context_id_size = 3;
  description_bytes = codes "Network";
  description_size = 7;
  threshold = k_info;
  sink = console_sink append_all;
  metadata_provider = linux_provider steady;
  next = none;
}

abbrev pub standing : Logging Bytes
standing = record { world = []; place = λ i. outside; written = []; made = λ i. [] }

-- The state behind a move of the thread `i` to the place `p`.
abbrev pub moved : Logging Bytes → ℕ → Bytes → Place Bytes → List (ℕ × Bytes) → Logging Bytes
moved s i w p ws = record {
  world = w;
  place = update s.place i p;
  written = s.written ++ ws;
  made = update s.made i (s.made i ++ held p);
}

abbrev waiting : Place Bytes
waiting = rendered (shared_net 0) (view written)

abbrev both : Logging Bytes
both = moved (moved standing 1 [] waiting []) 2 [] waiting []

abbrev first_written : Bytes
first_written = (console_write append_all (view written) []).1

abbrev both_written : Bytes
both_written = (console_write append_all (view written) first_written).1

abbrev finished : Logging Bytes
finished =
    moved (moved both 2 first_written outside ((2, view written) ∷ [])) 1 both_written outside
      ((1, view written) ∷ [])

rendering : (w : Bytes) → Act stopped_clock (shared_net 0) k_info (codes "up") w outside w waiting
unfolding is_enabled context_id
rendering w = render refl (steady_read w) written_ok

finished-LogReach : LogReach stopped_clock shared_net [] finished
finished-LogReach =
    afterwards
      (afterwards
        (afterwards (afterwards begin (act 1 0 k_info (codes "up") (rendering [])))
          (act 2 0 k_info (codes "up") (rendering [])))
        (act 2 0 k_off [] write))
      (act 1 0 k_off [] write)

pub append_all-IsConsole : IsConsole append_all steady (λ w. w)
append_all-IsConsole = record { appends = λ bytes w. refl; silent = λ w. refl }

LogReach-lines_example :
    (split_lines both_written ≡ (view written ∷ view written ∷ [], []))
    × ((i : ℕ) → finished.made i ≡ of_thread i finished.written ++ held (finished.place i))
LogReach-lines_example =
    LogReach-lines append_all steady (λ w. w) stopped_clock shared_net append_all-IsConsole
      (λ k. refl) (λ k. refl) refl finished-LogReach

submit-Acts_example :
    Acts stopped_clock
      (shared_net 0)
      k_info
      (codes "up")
      []
      outside
      (submit stopped_clock (shared_net 0) k_info (codes "up") [])
      outside
submit-Acts_example = submit-Acts stopped_clock (shared_net 0) k_info (codes "up") []
