-- ===== src/Examples/Transcript.antt =====
-- The output of two threads, read back as their calls.
use mathlib.Core.Path.{subst}
use adaptive_pi.Prelude.{
  ℕ, length, ◌≡◌, ◌++◌, refl, ap, true, Bool, some, List, [], ◌∷◌, codes, Bytes, arith,
}
use adaptive_pi.Prelude.Updates.{update}
use adaptive_pi.Log.Level.{k_off, k_info}
use adaptive_pi.Log.RecordBuffer.{RecordBuffer, empty, view, empty-IsValid, view-empty}
use adaptive_pi.Log.RecordBuffer.Appending.{Appended, Appended_fits}
use adaptive_pi.Log.Sink.{console_write}
use adaptive_pi.Log.Console.{render_console_record}
use adaptive_pi.Log.Console.Rendering.{console_text, render_console_record-Appended}
use adaptive_pi.Log.Console.Calls.{Call}
use adaptive_pi.Log.Console.Splitting.{split_lines}
use adaptive_pi.Log.Logger.{is_enabled, context_id}
use adaptive_pi.Log.Logger.Threads.{Place, outside, rendered, Act, render, write}
use adaptive_pi.Log.Logger.Threads.Reaching.{Logging, of_thread}
use adaptive_pi.Log.Logger.Threads.Telling.{read_calls, LogHistory, untold, telling}
use adaptive_pi.Log.Facade.Transcript.{LogHistory-lines}
use adaptive_pi.Examples.Records.{metadata}
use adaptive_pi.Examples.Calls.{day_clock, day_clock-IsCalendar, day_clock-IsUtc}
use adaptive_pi.Examples.Interleaving.{
  append_all, append_all-IsConsole, steady, steady_read, shared_net, standing, moved,
}

abbrev up : Call
up = record { metadata = metadata; level = k_info; context = codes "NET"; message = codes "up" }

abbrev up_record : Bool × RecordBuffer
up_record = render_console_record day_clock metadata k_info (codes "NET") (codes "up") empty

up_text :
    console_text day_clock metadata k_info (codes "NET") (codes "up")
    ≡ some (codes "[2026-01-01T00:00:00.123Z][12][34][INFO][NET] up\n")
unfolding console_text adaptive_pi.Log.Level.level_name adaptive_pi.Log.Timestamp.timestamp_text
    adaptive_pi.Prelude.Int.◌-ℤ◌ adaptive_pi.Log.Timestamp.format_timestamp
    adaptive_pi.Prelude.Decimal.zero_padded adaptive_pi.Prelude.Int.◌+ℤ◌
    adaptive_pi.Prelude.Int.◌%ℤ◌ adaptive_pi.Prelude.Decimal.to_chars
    adaptive_pi.Log.Console.Rendering.layout adaptive_pi.Log.Console.Escaping.escaped
    adaptive_pi.Log.Console.replacement adaptive_pi.Prelude.Int.◌/ℤ◌
up_text = refl

up_ok : up_record ≡ (true, up_record.1)
up_ok =
    Appended_fits
      (subst (λ o. Appended empty o up_record) up_text
        (render_console_record-Appended day_clock metadata k_info (codes "NET") (codes "up") empty
          empty-IsValid view-empty))
      (omega (arith, ap length view-empty))

abbrev line : Bytes
line = view up_record.1

abbrev about_to_write : Place Bytes
about_to_write = rendered (shared_net 0) line

abbrev both_ready : Logging Bytes
both_ready = moved (moved standing 1 [] about_to_write []) 2 [] about_to_write []

abbrev one_line : Bytes
one_line = (console_write append_all line []).1

abbrev two_lines : Bytes
two_lines = (console_write append_all line one_line).1

-- The thread 2, which came second, writes first.
abbrev ended : Logging Bytes
ended =
    moved (moved both_ready 2 one_line outside ((2, line) ∷ [])) 1 two_lines outside
      ((1, line) ∷ [])

rendering_up :
    (w : Bytes) → Act day_clock (shared_net 0) k_info (codes "up") w outside w about_to_write
unfolding is_enabled context_id
rendering_up w = render refl (steady_read w) up_ok

abbrev calls_made : ℕ → List Call
calls_made =
    update (update (update (update (λ i. []) 1 (up ∷ [])) 2 (up ∷ [])) 2 ((up ∷ []) ++ [])) 1
      ((up ∷ []) ++ [])

ended-LogHistory : LogHistory day_clock shared_net [] calls_made ended
unfolding is_enabled context_id
ended-LogHistory =
    telling
      (telling
        (telling (telling untold 1 0 k_info (codes "up") (render refl (steady_read []) up_ok)) 2 0
          k_info (codes "up") (render refl (steady_read []) up_ok))
        2 0 k_off [] write)
      1 0 k_off [] write

LogHistory-lines_example :
    (split_lines two_lines ≡ (line ∷ line ∷ [], []))
    × ((i : ℕ)
        → ended.place i ≡ outside
        → read_calls (of_thread i ended.written) ≡ some (calls_made i))
LogHistory-lines_example =
    LogHistory-lines append_all steady (λ w. w) day_clock shared_net append_all-IsConsole
      day_clock-IsCalendar day_clock-IsUtc (λ k. refl) (λ k. refl) refl ended-LogHistory
