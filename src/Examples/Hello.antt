-- ===== src/Examples/Hello.antt =====
-- The hello application on a computer that works.
use adaptive_pi.Prelude.{ℕ, ◌≡◌, refl, some, none, List, [], ◌∷◌, Bytes, codes, Run, done, arith}
use adaptive_pi.Log.Metadata.{linux_read}
use adaptive_pi.Log.Timestamp.{timestamp_text}
use adaptive_pi.Log.Console.Splitting.{split_lines}
use adaptive_pi.Log.Logger.Threads.Telling.{read_calls}
use adaptive_pi.Log.Registry.{Heap}
use adaptive_pi.Log.Registry.Outcome.{Provides}
use adaptive_pi.Log.Facade.{make_default_registry}
use adaptive_pi.Log.Facade.Printing.{Ready}
use adaptive_pi.Hello.{main}
use adaptive_pi.Hello.Transcript.{said, main-transcript}
use adaptive_pi.Examples.Streams.{tiny, tiny-NeverEmpty}
use adaptive_pi.Examples.Calls.{day_clock, day_clock-IsCalendar, day_clock-IsUtc}
use adaptive_pi.Examples.Interleaving.{append_all, append_all-IsConsole, steady}
use adaptive_pi.Examples.Registries.{roomy, some-length}

-- The heap of a program that has made nothing.
abbrev bare : Heap Bytes
bare p = none

bare-Provides : Provides roomy bare
bare-Provides = record { ids = some-length; descriptions = some-length; fresh = λ p h. refl }

steady-Ready : (w : Bytes) → Ready steady day_clock w
unfolding linux_read timestamp_text adaptive_pi.Prelude.Int.◌/ℤ◌ adaptive_pi.Prelude.Int.◌-ℤ◌
    adaptive_pi.Prelude.Int.◌+ℤ◌ adaptive_pi.Prelude.Int.◌*ℤ◌ adaptive_pi.Prelude.Int.◌%ℤ◌
    adaptive_pi.Log.Timestamp.format_timestamp adaptive_pi.Prelude.Decimal.zero_padded
    adaptive_pi.Prelude.Decimal.to_chars
steady-Ready w = record {
  answered = record {
    timespec = record { above = omega arith; below = omega arith };
    process = omega arith;
    thread = omega arith;
  };
  reads = λ r. ground arith;
  time = codes "2026-01-01T00:00:00.123Z";
  shown = refl;
}

main-transcript_example :
    (left : Bytes) × (main day_clock tiny
        (λ m w. w)
        2
        roomy
        roomy
        (make_default_registry append_all steady bare)
        []
      ≡ some (done (0, left)))
    × (between : Bytes) × (first : Bytes) × (second : Bytes) × (between
        ≡ (append_all first (steady []).1).1)
    × (left ≡ (append_all second (steady between).1).1)
    × (split_lines left ≡ (first ∷ second ∷ [], []))
    × (read_calls (first ∷ second ∷ [])
        ≡ some (
            said steady [] (codes "Application startup")
            ∷ said steady between
                (codes "id=HELLO_GREETING Hello from AdaptivePi on Embedded Linux.")
            ∷ []))
main-transcript_example =
    main-transcript day_clock tiny tiny-NeverEmpty (λ m w. w) append_all steady (λ w. w) bare
      append_all-IsConsole day_clock-IsCalendar day_clock-IsUtc steady-Ready 2 roomy roomy [] 100
      bare-Provides refl refl (refl, refl) (omega arith) refl
