-- ===== src/Hello/Transcript.antt =====
-- What apps/hello-adaptive/src/main.cpp leaves on the standard output.
use mathlib.Core.Path.{subst}
use adaptive_pi.Log.Modelled.{Message}
use adaptive_pi.Prelude.{
  ℕ, ◌≡◌, ◌≢◌, ◌≤◌, ◌<◌, refl, sym, ◌∙◌, Option, some, [], ◌∷◌, Bytes, codes, Run, done, length,
  arith, inl, inr, true,
}
use adaptive_pi.Log.Level.{k_info}
use adaptive_pi.Log.Metadata.{Clock}
use adaptive_pi.Log.Timestamp.{Gmtime}
use adaptive_pi.Log.Timestamp.Fields.{IsCalendar}
use adaptive_pi.Log.Timestamp.Utc.{IsUtc}
use adaptive_pi.Log.Console.Calls.{Call}
use adaptive_pi.Log.Console.Splitting.{split_lines}
use adaptive_pi.Log.Logger.{Pointer, Logger, default_threshold, is_enabled, submit}
use adaptive_pi.Log.Logger.Submission.{is_enabled_iff}
use adaptive_pi.Log.Logger.Threads.Telling.{read_calls}
use adaptive_pi.Log.Registry.{Heap, Registry, Answers}
use adaptive_pi.Log.Registry.Chain.{ended}
use adaptive_pi.Log.Registry.Outcome.{Provides, Made, granted, Denied-granted}
use adaptive_pi.Log.Stream.{Floating}
use adaptive_pi.Log.Writer.Spacing.{NeverEmpty}
use adaptive_pi.Log.Facade.{make_default_registry}
use adaptive_pi.Log.Facade.Printing.{Ready, Printed, stamp, submit-Printed, two_lines-Printed}
use adaptive_pi.Log.Facade.Sharing.{IsConsole}
use adaptive_pi.Hello.{c_context_id, c_context_description, c_threshold, main}
use adaptive_pi.Hello.Greeting.{greeted, Ended, gave_up, aborted, succeeded, main-Ended}

-- The call that a message of the program makes a record of, at the metadata of a world.
abbrev pub said : {W : Type 0} → (W → Clock × W) → W → Bytes → Call
said ask w message = record {
  metadata = stamp ask w;
  level = k_info;
  context = c_context_id;
  message = message;
}

module _ {W F : Type 0} (gmtime_r : Gmtime) (f : Floating F) (law : NeverEmpty f)
    (trace_arti : Message F → W → W) where
  -- Where nothing fails the program succeeds.
  Ended-greeted :
      {answers later : Answers} {r : Registry W} {w : W} {o : Option (Run ⊥ (ℕ × W))} {p : Pointer}
      → granted answers c_context_id c_context_description ≡ some p
      → answers.unlock ≡ 0
      → (later.lock ≡ 0) × (later.unlock ≡ 0)
      → Ended gmtime_r f law trace_arti answers later r w o
      → (logger : Logger W) × Made c_context_id c_context_description c_threshold r logger
        × (o ≡ some (done (0, greeted gmtime_r f law trace_arti logger w)))
  Ended-greeted {answers} g u l (gave_up d) =
      absurd (cc (sym g ∙ Denied-granted answers c_context_id c_context_description d))
  Ended-greeted g u l (aborted (inl x)) = absurd (x u)
  Ended-greeted g u l (aborted (inr (inl x))) = absurd (x l.0)
  Ended-greeted g u l (aborted (inr (inr x))) = absurd (x l.1)
  Ended-greeted g u l (succeeded {logger = logger} m) = (logger, m, refl)

  module _ (fwrite : Bytes → W → ℕ × W) (ask : W → Clock × W) (stdout : W → Bytes) (heap : Heap W)
      (console : IsConsole fwrite ask stdout) (gregorian : IsCalendar gmtime_r)
      (utc : IsUtc gmtime_r) (ready : (w : W) → Ready ask gmtime_r w) where
    said-Printed :
        (logger : Logger W) (message : Bytes) (w : W)
        → Made c_context_id c_context_description c_threshold
            (make_default_registry fwrite ask heap)
            logger
        → message ≢ []
        → length message ≤ 4096
        → Printed fwrite ask stdout w (submit gmtime_r logger k_info message w) (said ask w message)
    unfolding make_default_registry default_threshold
    said-Printed logger message w m n l =
        let enabled : is_enabled logger k_info ≡ true = (is_enabled_iff logger k_info).1 (
          record { above = omega arith; below = omega arith },
          omega (arith, m.level),
          omega (arith, m.level),
        ) in
        subst
          (λ context.
            Printed fwrite ask stdout w (submit gmtime_r logger k_info message w) (record {
              metadata = stamp ask w;
              level = k_info;
              context = context;
              message = message;
            }))
          m.identifier
          (submit-Printed fwrite ask stdout gmtime_r console gregorian utc logger k_info message w
            m.writes m.reads enabled (ready w) (rw m.identifier (omega arith)) n l)

    -- Where memory is as `new` promises it and is given, the mutex works, `fwrite` succeeds, the
    -- kernel answers with positive ids and with times that 64 bits hold and that can be shown, and
    -- `gmtime_r` follows the calendar of UTC, the program on the process-wide registry of the
    -- constructor ends with EXIT_SUCCESS. Twice it asks the kernel and then writes a line in one call
    -- of `fwrite`, and these two lines are what it leaves on a standard output that was empty. They
    -- read back as the two messages of its context at the level of information, in order, each with
    -- the time, the process and the thread that the kernel answered when it was asked for that line.
    -- The formatter of floating-point numbers never writes an empty text.
    pub main-transcript :
        (fuel : ℕ) (answers later : Answers) (w : W) (p : Pointer)
        → Provides answers heap
        → granted answers c_context_id c_context_description ≡ some p
        → answers.unlock ≡ 0
        → (later.lock ≡ 0) × (later.unlock ≡ 0)
        → 1 < fuel
        → stdout w ≡ []
        → (left : W) × (main gmtime_r f trace_arti fuel answers later
              (make_default_registry fwrite ask heap)
              w
            ≡ some (done (0, left)))
          × (between : W) × (first : Bytes) × (second : Bytes) × (between
              ≡ (fwrite first (ask w).1).1)
          × (left ≡ (fwrite second (ask between).1).1)
          × (split_lines (stdout left) ≡ (first ∷ second ∷ [], []))
          × (read_calls (first ∷ second ∷ [])
              ≡ some (
                  said ask w (codes "Application startup")
                  ∷ said ask between
                      (codes "id=HELLO_GREETING Hello from AdaptivePi on Embedded Linux.")
                  ∷ []))
    unfolding make_default_registry
    main-transcript fuel answers later w p pr g u l h e =
        let r = make_default_registry fwrite ask heap in
        let (logger, made, over) =
          Ended-greeted g u l (
            main-Ended gmtime_r f law trace_arti fuel answers later r [] w pr ended
              (omega arith)) in
        let between = submit gmtime_r logger k_info (codes "Application startup") w in
        let first =
          said-Printed logger (codes "Application startup") w made (λ n. cc n) (omega arith) in
        let second =
          said-Printed logger (codes "id=HELLO_GREETING Hello from AdaptivePi on Embedded Linux.")
            between made (λ n. cc n) (omega arith) in
        let (split, read) = two_lines-Printed fwrite ask stdout e first second in
        (
          greeted gmtime_r f law trace_arti logger w,
          over,
          between,
          first.line,
          second.line,
          first.wrote,
          second.wrote,
          split,
          read,
        )
