-- ===== src/Hello.antt =====
-- apps/hello-adaptive/src/main.cpp: a program that creates one logger and greets.
pub mod Greeting
pub mod Transcript
use adaptive_pi.Prelude.{
  ℕ, Bool, true, false, Option, none, some, [], ◌∷◌, Bytes, codes, Run, done, throws, terminates,
  ◌>>=◌, if◌then◌else◌,
}
use adaptive_pi.Core.ErrorDomain.{ErrorCode}
use adaptive_pi.Core.Result.{has_value, error_value}
use adaptive_pi.Core.VoidResult.{VoidResult, void_from_value, void_from_error, void_has_value}
use adaptive_pi.Log.Level.{LogLevel, k_info}
use adaptive_pi.Log.Timestamp.{Gmtime}
use adaptive_pi.Log.Logger.{Pointer, Logger}
use adaptive_pi.Log.Stream.{Floating, insert_c_string, destroy}
use adaptive_pi.Log.Stream.Inserting.{view}
use adaptive_pi.Log.Modelled.{Message, default_routing, log}
use adaptive_pi.Log.Registry.{LoggerCreationResult, Registry, Answers}
use adaptive_pi.Log.Facade.{log_info, try_create_logger, create_logger}

abbrev pub c_context_id : Bytes
c_context_id = codes "HELLO"

abbrev pub c_context_description : Bytes
c_context_description = codes "AdaptivePi hello application"

abbrev pub c_threshold : LogLevel
c_threshold = k_info

abbrev pub InitializationResult : Type 0
InitializationResult = VoidResult ErrorCode

-- What `Initialize` makes of the registration.
unfoldable pub initialized : Run ⊥ LoggerCreationResult → Run ⊥ InitializationResult
unfolding void_from_value void_from_error has_value error_value
initialized creation = do
  registration ← creation
  has ← has_value registration
  if has then void_from_value else do error ← error_value registration; void_from_error (done error)

-- `Greeting`, with the text that it renders.
abbrev pub greeting : {F : Type 0} → Bytes → Message F
greeting text = record {
  id = codes "HELLO_GREETING";
  level = k_info;
  routing = default_routing;
  rendered = view text ∷ [];
}

abbrev pub c_greeting : Bytes
c_greeting = codes "Hello from AdaptivePi on Embedded Linux."

module _ {W F : Type 0} (gmtime_r : Gmtime) (f : Floating F) (trace_arti : Message F → W → W) where
  -- The two messages; the stream of the first ends with its statement.
  unfoldable pub greet : Logger W → W → W
  unfolding log_info
  greet logger w =
      log gmtime_r f trace_arti logger (greeting c_greeting) (
        destroy gmtime_r (insert_c_string (some (codes "Application startup")) (log_info logger)) w)

  -- The use of the reference that `CreateLogger` returned, and EXIT_SUCCESS.
  greet_at : Option (Logger W) → W → Option (Run ⊥ (ℕ × W))
  unfolding greet
  greet_at none w = none
  greet_at (some logger) w = some (done (0, greet logger w))

  with_reference : Registry W → W → Option (Run ⊥ Pointer) → Option (Run ⊥ (ℕ × W))
  unfolding greet_at
  with_reference r w none = none
  with_reference r w (some (done p)) = greet_at (r.heap p) w
  with_reference r w (some (throws x)) = absurd x
  with_reference r w (some terminates) = some terminates

  -- The branch on the initialization; the early return is EXIT_FAILURE.
  after_initialization : (fuel : ℕ) → Answers → Registry W → W → Run ⊥ Bool → Option (Run ⊥ (ℕ × W))
  unfolding with_reference
  after_initialization fuel later r w (done true) =
      with_reference r w (create_logger fuel later c_context_id c_context_description c_threshold r)
  after_initialization fuel later r w (done false) = some (done (1, w))
  after_initialization fuel later r w (throws x) = absurd x
  after_initialization fuel later r w terminates = some terminates

  -- `main`: the exit status and the world that it leaves, where `answers` are the library's at the registration
  -- and `later` at the lookup. There is no result where the fuel of the lookup ends.
  unfoldable pub main :
      (fuel : ℕ) → (answers later : Answers) → Registry W → W → Option (Run ⊥ (ℕ × W))
  unfolding initialized after_initialization
  main fuel answers later registry w =
      let (r, creation) =
        try_create_logger answers c_context_id c_context_description c_threshold registry in
      after_initialization fuel later r w (initialized creation >>= void_has_value)
