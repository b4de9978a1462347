-- ===== src/Hello/Greeting.antt =====
-- What the hello application does, whatever the library answers.
use adaptive_pi.Log.Modelled.{Message, log}
use adaptive_pi.Prelude.{
  ℕ, ◌+◌, ◌≡◌, ◌≢◌, ◌<◌, ◌⊎◌, inl, inr, refl, ap, ◌∙◌, Bool, true, false, ◌&&◌, Option, some, [],
  ◌∷◌, codes, Run, done, terminates, ◌>>=◌, length, ◌==◌, if◌then◌else◌, arith,
}
use adaptive_pi.Core.Storage.{Holds, result, error, make_storage, index, get_error}
use adaptive_pi.Core.Result.{has_value, error_value}
use adaptive_pi.Core.VoidResult.{void_has_value, void_from_value, void_from_error}
use adaptive_pi.Log.Level.{k_info}
use adaptive_pi.Log.Timestamp.{Gmtime}
use adaptive_pi.Log.Logger.{Pointer, Logger, submit}
use adaptive_pi.Log.Stream.{Floating, destroy, insert_c_string, open_stream}
use adaptive_pi.Log.Stream.Inserting.{c_string, insert, insert_all, texts}
use adaptive_pi.Log.Stream.Submitting.{submit_texts, destroy-insert_all}
use adaptive_pi.Log.Writer.Spacing.{NeverEmpty}
use adaptive_pi.Log.Modelled.Payload.{payload, log_with-payload}
use adaptive_pi.Log.Registry.{LoggerCreationResult, Registry, Answers, failure}
use adaptive_pi.Log.Registry.Chain.{Chain, Loggers, newest-stored}
use adaptive_pi.Log.Registry.Finding.{find-answer}
use adaptive_pi.Log.Registry.Outcome.{
  Provides, Made, Denied, Registered, undefined_level, denied, mutex_broken, published,
}
use adaptive_pi.Log.Registry.Registering.{register-Registered}
use adaptive_pi.Log.Registry.Serving.{answer-Made}
use adaptive_pi.Log.Facade.{log_info, try_create_logger, create_logger}
use adaptive_pi.Hello.{
  c_context_id, c_context_description, c_threshold, initialized, greeting, c_greeting, greet,
  greet_at, with_reference, after_initialization, main,
}

module _ {W F : Type 0} (gmtime_r : Gmtime) (f : Floating F) (law : NeverEmpty f)
    (trace_arti : Message F → W → W) where
  -- The two messages, one after the other.
  abbrev pub greeted : Logger W → W → W
  greeted logger w =
      submit gmtime_r logger k_info
        (codes "id=HELLO_GREETING Hello from AdaptivePi on Embedded Linux.")
        (submit gmtime_r logger k_info (codes "Application startup") w)

  submit_texts-startup :
      (logger : Logger W) (w : W)
      → submit_texts gmtime_r logger k_info
          (texts f (c_string (some (codes "Application startup")) ∷ []))
          w
        ≡ submit gmtime_r logger k_info (codes "Application startup") w
  unfolding submit_texts texts submit adaptive_pi.Log.Stream.until_null
  submit_texts-startup logger w = refl

  startup :
      (logger : Logger W) (w : W)
      → destroy gmtime_r (insert_c_string (some (codes "Application startup")) (log_info logger)) w
        ≡ submit gmtime_r logger k_info (codes "Application startup") w
  unfolding log_info insert_all insert
  startup logger w =
      destroy-insert_all gmtime_r f logger k_info
        (c_string (some (codes "Application startup")) ∷ []) w
      ∙ submit_texts-startup logger w

  submit_texts-greeting :
      (logger : Logger W) (w : W)
      → submit_texts gmtime_r logger k_info (payload f [] (greeting c_greeting)) w
        ≡ submit gmtime_r logger k_info
            (codes "id=HELLO_GREETING Hello from AdaptivePi on Embedded Linux.")
            w
  unfolding submit_texts payload submit adaptive_pi.Log.Writer.Spacing.written_texts
      adaptive_pi.Log.Logger.is_enabled texts adaptive_pi.Log.Writer.Spacing.spaced
      adaptive_pi.Log.Attributes.Quoting.attributes_text
  submit_texts-greeting logger w = refl

  greet-greeted :
      (logger : Logger W) (w : W) → greet gmtime_r f trace_arti logger w ≡ greeted logger w
  unfolding greet log
  greet-greeted logger w =
      log_with-payload gmtime_r f law trace_arti logger [] (greeting c_greeting) _ tt
      ∙ submit_texts-greeting logger _
      ∙ ap
          (λ u.
            submit gmtime_r logger k_info
              (codes "id=HELLO_GREETING Hello from AdaptivePi on Embedded Linux.") u)
          (startup logger w)

  -- The ways to end: with EXIT_FAILURE and nothing written, since the logger was not created; by
  -- termination, since a mutex failed; with EXIT_SUCCESS and both messages submitted.
  pub data Ended (answers later : Answers) (r : Registry W) (w : W)
      : Option (Run ⊥ (ℕ × W)) → Type 0 where
    gave_up :
        Denied answers c_context_id c_context_description
        → Ended answers later r w (some (done (1, w)))
    aborted :
        (answers.unlock ≢ 0) ⊎ (later.lock ≢ 0) ⊎ (later.unlock ≢ 0)
        → Ended answers later r w (some terminates)
    succeeded :
        {logger : Logger W}
        → Made c_context_id c_context_description c_threshold r logger
        → Ended answers later r w (some (done (0, greeted logger w)))

  initialized-value :
      (res : LoggerCreationResult) (p : Pointer)
      → Holds res (result p)
      → (initialized (done res) >>= void_has_value) ≡ done true
  unfolding initialized void_has_value void_from_value make_storage index has_value
  initialized-value res p h = rw h.held

  initialized-error :
      (res : LoggerCreationResult)
      → Holds res (error failure)
      → (initialized (done res) >>= void_has_value) ≡ done false
  unfolding initialized void_has_value void_from_error make_storage index has_value error_value
      get_error
  initialized-error res h = rw h.held

  initialized-terminates : (initialized terminates >>= void_has_value) ≡ terminates
  unfolding initialized
  initialized-terminates = refl

  with_reference-Ended :
      (answers later : Answers) (r r' : Registry W) (p : Pointer) (logger : Logger W) (ok : Bool)
      (w : W)
      → r'.heap p ≡ some logger
      → Made c_context_id c_context_description c_threshold r logger
      → (ok ≡ false → (later.lock ≢ 0) ⊎ (later.unlock ≢ 0))
      → Ended answers later r w
          (with_reference gmtime_r f trace_arti r' w (some (if ok then done p else terminates)))
  unfolding with_reference greet_at
  with_reference-Ended answers later r r' p logger true w e m why =
      rw (e, greet-greeted logger w) (succeeded m)
  with_reference-Ended answers later r r' p logger false w e m why = aborted (inr (why refl))

  -- The program after a registration that returned a result.
  after-Ended :
      (fuel : ℕ) (answers later : Answers) (r : Registry W) (ls : Loggers W) (w : W)
      {r' : Registry W} {creation : Run ⊥ LoggerCreationResult}
      → Registered answers c_context_id c_context_description c_threshold r ls (r', creation)
      → length ls + 1 < fuel
      → Ended answers later r w (
          after_initialization gmtime_r f trace_arti fuel later r' w
            (initialized creation >>= void_has_value))
  unfolding after_initialization create_logger
  after-Ended fuel answers later r ls w (undefined_level t) h = absurd (omega (arith, t))
  after-Ended fuel answers later r ls w {r'} (denied {res = res} t d e holds) h =
      rw (initialized-error res holds) (gave_up d)
  after-Ended fuel answers later r ls w (mutex_broken t g u) h =
      rw initialized-terminates (aborted (inl u))
  after-Ended fuel answers later r ls w {r'}
        (published {p = p} {logger = logger} {res = res} t g k free same c m holds) h =
      rw
        (
          initialized-value res p holds,
          find-answer fuel later c_context_id c_context_description c_threshold r'
              ((p, logger) ∷ ls) c (omega arith),
          answer-Made c_context_id c_context_description c_threshold r p logger ls m,
        )
        (with_reference-Ended answers later r r' p logger (later.lock == 0 && later.unlock == 0) w
          (newest-stored c) m (λ e. ground arith))

  -- On a registry of linked loggers, with memory as `new` promises it, fuel beyond the number of
  -- loggers and a floating-point formatter that never writes an empty text, the program ends: it
  -- gives up with EXIT_FAILURE and the world unchanged, where an allocation failed or the lock was
  -- refused; or it terminates, where an unlock or the second lock failed; or it submits the two
  -- messages, in order, to a logger of its context and ends with EXIT_SUCCESS.
  pub main-Ended :
      (fuel : ℕ) (answers later : Answers) (r : Registry W) (ls : Loggers W) (w : W)
      → Provides answers r.heap
      → Chain r.heap r.head ls
      → length ls + 1 < fuel
      → Ended answers later r w (main gmtime_r f trace_arti fuel answers later r w)
  unfolding main try_create_logger
  main-Ended fuel answers later r ls w pr c h =
      after-Ended fuel answers later r ls w
        (register-Registered answers c_context_id c_context_description c_threshold r ls pr c) h
