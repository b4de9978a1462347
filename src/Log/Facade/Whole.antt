-- ===== src/Log/Facade/Whole.antt =====
-- A logger of the process-wide registry, from its registration to its record on the standard output.
use mathlib.Core.Path.{subst}
use adaptive_pi.Prelude.{ℕ, ◌≡◌, ◌≢◌, ◌≤◌, sym, ap, ◌∙◌, some, List, [], Bytes, done, length, arith}
use adaptive_pi.Core.Storage.{result, error}
use adaptive_pi.Core.Result.{value}
use adaptive_pi.Core.Result.Access.{Holds-Answers}
use adaptive_pi.Log.Level.{LogLevel, IsSeverity, k_verbose}
use adaptive_pi.Log.Metadata.{Clock, zero_metadata, linux_read}
use adaptive_pi.Log.Timestamp.{Gmtime}
use adaptive_pi.Log.Logger.{Pointer, Logger, default_threshold}
use adaptive_pi.Log.Logger.Submission.{is_enabled_iff}
use adaptive_pi.Log.Stream.{Floating, destroy}
use adaptive_pi.Log.Stream.Inserting.{Value, insert_all, texts}
use adaptive_pi.Log.Registry.{Heap, LoggerCreationResult, Registry, Answers, failure}
use adaptive_pi.Log.Registry.Chain.{ended, newest-stored}
use adaptive_pi.Log.Registry.Outcome.{Provides, Made, Registered, denied, published}
use adaptive_pi.Log.Registry.Registering.{register-Registered}
use adaptive_pi.Log.Facade.{with_level, make_default_registry, try_create_logger}
use adaptive_pi.Log.Facade.Output.{Answered, print, destroy-print}

module _ {W F : Type 0} (gmtime_r : Gmtime) (fwrite : Bytes → W → ℕ × W) (ask : W → Clock × W)
    (f : Floating F) (heap : Heap W) where
  Made-print :
      {id description : Bytes} {threshold level : LogLevel} (logger : Logger W)
      (vs : List (Value F)) (message : Bytes) (w : W)
      → Made id description threshold (make_default_registry fwrite ask heap) logger
      → threshold ≤ k_verbose
      → IsSeverity level
      → level ≤ threshold
      → Answered (ask w).0
      → length id ≤ 4055
      → texts f vs ≡ some message
      → message ≢ []
      → length message ≤ 4096
      → destroy gmtime_r (insert_all f vs (with_level logger level)) w
        ≡ print gmtime_r fwrite level id message (linux_read (ask w).0 zero_metadata) (ask w).1
  unfolding make_default_registry default_threshold
  Made-print {level = level} logger vs message w m bounded s below a k t n l =
      destroy-print gmtime_r fwrite f ask logger level vs message w m.writes m.reads
        ((is_enabled_iff logger level).1 (s, omega (arith, m.level), omega (arith, m.level))) a
        (subst (λ i. length i ≤ 4055) (sym m.identifier) k) t n l
      ∙ ap
          (λ i.
            print gmtime_r fwrite level i message (linux_read (ask w).0 zero_metadata) (ask w).1)
          m.identifier

  Registered-print :
      {answers : Answers} {id description : Bytes} {threshold level : LogLevel} {r' : Registry W}
      {res : LoggerCreationResult} {p : Pointer} (vs : List (Value F)) (message : Bytes) (w : W)
      → Registered answers id description threshold
          (make_default_registry fwrite ask heap)
          []
          (r', done res)
      → value res ≡ done p
      → IsSeverity level
      → level ≤ threshold
      → Answered (ask w).0
      → length id ≤ 4055
      → texts f vs ≡ some message
      → message ≢ []
      → length message ≤ 4096
      → (logger : Logger W) × (r'.heap p ≡ some logger)
        × (destroy gmtime_r (insert_all f vs (with_level logger level)) w
            ≡ print gmtime_r fwrite level id message (linux_read (ask w).0 zero_metadata) (ask w).1)
  Registered-print {res = res} vs message w (denied b d e holds) v s below a k t n l =
      let x = Holds-Answers res (error failure) holds in absurd (cc (x.refuses))
  Registered-print {r' = r'} {res} {p} vs message w
        (published {p = q} {logger = logger} bounded granted unlocked free same c m holds) v s below
        a k t n l =
      let x = Holds-Answers res (result q) holds in
      let here : q ≡ p = cc (x.gives) in
      (
        logger,
        ap r'.heap (sym here) ∙ newest-stored c,
        Made-print logger vs message w m bounded s below a k t n l,
      )

  -- A logger that TryCreateLogger made in the process-wide registry of the constructor prints: a stream of WithLevel at a
  -- severity that the threshold reaches, filled with values whose texts make up a message of 1 to 4096 bytes
  -- and destroyed, asks the kernel once; then the record with the context of the call goes to the standard
  -- output, whole and in one call of `fwrite`, or nothing does, since the kernel or the time was of no
  -- use. The context has at most 4055 bytes, and memory is as `new` promises it.
  pub try_create_logger-print :
      (answers : Answers) (id description : Bytes) (threshold level : LogLevel) (r' : Registry W)
      (res : LoggerCreationResult) (p : Pointer) (vs : List (Value F)) (message : Bytes) (w : W)
      → Provides answers heap
      → try_create_logger answers id description threshold (make_default_registry fwrite ask heap)
        ≡ (r', done res)
      → value res ≡ done p
      → IsSeverity level
      → level ≤ threshold
      → Answered (ask w).0
      → length id ≤ 4055
      → texts f vs ≡ some message
      → message ≢ []
      → length message ≤ 4096
      → (logger : Logger W) × (r'.heap p ≡ some logger)
        × (destroy gmtime_r (insert_all f vs (with_level logger level)) w
            ≡ print gmtime_r fwrite level id message (linux_read (ask w).0 zero_metadata) (ask w).1)
  unfolding try_create_logger make_default_registry
  try_create_logger-print answers id description threshold level r' res p vs message w pr e v s
        below a k t n l =
      Registered-print vs message w
        (subst
          (Registered answers id description threshold (make_default_registry fwrite ask heap) []) e
          (register-Registered answers id description threshold
            (make_default_registry fwrite ask heap) [] pr ended))
        v s below a k t n l
