-- ===== src/Log/Registry/Serving.antt =====
-- Register and Find together: what one call leaves for the next.
use mathlib.Core.Path.{subst}
use adaptive_pi.Prelude.{
  ℕ, ◌+◌, ◌≡◌, ◌≢◌, ◌<◌, sym, ap, ◌∙◌, true, some, ◌∷◌, Bytes, done, length, bytes_eq, bytes_eq_iff,
  arith, Bool-cases, inl, inr,
}
use adaptive_pi.Core.Storage.{result, error}
use adaptive_pi.Core.Result.{value}
use adaptive_pi.Core.Result.Access.{Holds-Answers}
use adaptive_pi.Log.Level.{LogLevel}
use adaptive_pi.Log.Logger.{Pointer, Logger, context_id, context_description, default_threshold}
use adaptive_pi.Log.Registry.{LoggerCreationResult, Registry, Answers, failure, find, register}
use adaptive_pi.Log.Registry.Chain.{Loggers, Chain, lookup}
use adaptive_pi.Log.Registry.Finding.{answer, find-answer}
use adaptive_pi.Log.Registry.Outcome.{Provides, Made, Registered, denied, published}
use adaptive_pi.Log.Registry.Registering.{register-Registered}

module _ {W : Type 0} (id description : Bytes) (threshold : LogLevel) (r : Registry W) where
  pub answer-Made :
      (p : Pointer) (logger : Logger W) (ls : Loggers W)
      → Made id description threshold r logger
      → answer description threshold (lookup id ((p, logger) ∷ ls)) ≡ done p
  unfolding answer lookup
  answer-Made p logger ls m =
      let i : bytes_eq (context_id logger) id ≡ true =
        (bytes_eq_iff (context_id logger) id).1 m.identifier in
      let d : bytes_eq (context_description logger) description ≡ true =
        (bytes_eq_iff (context_description logger) description).1 m.says in
      let t : default_threshold logger ≡ threshold = m.level in ground arith

  lookup-Made :
      (other : Bytes) (p : Pointer) (logger : Logger W) (ls : Loggers W)
      → other ≢ id
      → Made id description threshold r logger
      → lookup other ((p, logger) ∷ ls) ≡ lookup other ls
  unfolding lookup
  lookup-Made other p logger ls h m = elim (Bool-cases (bytes_eq (context_id logger) other)) [
    | inl e ↦ absurd (h (sym ((bytes_eq_iff (context_id logger) other).0 e) ∙ m.identifier))
    | inr e ↦ rw e
  ]

module _ {W : Type 0} (answers : Answers) (id description : Bytes) (threshold : LogLevel)
    (r : Registry W) (ls : Loggers W) (later : Answers) (fuel : ℕ) where
  find-Registered :
      {r' : Registry W} {res : LoggerCreationResult} {p : Pointer}
      → Registered answers id description threshold r ls (r', done res)
      → value res ≡ done p
      → (later.lock ≡ 0) × (later.unlock ≡ 0)
      → length ls + 1 < fuel
      → find fuel later id description threshold r' ≡ some (done p)
  find-Registered {res = res} (denied t d e holds) v u f =
      let a = Holds-Answers res (error failure) holds in cc (a.refuses)
  find-Registered {r' = r'} {res = res}
        (published {p = q} {logger = logger} t g k free same c m holds) v u f =
      let a = Holds-Answers res (result q) holds in
      find-answer fuel later id description threshold r' ((q, logger) ∷ ls) c (omega arith)
      ∙ rw (u.0, u.1, answer-Made id description threshold r q logger ls m) (cc (a.gives))

  -- On a registry of linked loggers, with memory as `new` promises it, a lookup with the arguments
  -- of a registration that returned a logger returns that logger, if the mutex works at the lookup
  -- and the fuel exceeds the number of loggers.
  pub find-register :
      (r' : Registry W) (res : LoggerCreationResult) (p : Pointer)
      → Provides answers r.heap
      → Chain r.heap r.head ls
      → register answers id description threshold r ≡ (r', done res)
      → value res ≡ done p
      → (later.lock ≡ 0) × (later.unlock ≡ 0)
      → length ls + 1 < fuel
      → find fuel later id description threshold r' ≡ some (done p)
  find-register r' res p pr c e v u f =
      find-Registered
        (subst (Registered answers id description threshold r ls) e
          (register-Registered answers id description threshold r ls pr c))
        v u f

  other-Registered :
      {r' : Registry W} {res : LoggerCreationResult} (other d : Bytes) (t : LogLevel)
      → Registered answers id description threshold r ls (r', done res)
      → Chain r.heap r.head ls
      → other ≢ id
      → length ls + 1 < fuel
      → find fuel later other d t r' ≡ find fuel later other d t r
  other-Registered other d t (denied b x e holds) c h f = ap (find fuel later other d t) e
  other-Registered {r' = r'} other d t
        (published {p = q} {logger = logger} k g o free same c' m holds) c h f =
      find-answer fuel later other d t r' ((q, logger) ∷ ls) c' (omega arith)
      ∙ rw (lookup-Made id description threshold r other q logger ls h m)
          (sym (find-answer fuel later other d t r ls c (omega arith)))

  -- On a registry of linked loggers, with memory as `new` promises it and fuel beyond the number of
  -- loggers, a registration that returns, with a logger or with an error, changes no lookup of
  -- another identifier.
  pub find-register_other :
      (r' : Registry W) (res : LoggerCreationResult) (other d : Bytes) (t : LogLevel)
      → Provides answers r.heap
      → Chain r.heap r.head ls
      → register answers id description threshold r ≡ (r', done res)
      → other ≢ id
      → length ls + 1 < fuel
      → find fuel later other d t r' ≡ find fuel later other d t r
  find-register_other r' res other d t pr c e h f =
      other-Registered other d t
        (subst (Registered answers id description threshold r ls) e
          (register-Registered answers id description threshold r ls pr c))
        c h f
