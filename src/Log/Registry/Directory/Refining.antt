-- ===== src/Log/Registry/Directory/Refining.antt =====
-- The registry of platform/ara-log/src/logger_registry.cpp serves requests as a directory would.
use mathlib.Core.Path.{subst}
use mathlib.Core.Quot
use adaptive_pi.Prelude.{
  ℕ, ◌+◌, ◌<◌, ◌≤◌, ◌≡◌, refl, sym, ap, Option, none, some, List, [], ◌∷◌, Bytes, Run, done, throws,
  terminates, map_run, ◌==◌, ◌&&◌, if◌then◌else◌, ◌>>=◌, le→ltb_false, length, arith,
}
use mathlib.Core.Option
use adaptive_pi.Core.Storage.{Holds, result, error}
use adaptive_pi.Core.Result.Access.{Holds-Answers}
use adaptive_pi.Log.Level.{LogLevel, k_verbose}
use adaptive_pi.Log.Logger.{Pointer, Logger, context_id, context_description, default_threshold}
use adaptive_pi.Log.Registry.{LoggerCreationResult, Registry, Answers, failure}
use adaptive_pi.Log.Registry.Chain.{Loggers, Chain, lookup}
use adaptive_pi.Log.Registry.Outcome.{
  Made, Registered, undefined_level, denied, mutex_broken, published, Denied-granted,
}
use adaptive_pi.Log.Registry.Registering.{register-Registered}
use adaptive_pi.Log.Registry.Finding.{answer, find-answer}
use adaptive_pi.Log.Registry.Directory.{Entry, newest, Directory, last_entry, enter}
use adaptive_pi.Log.Registry.Directory.Requests.{
  Request, registering, finding, Reply, created, refused, found, inspect, perform, replies,
  Supplied, promised, contract, promised_replies, reply_and, answer_find, serve,
}

inspect-created :
    (res : LoggerCreationResult) (p : Pointer)
    → Holds res (result p)
    → inspect res ≡ done (created p)
unfolding inspect
inspect-created res p h = let a = Holds-Answers res (result p) h in rw (a.has, a.gives) (refl)

inspect-refused :
    (res : LoggerCreationResult) → Holds res (error failure) → inspect res ≡ done (refused failure)
unfolding inspect
inspect-refused res h = let a = Holds-Answers res (error failure) h in rw (a.has, a.gives) (refl)

module _ {W : Type 0} where
  abbrev pub entry_of : Pointer × Logger W → Entry
  entry_of (p, logger) = record {
    id = context_id logger;
    description = context_description logger;
    threshold = default_threshold logger;
    logger = p;
  }

  abbrev entries : Loggers W → List Entry
  entries [] = []
  entries (l ∷ ls) = entry_of l ∷ entries ls

  -- The directory of the loggers of a registry.
  abbrev pub directory : Loggers W → Directory
  directory ls = Quot.mk (entries ls)

  pub newest-entries :
      (id : Bytes) (ls : Loggers W) → newest id (entries ls) ≡ Option.map entry_of (lookup id ls)
  unfolding newest lookup
  newest-entries id [] = refl
  newest-entries id ((p, logger) ∷ ls) = ground (arith, newest-entries id ls)

  pub entry_of-Made :
      (id description : Bytes) (threshold : LogLevel) (r : Registry W) (p : Pointer)
      (logger : Logger W)
      → Made id description threshold r logger
      → entry_of (p, logger)
        ≡ record { id = id; description = description; threshold = threshold; logger = p }
  entry_of-Made id description threshold r p logger m =
      let i = m.identifier in let d = m.says in let t = m.level in cc

  -- A reply of the code that the directory gives too, and the loggers it leaves.
  data Refines (request : Request) (ls : Loggers W) : Registry W × Run ⊥ Reply → Type 0 where
    goes_on :
        {left : Registry W} {reply : Reply} (ls' : Loggers W)
        → Chain left.heap left.head ls'
        → length ls' ≤ length ls + 1
        → promised request (directory ls) ≡ (directory ls', done reply)
        → Refines request ls (left, done reply)
    stops :
        {left : Registry W}
        → (promised request (directory ls)).1 ≡ terminates
        → Refines request ls (left, terminates)

  Registered-Refines :
      (answers : Answers) (id description : Bytes) (threshold : LogLevel) (r : Registry W)
      (ls : Loggers W) {left : Registry W} {outcome : Run ⊥ LoggerCreationResult}
      → Chain r.heap r.head ls
      → Registered answers id description threshold r ls (left, outcome)
      → Refines (registering answers id description threshold) ls (left, outcome >>= inspect)
  unfolding promised contract enter
  Registered-Refines answers id description threshold r ls c (undefined_level t) =
      stops (ground arith)
  Registered-Refines answers id description threshold r ls c (denied {res = res} t d e holds) =
      rw (inspect-refused res holds) (
        goes_on ls (subst (λ x. Chain x.heap x.head ls) (sym e) c) (omega arith)
          (rw (le→ltb_false k_verbose threshold t, Denied-granted answers id description d) (refl)))
  Registered-Refines answers id description threshold r ls c (mutex_broken t g u) =
      stops (rw (le→ltb_false k_verbose threshold t, g) (ground arith))
  Registered-Refines answers id description threshold r ls c
        (published {p = p} {logger = logger} {res = res} t g u free same c' m holds) =
      rw (inspect-created res p holds) (
        goes_on ((p, logger) ∷ ls) c' (omega arith) (
          rw (le→ltb_false k_verbose threshold t, g, u)
            (ap (λ x. (Quot.mk (x ∷ entries ls), done (created p)))
              (sym (entry_of-Made id description threshold r p logger m)))))

  pub serve-answer :
      (description : Bytes) (threshold : LogLevel) (o : Option (Pointer × Logger W))
      → serve description threshold (Option.map entry_of o) ≡ answer description threshold o
  unfolding answer
  serve-answer description threshold none = refl
  serve-answer description threshold (some (p, logger)) = refl

  found-Refines :
      (request : Request) (r : Registry W) (ls : Loggers W) (outcome : Run ⊥ Pointer)
      → Chain r.heap r.head ls
      → promised request (directory ls) ≡ (directory ls, map_run found outcome)
      → Refines request ls (r, map_run found outcome)
  found-Refines request r ls (done p) c e = goes_on ls c (omega arith) e
  found-Refines request r ls (throws x) c e = absurd x
  found-Refines request r ls terminates c e = stops (ap (λ x. x.1) e)

  perform-find :
      (fuel : ℕ) (answers : Answers) (id description : Bytes) (threshold : LogLevel)
      (r : Registry W) (ls : Loggers W)
      → Chain r.heap r.head ls
      → length ls < fuel
      → (outcome : Run ⊥ Reply) × (perform fuel (finding answers id description threshold) r
          ≡ some (r, outcome))
        × Refines (finding answers id description threshold) ls (r, outcome)
  unfolding perform promised last_entry
  perform-find fuel answers id description threshold r ls c h =
      let outcome =
        if answers.lock == 0 && answers.unlock == 0
        then answer description threshold (lookup id ls)
        else terminates in
      (
        map_run found outcome,
        ap (answer_find r) (find-answer fuel answers id description threshold r ls c h),
        found-Refines (finding answers id description threshold) r ls outcome c
            (rw (newest-entries id ls, serve-answer description threshold (lookup id ls)) (refl)),
      )

  Refines-replies :
      (fuel : ℕ) (request : Request) (requests : List Request) (ls : Loggers W)
      {x : Registry W × Run ⊥ Reply}
      → Refines request ls x
      → ((ls' : Loggers W)
          → Chain x.0.heap x.0.head ls'
          → length ls' ≤ length ls + 1
          → replies fuel requests x.0 ≡ some (promised_replies requests (directory ls')))
      → reply_and (some x) (λ left. replies fuel requests left)
        ≡ some (promised_replies (request ∷ requests) (directory ls))
  unfolding promised_replies
  Refines-replies fuel request requests ls (goes_on ls' c l e) k = rw (e, k ls' c l) (refl)
  Refines-replies fuel request requests ls (stops e) k = rw e (refl)

  -- To any requests, one after the other, the code of the registry gives the replies that a directory
  -- of its loggers gives: the same loggers and errors in the same order, to the end or to the same
  -- termination of the program. The registry is one of linked loggers, `new` gives what it promises
  -- at each registration, and the fuel exceeds the number of loggers and requests.
  pub replies-promised_replies :
      (fuel : ℕ) (requests : List Request) (r : Registry W) (ls : Loggers W)
      → Chain r.heap r.head ls
      → Supplied requests r
      → length ls + length requests < fuel
      → replies fuel requests r ≡ some (promised_replies requests (directory ls))
  unfolding replies promised_replies perform
  replies-promised_replies fuel [] r ls c s h = refl
  replies-promised_replies fuel (registering answers id description threshold ∷ requests) r ls c s
        h =
      Refines-replies fuel (registering answers id description threshold) requests ls
        (Registered-Refines answers id description threshold r ls c
          (register-Registered answers id description threshold r ls s.0 c))
        (λ ls' c' l. replies-promised_replies fuel requests _ ls' c' s.1 (omega arith))
  replies-promised_replies fuel (finding answers id description threshold ∷ requests) r ls c s h =
      let (outcome, performed, refines) =
        perform-find fuel answers id description threshold r ls c (omega arith) in
      rw performed (
        Refines-replies fuel (finding answers id description threshold) requests ls refines
          (λ ls' c' l. replies-promised_replies fuel requests r ls' c' s (omega arith)))
