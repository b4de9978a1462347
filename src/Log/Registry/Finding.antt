-- ===== src/Log/Registry/Finding.antt =====
-- What Find answers, by the list of loggers.
use adaptive_pi.Prelude.{
  bytes_eq, ℕ, ◌≡◌, ◌<◌, refl, ◌&&◌, Option, none, some, Bytes, Run, done, terminates, length, ◌==◌,
  if◌then◌else◌, arith,
}
use adaptive_pi.Log.Level.{LogLevel}
use adaptive_pi.Log.Logger.{Pointer, Logger, context_description, default_threshold}
use adaptive_pi.Log.Registry.{Heap, Registry, Answers, matches, returned, find}
use adaptive_pi.Log.Registry.Chain.{Loggers, Chain, lookup, address, walk-lookup, lookup-stored}

module _ {W : Type 0} where
  -- The newest logger with the identifier, if it has the description and the threshold.
  unfoldable pub answer : Bytes → LogLevel → Option (Pointer × Logger W) → Run ⊥ Pointer
  answer description threshold none = terminates
  answer description threshold (some (p, logger)) =
      if bytes_eq (context_description logger) description && default_threshold logger == threshold
      then done p
      else terminates

  pub returned-answer :
      (heap : Heap W) (description : Bytes) (threshold : LogLevel) (o : Option (Pointer × Logger W))
      → ((p : Pointer) (logger : Logger W) → o ≡ some (p, logger) → heap p ≡ some logger)
      → returned (matches heap description threshold (address o)) (address o)
        ≡ answer description threshold o
  unfolding matches answer
  returned-answer heap description threshold none h = refl
  returned-answer heap description threshold (some (p, logger)) h =
      rw (h p logger refl) (ground arith)

  -- On a registry of linked loggers, with fuel beyond their number, `Find` terminates the program
  -- where the mutex fails, where no logger has the identifier or where the newest that has it was
  -- made with another description or threshold; otherwise it returns that logger.
  pub find-answer :
      (fuel : ℕ) (answers : Answers) (id description : Bytes) (threshold : LogLevel)
      (r : Registry W) (ls : Loggers W)
      → Chain r.heap r.head ls
      → length ls < fuel
      → find fuel answers id description threshold r
        ≡ some (
            if answers.lock == 0 && answers.unlock == 0
            then answer description threshold (lookup id ls)
            else terminates)
  unfolding find
  find-answer fuel answers id description threshold r ls c h =
      rw
        (
          walk-lookup fuel id c h,
          returned-answer r.heap description threshold (lookup id ls)
              (λ p logger e. lookup-stored id c e),
        )
        (ground arith)
