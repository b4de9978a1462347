-- ===== src/Log/Registry/Outcome.antt =====
-- The outcomes of Register, and what it takes from the library.
use adaptive_pi.Prelude.{
  ℕ, Bool, true, Option, ◌==◌, arith, ◌≡◌, ◌≢◌, ◌<◌, ◌≤◌, ◌⊎◌, none, some, ◌∷◌, Bytes, Run, done,
  terminates, length,
}
use adaptive_pi.Core.Storage.{Holds, result, error}
use adaptive_pi.Log.Level.{LogLevel, k_verbose}
use adaptive_pi.Log.Logger.{Pointer, Logger, context_id, context_description, default_threshold}
use adaptive_pi.Log.Registry.{
  Heap, LoggerCreationResult, Registry, Answers, failure, array_size, store,
}
use adaptive_pi.Log.Registry.Chain.{Loggers, Chain}

-- What `new` promises: arrays of the requested size and an address that is free.
pub record Provides {W : Type 0} (answers : Answers) (heap : Heap W) : Type 0 where
  pub ids : (n : ℕ) (array : Bytes) → answers.new_id n ≡ some array → length array ≡ n
  pub descriptions :
      (n : ℕ) (array : Bytes) → answers.new_description n ≡ some array → length array ≡ n
  pub fresh : (p : Pointer) → answers.new_logger ≡ some p → heap p ≡ none

-- The logger answers for what it was made of, and works on the registry's sink and provider.
pub record Made {W : Type 0} (id description : Bytes) (threshold : LogLevel) (r : Registry W)
    (logger : Logger W) : Type 0 where
  pub identifier : context_id logger ≡ id
  pub says : context_description logger ≡ description
  pub level : default_threshold logger ≡ threshold
  pub writes : logger.sink ≡ r.selected_sink
  pub reads : logger.metadata_provider ≡ r.selected_metadata_provider

-- An allocation failed, or the lock was not acquired.
abbrev pub Denied : (answers : Answers) (id description : Bytes) → Type 0
Denied answers id description =
    (answers.new_id (array_size id) ≡ none)
    ⊎ (answers.new_description (array_size description) ≡ none)
    ⊎ (answers.new_logger ≡ none)
    ⊎ (answers.lock ≢ 0)

abbrev all_given : Option Bytes → Option Bytes → Option Pointer → Bool → Option Pointer
all_given (some id_buffer) (some description_buffer) (some p) true = some p
all_given _ _ _ _ = none

-- The address of the new object, where all that a registration asks for is given.
abbrev pub granted : Answers → Bytes → Bytes → Option Pointer
granted answers id description =
    all_given (answers.new_id (array_size id)) (answers.new_description (array_size description))
      answers.new_logger (answers.lock == 0)

pub Denied-granted :
    (answers : Answers) (id description : Bytes)
    → Denied answers id description
    → granted answers id description ≡ none
Denied-granted answers id description d = ground arith

-- The outcomes of `Register` on a registry whose loggers are `ls`.
pub data Registered {W : Type 0} (answers : Answers) (id description : Bytes) (threshold : LogLevel)
    (r : Registry W) (ls : Loggers W) : Registry W × Run ⊥ LoggerCreationResult → Type 0 where
  undefined_level :
      k_verbose < threshold → Registered answers id description threshold r ls (r, terminates)
  denied :
      {r' : Registry W} {res : LoggerCreationResult}
      → threshold ≤ k_verbose
      → Denied answers id description
      → r' ≡ r
      → Holds res (error failure)
      → Registered answers id description threshold r ls (r', done res)
  mutex_broken :
      {p : Pointer} {r' : Registry W}
      → threshold ≤ k_verbose
      → granted answers id description ≡ some p
      → answers.unlock ≢ 0
      → Registered answers id description threshold r ls (r', terminates)
  published :
      {p : Pointer} {logger : Logger W} {r' : Registry W} {res : LoggerCreationResult}
      → threshold ≤ k_verbose
      → granted answers id description ≡ some p
      → answers.unlock ≡ 0
      → r.heap p ≡ none
      → r'.heap ≡ store r.heap p (some logger)
      → Chain r'.heap r'.head ((p, logger) ∷ ls)
      → Made id description threshold r logger
      → Holds res (result p)
      → Registered answers id description threshold r ls (r', done res)
