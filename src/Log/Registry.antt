-- ===== src/Log/Registry.antt =====
-- platform/ara-log/src/logger_registry.h and logger_registry.cpp: the owner of the loggers, a linked
-- list of heap objects. `W` is the state of the world that sinks and providers work on.
pub mod Chain
pub mod Finding
pub mod Outcome
pub mod Making
pub mod Registering
pub mod Serving
pub mod Destroying
pub mod Directory
pub mod Threads
use adaptive_pi.Prelude.{
  ℕ, suc, zero, ◌≡◌, Bool, true, false, ◌&&◌, Option, none, some, Bytes, length, memcpy, is_empty,
  Run, done, throws, terminates, bind, ltb, ◌==◌, bytes_eq, if◌then◌else◌,
}
use adaptive_pi.Core.ErrorDomain.{ErrorCode}
use adaptive_pi.Core.AdaptivePi.{make_error_code, k_operation_failed}
use adaptive_pi.Core.Result.{Result, from_value, from_error}
use adaptive_pi.Log.Level.{LogLevel, k_verbose}
use adaptive_pi.Log.Metadata.{MetadataProvider}
use adaptive_pi.Log.Sink.{Sink}
use adaptive_pi.Log.Logger.{
  Pointer, Logger, make_logger, context_id, context_description, default_threshold,
}

-- The logger objects by their addresses; an address without an object is free.
abbrev pub Heap : (W : Type 0) → Type 0
Heap W = Pointer → Option (Logger W)

abbrev pub LoggerCreationResult : Type 0
LoggerCreationResult = Result Pointer ErrorCode

-- The registry's own members, and the heap that its loggers live on.
pub record Registry (W : Type 0) : Type 0 where
  pub head : Option Pointer
  pub heap : Heap W
  pub selected_sink : Sink W
  pub selected_metadata_provider : MetadataProvider W

-- What the library answers during one call: the arrays that `new (std::nothrow)` gives for a size,
-- the address of the new object, and the return values of the mutex functions, 0 for success.
pub record Answers : Type 0 where
  pub new_id : ℕ → Option Bytes
  pub new_description : ℕ → Option Bytes
  pub new_logger : Option Pointer
  pub lock : ℕ
  pub unlock : ℕ

-- `LoggerRegistry(Sink&, MetadataProvider&)`; the heap is the program's.
abbrev pub make_registry : {W : Type 0} → Sink W → MetadataProvider W → Heap W → Registry W
make_registry sink provider heap = record {
  head = none;
  heap = heap;
  selected_sink = sink;
  selected_metadata_provider = provider;
}

abbrev pub failure : ErrorCode
failure = make_error_code k_operation_failed

-- The size that is allocated for a text.
abbrev pub array_size : Bytes → ℕ
array_size text = if is_empty text then 1 else length text

-- The array behind the text that was copied into it.
abbrev pub filled : Bytes → Bytes → Bytes
filled array text = if is_empty text then array else memcpy array 0 text

-- What `Find` returns at its end.
abbrev pub returned : Bool → Option Pointer → Run ⊥ Pointer
returned true (some p) = done p
returned true none = terminates
returned false found = terminates

module _ {W : Type 0} where
  -- The heap with another content at one address.
  unfoldable pub store : Heap W → Pointer → Option (Logger W) → Heap W
  store heap p content q = if q == p then content else heap q

  -- The publication under the mutex, and the two unlocks.
  unfoldable pub publish :
      Answers → Pointer → Logger W → Registry W → Registry W × Run ⊥ LoggerCreationResult
  unfolding store from_value from_error
  publish answers p logger r =
      if answers.lock == 0
      then (
        record r { heap = store r.heap p (some (record logger { next = r.head })); head = some p },
        if answers.unlock == 0 then from_value (done p) else terminates,
      )
      else (
        record r { heap = store (store r.heap p (some logger)) p none },
        from_error (done failure),
      )

  -- The allocation of the object; its constructor runs only if there is memory.
  unfoldable pub with_logger :
      Answers
      → Option Pointer
      → Run ⊥ (Logger W)
      → Registry W
      → Registry W × Run ⊥ LoggerCreationResult
  unfolding publish
  with_logger answers none logger r = (r, from_error (done failure))
  with_logger answers (some p) terminates r = (r, terminates)
  with_logger answers (some p) (done logger) r = publish answers p logger r
  with_logger answers (some p) (throws x) r = absurd x

  -- What follows the allocation of the second array.
  with_description :
      Answers
      → Bytes
      → Bytes
      → LogLevel
      → Bytes
      → Option Bytes
      → Registry W
      → Registry W × Run ⊥ LoggerCreationResult
  unfolding with_logger make_logger
  with_description answers id description threshold id_buffer none r =
      (r, from_error (done failure))
  with_description answers id description threshold id_buffer (some description_buffer) r =
      with_logger answers answers.new_logger
        (make_logger (filled id_buffer id) (length id) (filled description_buffer description)
          (length description) threshold r.selected_sink r.selected_metadata_provider)
        r

  -- What follows the allocation of the first array.
  with_id :
      Answers
      → Bytes
      → Bytes
      → LogLevel
      → Option Bytes
      → Registry W
      → Registry W × Run ⊥ LoggerCreationResult
  unfolding with_description
  with_id answers id description threshold none r = (r, from_error (done failure))
  with_id answers id description threshold (some id_buffer) r =
      with_description answers id description threshold id_buffer
        (answers.new_description (array_size description)) r

  -- `LoggerRegistry::Register`.
  unfoldable pub register :
      Answers → Bytes → Bytes → LogLevel → Registry W → Registry W × Run ⊥ LoggerCreationResult
  unfolding with_id
  register answers id description threshold r =
      if ltb k_verbose threshold
      then (r, terminates)
      else with_id answers id description threshold (answers.new_id (array_size id)) r

  -- One round of the loop of `Find`, at the object that `current` points to.
  abbrev pub visit :
      Bytes
      → Pointer
      → (Logger W → Option (Option Pointer))
      → Option (Logger W)
      → Option (Option Pointer)
  visit id p go_on none = none
  visit id p go_on (some logger) =
      let rest = go_on logger in if bytes_eq (context_id logger) id then some (some p) else rest

  -- The loop of `Find`. There is no result where the fuel ends or a link leads to a free address.
  unfoldable pub walk : ℕ → Heap W → Bytes → Option Pointer → Option (Option Pointer)
  walk zero heap id current = none
  walk (suc fuel) heap id none = some none
  walk (suc fuel) heap id (some p) = visit id p (λ logger. walk fuel heap id logger.next) (heap p)

  abbrev pub agrees : Bytes → LogLevel → Option (Logger W) → Bool
  agrees description threshold none = false
  agrees description threshold (some logger) =
      bytes_eq (context_description logger) description && default_threshold logger == threshold

  -- Whether the logger that was found has the description and the threshold that were asked for.
  unfoldable pub matches : Heap W → Bytes → LogLevel → Option Pointer → Bool
  matches heap description threshold none = false
  matches heap description threshold (some p) = agrees description threshold (heap p)

  -- `LoggerRegistry::Find`, which changes nothing.
  unfoldable pub find :
      (fuel : ℕ) → Answers → Bytes → Bytes → LogLevel → Registry W → Option (Run ⊥ Pointer)
  unfolding walk matches
  find fuel answers id description threshold r =
      if answers.lock == 0
      then bind (walk fuel r.heap id r.head) (λ found. some (
          if answers.unlock == 0
          then returned (matches r.heap description threshold found) found
          else terminates))
      else some terminates

  -- The loop of the destructor: the heap without the loggers from `current` on.
  unfoldable pub delete_all : ℕ → Heap W → Option Pointer → Option (Heap W)
  unfolding store
  delete_all zero heap current = none
  delete_all (suc fuel) heap none = some heap
  delete_all (suc fuel) heap (some p) =
      bind (heap p) (λ logger. delete_all fuel (store heap p none) logger.next)

  -- `LoggerRegistry::~LoggerRegistry`, with the answer of `pthread_mutex_destroy`.
  unfoldable pub destroy_registry : (fuel : ℕ) → ℕ → Registry W → Option (Run ⊥ (Heap W))
  unfolding delete_all
  destroy_registry fuel status r =
      bind (delete_all fuel r.heap r.head)
        λ heap. some (if status == 0 then done heap else terminates)
