-- ===== src/Log/Registry/Threads.antt =====
-- Register and Find of platform/ara-log/src/logger_registry.cpp as threads run them: one move for
-- each access to the shared list, the heap or the mutex, interleaved in any order.
pub mod Facts
pub mod Seen
pub mod Moves
pub mod Keeping
pub mod Safety
pub mod Lasting
pub mod Running
pub mod Progress
pub mod Alone
pub mod Releasing
pub mod History
pub mod Linearizing
use adaptive_pi.Prelude.{
  ℕ, ◌≡◌, ◌≢◌, ◌≤◌, Bool, true, false, ◌==◌, Option, none, some, [], ◌∷◌, Bytes, length, Run, done,
  ltb, bytes_eq, if◌then◌else◌,
}
use adaptive_pi.Prelude.Updates.{update}
use adaptive_pi.Log.Level.{LogLevel, k_verbose}
use adaptive_pi.Log.Metadata.{MetadataProvider}
use adaptive_pi.Log.Sink.{Sink}
use adaptive_pi.Log.Logger.{Pointer, Logger, make_logger, context_id}
use adaptive_pi.Log.Registry.{Heap, array_size, filled, store, matches}
use adaptive_pi.Log.Registry.Chain.{Loggers}

-- What the threads share. `owner` is the thread that holds the mutex; `stopped` says that some
-- thread has called `std::terminate`; `published` is no part of the program: it records the loggers
-- that were put at the head of the list.
pub record Shared (W : Type 0) : Type 0 where
  pub head : Option Pointer
  pub heap : Heap W
  pub owner : Option ℕ
  pub stopped : Bool
  pub published : Loggers W

-- What `Find` was asked for.
pub record Query : Type 0 where
  pub id : Bytes
  pub description : Bytes
  pub threshold : LogLevel

-- Where a thread stands, with the local variables that are live there.
pub data Pc : Type 0 where
  idle : Pc  -- outside of the registry
  constructed : (logger : Pointer) → Pc  -- Register: before the lock
  refused : (logger : Pointer) → Pc  -- Register: the lock failed, before `delete`
  entered : (logger : Pointer) → Pc  -- Register: before `logger->next_ = head_`
  joined : (logger : Pointer) → Pc  -- Register: before `head_ = logger`
  headed : (logger : Pointer) → Pc  -- Register: before the unlock
  asking : Query → Pc  -- Find: before the lock
  walking : Query → (current : Option Pointer) → Pc  -- Find: the head of the loop
  decided : Query → (found : Option Pointer) → Pc  -- Find: behind the loop
  leaving : Query → (found : Option Pointer) → (is_match : Bool) → Pc  -- Find: before the unlock
  answered : Query → (found : Option Pointer) → (is_match : Bool) → Pc  -- Find: the last test

-- The lines between the two calls of the mutex.
abbrev pub is_critical : Pc → Bool
is_critical (entered _) = true
is_critical (joined _) = true
is_critical (headed _) = true
is_critical (walking _ _) = true
is_critical (decided _ _) = true
is_critical (leaving _ _ _) = true
is_critical _ = false

-- The object that a thread has made and not yet published.
abbrev pub own_object : Pc → Option Pointer
own_object (constructed p) = some p
own_object (refused p) = some p
own_object (entered p) = some p
own_object (joined p) = some p
own_object _ = none

-- The threads over one registry.
pub record System (W : Type 0) : Type 0 where
  pub shared : Shared W
  pub pc : ℕ → Pc

module _ {W : Type 0} where
  -- The registry of the constructor, on a heap of the program's, before any thread has used it.
  abbrev pub start_system : Heap W → System W
  start_system heap = record {
    shared = record { head = none; heap = heap; owner = none; stopped = false; published = [] };
    pc = λ _. idle;
  }

module _ {W : Type 0} (sink : Sink W) (provider : MetadataProvider W) where
  -- One move of the thread `i`. An address that `new` gives is free. `pthread_mutex_lock` blocks while
  -- another thread holds the mutex, and may fail at any time, as may the unlock.
  pub data Move (i : ℕ) (m : Shared W) : Pc → Shared W → Pc → Type 0 where
    reject :
        (threshold : LogLevel)
        → ltb k_verbose threshold ≡ true
        → Move i m idle (record m { stopped = true }) idle
    deny : Move i m idle m idle
    construct :
        (id description id_buffer description_buffer : Bytes) (threshold : LogLevel) {p : Pointer}
        {logger : Logger W}
        → ltb k_verbose threshold ≡ false
        → length id_buffer ≡ array_size id
        → length description_buffer ≡ array_size description
        → make_logger
            (filled id_buffer id)
            (length id)
            (filled description_buffer description)
            (length description)
            threshold
            sink
            provider
          ≡ done logger
        → m.heap p ≡ none
        → Move i m idle (record m { heap = store m.heap p (some logger) }) (constructed p)
    lock_register :
        {p : Pointer}
        → m.owner ≡ none
        → Move i m (constructed p) (record m { owner = some i }) (entered p)
    fail_register : {p : Pointer} → Move i m (constructed p) m (refused p)
    discard : {p : Pointer} → Move i m (refused p) (record m { heap = store m.heap p none }) idle
    join :
        {p : Pointer} {logger : Logger W}
        → m.heap p ≡ some logger
        → Move i m
            (entered p)
            (record m { heap = store m.heap p (some (record logger { next = m.head })) })
            (joined p)
    set_head :
        {p : Pointer} {logger : Logger W}
        → m.heap p ≡ some logger
        → Move i m
            (joined p)
            (record m { head = some p; published = (p, logger) ∷ m.published })
            (headed p)
    unlock_register : {p : Pointer} → Move i m (headed p) (record m { owner = none }) idle
    abort_register : {p : Pointer} → Move i m (headed p) (record m { stopped = true }) idle
    ask : {q : Query} → Move i m idle m (asking q)
    lock_find :
        {q : Query}
        → m.owner ≡ none
        → Move i m (asking q) (record m { owner = some i }) (walking q m.head)
    abort_find : {q : Query} → Move i m (asking q) (record m { stopped = true }) idle
    end_of_list : {q : Query} → Move i m (walking q none) m (decided q none)
    hit :
        {q : Query} {p : Pointer} {logger : Logger W}
        → m.heap p ≡ some logger
        → bytes_eq (context_id logger) q.id ≡ true
        → Move i m (walking q (some p)) m (decided q (some p))
    miss :
        {q : Query} {p : Pointer} {logger : Logger W}
        → m.heap p ≡ some logger
        → bytes_eq (context_id logger) q.id ≡ false
        → Move i m (walking q (some p)) m (walking q logger.next)
    compare_found :
        {q : Query} {found : Option Pointer}
        → Move i m
            (decided q found)
            m
            (leaving q found (matches m.heap q.description q.threshold found))
    unlock_find :
        {q : Query} {found : Option Pointer} {is_match : Bool}
        → Move i m
            (leaving q found is_match)
            (record m { owner = none })
            (answered q found is_match)
    abort_unlock :
        {q : Query} {found : Option Pointer} {is_match : Bool}
        → Move i m (leaving q found is_match) (record m { stopped = true }) idle
    return_found : {q : Query} {p : Pointer} → Move i m (answered q (some p) true) m idle
    abort_answer :
        {q : Query} {found : Option Pointer}
        → Move i m (answered q found false) (record m { stopped = true }) idle

  pub data Step (s : System W) : System W → Type 0 where
    pick :
        (i : ℕ) {m : Shared W} {p : Pc}
        → s.shared.stopped ≡ false
        → Move i s.shared (s.pc i) m p
        → Step s (record { shared = m; pc = update s.pc i p })

  pub data Reach (heap : Heap W) : System W → Type 0 where
    start : Reach heap (start_system heap)
    later : {s t : System W} → Reach heap s → Step s t → Reach heap t

  -- What the threads do from a state on.
  pub data Steps : System W → System W → Type 0 where
    stay : {s : System W} → Steps s s
    next : {s t u : System W} → Step s t → Steps t u → Steps s u
