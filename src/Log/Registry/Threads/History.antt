-- ===== src/Log/Registry/Threads/History.antt =====
-- What threads over the registry of platform/ara-log/src/logger_registry.cpp do, in the order in which
-- it takes effect, and the order as a directory would serve it.
use adaptive_pi.Prelude.{ℕ, ◌≡◌, false, Option, none, some, List, [], ◌∷◌, Run, ◌==◌, if◌then◌else◌}
use adaptive_pi.Prelude.Updates.{update}
use mathlib.Core.Quot
use adaptive_pi.Log.Metadata.{MetadataProvider}
use adaptive_pi.Log.Sink.{Sink}
use adaptive_pi.Log.Logger.{Pointer, Logger}
use adaptive_pi.Log.Registry.{Heap, matches, returned}
use adaptive_pi.Log.Registry.Directory.{Entry, Directory, last_entry, enter}
use adaptive_pi.Log.Registry.Directory.Requests.{serve}
use adaptive_pi.Log.Registry.Directory.Refining.{entry_of}
use adaptive_pi.Log.Registry.Threads.{
  Shared, Query, Pc, constructed, entered, joined, headed, leaving, answered, System, Move,
  construct, set_head, compare_found, start_system,
}

-- A call of Register has made its object; Register takes effect; Find takes effect with a reply.
pub data Event : Type 0 where
  making : Entry → Event
  registers : Entry → Event
  serves : Query → Run ⊥ Pointer → Event

-- The events with their threads, the last first.
abbrev pub Events : Type 0
Events = List (ℕ × Event)

abbrev pub note : ℕ → Option Event → Events → Events
note i none h = h
note i (some e) h = (i, e) ∷ h

-- The last event of a thread.
unfoldable pub latest : ℕ → Events → Option Event
latest i [] = none
latest i ((j, e) ∷ h) = let before = latest i h in if i == j then some e else before

-- What the events leave, from an empty directory on.
unfoldable pub outcome : Events → Directory
outcome [] = Quot.mk []
outcome ((i, making e) ∷ h) = outcome h
outcome ((i, registers e) ∷ h) = enter e (outcome h)
outcome ((i, serves q reply) ∷ h) = outcome h

-- Each thread registers the entry that it was called with last, and each reply is that of the
-- directory at its place in the order.
abbrev pub Legal : Events → Type 0
Legal [] = Unit
Legal ((i, making e) ∷ h) = Legal h
Legal ((i, registers e) ∷ h) = (latest i h ≡ some (making e)) × Legal h
Legal ((i, serves q reply) ∷ h) =
    (reply ≡ serve q.description q.threshold (last_entry q.id (outcome h))) × Legal h

module _ {W : Type 0} (sink : Sink W) (provider : MetadataProvider W) where
  -- The event of a move.
  abbrev pub event :
      {i : ℕ} {m m' : Shared W} {p p' : Pc} → Move sink provider i m p m' p' → Option Event
  event (construct id description _ _ threshold {p = p} v n k e free) =
      some
        (making (record { id = id; description = description; threshold = threshold; logger = p }))
  event (set_head {p = p} {logger = logger} e) = some (registers (entry_of (p, logger)))
  event {m = m} (compare_found {q = q} {found = found}) =
      some (serves q (returned (matches m.heap q.description q.threshold found) found))
  event _ = none

  -- The states that the threads reach, with their events.
  pub data History (heap : Heap W) : Events → System W → Type 0 where
    begins : History heap [] (start_system heap)
    follows :
        {h : Events} {s : System W} (i : ℕ) {m : Shared W} {p : Pc}
        → History heap h s
        → s.shared.stopped ≡ false
        → (mv : Move sink provider i s.shared (s.pc i) m p)
        → History heap (note i (event mv) h) (record { shared = m; pc = update s.pc i p })

-- The object at `p` is that of the entry that the thread was called with.
abbrev pub MadeLast : {W : Type 0} → Shared W → Option Event → Pointer → Type 0
MadeLast {W} m last p =
    (logger : Logger W) × (m.heap p ≡ some logger) × (last ≡ some (making (entry_of (p, logger))))

-- Where a thread stands agrees with its last event: it has made the object of an entry, it has
-- registered one that it returns, or it is about to return the reply.
abbrev pub Tied : {W : Type 0} → Shared W → Option Event → Pc → Type 0
Tied m last (constructed p) = MadeLast m last p
Tied m last (entered p) = MadeLast m last p
Tied m last (joined p) = MadeLast m last p
Tied m last (headed p) = (e : Entry) × (last ≡ some (registers e)) × (e.logger ≡ p)
Tied m last (leaving q found is_match) = last ≡ some (serves q (returned is_match found))
Tied m last (answered q found is_match) = last ≡ some (serves q (returned is_match found))
Tied m last _ = Unit
