-- ===== src/Log/Registry/Directory.antt =====
-- What the registry of platform/ara-log/src/logger_registry.cpp promises: a directory of the loggers
-- by their identifiers, in which the last registration of an identifier counts, and no other order.
pub mod Requests
pub mod Refining
pub mod Swapping
use mathlib.Core.Quot
use mathlib.Core.Quot.{Quot, Quot-set}
use adaptive_pi.Prelude.{
  ℕ, ◌≡◌, ◌≢◌, sym, ap, ◌∙◌, Bool, true, ◌&&◌, Option, none, some, List, [], ◌∷◌, Bytes, Run, done,
  terminates, bytes_eq, bytes_eq_iff, ◌==◌, if◌then◌else◌, arith, Bool-cases, inl, inr,
}
use adaptive_pi.Log.Level.{LogLevel}
use adaptive_pi.Log.Logger.{Pointer}

-- What was registered, and where its logger is.
pub record Entry : Type 0 where
  pub id : Bytes
  pub description : Bytes
  pub threshold : LogLevel
  pub logger : Pointer

-- The last entry of an identifier; the latest entry is the first of the list.
unfoldable pub newest : Bytes → List Entry → Option Entry
newest id [] = none
newest id (e ∷ es) = let rest = newest id es in if bytes_eq e.id id then some e else rest

-- Lists with the same last entries.
abbrev SameEntries : List Entry → List Entry → Type 0
SameEntries es fs = (id : Bytes) → newest id es ≡ newest id fs

abbrev pub Directory : Type 0
Directory = Quot SameEntries

pub Entry-set : IsSet (Option Entry)
Entry-set = hlevel

unfoldable pub last_entry : Bytes → Directory → Option Entry
last_entry id = Quot.lift Entry-set (newest id) (λ es fs h. h id)

pub SameEntries-cons :
    (e : Entry) (es fs : List Entry) → SameEntries es fs → SameEntries (e ∷ es) (e ∷ fs)
unfolding newest
SameEntries-cons e es fs h id = rw (h id)

unfoldable pub enter : Entry → Directory → Directory
enter e =
    Quot.lift Quot-set (λ es. Quot.mk (e ∷ es)) (λ es fs h. Quot.sound (SameEntries-cons e es fs h))

one_id : (a b id : Bytes) → a ≢ b → bytes_eq a id ≡ true → bytes_eq b id ≢ true
one_id a b id h e k = h ((bytes_eq_iff a id).0 e ∙ sym ((bytes_eq_iff b id).0 k))

newest-swapped :
    (e f : Entry) (es : List Entry) → e.id ≢ f.id → SameEntries (e ∷ f ∷ es) (f ∷ e ∷ es)
unfolding newest
newest-swapped e f es h id = elim (Bool-cases (bytes_eq e.id id)) [
  | inl k ↦ ground (arith, one_id e.id f.id id h k)
  | inr k ↦ rw k
]

-- Registrations of different identifiers may change places.
pub enter_comm :
    (e f : Entry) (d : Directory) → e.id ≢ f.id → enter e (enter f d) ≡ enter f (enter e d)
unfolding enter
enter_comm e f d h =
    Quot.ind {β = λ d. enter e (enter f d) ≡ enter f (enter e d)} (λ d. Quot-set _ _)
      (λ es. Quot.sound (newest-swapped e f es h)) d

pub last_entry-enter :
    (id : Bytes) (e : Entry) (d : Directory)
    → last_entry id (enter e d) ≡ (if bytes_eq e.id id then some e else last_entry id d)
unfolding enter last_entry newest
last_entry-enter id e d =
    Quot.ind
      {β = λ d. last_entry id (enter e d) ≡ (if bytes_eq e.id id then some e else last_entry id d)}
      (λ d. Entry-set _ _) (λ es. ground arith) d
