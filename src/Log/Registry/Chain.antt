-- ===== src/Log/Registry/Chain.antt =====
-- The list of loggers that a registry owns, as a family over the heap.
use adaptive_pi.Prelude.{
  ℕ, suc, zero, ◌<◌, ◌≡◌, refl, Bool, false, ◌||◌, Option, none, some, List, [], ◌∷◌, Bytes, length,
  ◌==◌, bytes_eq, if◌then◌else◌, arith, inl, inr, Bool-cases,
}
use adaptive_pi.Log.Logger.{Pointer, Logger, context_id}
use adaptive_pi.Log.Registry.{Heap, store, walk}

-- The loggers of a registry with their addresses, the newest first.
abbrev pub Loggers : (W : Type 0) → Type 0
Loggers W = List (Pointer × Logger W)

module _ {W : Type 0} where
  abbrev pub has : Pointer → Loggers W → Bool
  has p [] = false
  has p ((q, logger) ∷ ls) = (p == q) || has p ls

  -- From `current` the links lead through distinct objects to null.
  pub data Chain (heap : Heap W) : Option Pointer → Loggers W → Type 0 where
    ended : Chain heap none []
    linked :
        {p : Pointer} {logger : Logger W} {ls : Loggers W}
        → heap p ≡ some logger
        → has p ls ≡ false
        → Chain heap logger.next ls
        → Chain heap (some p) ((p, logger) ∷ ls)

  pub newest-stored :
      {heap : Heap W} {current : Option Pointer} {p : Pointer} {logger : Logger W} {ls : Loggers W}
      → Chain heap current ((p, logger) ∷ ls)
      → heap p ≡ some logger
  newest-stored (linked e out c) = e

  -- A chain survives a change at an address that is not on it.
  pub Chain-store :
      {heap : Heap W} {current : Option Pointer} {ls : Loggers W} (p : Pointer)
      (content : Option (Logger W))
      → has p ls ≡ false
      → Chain heap current ls
      → Chain (store heap p content) current ls
  unfolding store
  Chain-store p content h ended = ended
  Chain-store p content h (linked {p = q} e out c) =
      linked (ground arith) out (Chain-store p content (ground arith) c)

  -- A free address is not on a chain.
  pub has_free :
      {heap : Heap W} {current : Option Pointer} {ls : Loggers W} (p : Pointer)
      → heap p ≡ none
      → Chain heap current ls
      → has p ls ≡ false
  has_free p h ended = refl
  has_free p h (linked {p = q} e out c) = ground (arith, has_free p h c)

  -- The newest logger with an identifier.
  unfoldable pub lookup : Bytes → Loggers W → Option (Pointer × Logger W)
  lookup id [] = none
  lookup id ((p, logger) ∷ ls) =
      let rest = lookup id ls in if bytes_eq (context_id logger) id then some (p, logger) else rest

  abbrev pub address : Option (Pointer × Logger W) → Option Pointer
  address none = none
  address (some (p, logger)) = some p

  -- The walk ends when its fuel exceeds the number of loggers, and finds the newest one.
  pub walk-lookup :
      (fuel : ℕ) {heap : Heap W} {current : Option Pointer} {ls : Loggers W} (id : Bytes)
      → Chain heap current ls
      → length ls < fuel
      → walk fuel heap id current ≡ some (address (lookup id ls))
  unfolding walk lookup
  walk-lookup zero id c h = absurd (omega arith)
  walk-lookup (suc fuel) id ended h = refl
  walk-lookup (suc fuel) id (linked {p = p} {logger = logger} e out c) h =
      rw (e, walk-lookup fuel id c (omega arith)) (ground arith)

  -- A logger that is found is on the chain.
  pub lookup-stored :
      {heap : Heap W} {current : Option Pointer} {ls : Loggers W} (id : Bytes) {p : Pointer}
      {logger : Logger W}
      → Chain heap current ls
      → lookup id ls ≡ some (p, logger)
      → heap p ≡ some logger
  unfolding lookup
  lookup-stored id ended h = cc
  lookup-stored id (linked {p = q} {logger = l} e out c) h =
      elim (Bool-cases (bytes_eq (context_id l) id)) [
        | inl k ↦ cc
        | inr k ↦ lookup-stored id c (ground arith)
      ]
