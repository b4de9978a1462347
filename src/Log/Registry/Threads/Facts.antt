-- ===== src/Log/Registry/Threads/Facts.antt =====
-- What the threads rely on between two moves, and what a move of one leaves of the facts of another.
use adaptive_pi.Prelude.{
  ℕ, ◌≡◌, ◌≢◌, sym, ap, ◌∙◌, true, false, Option, some, [], ◌∷◌, Bytes, bytes_eq, bytes_eq_iff,
  arith, inl, inr, Bool-cases,
}
use adaptive_pi.Log.Logger.{Pointer, Logger, context_id}
use adaptive_pi.Log.Registry.{Heap, store, agrees, matches}
use adaptive_pi.Log.Registry.Chain.{Loggers, has, Chain, lookup, address}
use adaptive_pi.Log.Registry.Threads.{
  Shared, Query, Pc, joined, walking, decided, leaving, answered, is_critical, own_object, System,
}

module _ {W : Type 0} where
  -- A walk that has come to `current` without a hit: what is left of the list.
  pub record Walk (m : Shared W) (q : Query) (current : Option Pointer) : Type 0 where
    pub rest : Loggers W
    pub chain : Chain m.heap current rest
    pub same : lookup q.id rest ≡ lookup q.id m.published
    pub inside : (p : Pointer) → has p m.published ≡ false → has p rest ≡ false

  -- The logger at `found` is on the list, with what was asked for.
  pub record Served (m : Shared W) (q : Query) (found : Option Pointer) : Type 0 where
    pub pointer : Pointer
    pub logger : Logger W
    pub at_found : found ≡ some pointer
    pub on_list : has pointer m.published ≡ true
    pub stored : m.heap pointer ≡ some logger
    pub identified : context_id logger ≡ q.id
    pub agreed : agrees q.description q.threshold (some logger) ≡ true

  -- What the local variables of a thread say of the shared state.
  abbrev pub Local : Shared W → Pc → Type 0
  Local m (joined p) = (logger : Logger W) × (m.heap p ≡ some logger) × (logger.next ≡ m.head)
  Local m (walking q current) = Walk m q current
  Local m (decided q found) = found ≡ address (lookup q.id m.published)
  Local m (leaving q found is_match) =
      (found ≡ address (lookup q.id m.published))
      × (is_match ≡ matches m.heap q.description q.threshold found)
  Local m (answered q found is_match) = is_match ≡ true → Served m q found
  Local m _ = Unit

  -- An object that is not published: on the heap and not on the list.
  abbrev pub Apart : Shared W → Option Pointer → Type 0
  Apart m o =
      (p : Pointer)
      → o ≡ some p
      → (has p m.published ≡ false) × (logger : Logger W) × (m.heap p ≡ some logger)

  pub record Good (m : Shared W) (i : ℕ) (p : Pc) : Type 0 where
    pub owned : is_critical p ≡ true → m.owner ≡ some i
    pub apart : Apart m (own_object p)
    pub local : Local m p

  abbrev pub IsList : Shared W → Type 0
  IsList m = Chain m.heap m.head m.published

  -- The list is linked as published, each thread has its facts, no two have made one object, and the
  -- mutex is held only between the two calls.
  pub record Inv (s : System W) : Type 0 where
    pub list : IsList s.shared
    pub threads : (i : ℕ) → Good s.shared i (s.pc i)
    pub distinct :
        (i j : ℕ) (p : Pointer)
        → own_object (s.pc i) ≡ some p
        → own_object (s.pc j) ≡ some p
        → i ≡ j
    pub held :
        s.shared.stopped ≡ false → (i : ℕ) → s.shared.owner ≡ some i → is_critical (s.pc i) ≡ true

  pub has-lookup :
      (id : Bytes) (ls : Loggers W) (p : Pointer)
      → address (lookup id ls) ≡ some p
      → has p ls ≡ true
  unfolding lookup
  has-lookup id [] p h = cc
  has-lookup id ((q, logger) ∷ ls) p h = ground (arith, has-lookup id ls p)

  pub context_id-lookup :
      (id : Bytes) (ls : Loggers W) (p : Pointer) (logger : Logger W)
      → lookup id ls ≡ some (p, logger)
      → context_id logger ≡ id
  unfolding lookup
  context_id-lookup id [] p logger h = cc
  context_id-lookup id ((q, l) ∷ ls) p logger h = elim (Bool-cases (bytes_eq (context_id l) id)) [
    | inl e ↦
        let same : l ≡ logger = ground arith in
        ap context_id (sym same) ∙ (bytes_eq_iff (context_id l) id).0 e
    | inr e ↦ context_id-lookup id ls p logger (ground arith)
  ]

  pub store-other :
      (heap : Heap W) (p x : Pointer) (content : Option (Logger W))
      → x ≢ p
      → store heap p content x ≡ heap x
  unfolding store
  store-other heap p x content h = ground arith
