-- ===== src/Log/Registry/Threads/Running.antt =====
-- What one thread does by itself while the mutex works: from between the two calls of the mutex to the unlock, and
-- through `Find` and `Register` when the mutex is free.
use adaptive_pi.Prelude.{
  ℕ, ◌≡◌, refl, Bool, true, false, Option, none, some, ◌∷◌, bytes_eq, arith, inl, inr, Bool-cases,
}
use mathlib.Core.Path.{subst}
use adaptive_pi.Log.Metadata.{MetadataProvider}
use adaptive_pi.Log.Sink.{Sink}
use adaptive_pi.Log.Logger.{Pointer, Logger, context_id}
use adaptive_pi.Log.Registry.{store, matches}
use adaptive_pi.Log.Registry.Chain.{Loggers, Chain, ended, linked, lookup, address}
use adaptive_pi.Log.Registry.Threads.{
  Shared, Query, Pc, idle, constructed, entered, joined, headed, asking, walking, decided, leaving,
  answered, is_critical, Move, deny, lock_register, fail_register, reject, join, set_head,
  unlock_register, abort_register, lock_find, abort_find, end_of_list, hit, miss, compare_found,
  unlock_find, abort_unlock, abort_answer,
}
use adaptive_pi.Log.Registry.Registering.{store_self}
use adaptive_pi.Log.Registry.Threads.Facts.{Good, IsList}

module _ {W : Type 0} (sink : Sink W) (provider : MetadataProvider W) where
  -- The moves in which the mutex or an allocation fails, or the program is stopped.
  abbrev pub fails : {i : ℕ} {m m' : Shared W} {p p' : Pc} → Move sink provider i m p m' p' → Bool
  fails (reject _ _) = true
  fails deny = true
  fails fail_register = true
  fails abort_register = true
  fails abort_find = true
  fails abort_unlock = true
  fails abort_answer = true
  fails mv = false

  -- Moves of the thread `i` alone, none of which fails.
  pub data Course (i : ℕ) : Shared W → Pc → Shared W → Pc → Type 0 where
    rests : {m : Shared W} {p : Pc} → Course i m p m p
    goes :
        {m m' m'' : Shared W} {p p' p'' : Pc} (mv : Move sink provider i m p m' p')
        → fails mv ≡ false
        → m.stopped ≡ false
        → Course i m' p' m'' p''
        → Course i m p m'' p''

  -- The loop of `Find`, once the mutex is held, comes to its end.
  walk-Course :
      {i : ℕ} {m : Shared W} (q : Query) {current : Option Pointer} {ls : Loggers W}
      → m.stopped ≡ false
      → Chain m.heap current ls
      → Course i m (walking q current) m (decided q (address (lookup q.id ls)))
  unfolding lookup
  walk-Course q on ended = goes end_of_list refl on rests
  walk-Course {i} {m} q on (linked {p = p} {logger = l} {ls = ls} e out c) =
      elim (Bool-cases (bytes_eq (context_id l) q.id)) [
        | inl t ↦
            goes (hit e t) refl on
              (subst (λ o. Course i m (decided q (some p)) m (decided q o)) (ground arith) rests)
        | inr t ↦ goes (miss e t) refl on (
            subst (λ o. Course i m (walking q l.next) m (decided q o)) (ground arith)
              (walk-Course q on c))
      ]

  -- Where a thread comes to by itself, with the mutex free.
  pub record Freed (i : ℕ) (m : Shared W) (p : Pc) : Type 0 where
    pub after : Shared W
    pub place : Pc
    pub moves : Course i m p after place
    pub free : after.owner ≡ none
    pub on : after.stopped ≡ false

  further :
      {i : ℕ} {m m' : Shared W} {p p' : Pc} (mv : Move sink provider i m p m' p')
      → fails mv ≡ false
      → m.stopped ≡ false
      → Freed i m' p'
      → Freed i m p
  further mv e on f = record {
    after = f.after;
    place = f.place;
    moves = goes mv e on f.moves;
    free = f.free;
    on = f.on;
  }

  headed-Freed : {i : ℕ} (m : Shared W) (p : Pointer) → m.stopped ≡ false → Freed i m (headed p)
  headed-Freed m p on = record {
    after = record m { owner = none };
    place = idle;
    moves = goes unlock_register refl on rests;
    free = refl;
    on = on;
  }

  joined-Freed :
      {i : ℕ} (m : Shared W) (p : Pointer) (logger : Logger W)
      → m.heap p ≡ some logger
      → m.stopped ≡ false
      → Freed i m (joined p)
  joined-Freed m p logger e on = further (set_head e) refl on (headed-Freed _ p on)

  decided_run :
      {i : ℕ} (m : Shared W) (q : Query) (found : Option Pointer)
      → m.stopped ≡ false
      → Course i m
          (decided q found)
          (record m { owner = none })
          (answered q found (matches m.heap q.description q.threshold found))
  decided_run m q found on = goes compare_found refl on (goes unlock_find refl on rests)

  pub append-Course :
      {i : ℕ} {m m' m'' : Shared W} {p p' p'' : Pc}
      → Course i m p m' p'
      → Course i m' p' m'' p''
      → Course i m p m'' p''
  append-Course rests s = s
  append-Course (goes mv e on r) s = goes mv e on (append-Course r s)

  -- A thread that holds the mutex comes to release it.
  pub critical-Freed :
      {i : ℕ} (m : Shared W) (p : Pc)
      → m.stopped ≡ false
      → Good m i p
      → is_critical p ≡ true
      → Freed i m p
  critical-Freed m (entered p) on g c =
      let (out, l, e) = g.apart p refl in
      further (join e) refl on (
        joined-Freed (record m { heap = store m.heap p (some (record l { next = m.head })) }) p
          (record l { next = m.head }) (store_self m.heap p _) on)
  critical-Freed m (joined p) on g c = let (out, l, e) = g.apart p refl in joined-Freed m p l e on
  critical-Freed m (headed p) on g c = headed-Freed m p on
  critical-Freed m (walking q current) on g c = record {
    after = record m { owner = none };
    place = _;
    moves = append-Course (walk-Course q on g.local.chain) (decided_run m q _ on);
    free = refl;
    on = on;
  }
  critical-Freed m (decided q found) on g c = record {
    after = record m { owner = none };
    place = _;
    moves = decided_run m q found on;
    free = refl;
    on = on;
  }
  critical-Freed m (leaving q found is_match) on g c = record {
    after = record m { owner = none };
    place = _;
    moves = goes unlock_find refl on rests;
    free = refl;
    on = on;
  }
  critical-Freed m p on g c = absurd (ground arith)

  pub asking_run :
      {i : ℕ} (m : Shared W) (q : Query)
      → m.owner ≡ none
      → m.stopped ≡ false
      → IsList m
      → Course i m
          (asking q)
          (record m { owner = none })
          (answered q
            (address (lookup q.id m.published))
            (matches m.heap q.description q.threshold (address (lookup q.id m.published))))
  asking_run {i} m q free on c = goes (lock_find free) refl on (
      append-Course (walk-Course {m = record m { owner = some i }} q on c)
        (decided_run (record m { owner = some i }) q _ on))

  pub constructed_run :
      {i : ℕ} (m : Shared W) (p : Pointer) (logger : Logger W)
      → m.owner ≡ none
      → m.stopped ≡ false
      → m.heap p ≡ some logger
      → Course i m
          (constructed p)
          (record m {
            head = some p;
            heap = store m.heap p (some (record logger { next = m.head }));
            owner = none;
            published = (p, record logger { next = m.head }) ∷ m.published;
          })
          idle
  constructed_run m p logger free on e = goes (lock_register free) refl on (
      goes (join e) refl on
        (goes (set_head (store_self m.heap p _)) refl on (goes unlock_register refl on rests)))
