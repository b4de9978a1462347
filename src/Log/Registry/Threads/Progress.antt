-- ===== src/Log/Registry/Threads/Progress.antt =====
-- Requests are answered as long as the mutex works: who holds it comes to the unlock, and a thread that waits for it
-- then gets through.
use adaptive_pi.Prelude.{
  ℕ, ◌≡◌, ◌≢◌, refl, sym, ap, ◌∙◌, false, Option, none, some, ◌∷◌, arith, inl, inr, Option-cases,
}
use mathlib.Core.Path.{subst}
use adaptive_pi.Prelude.Updates.{update, update_self, update-other}
use adaptive_pi.Log.Metadata.{MetadataProvider}
use adaptive_pi.Log.Sink.{Sink}
use adaptive_pi.Log.Logger.{Pointer, Logger}
use adaptive_pi.Log.Registry.{Heap, store, matches}
use adaptive_pi.Log.Registry.Chain.{lookup, address}
use adaptive_pi.Log.Registry.Threads.{
  Shared, Query, Pc, idle, constructed, asking, answered, is_critical, own_object, System, Move,
  pick, Reach, Steps, stay, next,
}
use adaptive_pi.Log.Registry.Registering.{store_self}
use adaptive_pi.Log.Registry.Threads.Facts.{Inv, store-other}
use adaptive_pi.Log.Registry.Threads.Seen.{Seen, quiet, written, grown}
use adaptive_pi.Log.Registry.Threads.Lasting.{Stands}
use adaptive_pi.Log.Registry.Threads.Safety.{Step-Inv, Reach-Inv}
use adaptive_pi.Log.Registry.Threads.Moves.{Move-Seen}
use adaptive_pi.Log.Registry.Threads.Running.{
  Course, rests, goes, critical-Freed, asking_run, constructed_run,
}

module _ {W : Type 0} (sink : Sink W) (provider : MetadataProvider W) where
  -- The state of the threads behind a run of one of them.
  record Alone (s : System W) (i : ℕ) (m : Shared W) (p : Pc) : Type 0 where
    places : ℕ → Pc
    steps : Steps sink provider s (record { shared = m; pc = places })
    own : places i ≡ p
    others : (j : ℕ) → j ≢ i → places j ≡ s.pc j
    kept :
        Inv s
        → (j : ℕ) (x : Pointer) → j ≢ i
        → own_object (s.pc j) ≡ some x
        → m.heap x ≡ s.shared.heap x

  -- No move of another thread writes to an object that a thread has not published.
  Seen-kept :
      {m m' : Shared W} {q : Pc} (x : Pointer)
      → Seen m q m'
      → own_object q ≡ some x
      → m'.heap x ≡ m.heap x
  Seen-kept x quiet o = refl
  Seen-kept {m} x (written p content h n) o =
      store-other m.heap p x content (λ e. n (o ∙ ap some e))
  Seen-kept x (grown p logger n c) o = refl

  Move-kept :
      {s : System W} {i : ℕ} {m : Shared W} {p : Pc} (j : ℕ) (x : Pointer)
      → Inv s
      → Move sink provider i s.shared (s.pc i) m p
      → j ≢ i
      → own_object (s.pc j) ≡ some x
      → m.heap x ≡ s.shared.heap x
  Move-kept {s} {i} j x inv mv n o =
      Seen-kept x
        (Move-Seen sink provider mv inv.list (inv.threads i) (inv.threads j) n
          (λ y e k. n (inv.distinct j i y k e)))
        o

  Course-Alone :
      {i : ℕ} {m m' : Shared W} {p p' : Pc}
      → Course sink provider i m p m' p'
      → (pc : ℕ → Pc) → pc i ≡ p
      → Alone (record { shared = m; pc = pc }) i m' p'
  Course-Alone rests pc e = record {
    places = pc;
    steps = stay;
    own = e;
    others = λ j n. refl;
    kept = λ inv j x n o. refl;
  }
  Course-Alone {i} {m} (goes {m' = m1} {p' = p1} mv k on r) pc e =
      let moved = subst (λ p. Move sink provider i m p m1 p1) (sym e) mv in
      let then_on = Course-Alone r (update pc i p1) (update_self pc i p1) in
      record {
        places = then_on.places;
        steps = next (pick i on moved) then_on.steps;
        own = then_on.own;
        others = λ j n. then_on.others j n ∙ update-other pc i p1 j n;
        kept = λ inv j x n o.
            then_on.kept (Step-Inv sink provider (pick i on moved) inv) j x n
              (ap own_object (update-other pc i p1 j n) ∙ o)
            ∙ Move-kept j x inv moved n o;
      }

  append-Steps :
      {s t u : System W}
      → Steps sink provider s t
      → Steps sink provider t u
      → Steps sink provider s u
  append-Steps stay b = b
  append-Steps (next st a) b = next st (append-Steps a b)

  Steps-Inv : {s t : System W} → Steps sink provider s t → Inv s → Inv t
  Steps-Inv stay inv = inv
  Steps-Inv (next st a) inv = Steps-Inv a (Step-Inv sink provider st inv)

  -- A later state in which the thread `i` still waits where it was, and the mutex is free.
  record Ready (s : System W) (i : ℕ) (p : Pc) : Type 0 where
    after : System W
    steps : Steps sink provider s after
    free : after.shared.owner ≡ none
    on : after.shared.stopped ≡ false
    place : after.pc i ≡ p
    kept : (x : Pointer) → own_object p ≡ some x → after.shared.heap x ≡ s.shared.heap x

  waiting-Ready :
      (s : System W) (i : ℕ) (p : Pc)
      → Inv s
      → s.shared.stopped ≡ false
      → s.pc i ≡ p
      → is_critical p ≡ false
      → Ready s i p
  waiting-Ready s i p inv on e c = elim (Option-cases s.shared.owner) [
    | inl none_holds ↦ record {
      after = s;
      steps = stay;
      free = none_holds;
      on = on;
      place = e;
      kept = λ x o. refl;
    }
    | inr (j, holds) ↦
        let f =
          critical-Freed sink provider s.shared (s.pc j) on (inv.threads j) (inv.held on j holds) in
        let a = Course-Alone f.moves s.pc refl in
        let other : i ≢ j = λ same. cc (
          sym (inv.held on j holds)
          ∙ ap (λ k. is_critical (s.pc k)) (sym same)
          ∙ ap is_critical e
          ∙ c) in
        record {
          after = record { shared = f.after; pc = a.places };
          steps = a.steps;
          free = f.free;
          on = f.on;
          place = a.others i other ∙ e;
          kept = λ x o. a.kept inv i x other (ap own_object e ∙ o);
        }
  ]

  -- From every reachable state in which the program has not been stopped, a thread that has called `Find`
  -- can be brought to its last test, whoever holds the mutex: with the logger that was published last
  -- under the identifier, or none, and with whether its description and threshold are those asked for.
  pub asking-answered :
      (heap : Heap W) {s : System W} (i : ℕ) (q : Query)
      → Reach sink provider heap s
      → s.shared.stopped ≡ false
      → s.pc i ≡ asking q
      → (t : System W) × Steps sink provider s t
        × (t.shared.stopped ≡ false)
        × (t.pc i
            ≡ answered q (address (lookup q.id t.shared.published)) (
                matches t.shared.heap q.description q.threshold
                  (address (lookup q.id t.shared.published))))
  asking-answered heap {s} i q r on e =
      let inv = Reach-Inv sink provider heap r in
      let ready = waiting-Ready s i (asking q) inv on e refl in
      let m = ready.after.shared in
      let run = asking_run sink provider m q ready.free ready.on (Steps-Inv ready.steps inv).list in
      let a = Course-Alone run ready.after.pc ready.place in
      (
        record { shared = record m { owner = none }; pc = a.places },
        append-Steps ready.steps a.steps,
        ready.on,
        a.own,
      )

  -- From every reachable state in which the program has not been stopped, a thread of `Register` that
  -- has made its logger can be brought to its return, whoever holds the mutex: its logger is then
  -- the head of the list, unchanged but for its link.
  pub constructed-published :
      (heap : Heap W) {s : System W} (i : ℕ) (p : Pointer) (logger : Logger W)
      → Reach sink provider heap s
      → s.shared.stopped ≡ false
      → s.pc i ≡ constructed p
      → s.shared.heap p ≡ some logger
      → (t : System W) × (link : Option Pointer) × Steps sink provider s t
        × (t.shared.stopped ≡ false)
        × (t.pc i ≡ idle)
        × (t.shared.head ≡ some p)
        × Stands t.shared p (record logger { next = link })
  constructed-published heap {s} i p logger r on e stored =
      let inv = Reach-Inv sink provider heap r in
      let ready = waiting-Ready s i (constructed p) inv on e refl in
      let m = ready.after.shared in
      let run =
        constructed_run sink provider m p logger ready.free ready.on (ready.kept p refl ∙ stored) in
      let a = Course-Alone run ready.after.pc ready.place in
      (
        record {
          shared = record m {
            head = some p;
            heap = store m.heap p (some (record logger { next = m.head }));
            owner = none;
            published = (p, record logger { next = m.head }) ∷ m.published;
          };
          pc = a.places;
        },
        m.head,
        append-Steps ready.steps a.steps,
        ready.on,
        a.own,
        refl,
        record { on_list = ground arith; stored = store_self m.heap p _ },
      )
