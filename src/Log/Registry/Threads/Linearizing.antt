-- ===== src/Log/Registry/Threads/Linearizing.antt =====
-- Register and Find of platform/ara-log/src/logger_registry.cpp take effect at one moment of each call:
-- all that threads do has an order in which a directory serves it.
use mathlib.Core.Path.{subst}
use adaptive_pi.Prelude.{ℕ, ◌≡◌, ◌≢◌, refl, sym, ap, ◌∙◌, Option, none, some, [], inl, inr, arith}
use adaptive_pi.Prelude.Updates.{update, update-all}
use adaptive_pi.Log.Metadata.{MetadataProvider}
use adaptive_pi.Log.Sink.{Sink}
use adaptive_pi.Log.Logger.{Pointer, context_id, context_description, default_threshold}
use adaptive_pi.Log.Registry.{Heap, matches, returned}
use adaptive_pi.Log.Registry.Chain.{lookup, lookup-stored, address}
use adaptive_pi.Log.Registry.Finding.{returned-answer}
use adaptive_pi.Log.Registry.Making.{make_logger-Made}
use adaptive_pi.Log.Registry.Registering.{store_self}
use adaptive_pi.Log.Registry.Directory.{last_entry, enter}
use adaptive_pi.Log.Registry.Directory.Requests.{serve}
use adaptive_pi.Log.Registry.Directory.Refining.{
  directory, entry_of, entry_of-Made, newest-entries, serve-answer,
}
use adaptive_pi.Log.Registry.Threads.{
  Shared, Query, Pc, idle, constructed, refused, entered, joined, headed, asking, walking, decided,
  leaving, answered, own_object, System, Move, construct, lock_register, join, set_head,
  compare_found, unlock_find, Reach, start, later, pick,
}
use adaptive_pi.Log.Registry.Threads.Facts.{Inv, Good, IsList}
use adaptive_pi.Log.Registry.Threads.Safety.{Move-own, Reach-Inv}
use adaptive_pi.Log.Registry.Threads.Alone.{registry_of}
use adaptive_pi.Log.Registry.Threads.Releasing.{Move-Spares}
use adaptive_pi.Log.Registry.Threads.History.{
  Event, making, Events, note, latest, outcome, Legal, event, History, begins, follows, Tied,
}

module _ {W : Type 0} where
  -- What a move leaves of the facts of a thread whose object it does not touch.
  Tied-moved :
      (m m' : Shared W) (last : Option Event) (p : Pc)
      → ((x : Pointer) → own_object p ≡ some x → m'.heap x ≡ m.heap x)
      → Tied m last p
      → Tied m' last p
  Tied-moved m m' last (constructed x) h (l, stored, e) = (l, h x refl ∙ stored, e)
  Tied-moved m m' last (entered x) h (l, stored, e) = (l, h x refl ∙ stored, e)
  Tied-moved m m' last (joined x) h (l, stored, e) = (l, h x refl ∙ stored, e)
  Tied-moved m m' last (headed x) h t = t
  Tied-moved m m' last (leaving q found is_match) h t = t
  Tied-moved m m' last (answered q found is_match) h t = t
  Tied-moved m m' last idle h t = tt
  Tied-moved m m' last (refused x) h t = tt
  Tied-moved m m' last (asking q) h t = tt
  Tied-moved m m' last (walking q current) h t = tt
  Tied-moved m m' last (decided q found) h t = tt

  -- The reply of a thread at the end of its walk is that of the directory of the published loggers.
  reply-serve :
      (m : Shared W) (q : Query) (found : Option Pointer) {i : ℕ}
      → Good m i (decided q found)
      → IsList m
      → returned (matches m.heap q.description q.threshold found) found
        ≡ serve q.description q.threshold (last_entry q.id (directory m.published))
  unfolding last_entry
  reply-serve m q found g c =
      let e : found ≡ address (lookup q.id m.published) = g.local in
      rw (e, newest-entries q.id m.published)
        (returned-answer m.heap q.description q.threshold (lookup q.id m.published)
            (λ p logger k. lookup-stored q.id c k)
          ∙ sym (serve-answer q.description q.threshold (lookup q.id m.published)))

latest-other :
    (i j : ℕ) (o : Option Event) (h : Events) → j ≢ i → latest j (note i o h) ≡ latest j h
unfolding latest
latest-other i j none h n = refl
latest-other i j (some e) h n = ground arith

latest-note : (i : ℕ) (e : Event) (h : Events) → latest i (note i (some e) h) ≡ some e
unfolding latest
latest-note i e h = ground arith

module _ {W : Type 0} (sink : Sink W) (provider : MetadataProvider W) where
  Move-Legal :
      {i : ℕ} {m m' : Shared W} {p p' : Pc} (h : Events)
      → (mv : Move sink provider i m p m' p') → Good m i p
      → IsList m
      → outcome h ≡ directory m.published
      → Tied m (latest i h) p
      → Legal h
      → Legal (note i (event sink provider mv) h)
  Move-Legal h (construct _ _ _ _ _ v n k e free) g c same t legal = legal
  Move-Legal {m = m} h (set_head {p = x} {logger = logger} e) g c same (l, stored, made) legal =
      (made ∙ ap (λ l. some (making (entry_of (x, l)))) (cc), legal)
  Move-Legal {m = m} h (compare_found {q = q} {found = found}) g c same t legal = (
    reply-serve m q found g c
        ∙ ap (λ d. serve q.description q.threshold (last_entry q.id d)) (sym same),
    legal,
  )
  Move-Legal h mv g c same t legal = legal

  Move-outcome :
      {i : ℕ} {m m' : Shared W} {p p' : Pc} (h : Events)
      → (mv : Move sink provider i m p m' p') → outcome h ≡ directory m.published
      → outcome (note i (event sink provider mv) h) ≡ directory m'.published
  unfolding outcome enter
  Move-outcome h (set_head {p = x} {logger = logger} e) same =
      ap (enter (entry_of (x, logger))) same
  Move-outcome h (construct _ _ _ _ _ v n k e free) same = same
  Move-outcome h compare_found same = same
  Move-outcome h mv same = same

  -- What the thread that moves has behind its move.
  Move-Tied :
      {i : ℕ} {m m' : Shared W} {p p' : Pc} (h : Events)
      → (mv : Move sink provider i m p m' p') → Tied m (latest i h) p
      → Tied m' (latest i (note i (event sink provider mv) h)) p'
  unfolding context_id context_description default_threshold
  Move-Tied {i = i} {m = m} h
        (construct id description id_buffer description_buffer threshold {p = x} {logger = l} v n k
          e free)
        t =
      let r = registry_of sink provider m in
      let made =
        make_logger-Made id description threshold r id_buffer description_buffer (ground arith) n k
          e in
      (
        l,
        store_self m.heap x (some l),
        latest-note i _ h
            ∙ ap (λ e. some (making e)) (sym (entry_of-Made id description threshold r x l made)),
      )
  Move-Tied h (lock_register e) t = t
  Move-Tied {m = m} h (join {p = x} {logger = l} e) (l', stored, made) =
      let same : l' ≡ l = cc in
      (
        record l { next = m.head },
        store_self m.heap x (some (record l { next = m.head })),
        made ∙ ap (λ l. some (making (entry_of (x, l)))) same,
      )
  Move-Tied {i = i} h (set_head {p = x} {logger = l} e) t =
      (entry_of (x, l), latest-note i _ h, refl)
  Move-Tied {i = i} h compare_found t = latest-note i _ h
  Move-Tied h unlock_find t = t
  Move-Tied h mv t = tt

  -- A move leaves the object of another thread as it is.
  other-kept :
      (s : System W) (i : ℕ) {m : Shared W} {p : Pc}
      → Move sink provider i s.shared (s.pc i) m p
      → Inv s
      → (j : ℕ) (x : Pointer) → j ≢ i
      → own_object (s.pc j) ≡ some x
      → m.heap x ≡ s.shared.heap x
  other-kept s i mv inv j x n own =
      (Move-Spares sink provider mv).keeps x (λ k. n (inv.distinct j i x own k))
        (λ k. elim (Move-own sink provider mv k) [
          | inl before ↦ n (inv.distinct j i x own before)
          | inr free ↦ let (out, l, stored) = (inv.threads j).apart x own in cc
        ])

  -- A state that the threads reach, with its events.
  pub record Ordered (h : Events) (s : System W) : Type 0 where
    pub legal : Legal h
    pub leaves : outcome h ≡ directory s.shared.published
    pub tied : (i : ℕ) → Tied s.shared (latest i h) (s.pc i)

  Move-Ordered :
      (h : Events) (s : System W) (i : ℕ) {m : Shared W} {p : Pc}
      → (mv : Move sink provider i s.shared (s.pc i) m p) → Inv s
      → Ordered h s
      → Ordered (note i (event sink provider mv) h) (record { shared = m; pc = update s.pc i p })
  Move-Ordered h s i {m} {p} mv inv o =
      let o' = event sink provider mv in
      record {
        legal = Move-Legal h mv (inv.threads i) inv.list o.leaves (o.tied i) o.legal;
        leaves = Move-outcome h mv o.leaves;
        tied =
            update-all (λ j q. Tied m (latest j (note i o' h)) q) s.pc i p
              (Move-Tied h mv (o.tied i))
              (λ j n.
                subst (λ last. Tied m last (s.pc j)) (sym (latest-other i j o' h n))
                  (Tied-moved s.shared m (latest j h) (s.pc j)
                    (λ x own. other-kept s i mv inv j x n own) (o.tied j)));
      }

  History-Reach :
      {heap : Heap W} {h : Events} {s : System W}
      → History sink provider heap h s
      → Reach sink provider heap s
  History-Reach begins = start
  History-Reach (follows i r on mv) = later (History-Reach r) (pick i on mv)

  pub Reach-History :
      {heap : Heap W} {s : System W}
      → Reach sink provider heap s
      → (h : Events) × History sink provider heap h s
  Reach-History start = ([], begins)
  Reach-History (later r (pick i on mv)) =
      let (h, history) = Reach-History r in
      (note i (event sink provider mv) h, follows i history on mv)

  -- However threads interleave in Register and Find, their events are in an order in which a
  -- directory serves them: each thread registers, once, the entry that it called Register with, the
  -- reply of each Find is that of the directory at its place, and what is entered is what is
  -- published. A thread that is about to return a logger or a reply has that of its last event.
  pub History-Ordered :
      (heap : Heap W) {h : Events} {s : System W} → History sink provider heap h s → Ordered h s
  unfolding outcome latest
  History-Ordered heap begins = record { legal = tt; leaves = refl; tied = λ i. tt }
  History-Ordered heap (follows {h = h} {s = s} i r on mv) =
      Move-Ordered h s i mv (Reach-Inv sink provider heap (History-Reach r))
        (History-Ordered heap r)
