-- ===== src/Log/Registry/Threads/Lasting.antt =====
-- What the reference that `Find` returns refers to, however long a thread holds it.
use adaptive_pi.Prelude.{
  ℕ, ◌≡◌, refl, sym, ap, ◌∙◌, true, false, Option, none, some, arith, Bytes, bytes_eq_iff, ==_iff,
}
use mathlib.Core.Path.{subst}
use adaptive_pi.Log.Level.{LogLevel}
use adaptive_pi.Log.Metadata.{MetadataProvider}
use adaptive_pi.Log.Sink.{Sink}
use adaptive_pi.Log.Logger.{Pointer, Logger, context_id, context_description, default_threshold}
use adaptive_pi.Log.Registry.{Heap, store, agrees}
use adaptive_pi.Log.Registry.Chain.{has, has_free}
use adaptive_pi.Log.Registry.Threads.{
  Shared, Query, Pc, answered, System, Move, construct, discard, join, set_head, pick, Reach, Steps,
  stay, next,
}
use adaptive_pi.Log.Registry.Threads.Facts.{Local, Good, IsList, Inv, store-other}
use adaptive_pi.Log.Registry.Threads.Safety.{Step-Inv, Reach-Inv}

module _ {W : Type 0} where
  -- The logger at `p` is on the list, as `logger`.
  pub record Stands (m : Shared W) (p : Pointer) (logger : Logger W) : Type 0 where
    pub on_list : has p m.published ≡ true
    pub stored : m.heap p ≡ some logger

  store-Stands :
      (m : Shared W) (x : Pointer) (content : Option (Logger W)) (p : Pointer) (logger : Logger W)
      → has x m.published ≡ false
      → Stands m p logger
      → Stands (record m { heap = store m.heap x content }) p logger
  store-Stands m x content p logger out s = record {
    on_list = s.on_list;
    stored =
        store-other m.heap x p content
          (λ e. cc (sym out ∙ ap (λ q. has q m.published) (sym e) ∙ s.on_list))
        ∙ s.stored;
  }

  made_as_asked :
      {description : Bytes} {threshold : LogLevel} (logger : Logger W)
      → agrees description threshold (some logger) ≡ true
      → (context_description logger ≡ description) × (default_threshold logger ≡ threshold)
  made_as_asked {description} {threshold} logger h = (
    (bytes_eq_iff (context_description logger) description).0 (ground arith),
    (==_iff (default_threshold logger) threshold).0 (ground arith),
  )

module _ {W : Type 0} (sink : Sink W) (provider : MetadataProvider W) where
  Move-Stands :
      {i : ℕ} {m m' : Shared W} {p p' : Pc} (x : Pointer) (logger : Logger W)
      → Move sink provider i m p m' p'
      → IsList m
      → Good m i p
      → Stands m x logger
      → Stands m' x logger
  Move-Stands {m = m} x logger (construct _ _ _ _ _ {p = y} v n k e free) c g s =
      store-Stands m y _ x logger (has_free y free c) s
  Move-Stands {m = m} x logger (discard {p = y}) c g s =
      store-Stands m y none x logger ((g.apart y refl).0) s
  Move-Stands {m = m} x logger (join {p = y} e) c g s =
      store-Stands m y _ x logger ((g.apart y refl).0) s
  Move-Stands {m = m} x logger (set_head {p = y} e) c g s = record {
    on_list = ground (arith, s.on_list);
    stored = s.stored;
  }
  Move-Stands {m = m} x logger mv c g s = record { on_list = s.on_list; stored = s.stored }

  Steps-Stands :
      {s t : System W} (x : Pointer) (logger : Logger W)
      → Inv s
      → Steps sink provider s t
      → Stands s.shared x logger
      → Stands t.shared x logger
  Steps-Stands x logger inv stay st = st
  Steps-Stands x logger inv (next (pick i on mv) r) st =
      Steps-Stands x logger (Step-Inv sink provider (pick i on mv) inv) r
        (Move-Stands x logger mv inv.list (inv.threads i) st)

  -- Behind a lookup that found its logger, in any reachable state, the reference that `Find` returns is to a
  -- logger with the identifier, the description and the threshold that were asked for, and it stays in place, unchanged
  -- and on the list, whatever the threads do later.
  pub answered-Stands :
      (heap : Heap W) {s t : System W} (i : ℕ) (q : Query) (found : Option Pointer)
      → Reach sink provider heap s
      → s.pc i ≡ answered q found true
      → Steps sink provider s t
      → (p : Pointer) × (logger : Logger W) × (found ≡ some p)
        × (context_id logger ≡ q.id)
        × (context_description logger ≡ q.description)
        × (default_threshold logger ≡ q.threshold)
        × Stands t.shared p logger
  answered-Stands heap {s} i q found r e steps =
      let inv = Reach-Inv sink provider heap r in
      let served = (subst (Local s.shared) e (inv.threads i).local) refl in
      (
        served.pointer,
        served.logger,
        served.at_found,
        served.identified,
        (made_as_asked served.logger served.agreed).0,
        (made_as_asked served.logger served.agreed).1,
        Steps-Stands served.pointer served.logger inv steps
            (record { on_list = served.on_list; stored = served.stored }),
      )
