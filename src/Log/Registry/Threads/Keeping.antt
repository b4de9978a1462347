-- ===== src/Log/Registry/Threads/Keeping.antt =====
-- Every move keeps the facts of the thread that makes it.
use adaptive_pi.Prelude.{
  ℕ, ◌≡◌, refl, sym, ap, ◌∙◌, true, false, Option, none, some, Bytes, bytes_eq, arith,
}
use mathlib.Core.Path.{subst}
use adaptive_pi.Log.Metadata.{MetadataProvider}
use adaptive_pi.Log.Sink.{Sink}
use adaptive_pi.Log.Logger.{Pointer, Logger, context_id}
use adaptive_pi.Log.Registry.{Heap, store, agrees, matches}
use adaptive_pi.Log.Registry.Chain.{
  Loggers, has, has_free, Chain, ended, linked, lookup, address, lookup-stored,
}
use adaptive_pi.Log.Registry.Threads.{
  Shared, Query, Pc, is_critical, own_object, Move, deny, construct, lock_register, fail_register,
  reject, discard, join, set_head, unlock_register, abort_register, ask, lock_find, abort_find,
  end_of_list, hit, miss, compare_found, unlock_find, abort_unlock, return_found, abort_answer,
}
use adaptive_pi.Log.Registry.Registering.{store_self}
use adaptive_pi.Log.Registry.Threads.Facts.{
  Walk, Served, Local, Apart, Good, IsList, has-lookup, context_id-lookup,
}

module _ {W : Type 0} (sink : Sink W) (provider : MetadataProvider W) where
  -- At a place where a thread has made nothing, holds no mutex and knows nothing.
  free-Good :
      (m : Shared W) (i : ℕ) (p : Pc)
      → is_critical p ≡ false
      → own_object p ≡ none
      → Local m p
      → Good m i p
  free-Good m i p c o l = record {
    owned = λ e. absurd (cc (sym c ∙ e));
    apart = λ x e. absurd (cc (sym o ∙ e));
    local = l;
  }

  store_made :
      (m : Shared W) (x : Pointer) (logger : Logger W)
      → has x m.published ≡ false
      → Apart (record m { heap = store m.heap x (some logger) }) (some x)
  unfolding store
  store_made m x logger out y e =
      let same : x ≡ y = cc in
      subst
        (λ y.
          (has y m.published ≡ false) × (l : Logger W) × (store m.heap x (some logger) y ≡ some l))
        same (out, logger, store_self m.heap x (some logger))

  lookup-Served :
      (m : Shared W) (q : Query) (x : Pointer) (o : Option (Pointer × Logger W))
      → IsList m
      → lookup q.id m.published ≡ o
      → some x ≡ address o
      → agrees q.description q.threshold (m.heap x) ≡ true
      → Served m q (some x)
  lookup-Served m q x none c k e t = absurd (cc e)
  lookup-Served m q x (some (y, l)) c k e t =
      let same : y ≡ x = cc in
      let stored : m.heap y ≡ some l = lookup-stored q.id c k in
      record {
        pointer = y;
        logger = l;
        at_found = e;
        on_list = has-lookup q.id m.published y (ap address k);
        stored = stored;
        identified = context_id-lookup q.id m.published y l k;
        agreed = ap (agrees q.description q.threshold) (sym stored ∙ ap m.heap same) ∙ t;
      }

  found-Served :
      (m : Shared W) (q : Query) (found : Option Pointer)
      → IsList m
      → found ≡ address (lookup q.id m.published)
      → matches m.heap q.description q.threshold found ≡ true
      → Served m q found
  unfolding matches
  found-Served m q none c e t = absurd (cc t)
  found-Served m q (some x) c e t = lookup-Served m q x (lookup q.id m.published) c refl e t

  -- The rounds of the loop of `Find`.
  lookup-ended :
      {heap : Heap W} {rest : Loggers W} (id : Bytes)
      → Chain heap none rest
      → none ≡ address (lookup id rest)
  unfolding lookup
  lookup-ended id ended = refl

  lookup-hit :
      {heap : Heap W} {rest : Loggers W} (id : Bytes) (x : Pointer) (logger : Logger W)
      → Chain heap (some x) rest
      → heap x ≡ some logger
      → bytes_eq (context_id logger) id ≡ true
      → some x ≡ address (lookup id rest)
  unfolding lookup
  lookup-hit id x logger (linked {logger = l} k out c) e t =
      let same : logger ≡ l = cc in
      let hit : bytes_eq (context_id l) id ≡ true =
        sym (ap (λ l. bytes_eq (context_id l) id) same) ∙ t in
      rw hit

  Walk-miss :
      (m : Shared W) (q : Query) (x : Pointer) (logger : Logger W) {rest : Loggers W}
      → Chain m.heap (some x) rest
      → lookup q.id rest ≡ lookup q.id m.published
      → ((p : Pointer) → has p m.published ≡ false → has p rest ≡ false)
      → m.heap x ≡ some logger
      → bytes_eq (context_id logger) q.id ≡ false
      → Walk m q logger.next
  unfolding lookup
  Walk-miss m q x logger (linked {logger = l} {ls = ls} k out c) same inside e t =
      let eq : l ≡ logger = cc in
      let miss : bytes_eq (context_id l) q.id ≡ false =
        ap (λ l. bytes_eq (context_id l) q.id) eq ∙ t in
      record {
        rest = ls;
        chain = subst (λ l. Chain m.heap l.next ls) eq c;
        same = sym (rw miss) ∙ same;
        inside = λ p h. ground (arith, inside p h);
      }

  -- A move of a thread keeps its own facts.
  pub Move-Good :
      {i : ℕ} {m m' : Shared W} {p p' : Pc}
      → Move sink provider i m p m' p'
      → IsList m
      → Good m i p
      → Good m' i p'
  unfolding lookup address
  Move-Good (reject _ e) c g = free-Good _ _ _ refl refl tt
  Move-Good deny c g = free-Good _ _ _ refl refl tt
  Move-Good {m = m} (construct _ _ _ _ _ {p = x} v n k e free) c g = record {
    owned = λ e. cc e;
    apart = store_made m x _ (has_free x free c);
    local = tt;
  }
  Move-Good (lock_register e) c g = record { owned = λ e. refl; apart = g.apart; local = tt }
  Move-Good fail_register c g = record { owned = λ e. cc e; apart = g.apart; local = tt }
  Move-Good discard c g = free-Good _ _ _ refl refl tt
  Move-Good {m = m} (join {p = x} {logger = l} e) c g = record {
    owned = g.owned;
    apart = store_made m x _ ((g.apart x refl).0);
    local = (record l { next = m.head }, store_self m.heap x _, refl);
  }
  Move-Good (set_head e) c g = record { owned = g.owned; apart = λ x e. cc e; local = tt }
  Move-Good unlock_register c g = free-Good _ _ _ refl refl tt
  Move-Good abort_register c g = free-Good _ _ _ refl refl tt
  Move-Good ask c g = free-Good _ _ _ refl refl tt
  Move-Good {m = m} (lock_find e) c g = record {
    owned = λ e. refl;
    apart = λ x e. cc e;
    local = record { rest = m.published; chain = c; same = refl; inside = λ p h. h };
  }
  Move-Good abort_find c g = free-Good _ _ _ refl refl tt
  Move-Good {m = m} (end_of_list {q = q}) c g = record {
    owned = g.owned;
    apart = λ x e. cc e;
    local = lookup-ended q.id g.local.chain ∙ ap address g.local.same;
  }
  Move-Good {m = m} (hit {q = q} {p = x} e t) c g = record {
    owned = g.owned;
    apart = λ x e. cc e;
    local = lookup-hit q.id x _ g.local.chain e t ∙ ap address g.local.same;
  }
  Move-Good {m = m} (miss {q = q} {p = x} e t) c g = record {
    owned = g.owned;
    apart = λ x e. cc e;
    local = Walk-miss m q x _ g.local.chain g.local.same g.local.inside e t;
  }
  Move-Good compare_found c g = record {
    owned = g.owned;
    apart = λ x e. cc e;
    local = (g.local, refl);
  }
  Move-Good {m = m} (unlock_find {q = q} {found = o} {is_match = b}) c g =
      free-Good _ _ _ refl refl
        (λ t. found-Served (record m { owner = none }) q o c g.local.0 (sym g.local.1 ∙ t))
  Move-Good abort_unlock c g = free-Good _ _ _ refl refl tt
  Move-Good return_found c g = free-Good _ _ _ refl refl tt
  Move-Good abort_answer c g = free-Good _ _ _ refl refl tt
