-- ===== src/Log/Registry/Threads/Seen.antt =====
-- What a move of one thread leaves of the facts of another.
use adaptive_pi.Prelude.{
  ℕ, ◌≡◌, ◌≢◌, refl, sym, ap, ◌∙◌, Bool, true, false, Option, none, some, ◌∷◌, arith,
}
use adaptive_pi.Log.Logger.{Pointer, Logger}
use adaptive_pi.Log.Registry.{store, agrees, matches}
use adaptive_pi.Log.Registry.Chain.{Loggers, has, Chain-store, lookup, address}
use adaptive_pi.Log.Registry.Threads.{
  Shared, Query, Pc, idle, constructed, refused, entered, joined, headed, asking, walking, decided,
  leaving, answered, is_critical, own_object,
}
use adaptive_pi.Log.Registry.Threads.Facts.{Served, Local, Good, has-lookup, store-other}

module _ {W : Type 0} where
  off_list : (ls : Loggers W) (p x : Pointer) → has p ls ≡ false → has x ls ≡ true → x ≢ p
  off_list ls p x h k e = cc

  not-has_cons :
      (ls : Loggers W) (p x : Pointer) (logger : Logger W)
      → x ≢ p
      → has x ls ≡ false
      → has x ((p, logger) ∷ ls) ≡ false
  not-has_cons ls p x logger h k = ground arith

  -- What a move of another thread does, as a thread at `q` sees it.
  pub data Seen (m : Shared W) (q : Pc) : Shared W → Type 0 where
    quiet : {o : Option ℕ} {b : Bool} → Seen m q (record m { owner = o; stopped = b })
    written :
        (p : Pointer) (content : Option (Logger W))
        → has p m.published ≡ false
        → own_object q ≢ some p
        → Seen m q (record m { heap = store m.heap p content })
    grown :
        (p : Pointer) (logger : Logger W)
        → own_object q ≢ some p
        → is_critical q ≡ false
        → Seen m q (record m { head = some p; published = (p, logger) ∷ m.published })

  matches-store :
      (m : Shared W) (p : Pointer) (content : Option (Logger W)) (q : Query)
      (found : Option Pointer)
      → has p m.published ≡ false
      → found ≡ address (lookup q.id m.published)
      → matches (store m.heap p content) q.description q.threshold found
        ≡ matches m.heap q.description q.threshold found
  unfolding matches
  matches-store m p content q none h e = refl
  matches-store m p content q (some x) h e = ap (agrees q.description q.threshold) (
      store-other m.heap p x content
        (off_list m.published p x h (has-lookup q.id m.published x (sym e))))

  -- A logger that was served stays so where it stays on the list and in place.
  Served-moved :
      {m m' : Shared W} {q : Query} {found : Option Pointer} (s : Served m q found)
      → has s.pointer m'.published ≡ true
      → m'.heap s.pointer ≡ some s.logger
      → Served m' q found
  Served-moved s on_list stored = record {
    pointer = s.pointer;
    logger = s.logger;
    at_found = s.at_found;
    on_list = on_list;
    stored = stored;
    identified = s.identified;
    agreed = s.agreed;
  }

  Local-store :
      (m : Shared W) (p : Pointer) (content : Option (Logger W)) (q : Pc)
      → has p m.published ≡ false
      → own_object q ≢ some p
      → Local m q
      → Local (record m { heap = store m.heap p content }) q
  Local-store m p content (joined x) h n (l, e, k) =
      (l, store-other m.heap p x content (λ same. n (ap some same)) ∙ e, k)
  Local-store m p content (walking q current) h n w = record {
    rest = w.rest;
    chain = Chain-store p content (w.inside p h) w.chain;
    same = w.same;
    inside = w.inside;
  }
  Local-store m p content (decided q found) h n e = e
  Local-store m p content (leaving q found is_match) h n (e, k) =
      (e, k ∙ sym (matches-store m p content q found h e))
  Local-store m p content (answered q found is_match) h n f = λ t.
      let s = f t in
      Served-moved s s.on_list (
        store-other m.heap p s.pointer content (off_list m.published p s.pointer h s.on_list)
        ∙ s.stored)
  Local-store m p content idle h n u = tt
  Local-store m p content (constructed x) h n u = tt
  Local-store m p content (refused x) h n u = tt
  Local-store m p content (entered x) h n u = tt
  Local-store m p content (headed x) h n u = tt
  Local-store m p content (asking q) h n u = tt

  Local-grown :
      (m : Shared W) (p : Pointer) (logger : Logger W) (q : Pc)
      → is_critical q ≡ false
      → Local m q
      → Local (record m { head = some p; published = (p, logger) ∷ m.published }) q
  Local-grown m p logger (joined x) c u = absurd (cc c)
  Local-grown m p logger (walking q current) c w = absurd (cc c)
  Local-grown m p logger (decided q found) c e = absurd (cc c)
  Local-grown m p logger (leaving q found is_match) c e = absurd (cc c)
  Local-grown m p logger (answered q found is_match) c f =
      λ t. let s = f t in Served-moved s (ground (arith, s.on_list)) s.stored
  Local-grown m p logger idle c u = tt
  Local-grown m p logger (constructed x) c u = tt
  Local-grown m p logger (refused x) c u = tt
  Local-grown m p logger (entered x) c u = tt
  Local-grown m p logger (headed x) c u = tt
  Local-grown m p logger (asking q) c u = tt

  pub Local-quiet :
      (m : Shared W) (o : Option ℕ) (b : Bool) (q : Pc)
      → Local m q
      → Local (record m { owner = o; stopped = b }) q
  Local-quiet m o b (joined x) u = u
  Local-quiet m o b (walking q current) w = record {
    rest = w.rest;
    chain = w.chain;
    same = w.same;
    inside = w.inside;
  }
  Local-quiet m o b (decided q found) e = e
  Local-quiet m o b (leaving q found is_match) u = u
  Local-quiet m o b (answered q found is_match) f =
      λ t. let s = f t in Served-moved s s.on_list s.stored
  Local-quiet m o b idle u = tt
  Local-quiet m o b (constructed x) u = tt
  Local-quiet m o b (refused x) u = tt
  Local-quiet m o b (entered x) u = tt
  Local-quiet m o b (headed x) u = tt
  Local-quiet m o b (asking q) u = tt

  -- The facts of a thread outlive the moves of others, as long as they leave it the mutex.
  pub Seen-Good :
      {m m' : Shared W} {i : ℕ} {q : Pc}
      → Seen m q m'
      → (is_critical q ≡ true → m'.owner ≡ some i)
      → Good m i q
      → Good m' i q
  Seen-Good {m} {q = q} (quiet {o = o} {b = b}) k g = record {
    owned = k;
    apart = g.apart;
    local = Local-quiet m o b q g.local;
  }
  Seen-Good {m} {q = q} (written p content h n) k g = record {
    owned = k;
    apart = λ x e.
        let (out, l, s) = g.apart x e in
        (out, l, store-other m.heap p x content (λ same. n (e ∙ ap some same)) ∙ s);
    local = Local-store m p content q h n g.local;
  }
  Seen-Good {m} {q = q} (grown p logger n c) k g = record {
    owned = k;
    apart = λ x e.
        let (out, l, s) = g.apart x e in
        (not-has_cons m.published p x logger (λ same. n (e ∙ ap some same)) out, l, s);
    local = Local-grown m p logger q c g.local;
  }
