-- ===== src/Log/Registry/Threads/Releasing.antt =====
-- What the registry owes the heap: the destructor gives back every object that the threads made.
use mathlib.Core.Path.{fun_ext}
use adaptive_pi.Prelude.{
  ℕ, ◌≡◌, ◌≢◌, ◌<◌, ◌⊎◌, refl, sym, ap, ◌∙◌, true, false, Option, none, some, ◌∷◌, ◌==◌, ==_iff,
  done, terminates, if◌then◌else◌, length, arith, Bool-cases, inl, inr,
}
use adaptive_pi.Prelude.Updates.{update, update-all, update_self, update-back}
use adaptive_pi.Log.Metadata.{MetadataProvider}
use adaptive_pi.Log.Sink.{Sink}
use adaptive_pi.Log.Logger.{Pointer, Logger}
use adaptive_pi.Log.Registry.{Heap, store, destroy_registry}
use adaptive_pi.Log.Registry.Chain.{has, Loggers}
use adaptive_pi.Log.Registry.Destroying.{destroy_registry-without}
use adaptive_pi.Log.Registry.Threads.{
  Shared, Pc, idle, own_object, System, Move, construct, discard, join, set_head, pick,
  start_system, Reach, start, later,
}
use adaptive_pi.Log.Registry.Threads.Facts.{Inv, store-other}
use adaptive_pi.Log.Registry.Threads.Safety.{Move-own, Reach-Inv}
use adaptive_pi.Log.Registry.Threads.Alone.{registry_of}

module _ {W : Type 0} where
  store-freed : (heap : Heap W) (p x : Pointer) → x ≡ p → store heap p none x ≡ none
  unfolding store
  store-freed heap p x e = ground arith

  has-newest :
      (ls : Loggers W) (p x : Pointer) (logger : Logger W)
      → has x ((p, logger) ∷ ls) ≡ true
      → has x ls ≡ false
      → x ≡ p
  has-newest ls p x logger h k = ground arith

  newest-has :
      (ls : Loggers W) (p x : Pointer) (logger : Logger W)
      → x ≡ p
      → has x ((p, logger) ∷ ls) ≢ false
  newest-has ls p x logger e k = ground arith

owns_or_not : (o : Option Pointer) (x : Pointer) → (o ≡ some x) ⊎ (o ≢ some x)
owns_or_not none x = inr (λ e. cc e)
owns_or_not (some p) x = elim (Bool-cases (p == x)) [
  | inl e ↦ inl (ap some ((==_iff p x).0 e))
  | inr e ↦ inr (λ k. ground arith)
]

module _ {W : Type 0} (sink : Sink W) (provider : MetadataProvider W) where
  -- A move of a thread, at one address.
  pub record Spares (m m' : Shared W) (p p' : Pc) : Type 0 where
    pub keeps :
        (x : Pointer) → own_object p ≢ some x → own_object p' ≢ some x → m'.heap x ≡ m.heap x
    pub publishes :
        (x : Pointer)
        → has x m'.published ≡ true
        → has x m.published ≡ false
        → own_object p ≡ some x
    pub grows : (x : Pointer) → has x m'.published ≡ false → has x m.published ≡ false
    pub leaves :
        (x : Pointer)
        → own_object p ≡ some x
        → own_object p' ≢ some x
        → has x m'.published ≡ false
        → m'.heap x ≡ none

  pub Move-Spares :
      {i : ℕ} {m m' : Shared W} {p p' : Pc} → Move sink provider i m p m' p' → Spares m m' p p'
  Move-Spares {m = m} (construct _ _ _ _ _ {p = y} v n k e free) = record {
    keeps = λ x a b. store-other m.heap y x _ (λ same. b (ap some (sym same)));
    publishes = λ x a b. absurd (cc);
    grows = λ x a. a;
    leaves = λ x a b c. absurd (cc a);
  }
  Move-Spares {m = m} (discard {p = y}) = record {
    keeps = λ x a b. store-other m.heap y x none (λ same. a (ap some (sym same)));
    publishes = λ x a b. absurd (cc);
    grows = λ x a. a;
    leaves = λ x a b c. store-freed m.heap y x (cc);
  }
  Move-Spares {m = m} (join {p = y} e) = record {
    keeps = λ x a b. store-other m.heap y x _ (λ same. a (ap some (sym same)));
    publishes = λ x a b. absurd (cc);
    grows = λ x a. a;
    leaves = λ x a b c. absurd (b a);
  }
  Move-Spares {m = m} (set_head {p = y} {logger = l} e) = record {
    keeps = λ x a b. refl;
    publishes = λ x a b. ap some (sym (has-newest m.published y x l a b));
    grows = λ x a. ground arith;
    leaves = λ x a b c. absurd (newest-has m.published y x l (cc) c);
  }
  Move-Spares mv = record {
    keeps = λ x a b. refl;
    publishes = λ x a b. absurd (cc);
    grows = λ x a. a;
    leaves = λ x a b c. absurd (ground arith);
  }

module _ {W : Type 0} (sink : Sink W) (provider : MetadataProvider W) (heap : Heap W) where
  -- Each address is that of a published logger, or of an object that a thread has made, and was free at the
  -- start, or it holds what it held at the start.
  record Accounted (s : System W) : Type 0 where
    published : (x : Pointer) → has x s.shared.published ≡ true → heap x ≡ none
    made : (i : ℕ) (x : Pointer) → own_object (s.pc i) ≡ some x → heap x ≡ none
    rest :
        (x : Pointer)
        → has x s.shared.published ≡ false
        → ((i : ℕ) → own_object (s.pc i) ≢ some x)
        → s.shared.heap x ≡ heap x

  -- An address that is free while the threads move was free at the start.
  free_before :
      (s : System W) (x : Pointer) → Inv s → Accounted s → s.shared.heap x ≡ none → heap x ≡ none
  free_before s x inv acc free = elim (Bool-cases (has x s.shared.published)) [
    | inl e ↦ acc.published x e
    | inr e ↦
        sym (acc.rest x e (λ i own. let (out, l, stored) = (inv.threads i).apart x own in cc))
        ∙ free
  ]

  Move-Accounted :
      (s : System W) (i : ℕ) {m : Shared W} {p : Pc}
      → Move sink provider i s.shared (s.pc i) m p
      → Inv s
      → Accounted s
      → Accounted (record { shared = m; pc = update s.pc i p })
  Move-Accounted s i {m} {p} mv inv acc =
      let moved = Move-Spares sink provider mv in
      record {
        published = λ x e. elim (Bool-cases (has x s.shared.published)) [
          | inl old ↦ acc.published x old
          | inr new ↦ acc.made i x (moved.publishes x e new)
        ];
        made =
            update-all (λ j q. (x : Pointer) → own_object q ≡ some x → heap x ≡ none) s.pc i p
              (λ x own. elim (Move-own sink provider mv own) [
                | inl before ↦ acc.made i x before
                | inr free ↦ free_before s x inv acc free
              ])
              (λ j n. acc.made j);
        rest = λ x out unowned.
            let after : own_object p ≢ some x =
              λ own. unowned i (ap own_object (update_self s.pc i p) ∙ own) in
            elim (owns_or_not (own_object (s.pc i)) x) [
              | inl own ↦ moved.leaves x own after out ∙ sym (acc.made i x own)
              | inr before ↦
                  moved.keeps x before after
                  ∙ acc.rest x (moved.grows x out)
                      (update-back (λ q. own_object q ≢ some x) s.pc i p before unowned)
            ];
      }

  start-Accounted : Accounted (start_system heap)
  start-Accounted = record {
    published = λ x e. cc e;
    made = λ i x e. cc e;
    rest = λ x out unowned. refl;
  }

  Reach-Accounted : {s : System W} → Reach sink provider heap s → Accounted s
  Reach-Accounted start = start-Accounted
  Reach-Accounted (later {s = s} r (pick i on mv)) =
      Move-Accounted s i mv (Reach-Inv sink provider heap r) (Reach-Accounted r)

  -- Whatever the threads did before, when every thread has left the registry, a destructor with fuel
  -- beyond the number of the loggers terminates the program where the destruction of the mutex
  -- fails; where it succeeds, the destructor ends and every address holds what it held before the
  -- registry was used: no object leaks, and none but those that the registry made is deleted.
  pub destroy_registry-restores :
      {s : System W} (fuel status : ℕ)
      → Reach sink provider heap s
      → ((i : ℕ) → s.pc i ≡ idle)
      → length s.shared.published < fuel
      → destroy_registry fuel status (registry_of sink provider s.shared)
        ≡ some (if status == 0 then done heap else terminates)
  destroy_registry-restores {s} fuel status r quiet h =
      let acc = Reach-Accounted r in
      destroy_registry-without fuel status (registry_of sink provider s.shared) s.shared.published
        ((Reach-Inv sink provider heap r).list) h
      ∙ ap (λ h. some (if status == 0 then done h else terminates))
          (fun_ext (λ x. elim (Bool-cases (has x s.shared.published)) [
            | inl e ↦ rw e (sym (acc.published x e))
            | inr e ↦ rw e (acc.rest x e (λ i own. cc (sym (ap own_object (quiet i)) ∙ own)))
          ]))
