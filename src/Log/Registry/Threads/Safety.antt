-- ===== src/Log/Registry/Threads/Safety.antt =====
-- What holds in every state that the threads reach.
use adaptive_pi.Prelude.{ℕ, ◌≡◌, ◌≢◌, refl, ap, ◌∙◌, true, false, none, some, arith, inl, inr, ◌⊎◌}
use adaptive_pi.Prelude.Updates.{update, update-all}
use adaptive_pi.Log.Metadata.{MetadataProvider}
use adaptive_pi.Log.Sink.{Sink}
use adaptive_pi.Log.Logger.{Pointer}
use adaptive_pi.Log.Registry.{Heap}
use adaptive_pi.Log.Registry.Chain.{ended}
use adaptive_pi.Log.Registry.Threads.{
  Shared, Pc, is_critical, own_object, System, Move, construct, lock_register, lock_find, Step,
  pick, start_system, Reach, start, later,
}
use adaptive_pi.Log.Registry.Threads.Facts.{Good, Inv}
use adaptive_pi.Log.Registry.Threads.Seen.{Seen-Good}
use adaptive_pi.Log.Registry.Threads.Moves.{Move-owner, Move-Seen, Move-IsList}
use adaptive_pi.Log.Registry.Threads.Keeping.{Move-Good}

abbrev IsDistinct : (ℕ → Pc) → Type 0
IsDistinct pc =
    (i j : ℕ) (p : Pointer) → own_object (pc i) ≡ some p → own_object (pc j) ≡ some p → i ≡ j

update-IsDistinct :
    (pc : ℕ → Pc) (i : ℕ) (p : Pc)
    → IsDistinct pc
    → ((x : Pointer) → own_object p ≡ some x → (j : ℕ) → j ≢ i → own_object (pc j) ≢ some x)
    → IsDistinct (update pc i p)
update-IsDistinct pc i p d h =
    update-all
      (λ a q.
        (b : ℕ) (x : Pointer)
        → own_object q ≡ some x
        → own_object (update pc i p b) ≡ some x
        → a ≡ b)
      pc i p
      (update-all (λ b q. (x : Pointer) → own_object p ≡ some x → own_object q ≡ some x → i ≡ b) pc
        i p (λ x e k. refl) (λ b n x e k. absurd (h x e b n k)))
      (λ a n.
        update-all
          (λ b q. (x : Pointer) → own_object (pc a) ≡ some x → own_object q ≡ some x → a ≡ b) pc i p
          (λ x e k. absurd (h x k a n e)) (λ b m x e k. d a b x e k))

module _ {W : Type 0} (sink : Sink W) (provider : MetadataProvider W) where
  -- Where the object of a thread comes from.
  pub Move-own :
      {i : ℕ} {m m' : Shared W} {p p' : Pc} {x : Pointer}
      → Move sink provider i m p m' p'
      → own_object p' ≡ some x
      → (own_object p ≡ some x) ⊎ (m.heap x ≡ none)
  Move-own {m = m} (construct _ _ _ _ _ v n k e free) o = inr (ap m.heap (cc) ∙ free)
  Move-own mv o = ground arith

  Move-held :
      {i : ℕ} {m m' : Shared W} {p p' : Pc}
      → Move sink provider i m p m' p'
      → (m.owner ≡ some i → is_critical p ≡ true)
      → m'.stopped ≡ false
      → m'.owner ≡ some i
      → is_critical p' ≡ true
  Move-held (lock_register e) h k o = refl
  Move-held (lock_find e) h k o = refl
  Move-held mv h k o = ground (arith, h)

  Move-left :
      {i j : ℕ} {m m' : Shared W} {p p' : Pc}
      → Move sink provider i m p m' p'
      → j ≢ i
      → m'.owner ≡ some j
      → m.owner ≡ some j
  Move-left (lock_register e) n o = absurd (n (cc))
  Move-left (lock_find e) n o = absurd (n (cc))
  Move-left mv n o = ground arith

  Move-Inv :
      (s : System W) (i : ℕ) {m : Shared W} {p : Pc}
      → s.shared.stopped ≡ false
      → Move sink provider i s.shared (s.pc i) m p
      → Inv s
      → Inv (record { shared = m; pc = update s.pc i p })
  Move-Inv s i {m} {p} on mv inv = record {
    list = Move-IsList sink provider mv inv.list (inv.threads i);
    threads =
        update-all (Good m) s.pc i p (Move-Good sink provider mv inv.list (inv.threads i)) (λ j n.
          Seen-Good
            (Move-Seen sink provider mv inv.list (inv.threads i) (inv.threads j) n
              (λ x e k. n (inv.distinct j i x k e)))
            (λ c. Move-owner sink provider mv (inv.threads i) n ((inv.threads j).owned c))
            (inv.threads j));
    distinct = update-IsDistinct s.pc i p inv.distinct (λ x e j n k. elim (Move-own mv e) [
      | inl own ↦ n (inv.distinct j i x k own)
      | inr free ↦ let (out, l, stored) = (inv.threads j).apart x k in cc
    ]);
    held = λ off.
        update-all (λ j q. m.owner ≡ some j → is_critical q ≡ true) s.pc i p
          (λ o. Move-held mv (inv.held on i) off o) (λ j n o. inv.held on j (Move-left mv n o));
  }

  pub Step-Inv : {s t : System W} → Step sink provider s t → Inv s → Inv t
  Step-Inv {s} (pick i on mv) inv = Move-Inv s i on mv inv

  start-Inv : (heap : Heap W) → Inv (start_system heap)
  start-Inv heap = record {
    list = ended;
    threads = λ i. record { owned = λ e. cc e; apart = λ x e. cc e; local = tt };
    distinct = λ i j x e k. cc e;
    held = λ off i o. cc o;
  }

  -- However the threads interleave, the list is linked through distinct objects as it was published,
  -- each thread between the two calls of the mutex owns it, no unpublished object is on the list, and
  -- the local variables of every thread agree with the list.
  pub Reach-Inv : (heap : Heap W) {s : System W} → Reach sink provider heap s → Inv s
  Reach-Inv heap start = start-Inv heap
  Reach-Inv heap (later r st) = Step-Inv st (Reach-Inv heap r)
