-- ===== src/Log/Registry/Threads/Moves.antt =====
-- Every move keeps what the threads rely on.
use adaptive_pi.Prelude.{
  ℕ, ◌≡◌, ◌≢◌, refl, sym, ap, ◌∙◌, true, false, Option, none, some, inl, inr, Bool-cases,
}
use mathlib.Core.Path.{subst}
use adaptive_pi.Log.Metadata.{MetadataProvider}
use adaptive_pi.Log.Sink.{Sink}
use adaptive_pi.Log.Logger.{Pointer}
use adaptive_pi.Log.Registry.Chain.{has_free, Chain, linked, Chain-store}
use adaptive_pi.Log.Registry.Threads.{
  Shared, Pc, is_critical, own_object, Move, construct, lock_register, discard, join, set_head,
  unlock_register, lock_find, unlock_find,
}
use adaptive_pi.Log.Registry.Threads.Facts.{Apart, Good, IsList}
use adaptive_pi.Log.Registry.Threads.Seen.{Seen, quiet, written, grown}

other-owner : {o : Option ℕ} {i j : ℕ} → o ≡ some j → o ≡ some i → j ≡ i
other-owner e k = cc

module _ {W : Type 0} (sink : Sink W) (provider : MetadataProvider W) where
  -- A move takes the mutex from no other thread.
  pub Move-owner :
      {i j : ℕ} {m m' : Shared W} {p p' : Pc}
      → Move sink provider i m p m' p'
      → Good m i p
      → j ≢ i
      → m.owner ≡ some j
      → m'.owner ≡ some j
  Move-owner (lock_register e) g n k = cc
  Move-owner (lock_find e) g n k = cc
  Move-owner unlock_register g n k = absurd (n (other-owner k (g.owned refl)))
  Move-owner unlock_find g n k = absurd (n (other-owner k (g.owned refl)))
  Move-owner mv g n k = k

  not-own :
      (m : Shared W) (o : Option Pointer) (p : Pointer) → Apart m o → m.heap p ≡ none → o ≢ some p
  not-own m o p a free e = let (out, l, s) = a p e in cc

  not-critical :
      (m : Shared W) {i j : ℕ} (q : Pc)
      → m.owner ≡ some i
      → (is_critical q ≡ true → m.owner ≡ some j)
      → j ≢ i
      → is_critical q ≡ false
  not-critical m q e k n = elim (Bool-cases (is_critical q)) [
    | inl c ↦ absurd (n (other-owner (k c) e))
    | inr c ↦ c
  ]

  -- What another thread, at `q`, sees of a move.
  pub Move-Seen :
      {i j : ℕ} {m m' : Shared W} {p p' q : Pc}
      → Move sink provider i m p m' p'
      → IsList m
      → Good m i p
      → Good m j q
      → j ≢ i
      → ((x : Pointer) → own_object p ≡ some x → own_object q ≢ some x)
      → Seen m q m'
  Move-Seen {m = m} {q = q} (construct _ _ _ _ _ {p = x} v n k e free) c g h ne apart =
      written x _ (has_free x free c) (not-own m (own_object q) x h.apart free)
  Move-Seen (discard {p = x}) c g h ne apart = written x none ((g.apart x refl).0) (apart x refl)
  Move-Seen (join {p = x} e) c g h ne apart = written x _ ((g.apart x refl).0) (apart x refl)
  Move-Seen {m = m} {q = q} (set_head {p = x} {logger = l} e) c g h ne apart =
      grown x l (apart x refl) (not-critical m q (g.owned refl) h.owned ne)
  Move-Seen mv c g h ne apart = quiet

  -- A move leaves the list linked as published.
  pub Move-IsList :
      {i : ℕ} {m m' : Shared W} {p p' : Pc}
      → Move sink provider i m p m' p'
      → IsList m
      → Good m i p
      → IsList m'
  Move-IsList (construct _ _ _ _ _ {p = x} v n k e free) c g = Chain-store x _ (has_free x free c) c
  Move-IsList (discard {p = x}) c g = Chain-store x none ((g.apart x refl).0) c
  Move-IsList (join {p = x} e) c g = Chain-store x _ ((g.apart x refl).0) c
  Move-IsList {m = m} (set_head {p = x} {logger = l} e) c g =
      let (k, s, next) = g.local in
      let same : l ≡ k = cc in
      linked e ((g.apart x refl).0)
        (subst (λ o. Chain m.heap o m.published) (sym (ap (λ l. l.next) same ∙ next)) c)
  Move-IsList mv c g = c
