-- ===== src/Log/Stream/Steps.antt =====
-- Functions that append a text to a stream, and their composition.
use adaptive_pi.Prelude.{◌≡◌, refl, sym, ap, ◌∙◌, Option, some, List, [], ◌++◌, Bytes, bind}
use adaptive_pi.Log.Stream.{LogStream, Floating}
use adaptive_pi.Log.Stream.Pending.{push, IsValid, pending}
use adaptive_pi.Log.Stream.Inserting.{Value, insert, insert_all, text_of, texts, pending-insert}
use adaptive_pi.Log.Stream.Lifetime.{
  push-push, push-nil, Keeps, insert-Keeps, insert_all-Keeps, pending-insert_all,
}

-- Two texts, one behind the other, where there are both.
abbrev pub concat : Option Bytes → Option Bytes → Option Bytes
concat a b = bind a λ t. bind b λ r. some (t ++ r)

module _ {W : Type 0} where
  -- The step appends the text whole, or breaks the pending record; it changes nothing else.
  abbrev pub Appends : (LogStream W → LogStream W) → Option Bytes → Type 0
  Appends f t =
      (s : LogStream W)
      → IsValid s
      → IsValid (f s) × (pending (f s) ≡ push t (pending s)) × Keeps s (f s)

  pub Appends-then :
      (f g : LogStream W → LogStream W) (a b : Option Bytes)
      → Appends f a
      → Appends g b
      → Appends (λ s. g (f s)) (concat a b)
  Appends-then f g a b p q s v =
      let (w, first, k) = p s v in
      let (u, rest, l) = q (f s) w in
      (
        u,
        rest ∙ ap (push b) first ∙ push-push a b (pending s),
        record {
          logger = l.logger ∙ k.logger;
          level = l.level ∙ k.level;
          enabled = l.enabled ∙ k.enabled;
        },
      )

  pub Appends-nothing : Appends (λ s. s) (some [])
  Appends-nothing s v =
      (v, sym (push-nil s v), record { logger = refl; level = refl; enabled = refl })

module _ {W F : Type 0} (f : Floating F) where
  pub insert-Appends : (x : Value F) → Appends {W = W} (insert f x) (text_of f x)
  insert-Appends x s v = let (w, e) = pending-insert f x s v in (w, e, insert-Keeps f x s)

  pub insert_all-Appends : (vs : List (Value F)) → Appends {W = W} (insert_all f vs) (texts f vs)
  insert_all-Appends vs s v =
      let (w, e) = pending-insert_all f vs s v in (w, e, insert_all-Keeps f vs s)
