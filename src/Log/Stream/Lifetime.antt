-- ===== src/Log/Stream/Lifetime.antt =====
-- What a row of insertions leaves of a stream.
use adaptive_pi.Prelude.{
  ◌≡◌, refl, sym, ap, ◌∙◌, Option, none, some, List, [], ◌∷◌, ◌++◌, append-nil, append_assoc, Bytes,
  bind, length-append, length-take, take, arith,
}
use adaptive_pi.Log.Stream.{LogStream, Floating, append, insert_formatted, contents}
use adaptive_pi.Log.Stream.Pending.{Pending, closed, broken, holding, push, IsValid, pending}
use adaptive_pi.Log.Stream.Inserting.{
  Value, view, string, insert, insert_all, text_of, texts, pending-insert,
}

pub push-push :
    (a b : Option Bytes) (p : Pending)
    → push b (push a p) ≡ push (bind a λ t. bind b λ r. some (t ++ r)) p
unfolding push
push-push none b closed = refl
push-push none b broken = refl
push-push none b (holding s) = refl
push-push (some t) none closed = refl
push-push (some t) none broken = refl
push-push (some t) none (holding s) = ground arith
push-push (some t) (some r) closed = refl
push-push (some t) (some r) broken = refl
push-push (some t) (some r) (holding s) =
    ground (arith, length-append {0} s t, length-append {0} t r, append_assoc s t r)

module _ {W : Type 0} where
  pub push-nil : (s : LogStream W) → IsValid s → push (some []) (pending s) ≡ pending s
  unfolding push pending contents
  push-nil s v = ground (arith, length-take s.size s.buffer, append-nil (take s.size s.buffer))

module _ {W F : Type 0} (f : Floating F) where
  -- A row of insertions leaves the concatenation of the texts pending, or breaks the record.
  pub pending-insert_all :
      (vs : List (Value F)) (s : LogStream W)
      → IsValid s
      → IsValid (insert_all f vs s) × (pending (insert_all f vs s) ≡ push (texts f vs) (pending s))
  unfolding insert_all texts
  pending-insert_all [] s v = (v, sym (push-nil s v))
  pending-insert_all (x ∷ vs) s v =
      let (w, first) = pending-insert f x s v in
      let (u, rest) = pending-insert_all vs (insert f x s) w in
      (u, rest ∙ ap (push (texts f vs)) first ∙ push-push (text_of f x) (texts f vs) (pending s))

-- Insertions change the buffer and the failure flag alone.
pub record Keeps {W : Type 0} (s t : LogStream W) : Type 0 where
  pub logger : t.logger ≡ s.logger
  pub level : t.level ≡ s.level
  pub enabled : t.enabled ≡ s.enabled

module _ {W F : Type 0} (f : Floating F) where
  pub append-Keeps : (t : Bytes) (s : LogStream W) → Keeps s (append t s)
  unfolding append
  append-Keeps t s = record { logger = ground arith; level = ground arith; enabled = ground arith }

  insert_formatted-Keeps : (t : Option Bytes) (s : LogStream W) → Keeps s (insert_formatted t s)
  unfolding insert_formatted
  insert_formatted-Keeps none s = record { logger = refl; level = refl; enabled = refl }
  insert_formatted-Keeps (some t) s = append-Keeps t s

  pub insert-Keeps : (x : Value F) (s : LogStream W) → Keeps s (insert f x s)
  unfolding insert
  insert-Keeps (view t) s = append-Keeps t s
  insert-Keeps (string t) s = append-Keeps t s
  insert-Keeps x s = record { logger = ground arith; level = ground arith; enabled = ground arith }

  pub insert_all-Keeps : (vs : List (Value F)) (s : LogStream W) → Keeps s (insert_all f vs s)
  unfolding insert_all
  insert_all-Keeps [] s = record { logger = refl; level = refl; enabled = refl }
  insert_all-Keeps (x ∷ vs) s =
      let a = insert-Keeps x s in
      let b = insert_all-Keeps vs (insert f x s) in
      record {
        logger = b.logger ∙ a.logger;
        level = b.level ∙ a.level;
        enabled = b.enabled ∙ a.enabled;
      }
