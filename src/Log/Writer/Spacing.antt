-- ===== src/Log/Writer/Spacing.antt =====
-- The text that a row of writes leaves in a stream: one space, and the values, if they have a text.
use adaptive_pi.Prelude.{
  ◌+◌, ◌≡◌, ◌≢◌, refl, sym, ap, Bool, true, false, Option, none, some, List, [], ◌∷◌, Bytes, codes,
  bind, arith, Bool-cases, inl, inr,
}
use mathlib.Core.Path.{subst₂, fun_ext}
use adaptive_pi.Prelude.Decimal.{to_chars-ne-nil}
use adaptive_pi.Log.Stream.Values.{digits10}
use adaptive_pi.Log.Stream.{format_floating, LogStream, Floating}
use adaptive_pi.Log.Stream.Inserting.{
  Value, view, string, c_string, char, bool, integer, floating, insert, text_of, texts,
}
use adaptive_pi.Log.Stream.Pending.{pending, push, IsValid}
use adaptive_pi.Log.Stream.Steps.{Appends, concat, Appends-then, Appends-nothing, insert-Appends}
use adaptive_pi.Log.Writer.{MessageWriter, is_blank, is_null, start_text, write, write_all}

-- One space before the text, if there is any.
unfoldable pub spaced : Bytes → Bytes
spaced [] = []
spaced (c ∷ t) = b' ' ∷ c ∷ t

unfoldable pub written_texts : {F : Type 0} → Floating F → Bool → List (Value F) → Option Bytes
written_texts f true xs = texts f xs
written_texts f false xs = bind (texts f xs) λ t. some (spaced t)

-- `std::to_chars` never gives an empty text.
abbrev pub NeverEmpty : {F : Type 0} → Floating F → Type 0
NeverEmpty {F} f = (x : F) → format_floating f x ≢ some []

module _ {F : Type 0} (f : Floating F) where
  text_of_blank : (x : Value F) → is_blank x ≡ true → text_of f x ≡ some []
  unfolding is_blank text_of
  text_of_blank (view t) h = ground arith
  text_of_blank (string t) h = ground arith
  text_of_blank (c_string (some t)) h = ground arith
  text_of_blank (c_string none) h = cc
  text_of_blank (char c) h = cc
  text_of_blank (bool b) h = cc
  text_of_blank (integer type n) h = cc
  text_of_blank (floating x) h = cc

  text_of_null : (x : Value F) → is_null x ≡ true → text_of f x ≡ none
  unfolding is_null text_of
  text_of_null (c_string none) h = refl
  text_of_null (c_string (some t)) h = cc
  text_of_null (view t) h = cc
  text_of_null (string t) h = cc
  text_of_null (char c) h = cc
  text_of_null (bool b) h = cc
  text_of_null (integer type n) h = cc
  text_of_null (floating x) h = cc

  text_of-ne-nil : NeverEmpty f → (x : Value F) → is_blank x ≡ false → text_of f x ≢ some []
  unfolding is_blank text_of
  text_of-ne-nil law (view t) h = ground arith
  text_of-ne-nil law (string t) h = ground arith
  text_of-ne-nil law (c_string none) h = ground arith
  text_of-ne-nil law (c_string (some t)) h = ground arith
  text_of-ne-nil law (char c) h = ground arith
  text_of-ne-nil law (bool true) h = ground arith
  text_of-ne-nil law (bool false) h = ground arith
  text_of-ne-nil law (integer type n) h = to_chars-ne-nil (digits10 type + 2) n
  text_of-ne-nil law (floating x) h = ground (arith, law x)

concat-spaced :
    (a b : Option Bytes)
    → a ≢ some []
    → concat (some (codes " ")) (concat a b) ≡ bind (concat a b) λ t. some (spaced t)
unfolding spaced
concat-spaced none b h = refl
concat-spaced (some []) b h = absurd (h refl)
concat-spaced (some (c ∷ t)) none h = refl
concat-spaced (some (c ∷ t)) (some r) h = refl

bind_nil : (t : Option Bytes) → concat (some []) t ≡ t
bind_nil none = refl
bind_nil (some t) = refl

module _ {W F : Type 0} (f : Floating F) where
  write_blank : (x : Value F) (m : MessageWriter W) → is_blank x ≡ true → write f x m ≡ m
  unfolding write
  write_blank x m h = ground arith

  write_null :
      (x : Value F) (m : MessageWriter W)
      → is_blank x ≡ false
      → is_null x ≡ true
      → write f x m ≡ record m { stream = insert f x m.stream }
  unfolding write
  write_null x m h k = ground arith

  write_text :
      (x : Value F) (m : MessageWriter W)
      → is_blank x ≡ false
      → is_null x ≡ false
      → write f x m ≡ record (start_text f m) { stream = insert f x (start_text f m).stream }
  unfolding write
  write_text x m h k = ground arith

  -- The stream behind the writing of a row of values.
  unfoldable pub stream_of : Bool → List (Value F) → LogStream W → LogStream W
  stream_of started xs s = (write_all f xs (record { stream = s; text_started = started })).stream

  stream_of-write :
      (started : Bool) (x : Value F) (xs : List (Value F)) (s : LogStream W) (m : MessageWriter W)
      → write f x (record { stream = s; text_started = started }) ≡ m
      → stream_of started (x ∷ xs) s ≡ stream_of m.text_started xs m.stream
  unfolding stream_of write_all
  stream_of-write started x xs s m e = ap (λ n. (write_all f xs n).stream) e

  Appends-eq :
      (g h : LogStream W → LogStream W) (t u : Option Bytes)
      → ((s : LogStream W) → h s ≡ g s)
      → u ≡ t
      → Appends g t
      → Appends h u
  Appends-eq g h t u e d a = subst₂ Appends (fun_ext (λ s. sym (e s))) (sym d) a

  insert_space : Appends {W = W} (insert f (view (codes " "))) (some (codes " "))
  unfolding text_of
  insert_space = insert-Appends f (view (codes " "))

  -- The row goes on behind the value `x`, whose text is `t`.
  insert-then :
      (x : Value F) (xs : List (Value F)) (u : Option Bytes)
      → Appends (stream_of true xs) u
      → Appends (λ s. stream_of true xs (insert f x s)) (concat (text_of f x) u)
  insert-then x xs u a =
      Appends-then (insert f x) (stream_of true xs) (text_of f x) u (insert-Appends f x) a

  -- A row that follows some text is appended as it is.
  write_all-texts : (xs : List (Value F)) → Appends (stream_of true xs) (texts f xs)
  unfolding texts stream_of write_all start_text
  write_all-texts [] = Appends-nothing
  write_all-texts (x ∷ xs) = elim (Bool-cases (is_blank x)) [
    | inl e ↦
        Appends-eq (stream_of true xs) _ (texts f xs) _
          (λ s. stream_of-write true x xs s _ (write_blank x _ e))
          (rw (text_of_blank f x e) (bind_nil (texts f xs))) (write_all-texts xs)
    | inr e ↦ elim (Bool-cases (is_null x)) [
      | inl k ↦
          Appends-eq (λ s. stream_of true xs (insert f x s)) _ _ _
            (λ s. stream_of-write true x xs s _ (write_null x _ e k)) refl
            (insert-then x xs (texts f xs) (write_all-texts xs))
      | inr k ↦
          Appends-eq (λ s. stream_of true xs (insert f x s)) _ _ _
            (λ s. stream_of-write true x xs s _ (write_text x _ e k)) refl
            (insert-then x xs (texts f xs) (write_all-texts xs))
    ]
  ]

  -- The text of a row is appended behind one space, unless it is empty.
  pub write_all-written_texts :
      NeverEmpty f → (xs : List (Value F)) → Appends (stream_of false xs) (written_texts f false xs)
  unfolding written_texts texts stream_of write_all start_text spaced
  write_all-written_texts law [] = Appends-nothing
  write_all-written_texts law (x ∷ xs) = elim (Bool-cases (is_blank x)) [
    | inl e ↦
        Appends-eq (stream_of false xs) _ (written_texts f false xs) _
          (λ s. stream_of-write false x xs s _ (write_blank x _ e))
          (ap (λ t. bind t λ u. some (spaced u)) (rw (text_of_blank f x e) (bind_nil (texts f xs))))
          (write_all-written_texts law xs)
    | inr e ↦ elim (Bool-cases (is_null x)) [
      | inl k ↦
          Appends-eq (λ s. stream_of false xs (insert f x s)) _
            (concat (text_of f x) (written_texts f false xs)) _
            (λ s. stream_of-write false x xs s _ (write_null x _ e k)) (rw (text_of_null f x k))
            (Appends-then (insert f x) (stream_of false xs) _ _ (insert-Appends f x)
              (write_all-written_texts law xs))
      | inr k ↦
          Appends-eq (λ s. stream_of true xs (insert f x (insert f (view (codes " ")) s))) _
            (concat (some (codes " ")) (concat (text_of f x) (texts f xs))) _
            (λ s. stream_of-write false x xs s _ (write_text x _ e k))
            (sym (concat-spaced (text_of f x) (texts f xs) (text_of-ne-nil f law x e)))
            (Appends-then (insert f (view (codes " "))) (λ s. stream_of true xs (insert f x s)) _ _
              insert_space (insert-then x xs (texts f xs) (write_all-texts xs)))
    ]
  ]

  -- What a message writes into a valid stream is the concatenation of the texts of its values
  -- behind one space, or nothing where that is empty; a value without a text breaks the record. The
  -- formatter of floating-point numbers never writes an empty text.
  pub pending-write_all :
      (xs : List (Value F)) (s : LogStream W)
      → NeverEmpty f
      → IsValid s
      → pending (write_all f xs (record { stream = s; text_started = false })).stream
        ≡ push (written_texts f false xs) (pending s)
  unfolding stream_of
  pending-write_all xs s law v = (write_all-written_texts law xs s v).1
