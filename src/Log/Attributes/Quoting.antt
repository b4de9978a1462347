-- ===== src/Log/Attributes/Quoting.antt =====
-- The text that attributes leave in a stream, and its reading.
use mathlib.Core.Option
use mathlib.Core.Path.{subst}
use adaptive_pi.Prelude.{
  ℕ, ◌^◌, ◌<◌, ◌≡◌, refl, sym, ap, ◌∙◌, Bool, true, false, ◌||◌, Option, none, some, List, [], ◌∷◌,
  ◌++◌, Bytes, codes, ◌==◌, if◌then◌else◌, arith, Bool-cases, inl, inr, append_assoc,
}
use adaptive_pi.Prelude.Int.{pos}
use adaptive_pi.Prelude.Decimal.{decimal, decimal_ℤ-pos}
use adaptive_pi.Log.Stream.{LogStream, Floating, insert_view, insert_char, insert_integer}
use adaptive_pi.Log.Stream.Inserting.{view, char, integer, insert, text_of}
use adaptive_pi.Log.Stream.Pending.{pending, push, IsValid}
use adaptive_pi.Log.Stream.Values.{digits10, uint32, to_chars-decimal_ℤ}
use adaptive_pi.Log.Stream.Lifetime.{Keeps}
use adaptive_pi.Log.Stream.Steps.{Appends, Appends-then, Appends-nothing, insert-Appends}
use adaptive_pi.Log.Attributes.{
  Attribute, location, tag, append_quoted, append_attribute_value, append_attribute,
  append_attributes,
}

-- Backslashes and double quotes are escaped.
unfoldable pub quoted : Bytes → Bytes
quoted [] = []
quoted (c ∷ s) = (if c == b'\\' || c == b'"' then b'\\' ∷ c ∷ [] else c ∷ []) ++ quoted s

unfoldable pub attribute_text : Attribute → Bytes
unfolding quoted
attribute_text (location file line) =
    codes " location=\"" ++ (quoted file ++ (b':' ∷ (decimal line ++ b'"' ∷ [])))
attribute_text (tag value) = codes " tag=\"" ++ (quoted value ++ b'"' ∷ [])

unfoldable pub attributes_text : List Attribute → Bytes
unfolding attribute_text
attributes_text [] = []
attributes_text (a ∷ as') = attribute_text a ++ attributes_text as'

-- The line is a `std::uint32_t`.
abbrev pub HasLine : Attribute → Type 0
HasLine (location file line) = line < 2 ^ 32
HasLine (tag value) = Unit

abbrev pub HaveLines : List Attribute → Type 0
HaveLines [] = Unit
HaveLines (a ∷ as') = HasLine a × HaveLines as'

-- A stream of values without floating-point numbers.
abbrev no_floating : Floating ⊥
no_floating = record {
  is_nan = λ x. absurd x;
  is_inf = λ x. absurd x;
  sign_bit = λ x. absurd x;
  max_digits10 = 0;
  to_chars = λ size precision x. absurd x;
}

module _ {W : Type 0} where
  insert_char-Appends : (c : ℕ) → Appends {W = W} (insert_char c) (some (c ∷ []))
  unfolding insert text_of
  insert_char-Appends c = insert-Appends no_floating (char c)

  pub insert_view-Appends : (t : Bytes) → Appends {W = W} (insert_view t) (some t)
  unfolding insert text_of
  insert_view-Appends t = insert-Appends no_floating (view t)

  insert_line-Appends :
      (line : ℕ)
      → line < 2 ^ 32
      → Appends {W = W} (insert_integer (digits10 uint32) (pos line)) (some (decimal line))
  unfolding insert text_of
  insert_line-Appends line h =
      subst (Appends (insert_integer (digits10 uint32) (pos line)))
        (to_chars-decimal_ℤ uint32 (pos line) (omega arith) ∙ ap some (decimal_ℤ-pos line))
        (insert-Appends no_floating (integer uint32 (pos line)))

  append_quoted-Appends :
      (c : ℕ)
      → Appends {W = W}
          (append_quoted c)
          (some (if c == b'\\' || c == b'"' then b'\\' ∷ c ∷ [] else c ∷ []))
  unfolding append_quoted
  append_quoted-Appends c = elim (Bool-cases (c == b'\\' || c == b'"')) [
    | inl e ↦ rw e (
        Appends-then (insert_char b'\\') (insert_char c) (some (b'\\' ∷ [])) (some (c ∷ []))
          (insert_char-Appends b'\\') (insert_char-Appends c))
    | inr e ↦ rw e (insert_char-Appends c)
  ]

  push_failed :
      (t : Option Bytes) (s : LogStream W) → s.failed ≡ true → push t (pending s) ≡ pending s
  unfolding push pending
  push_failed t s h = ground arith

  choose :
      (P : LogStream W → Type 0) (b : Bool) {s t : LogStream W}
      → (b ≡ true → P s)
      → P t
      → P (if b then s else t)
  choose P true p q = p refl
  choose P false p q = q

  append_attribute_value-Appends :
      (v : Bytes) → Appends {W = W} (append_attribute_value v) (some (quoted v))
  unfolding append_attribute_value quoted
  append_attribute_value-Appends [] s w = Appends-nothing s w
  append_attribute_value-Appends (c ∷ v) s w =
      choose (λ t. IsValid t × (pending t ≡ push (some (quoted (c ∷ v))) (pending s)) × Keeps s t)
        s.failed
        (λ e. (
          w,
          sym (push_failed (some (quoted (c ∷ v))) s e),
          record { logger = refl; level = refl; enabled = refl },
        ))
        (Appends-then (append_quoted c) (append_attribute_value v) (some _) (some (quoted v))
          (append_quoted-Appends c) (append_attribute_value-Appends v) s w)

  append_attribute-Appends :
      (a : Attribute) → HasLine a → Appends {W = W} (append_attribute a) (some (attribute_text a))
  unfolding append_attribute attribute_text
  append_attribute-Appends (location file line) h =
      Appends-then (insert_view (codes " location=\"")) _ (some (codes " location=\"")) (some _)
        (insert_view-Appends (codes " location=\""))
        (Appends-then (append_attribute_value file) _ (some (quoted file)) (some _)
          (append_attribute_value-Appends file)
          (Appends-then (insert_char b':') _ (some (b':' ∷ [])) (some _) (insert_char-Appends b':')
            (Appends-then (insert_integer (digits10 uint32) (pos line)) (insert_char b'"')
              (some (decimal line)) (some (b'"' ∷ [])) (insert_line-Appends line h)
              (insert_char-Appends b'"'))))
  append_attribute-Appends (tag value) h =
      Appends-then (insert_view (codes " tag=\"")) _ (some (codes " tag=\"")) (some _)
        (insert_view-Appends (codes " tag=\""))
        (Appends-then (append_attribute_value value) (insert_char b'"') (some (quoted value))
          (some (b'"' ∷ [])) (append_attribute_value-Appends value) (insert_char-Appends b'"'))

  -- The attributes are appended one behind the other, quoted.
  pub append_attributes-Appends :
      (as' : List Attribute)
      → HaveLines as'
      → Appends {W = W} (append_attributes as') (some (attributes_text as'))
  unfolding append_attributes attributes_text
  append_attributes-Appends [] h = Appends-nothing
  append_attributes-Appends (a ∷ as') (h, hs) =
      Appends-then (append_attribute a) (append_attributes as') (some (attribute_text a))
        (some (attributes_text as')) (append_attribute-Appends a h)
        (append_attributes-Appends as' hs)

  -- Attributes with lines of 32 bits are appended to a valid stream one after the other, with their
  -- values quoted, whole; or they break the record.
  pub pending-append_attributes :
      (as' : List Attribute) (s : LogStream W)
      → HaveLines as'
      → IsValid s
      → pending (append_attributes as' s) ≡ push (some (attributes_text as')) (pending s)
  pending-append_attributes as' s h v = (append_attributes-Appends as' h s v).1

-- Reads a quoted text up to the closing double quote; `pending_escape` follows a backslash.
unfoldable pub read_quoted : Bool → Bytes → Option (Bytes × Bytes)
read_quoted pending_escape [] = none
read_quoted true (c ∷ s) = Option.map (λ (t, rest). (c ∷ t, rest)) (read_quoted false s)
read_quoted false (c ∷ s) =
    let found : Option (Bytes × Bytes) = some ([], s) in
    let escape = read_quoted true s in
    let plain = Option.map (λ (t, rest). (c ∷ t, rest)) (read_quoted false s) in
    if c == b'"' then found else if c == b'\\' then escape else plain

read_quoted_step :
    (c : ℕ) (s : Bytes)
    → read_quoted false ((if c == b'\\' || c == b'"' then b'\\' ∷ c ∷ [] else c ∷ []) ++ s)
      ≡ Option.map (λ (t, rest). (c ∷ t, rest)) (read_quoted false s)
unfolding read_quoted
read_quoted_step c s = ground arith

-- A quoted value is read back, whatever follows its closing quote: values cannot end early.
pub read_quoted-quoted :
    (v rest : Bytes) → read_quoted false (quoted v ++ b'"' ∷ rest) ≡ some (v, rest)
unfolding quoted
read_quoted-quoted [] rest = unfold read_quoted in refl
read_quoted-quoted (c ∷ v) rest = rw (append_assoc, read_quoted_step c _, read_quoted-quoted v rest)
