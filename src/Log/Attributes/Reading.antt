-- ===== src/Log/Attributes/Reading.antt =====
-- The attributes of a record, read back from the text that AppendAttribute of
-- platform/ara-log/src/logger.cpp makes of them.
use mathlib.Core.Option
use adaptive_pi.Prelude.{
  ℕ, zero, suc, ◌≤◌, ◌≡◌, refl, true, false, Option, none, some, List, [], ◌∷◌, ◌++◌, append_assoc,
  Bytes, bind, codes, length, ◌≢◌, ◌==◌, if◌then◌else◌, arith,
}
use adaptive_pi.Prelude.Decimal.{
  decimal, read_field, read_field-decimal, all_digits, all_digits-decimal,
}
use adaptive_pi.Log.Stream.{LogStream}
use adaptive_pi.Log.Stream.Pending.{pending, push, IsValid}
use adaptive_pi.Log.Attributes.{Attribute, location, tag, append_attributes}
use adaptive_pi.Log.Attributes.Quoting.{
  quoted, attribute_text, attributes_text, HaveLines, pending-append_attributes, read_quoted,
  read_quoted-quoted,
}

-- Drops the bytes `p` from the front of a text.
unfoldable pub expect_all : Bytes → Bytes → Option Bytes
expect_all [] s = some s
expect_all (c ∷ p) [] = none
expect_all (c ∷ p) (d ∷ s) = let rest = expect_all p s in if d == c then rest else none

expect_all_lem : (p s : Bytes) → expect_all p (p ++ s) ≡ some s
unfolding expect_all
expect_all_lem [] s = refl
expect_all_lem (c ∷ p) s = ground (arith, expect_all_lem p s)

-- What stands before and behind the last colon.
colon_before : ℕ → Bytes → Option (Bytes × Bytes) → Option (Bytes × Bytes)
colon_before c s none = if c == b':' then some ([], s) else none
colon_before c s (some (before, behind)) = some (c ∷ before, behind)

unfoldable pub split_last : Bytes → Option (Bytes × Bytes)
unfolding colon_before
split_last [] = none
split_last (c ∷ s) = colon_before c s (split_last s)

split_last-digits : (s : Bytes) → all_digits s ≡ true → split_last s ≡ none
unfolding split_last
split_last-digits [] h = refl
split_last-digits (c ∷ s) h = rw (split_last-digits s (ground arith)) (ground arith)

split_last_lem :
    (file s : Bytes) → all_digits s ≡ true → split_last (file ++ b':' ∷ s) ≡ some (file, s)
unfolding split_last
split_last_lem [] s h = rw (split_last-digits s h) (refl)
split_last_lem (c ∷ file) s h = rw (split_last_lem file s h) (refl)

quoted_append : (a b : Bytes) → quoted (a ++ b) ≡ quoted a ++ quoted b
unfolding quoted
quoted_append [] b = refl
quoted_append (c ∷ a) b = rw (quoted_append a b, append_assoc) (refl)

quoted-digits : (s : Bytes) → all_digits s ≡ true → quoted s ≡ s
unfolding quoted
quoted-digits [] h = refl
quoted-digits (c ∷ s) h = rw (quoted-digits s (ground arith)) (ground arith)

-- A location from what stands between its quotes, and a line from its digits.
read_location : Bytes → Option Attribute
read_location inner = bind (split_last inner) (λ (file, digits).
    Option.map (λ (line, rest). location file line) (read_field b'"' (digits ++ b'"' ∷ [])))

-- An attribute behind the opening of the one kind or the other.
read_kind : Option Bytes → Option Bytes → Option (Attribute × Bytes)
unfolding read_location
read_kind (some s) other =
    bind (read_quoted false s) (λ (inner, rest). Option.map (λ a. (a, rest)) (read_location inner))
read_kind none (some s) = Option.map (λ (value, rest). (tag value, rest)) (read_quoted false s)
read_kind none none = none

unfoldable pub read_attribute : Bytes → Option (Attribute × Bytes)
unfolding read_kind
read_attribute s = read_kind (expect_all (codes " location=\"") s) (expect_all (codes " tag=\"") s)

-- Reads attributes up to the end of the text, as many as the fuel allows.
unfoldable pub read_attributes : (fuel : ℕ) → Bytes → Option (List Attribute)
read_attributes fuel [] = some []
read_attributes zero (c ∷ s) = none
read_attributes (suc fuel) (c ∷ s) =
    bind (read_attribute (c ∷ s))
      (λ (a, rest). Option.map (λ as'. a ∷ as') (read_attributes fuel rest))

read_location_lem :
    (file : Bytes) (line : ℕ)
    → read_location (file ++ b':' ∷ decimal line) ≡ some (location file line)
unfolding read_location
read_location_lem file line =
    rw
      (
        split_last_lem file (decimal line) (all_digits-decimal line),
        read_field-decimal line b'"' [] refl,
      )
      (refl)

location-quoted :
    (file : Bytes) (line : ℕ) (rest : Bytes)
    → (quoted file ++ b':' ∷ (decimal line ++ b'"' ∷ [])) ++ rest
      ≡ quoted (file ++ b':' ∷ decimal line) ++ b'"' ∷ rest
unfolding quoted
location-quoted file line rest =
    rw
      (
        quoted_append file (b':' ∷ decimal line),
        quoted-digits (decimal line) (all_digits-decimal line),
      )
      (simp (append_assoc))

read_attribute-attribute_text :
    (a : Attribute) (rest : Bytes) → read_attribute (attribute_text a ++ rest) ≡ some (a, rest)
unfolding read_attribute attribute_text read_kind expect_all
read_attribute-attribute_text (location file line) rest =
    rw
      (
        location-quoted file line rest,
        read_quoted-quoted (file ++ b':' ∷ decimal line) rest,
        read_location_lem file line,
      )
      (refl)
read_attribute-attribute_text (tag value) rest =
    rw (append_assoc, read_quoted-quoted value rest) (refl)

none-read_attribute : (a : Attribute) (rest : Bytes) → read_attribute [] ≢ some (a, rest)
unfolding read_attribute read_kind expect_all
none-read_attribute a rest h = cc h

read_attributes_step :
    (fuel : ℕ) (s : Bytes) (a : Attribute) (rest : Bytes)
    → read_attribute s ≡ some (a, rest)
    → read_attributes (suc fuel) s ≡ Option.map (λ as'. a ∷ as') (read_attributes fuel rest)
unfolding read_attributes
read_attributes_step fuel [] a rest h = absurd (none-read_attribute a rest h)
read_attributes_step fuel (c ∷ s) a rest h = rw h (refl)

read_attributes-attributes_text :
    (fuel : ℕ) (as' : List Attribute)
    → length as' ≤ fuel
    → read_attributes fuel (attributes_text as') ≡ some as'
unfolding attributes_text
read_attributes-attributes_text fuel [] h = unfold read_attributes in refl
read_attributes-attributes_text zero (a ∷ as') h = absurd (omega arith)
read_attributes-attributes_text (suc fuel) (a ∷ as') h =
    rw
      (
        read_attributes_step fuel _ a (attributes_text as')
            (read_attribute-attribute_text a (attributes_text as')),
        read_attributes-attributes_text fuel as' (omega arith),
      )
      (refl)

module _ {W : Type 0} where
  -- On a valid stream the attributes, with lines of 32 bits, append a text, whole, or break the
  -- record; and the text reads back as the attributes in their order, whatever their values hold,
  -- with fuel for their number.
  pub append_attributes-read_attributes :
      (fuel : ℕ) (as' : List Attribute) (s : LogStream W)
      → HaveLines as'
      → IsValid s
      → length as' ≤ fuel
      → (text : Bytes) × (pending (append_attributes as' s) ≡ push (some text) (pending s))
        × (read_attributes fuel text ≡ some as')
  append_attributes-read_attributes fuel as' s h v l = (
    attributes_text as',
    pending-append_attributes as' s h v,
    read_attributes-attributes_text fuel as' l,
  )
