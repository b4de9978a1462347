-- ===== src/Log/Attributes.antt =====
-- platform/ara-log/include/ara/log/message_attributes.h, and AppendAttribute of src/logger.cpp.
pub mod Quoting
pub mod Reading
use adaptive_pi.Prelude.{
  ℕ, ◌+◌, ◌≤◌, ◌≡◌, refl, sym, ap, ◌∙◌, Bool, true, false, ◌||◌, Option, none, some, List, [], ◌∷◌,
  ◌++◌, append-nil, Bytes, codes, bind, ◌==◌, if◌then◌else◌, arith, Bool-cases, inl, inr,
  append_assoc,
}
use adaptive_pi.Prelude.Int.{ℤ, pos}
use adaptive_pi.Log.Stream.{LogStream, Floating, insert_view, insert_char, insert_integer}
use adaptive_pi.Log.Stream.Inserting.{Value, view, char, integer, insert, text_of}
use adaptive_pi.Log.Stream.Values.{digits10, uint32}
use adaptive_pi.Log.Stream.Steps.{Appends, concat, Appends-then, Appends-nothing, insert-Appends}

-- `Location` has a `std::uint32_t` line.
pub data Attribute : Type 0 where
  location : (file : Bytes) (line : ℕ) → Attribute
  tag : (value : Bytes) → Attribute

module _ {W : Type 0} where
  -- One round of `AppendAttributeValue`.
  append_quoted : ℕ → LogStream W → LogStream W
  append_quoted character stream =
      insert_char character
        (if character == b'\\' || character == b'"' then insert_char b'\\' stream else stream)

  -- `AppendAttributeValue`: the loop ends early when the stream has failed.
  unfoldable pub append_attribute_value : Bytes → LogStream W → LogStream W
  unfolding append_quoted
  append_attribute_value [] stream = stream
  append_attribute_value (character ∷ value) stream =
      let rest = append_attribute_value value (append_quoted character stream) in
      if stream.failed then stream else rest

  -- `AppendAttribute`, in its two forms.
  unfoldable pub append_attribute : Attribute → LogStream W → LogStream W
  unfolding append_attribute_value
  append_attribute (location file line) stream = insert_char b'"' (
      insert_integer (digits10 uint32) (pos line) (
        insert_char b':' (append_attribute_value file (insert_view (codes " location=\"") stream))))
  append_attribute (tag value) stream =
      insert_char b'"' (append_attribute_value value (insert_view (codes " tag=\"") stream))

  -- The attributes of a tuple, in its order.
  unfoldable pub append_attributes : List Attribute → LogStream W → LogStream W
  unfolding append_attribute
  append_attributes [] stream = stream
  append_attributes (a ∷ as') stream = append_attributes as' (append_attribute a stream)
