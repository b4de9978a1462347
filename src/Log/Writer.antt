-- ===== src/Log/Writer.antt =====
-- platform/ara-log/include/ara/log/message_writer.h: the text of a modelled message, which one space
-- separates from what precedes it.
pub mod Spacing
use adaptive_pi.Prelude.{
  ℕ, ◌+◌, ◌≡◌, ◌≢◌, refl, sym, ap, ◌∙◌, Bool, true, false, Option, none, some, List, [], ◌∷◌, ◌++◌,
  Bytes, codes, bind, is_empty, if◌then◌else◌, arith, Bool-cases, inl, inr,
}
use mathlib.Core.Path.{subst₂, fun_ext}
use adaptive_pi.Prelude.Decimal.{to_chars-ne-nil}
use adaptive_pi.Log.Stream.Values.{digits10}
use adaptive_pi.Log.Stream.{LogStream, Floating, until_null}
use adaptive_pi.Log.Stream.Inserting.{
  Value, view, string, c_string, char, bool, integer, floating, insert, text_of, texts,
}
use adaptive_pi.Log.Stream.Steps.{Appends, concat, Appends-then, Appends-nothing, insert-Appends}

-- The writer refers to its stream.
pub record MessageWriter (W : Type 0) : Type 0 where
  pub stream : LogStream W
  pub text_started : Bool

-- Empty text, which the writer skips. The null pointer is not skipped.
unfoldable pub is_blank : {F : Type 0} → Value F → Bool
is_blank (view t) = is_empty t
is_blank (string t) = is_empty t
is_blank (c_string none) = false
is_blank (c_string (some t)) = is_empty (until_null t)
is_blank (char c) = false
is_blank (bool b) = false
is_blank (integer type n) = false
is_blank (floating x) = false

-- The null pointer, which is inserted with no separator.
unfoldable pub is_null : {F : Type 0} → Value F → Bool
is_null (c_string none) = true
is_null x = false

module _ {W F : Type 0} (f : Floating F) where
  unfoldable pub start_text : MessageWriter W → MessageWriter W
  start_text writer =
      if writer.text_started
      then writer
      else record writer { stream = insert f (view (codes " ")) writer.stream; text_started = true }

  -- `operator<<`.
  unfoldable pub write : Value F → MessageWriter W → MessageWriter W
  unfolding start_text is_blank is_null
  write x writer =
      if is_blank x
      then writer
      else if is_null x
      then record writer { stream = insert f x writer.stream }
      else record (start_text writer) { stream = insert f x (start_text writer).stream }

  -- What a message's Render writes, value by value.
  unfoldable pub write_all : List (Value F) → MessageWriter W → MessageWriter W
  write_all [] writer = writer
  write_all (x ∷ xs) writer = write_all xs (write x writer)
