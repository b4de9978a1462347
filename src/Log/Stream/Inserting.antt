-- ===== src/Log/Stream/Inserting.antt =====
-- The overloads of LogStream's operator<<, and what a row of insertions leaves pending.
use adaptive_pi.Prelude.{
  ℕ, ◌+◌, ◌≡◌, sym, ◌∙◌, ap, Bool, true, false, Option, none, some, List, [], ◌∷◌, ◌++◌, Bytes,
  codes, bind, if◌then◌else◌, arith, Bool-cases, inl, inr,
}
use mathlib.Core.Path.{subst}
use adaptive_pi.Prelude.Int.{ℤ}
use adaptive_pi.Prelude.Decimal.{to_chars, decimal_ℤ}
use adaptive_pi.Log.Stream.{
  format_floating, LogStream, Floating, insert_view, insert_string, insert_c_string, insert_char,
  insert_bool, insert_integer, insert_floating, insert_formatted, until_null, is_closed,
}
use adaptive_pi.Log.Stream.Values.{IntegerType, digits10, Holds, to_chars-decimal_ℤ}
use adaptive_pi.Log.Stream.Pending.{broken, push, IsValid, pending, append-IsValid, pending-append}

-- A value of a type that a stream takes.
pub data Value (F : Type 0) : Type 0 where
  view : Bytes → Value F
  string : Bytes → Value F
  c_string : Option Bytes → Value F
  char : ℕ → Value F
  bool : Bool → Value F
  integer : IntegerType → ℤ → Value F
  floating : F → Value F

module _ {W F : Type 0} (f : Floating F) where
  -- The overload of `operator<<` that a value selects.
  unfoldable pub insert : Value F → LogStream W → LogStream W
  unfolding insert_view insert_string insert_c_string insert_char insert_bool insert_integer
      insert_floating
  insert (view t) = insert_view t
  insert (string t) = insert_string t
  insert (c_string t) = insert_c_string t
  insert (char c) = insert_char c
  insert (bool b) = insert_bool b
  insert (integer type n) = insert_integer (digits10 type) n
  insert (floating x) = insert_floating f x

  unfoldable pub insert_all : List (Value F) → LogStream W → LogStream W
  insert_all [] s = s
  insert_all (v ∷ vs) s = insert_all vs (insert v s)

module _ {F : Type 0} (f : Floating F) where
  floating_text : F → Option Bytes
  floating_text x =
      if f.is_nan x
      then some (codes "nan")
      else if f.is_inf x
      then some (if f.sign_bit x then codes "-inf" else codes "inf")
      else format_floating f x

  -- The text of a value; there is none for a null pointer and for a number that cannot be formatted.
  unfoldable pub text_of : Value F → Option Bytes
  unfolding floating_text
  text_of (view t) = some t
  text_of (string t) = some t
  text_of (c_string t) = bind t (λ s. some (until_null s))
  text_of (char c) = some (c ∷ [])
  text_of (bool true) = some (codes "true")
  text_of (bool false) = some (codes "false")
  text_of (integer type n) = to_chars (digits10 type + 2) n
  text_of (floating x) = floating_text x

  -- The concatenated texts of a row of values.
  unfoldable pub texts : List (Value F) → Option Bytes
  unfolding text_of
  texts [] = some []
  texts (v ∷ vs) = bind (text_of v) λ t. bind (texts vs) λ rest. some (t ++ rest)

module _ {W : Type 0} where
  fail_pending :
      (s : LogStream W) → is_closed s ≡ false → pending (record s { failed = true }) ≡ broken
  unfolding pending
  fail_pending s h = ground arith

  -- A closed or broken record takes nothing.
  push-closed :
      (t : Option Bytes) (s : LogStream W) → is_closed s ≡ true → push t (pending s) ≡ pending s
  unfolding push pending
  push-closed t s h = ground arith

  push-none : (s : LogStream W) → is_closed s ≡ false → push none (pending s) ≡ broken
  unfolding push pending
  push-none s h = ground arith

  pending-insert_formatted :
      (t : Option Bytes) (s : LogStream W)
      → IsValid s
      → pending (if is_closed s then s else insert_formatted t s) ≡ push t (pending s)
  unfolding insert_formatted
  pending-insert_formatted none s v = elim (Bool-cases (is_closed s)) [
    | inl e ↦ rw e (sym (push-closed none s e))
    | inr e ↦ rw e (fail_pending s e ∙ sym (push-none s e))
  ]
  pending-insert_formatted (some t) s v = elim (Bool-cases (is_closed s)) [
    | inl e ↦ rw e (sym (push-closed (some t) s e))
    | inr e ↦ rw e (pending-append t s v)
  ]

  insert_formatted-IsValid :
      (t : Option Bytes) (s : LogStream W) → IsValid s → IsValid (insert_formatted t s)
  unfolding insert_formatted
  insert_formatted-IsValid none s v = record { array = v.array; bounded = v.bounded }
  insert_formatted-IsValid (some t) s v = append-IsValid t s v

  if-IsValid : (c : Bool) {s t : LogStream W} → IsValid s → IsValid t → IsValid (if c then s else t)
  if-IsValid true v w = v
  if-IsValid false v w = w

module _ {W F : Type 0} (f : Floating F) where
  insert_floating-insert_formatted :
      (x : F) (s : LogStream W)
      → insert_floating f x s ≡ (if is_closed s then s else insert_formatted (floating_text f x) s)
  unfolding insert_floating floating_text insert_formatted
  insert_floating-insert_formatted x s = ground arith

  -- Every overload, on a valid stream, appends the text of its value whole, or breaks the pending
  -- record where there is no text or it does not fit; a closed or broken record stays, and so does
  -- validity.
  pub pending-insert :
      (value : Value F) (s : LogStream W)
      → IsValid s
      → IsValid (insert f value s)
        × (pending (insert f value s) ≡ push (text_of f value) (pending s))
  unfolding insert text_of
  pending-insert (view t) s v = (append-IsValid t s v, pending-append t s v)
  pending-insert (string t) s v = (append-IsValid t s v, pending-append t s v)
  pending-insert (c_string none) s v = (
    if-IsValid (is_closed s) v (insert_formatted-IsValid none s v),
    pending-insert_formatted none s v,
  )
  pending-insert (c_string (some t)) s v = (
    if-IsValid (is_closed s) v (append-IsValid (until_null t) s v),
    pending-insert_formatted (some (until_null t)) s v,
  )
  pending-insert (char c) s v = (append-IsValid (c ∷ []) s v, pending-append (c ∷ []) s v)
  pending-insert (bool true) s v =
      (append-IsValid (codes "true") s v, pending-append (codes "true") s v)
  pending-insert (bool false) s v =
      (append-IsValid (codes "false") s v, pending-append (codes "false") s v)
  pending-insert (integer type n) s v = (
    if-IsValid (is_closed s) v (insert_formatted-IsValid (to_chars (digits10 type + 2) n) s v),
    pending-insert_formatted (to_chars (digits10 type + 2) n) s v,
  )
  pending-insert (floating x) s v =
      subst (λ t. IsValid t × (pending t ≡ push (floating_text f x) (pending s)))
        (sym (insert_floating-insert_formatted x s))
        (
          if-IsValid (is_closed s) v (insert_formatted-IsValid (floating_text f x) s v),
          pending-insert_formatted (floating_text f x) s v,
        )

  -- An integer in the bounds of its type is never refused by its formatting: on a valid stream its
  -- decimal text is appended, or breaks a record that it does not fit.
  pub pending-insert_integer :
      (type : IntegerType) (n : ℤ) (s : LogStream W)
      → Holds type n
      → IsValid s
      → pending (insert f (integer type n) s) ≡ push (some (decimal_ℤ n)) (pending s)
  unfolding text_of
  pending-insert_integer type n s h v =
      (pending-insert (integer type n) s v).1
      ∙ ap (λ t. push t (pending s)) (to_chars-decimal_ℤ type n h)
