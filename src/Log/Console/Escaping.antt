-- ===== src/Log/Console/Escaping.antt =====
-- The escaped text of contexts and messages, and its reading.
use adaptive_pi.Prelude.{
  ℕ, ◌*◌, ◌≤◌, ◌≡◌, Bool, true, false, Option, none, some, [], ◌∷◌, ◌++◌, append_assoc, append-nil,
  Bytes, length, length-append, ◌==◌, if◌then◌else◌, arith, inl, inr, sym, ◌⊎◌,
}
use mathlib.Core.Option
use adaptive_pi.Log.RecordBuffer.Appending.{Appends, wrote, append-Appends, &&&-Appends}
use adaptive_pi.Log.Console.{replacement, append_escaped}

unfoldable pub escaped : Bool → Bytes → Bytes
escaped brackets [] = []
escaped brackets (c ∷ s) = replacement brackets c ++ escaped brackets s

pub append_escaped-Appends :
    (s : Bytes) (brackets : Bool) → Appends (append_escaped s brackets) (some (escaped brackets s))
unfolding append_escaped escaped
append_escaped-Appends [] brackets b v = wrote v (sym (append-nil _))
append_escaped-Appends (c ∷ s) brackets b v =
    &&&-Appends (append-Appends (replacement brackets c)) (append_escaped-Appends s brackets) b v

-- The byte that is written as a backslash and `c`.
reveal : ℕ → ℕ
reveal c = if c == b'n' then b'\n' else if c == b'r' then b'\r' else c

-- Reads an escaped text up to the byte `stop`, which is dropped; `pending` follows a backslash.
unfoldable pub read_escaped : ℕ → Bool → Bytes → Option (Bytes × Bytes)
unfolding reveal
read_escaped stop pending [] = none
read_escaped stop true (c ∷ s) =
    Option.map (λ (t, rest). (reveal c ∷ t, rest)) (read_escaped stop false s)
read_escaped stop false (c ∷ s) =
    let found : Option (Bytes × Bytes) = some ([], s) in
    let escape = read_escaped stop true s in
    let plain = Option.map (λ (t, rest). (c ∷ t, rest)) (read_escaped stop false s) in
    if c == stop then found else if c == b'\\' then escape else plain

-- The bytes that may end an escaped text: the newline, and the bracket where brackets are escaped.
abbrev pub Closes : Bool → ℕ → Type 0
Closes brackets stop = (stop ≡ b'\n') ⊎ ((brackets ≡ true) × (stop ≡ b']'))

read_escaped-replacement :
    (brackets : Bool) (stop c : ℕ) (s : Bytes)
    → Closes brackets stop
    → read_escaped stop false (replacement brackets c ++ s)
      ≡ Option.map (λ (t, rest). (c ∷ t, rest)) (read_escaped stop false s)
unfolding read_escaped replacement
read_escaped-replacement brackets stop c s (inl e) = ground arith
read_escaped-replacement brackets stop c s (inr e) = ground arith

read_escaped-stop : (stop : ℕ) (s : Bytes) → read_escaped stop false (stop ∷ s) ≡ some ([], s)
unfolding read_escaped
read_escaped-stop stop s = ground arith

-- Reading an escaped text up to `stop` gives the text back, whatever follows it.
pub read_escaped-escaped :
    (brackets : Bool) (stop : ℕ) (s rest : Bytes)
    → Closes brackets stop
    → read_escaped stop false (escaped brackets s ++ stop ∷ rest) ≡ some (s, rest)
unfolding escaped
read_escaped-escaped brackets stop [] rest h = read_escaped-stop stop rest
read_escaped-escaped brackets stop (c ∷ s) rest h = rw (
  append_assoc,
  read_escaped-replacement brackets stop c _ h,
  read_escaped-escaped brackets stop s rest h,
)

length-replacement : (brackets : Bool) (c : ℕ) → length (replacement brackets c) ≤ 2
unfolding replacement
length-replacement brackets c = ground arith

-- Escaping at most doubles a text.
pub length-escaped : (brackets : Bool) (s : Bytes) → length (escaped brackets s) ≤ 2 * length s
unfolding escaped
length-escaped brackets [] = omega arith
length-escaped brackets (c ∷ s) = omega (
  arith,
  length-append {0} (replacement brackets c) (escaped brackets s),
  length-replacement brackets c,
  length-escaped brackets s,
)
