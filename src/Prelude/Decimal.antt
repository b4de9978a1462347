-- ===== src/Prelude/Decimal.antt =====
-- Decimal text of a number, as `std::to_chars` and `printf` of the C++ library produce it, and the
-- reading of such a text.
use native.Mathlib.Nat.{pow-suc}
use mathlib.Core.Option
use mathlib.Core.List.{concat-ne-nil}
use adaptive_pi.Prelude.{
  ℕ, zero, suc, ◌+◌, ◌-◌, ◌*◌, ◌/◌, ◌%◌, ◌^◌, ◌≤◌, ◌<◌, ◌≡◌, ◌≢◌, refl, ap, Bool, true, false, ◌&&◌,
  Option, none, some, [], ◌∷◌, ◌++◌, append_assoc, arith, Bytes, length, length-append, replicate,
  length-replicate, ltb, leb, ◌==◌, if◌then◌else◌, Bool-cases, inl, inr,
}
use adaptive_pi.Prelude.Int.{ℤ, pos, negsuc, pos_part, neg_part}

abbrev pub IsDigit : ℕ → Type 0
IsDigit c = (b'0' ≤ c) × (c ≤ b'9')

abbrev pub is_digit : ℕ → Bool
is_digit c = leb b'0' c && leb c b'9'

-- The last digit of `n` comes last; each round drops it. `f` rounds do for a number below `10 ^ f`.
unfoldable pub digits : ℕ → ℕ → Bytes
digits zero n = []
digits (suc f) n =
    let front = digits f (n / 10) in (if ltb n 10 then [] else front) ++ (b'0' + n % 10) ∷ []

-- The decimal text of `n`; `n + 1` rounds are more than enough.
unfoldable pub decimal : ℕ → Bytes
unfolding digits
decimal n = digits (suc n) n

-- The text of a signed number, of as many bytes as it needs.
unfoldable pub decimal_ℤ : ℤ → Bytes
unfolding decimal
decimal_ℤ (pos n) = decimal n
decimal_ℤ (negsuc n) = b'-' ∷ decimal (suc n)

-- `std::to_chars(first, first + capacity, value)`: the text, or `std::errc::value_too_large`.
unfoldable pub to_chars : ℕ → ℤ → Option Bytes
unfolding decimal_ℤ
to_chars capacity value =
    if leb (length (decimal_ℤ value)) capacity then some (decimal_ℤ value) else none

-- `printf` of an `int` by `%0<width>d`.
unfoldable pub zero_padded : ℕ → ℤ → Bytes
unfolding decimal replicate
zero_padded width (pos n) = replicate (width - length (decimal n)) b'0' ++ decimal n
zero_padded width (negsuc n) =
    b'-' ∷ (replicate (width - 1 - length (decimal (suc n))) b'0' ++ decimal (suc n))

-- Reads the digits at the front of a text behind the number `n`: the number and the rest.
unfoldable pub read_digits : ℕ → Bytes → ℕ × Bytes
read_digits n [] = (n, [])
read_digits n (c ∷ s) = if is_digit c then read_digits (n * 10 + (c - b'0')) s else (n, c ∷ s)

-- A text that does not go on with a digit.
abbrev pub Stops : Bytes → Type 0
Stops [] = Unit
Stops (c ∷ s) = is_digit c ≡ false

read_digits-stop : (n : ℕ) (rest : Bytes) → Stops rest → read_digits n rest ≡ (n, rest)
unfolding read_digits
read_digits-stop n [] h = refl
read_digits-stop n (c ∷ rest) h = rw h

read_digits-digit :
    (n d : ℕ) (s : Bytes) → d < 10 → read_digits n ((b'0' + d) ∷ s) ≡ read_digits (n * 10 + d) s
unfolding read_digits
read_digits-digit n d s h = ground arith

read_digits-digits :
    (f n : ℕ) (rest : Bytes) → n < f → read_digits 0 (digits f n ++ rest) ≡ read_digits n rest
unfolding digits
read_digits-digits zero n rest h = absurd (omega arith)
read_digits-digits (suc f) n rest h = elim (Bool-cases (ltb n 10)) [
  | inl small ↦
      rw (small, read_digits-digit 0 (n % 10) rest (omega arith))
        (ap (λ k. read_digits k rest) (ground arith))
  | inr large ↦
      rw
        (
          large,
          append_assoc,
          read_digits-digits f (n / 10) ((b'0' + n % 10) ∷ rest) (ground arith),
          read_digits-digit (n / 10) (n % 10) rest (omega arith),
        )
        (ap (λ k. read_digits k rest) (omega arith))
]

-- Reading the decimal text of a number gives the number back, whatever follows it.
pub read_digits-decimal :
    (n : ℕ) (rest : Bytes) → Stops rest → read_digits 0 (decimal n ++ rest) ≡ (n, rest)
unfolding decimal
read_digits-decimal n rest h =
    rw (read_digits-digits (suc n) n rest (omega arith)) (read_digits-stop n rest h)

read_digits-zeros : (k : ℕ) (s : Bytes) → read_digits 0 (replicate k b'0' ++ s) ≡ read_digits 0 s
unfolding replicate read_digits
read_digits-zeros zero s = refl
read_digits-zeros (suc k) s = read_digits-zeros k s

pub read_digits-zero_padded :
    (width n : ℕ) (rest : Bytes)
    → Stops rest
    → read_digits 0 (zero_padded width (pos n) ++ rest) ≡ (n, rest)
unfolding zero_padded
read_digits-zero_padded width n rest h =
    rw (append_assoc, read_digits-zeros) (read_digits-decimal n rest h)

length-digits : (f n k : ℕ) → n < 10 ^ suc k → length (digits f n) ≤ suc k
unfolding digits
length-digits zero n k h = omega arith
length-digits (suc f) n zero h = ground arith
length-digits (suc f) n (suc k) h = ground (
  arith,
  length-digits f (n / 10) k,
  length-append {0} (digits f (n / 10)) ((b'0' + n % 10) ∷ []),
  pow-suc 10 (suc k),
)

pub length-decimal : (n k : ℕ) → n < 10 ^ suc k → length (decimal n) ≤ suc k
unfolding decimal
length-decimal n k = length-digits (suc n) n k

-- A number below the power of ten fills its field exactly.
pub length-zero_padded : (k n : ℕ) → n < 10 ^ suc k → length (zero_padded (suc k) (pos n)) ≡ suc k
unfolding zero_padded
length-zero_padded k n h = omega (
  arith,
  length-append {0} (replicate (suc k - length (decimal n)) b'0') (decimal n),
  length-replicate {0} {A = ℕ} (suc k - length (decimal n)) b'0',
  length-decimal n k h,
)

-- Drops one given byte from the front of a text.
unfoldable pub expect : ℕ → Bytes → Option Bytes
expect c [] = none
expect c (d ∷ s) = if d == c then some s else none

-- A number that ends before the byte `stop`, which is dropped.
unfoldable pub read_field : ℕ → Bytes → Option (ℕ × Bytes)
unfolding read_digits expect
read_field stop s = let (n, rest) = read_digits 0 s in Option.map (λ r. (n, r)) (expect stop rest)

pub expect_lem : (c : ℕ) (s : Bytes) → expect c (c ∷ s) ≡ some s
unfolding expect
expect_lem c s = ground arith

pub read_field-zero_padded :
    (width n stop : ℕ) (rest : Bytes)
    → is_digit stop ≡ false
    → read_field stop (zero_padded width (pos n) ++ stop ∷ rest) ≡ some (n, rest)
unfolding read_field
read_field-zero_padded width n stop rest h =
    rw (read_digits-zero_padded width n (stop ∷ rest) h, expect_lem stop rest)

pub read_field-decimal :
    (n stop : ℕ) (rest : Bytes)
    → is_digit stop ≡ false
    → read_field stop (decimal n ++ stop ∷ rest) ≡ some (n, rest)
unfolding read_field
read_field-decimal n stop rest h = rw (read_digits-decimal n (stop ∷ rest) h, expect_lem stop rest)

pub to_chars-some :
    (capacity : ℕ) (a : ℤ) {t : Bytes} → to_chars capacity a ≡ some t → t ≡ decimal_ℤ a
unfolding to_chars
to_chars-some capacity a h = ground arith

pub decimal_ℤ-pos : (n : ℕ) → decimal_ℤ (pos n) ≡ decimal n
unfolding decimal_ℤ
decimal_ℤ-pos n = refl

pub to_chars_fits :
    (capacity : ℕ) (a : ℤ)
    → length (decimal_ℤ a) ≤ capacity
    → to_chars capacity a ≡ some (decimal_ℤ a)
unfolding to_chars
to_chars_fits capacity a h = ground arith

-- A signed number needs one byte more for its sign.
pub length-decimal_ℤ :
    (k : ℕ) (a : ℤ)
    → pos_part a < 10 ^ suc k
    → neg_part a < 10 ^ suc k
    → length (decimal_ℤ a) ≤ k + 2
unfolding decimal_ℤ
length-decimal_ℤ k (pos n) p q = omega (arith, length-decimal n k p)
length-decimal_ℤ k (negsuc n) p q = omega (arith, length-decimal (suc n) k q)

decimal-ne-nil : (n : ℕ) → decimal n ≢ []
unfolding decimal
decimal-ne-nil n = concat-ne-nil (b'0' + n % 10) _

pub to_chars-ne-nil : (capacity : ℕ) (a : ℤ) → to_chars capacity a ≢ some []
unfolding to_chars decimal_ℤ
to_chars-ne-nil capacity (pos n) h = decimal-ne-nil n (ground arith)
to_chars-ne-nil capacity (negsuc n) h = ground arith

abbrev pub all_digits : Bytes → Bool
all_digits [] = true
all_digits (c ∷ s) = is_digit c && all_digits s

all_digits_append :
    (s t : Bytes) → all_digits s ≡ true → all_digits t ≡ true → all_digits (s ++ t) ≡ true
all_digits_append [] t h k = k
all_digits_append (c ∷ s) t h k = ground (arith, all_digits_append s t)

all_digits-digits : (f n : ℕ) → all_digits (digits f n) ≡ true
unfolding digits
all_digits-digits zero n = refl
all_digits-digits (suc f) n = elim (Bool-cases (ltb n 10)) [
  | inl e ↦ rw e (ground arith)
  | inr e ↦
      rw e (all_digits_append (digits f (n / 10)) _ (all_digits-digits f (n / 10)) (ground arith))
]

pub all_digits-decimal : (n : ℕ) → all_digits (decimal n) ≡ true
unfolding decimal
all_digits-decimal n = all_digits-digits (suc n) n
