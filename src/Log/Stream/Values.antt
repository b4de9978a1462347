-- ===== src/Log/Stream/Values.antt =====
-- The integral types that a stream takes, and the text of their values.
use adaptive_pi.Prelude.{ℕ, suc, ◌+◌, ◌^◌, ◌≤◌, ◌<◌, ◌≡◌, some, arith}
use adaptive_pi.Prelude.Int.{ℤ, pos_part, neg_part, pos, negsuc, ◌≤ℤ◌}
use adaptive_pi.Prelude.Decimal.{decimal_ℤ, to_chars, length-decimal_ℤ, to_chars_fits}

-- The integral types of 8 to 64 bits.
pub data IntegerType : Type 0 where
  int8 uint8 int16 uint16 int32 uint32 int64 uint64 : IntegerType

-- `std::numeric_limits<T>::min()` and `max()`.
abbrev pub lowest : IntegerType → ℤ
lowest int8 = negsuc 0x7f
lowest int16 = negsuc 0x7fff
lowest int32 = negsuc 0x7fff_ffff
lowest int64 = negsuc 0x7fff_ffff_ffff_ffff
lowest uint8 = pos 0
lowest uint16 = pos 0
lowest uint32 = pos 0
lowest uint64 = pos 0

abbrev pub highest : IntegerType → ℤ
highest int8 = pos 0x7f
highest int16 = pos 0x7fff
highest int32 = pos 0x7fff_ffff
highest int64 = pos 0x7fff_ffff_ffff_ffff
highest uint8 = pos 0xff
highest uint16 = pos 0xffff
highest uint32 = pos 0xffff_ffff
highest uint64 = pos 0xffff_ffff_ffff_ffff

-- `std::numeric_limits<T>::digits10`.
abbrev pub digits10 : IntegerType → ℕ
digits10 int8 = 2
digits10 uint8 = 2
digits10 int16 = 4
digits10 uint16 = 4
digits10 int32 = 9
digits10 uint32 = 9
digits10 int64 = 18
digits10 uint64 = 19

abbrev pub Holds : IntegerType → ℤ → Type 0
Holds type value = (lowest type ≤ℤ value) × (value ≤ℤ highest type)

to_chars_within :
    (k n m : ℕ) (value : ℤ)
    → neg_part value ≤ pos_part value + n
    → pos_part value ≤ m + neg_part value
    → n < 10 ^ suc k
    → m < 10 ^ suc k
    → to_chars (k + 2) value ≡ some (decimal_ℤ value)
to_chars_within k n m (pos v) lo hi p q =
    to_chars_fits (k + 2) (pos v) (length-decimal_ℤ k (pos v) (omega arith) (omega arith))
to_chars_within k n m (negsuc v) lo hi p q =
    to_chars_fits (k + 2) (negsuc v) (length-decimal_ℤ k (negsuc v) (omega arith) (omega arith))

-- The array of an insertion holds every value of the type: no integer fails to be formatted.
pub to_chars-decimal_ℤ :
    (type : IntegerType) (value : ℤ)
    → Holds type value
    → to_chars (digits10 type + 2) value ≡ some (decimal_ℤ value)
to_chars-decimal_ℤ int8 value h =
    to_chars_within 2 0x80 0x7f value (omega arith) (omega arith) (omega arith) (omega arith)
to_chars-decimal_ℤ uint8 value h =
    to_chars_within 2 0x0 0xff value (omega arith) (omega arith) (omega arith) (omega arith)
to_chars-decimal_ℤ int16 value h =
    to_chars_within 4 0x8000 0x7fff value (omega arith) (omega arith) (omega arith) (omega arith)
to_chars-decimal_ℤ uint16 value h =
    to_chars_within 4 0x0 0xffff value (omega arith) (omega arith) (omega arith) (omega arith)
to_chars-decimal_ℤ int32 value h =
    to_chars_within 9 0x80000000 0x7fffffff value (omega arith) (omega arith) (omega arith)
      (omega arith)
to_chars-decimal_ℤ uint32 value h =
    to_chars_within 9 0x0 0xffffffff value (omega arith) (omega arith) (omega arith) (omega arith)
to_chars-decimal_ℤ int64 value h =
    to_chars_within 18 0x8000000000000000 0x7fffffffffffffff value (omega arith) (omega arith)
      (omega arith) (omega arith)
to_chars-decimal_ℤ uint64 value h =
    to_chars_within 19 0x0 0xffffffffffffffff value (omega arith) (omega arith) (omega arith)
      (omega arith)
