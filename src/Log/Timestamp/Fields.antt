-- ===== src/Log/Timestamp/Fields.antt =====
-- The calendar fields that a timestamp shows, read back from its text.
use adaptive_pi.Prelude.{
  ℕ, ◌≤◌, ◌≡◌, refl, Option, none, some, ◌∷◌, [], ◌++◌, append_assoc, Bytes, length, length-append,
  take, take_self, arith,
}
use adaptive_pi.Prelude.Int.{ℤ, pos, pos_part, negsuc, ◌+ℤ◌, ◌-ℤ◌, ◌≤ℤ◌, -ℤ_cancel}
use adaptive_pi.Prelude.Decimal.{
  zero_padded, read_field, read_field-zero_padded, length-zero_padded,
}
use adaptive_pi.Log.Timestamp.{Tm, Gmtime, format_timestamp, checked_timestamp}

-- The ranges that the C standard gives the fields of `struct tm`.
pub record InRange (utc : Tm) : Type 0 where
  pub sec : (pos 0 ≤ℤ utc.tm_sec) × (utc.tm_sec ≤ℤ pos 60)
  pub min : (pos 0 ≤ℤ utc.tm_min) × (utc.tm_min ≤ℤ pos 59)
  pub hour : (pos 0 ≤ℤ utc.tm_hour) × (utc.tm_hour ≤ℤ pos 23)
  pub mday : (pos 1 ≤ℤ utc.tm_mday) × (utc.tm_mday ≤ℤ pos 31)
  pub mon : (pos 0 ≤ℤ utc.tm_mon) × (utc.tm_mon ≤ℤ pos 11)

-- Every time that `gmtime_r` converts has fields in range.
abbrev pub IsCalendar : Gmtime → Type 0
IsCalendar gmtime_r = (s : ℤ) (utc : Tm) → gmtime_r s ≡ some utc → InRange utc

pub record Date : Type 0 where
  pub year : ℕ
  pub month : ℕ
  pub day : ℕ
  pub hour : ℕ
  pub minute : ℕ
  pub second : ℕ
  pub millisecond : ℕ

-- The fields of `struct tm` that a date stands for: years from 1900, months from 0.
abbrev pub tm_of : Date → Tm
tm_of d = record {
  tm_sec = pos d.second;
  tm_min = pos d.minute;
  tm_hour = pos d.hour;
  tm_mday = pos d.day;
  tm_mon = pos d.month -ℤ pos 1;
  tm_year = pos d.year -ℤ pos 1900;
}

-- The date that fields in range stand for, where the year has four digits.
pub date_of : Tm → ℕ → Date
date_of utc ms = record {
  year = pos_part (utc.tm_year +ℤ pos 1900);
  month = pos_part (utc.tm_mon +ℤ pos 1);
  day = pos_part utc.tm_mday;
  hour = pos_part utc.tm_hour;
  minute = pos_part utc.tm_min;
  second = pos_part utc.tm_sec;
  millisecond = ms;
}

pub millisecond-date_of : (utc : Tm) (ms : ℕ) → (date_of utc ms).millisecond ≡ ms
unfolding date_of
millisecond-date_of utc ms = refl

pub record IsDate (d : Date) : Type 0 where
  pub year : d.year ≤ 9999
  pub month : (1 ≤ d.month) × (d.month ≤ 12)
  pub day : (1 ≤ d.day) × (d.day ≤ 31)
  pub hour : d.hour ≤ 23
  pub minute : d.minute ≤ 59
  pub second : d.second ≤ 60
  pub millisecond : d.millisecond ≤ 999

unfoldable pub date_text : Date → Bytes
date_text d =
    zero_padded 4 (pos d.year)
    ++ (b'-'
        ∷ (zero_padded 2 (pos d.month)
            ++ (b'-'
                ∷ (zero_padded 2 (pos d.day)
                    ++ (b'T'
                        ∷ (zero_padded 2 (pos d.hour)
                            ++ (b':'
                                ∷ (zero_padded 2 (pos d.minute)
                                    ++ (b':'
                                        ∷ (zero_padded 2 (pos d.second)
                                            ++ (b'.'
                                                ∷ (zero_padded 3 (pos d.millisecond)
                                                    ++ b'Z' ∷ []))))))))))))

infixl 5 ◌>>=◌
abbrev ◌>>=◌ : {A B : Type 0} → Option A → (A → Option B) → Option B
none >>= f = none
some a >>= f = f a

-- Reads "YYYY-MM-DDTHH:MM:SS.mmmZ" at the front of a text.
unfoldable pub read_date : Bytes → Option (Date × Bytes)
read_date s = do
  (year, s) ← read_field b'-' s
  (month, s) ← read_field b'-' s
  (day, s) ← read_field b'T' s
  (hour, s) ← read_field b':' s
  (minute, s) ← read_field b':' s
  (second, s) ← read_field b'.' s
  (millisecond, s) ← read_field b'Z' s
  some (
    record {
      year = year;
      month = month;
      day = day;
      hour = hour;
      minute = minute;
      second = second;
      millisecond = millisecond;
    },
    s,
  )

pub read_date-date_text :
    (d : Date) (rest : Bytes) → read_date (date_text d ++ rest) ≡ some (d, rest)
unfolding read_date date_text
read_date-date_text d rest = simp (append_assoc, read_field-zero_padded)

pub length-date_text : (d : Date) → IsDate d → length (date_text d) ≡ 24
unfolding date_text
length-date_text d v = simp (length-append) (
    omega (
      arith,
      length-zero_padded 3 d.year (omega arith),
      length-zero_padded 1 d.month (omega arith),
      length-zero_padded 1 d.day (omega arith),
      length-zero_padded 1 d.hour (omega arith),
      length-zero_padded 1 d.minute (omega arith),
      length-zero_padded 1 d.second (omega arith),
      length-zero_padded 2 d.millisecond (omega arith),
    ))

module _ (utc : Tm) (ms : ℕ) (r : InRange utc) (small : ms ≤ 999) where
  pub date_of-IsDate :
      (utc.tm_year ≤ℤ pos 8099) → (negsuc 1899 ≤ℤ utc.tm_year) → IsDate (date_of utc ms)
  unfolding date_of ◌+ℤ◌
  date_of-IsDate hi lo = record {
    year = ground arith;
    month = ground arith;
    day = ground arith;
    hour = ground arith;
    minute = ground arith;
    second = ground arith;
    millisecond = small;
  }

  pub tm_of-date_of :
      (utc.tm_year ≤ℤ pos 8099) → (negsuc 1899 ≤ℤ utc.tm_year) → tm_of (date_of utc ms) ≡ utc
  unfolding date_of ◌+ℤ◌ ◌-ℤ◌
  tm_of-date_of hi lo = ground arith

format_timestamp-tm_of :
    (d : Date) → IsDate d → format_timestamp (tm_of d) (pos d.millisecond) ≡ date_text d
unfolding format_timestamp date_text
format_timestamp-tm_of d v = rw (-ℤ_cancel (pos d.year) (pos 1900), -ℤ_cancel (pos d.month) (pos 1))

take-length : (n : ℕ) (t : Bytes) → length t ≡ n → take n t ≡ t
take-length n t e = rw (← e) (take_self t)

-- A time whose year does not have four digits is refused, any other is shown.
pub checked_timestamp-date :
    (d : Date)
    → IsDate d
    → checked_timestamp (pos d.millisecond) (some (tm_of d)) ≡ some (date_text d)
unfolding checked_timestamp ◌-ℤ◌
checked_timestamp-date d v =
    let text = format_timestamp-tm_of d v in
    rw (text, length-date_text d v, take-length 24 (date_text d) (length-date_text d v))
      (ground arith)

pub checked_timestamp-some :
    (utc : Tm) (ms : ℤ) (t : Bytes)
    → checked_timestamp ms (some utc) ≡ some t
    → (utc.tm_year ≤ℤ pos 8099) × (negsuc 1899 ≤ℤ utc.tm_year)
unfolding checked_timestamp ◌-ℤ◌
checked_timestamp-some utc ms t h = (ground arith, ground arith)
