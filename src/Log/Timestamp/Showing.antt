-- ===== src/Log/Timestamp/Showing.antt =====
-- What the text of a timestamp says of the time that it stands for.
use adaptive_pi.Prelude.{
  ◌≤◌, ◌≡◌, refl, sym, ap, ◌∙◌, none, some, Bytes, Option-cases, inl, inr, arith,
}
use mathlib.Core.Path.{ap₂}
use adaptive_pi.Prelude.Int.{ℤ, pos, negsuc, ◌+ℤ◌, ◌*ℤ◌}
use adaptive_pi.Log.Timestamp.{
  Tm, Gmtime, IsSplit, split_milliseconds, split_milliseconds-IsSplit, checked_timestamp,
  timestamp_text,
}
use adaptive_pi.Log.Timestamp.Fields.{
  InRange, IsCalendar, Date, IsDate, tm_of, date_of, date_text, date_of-IsDate, tm_of-date_of,
  checked_timestamp-date, checked_timestamp-some, millisecond-date_of,
}

-- What a timestamp shows: the calendar fields of the time in seconds, and the milliseconds.
pub record Shows (gmtime_r : Gmtime) (unix_milliseconds : ℤ) (text : Bytes) : Type 0 where
  pub date : Date
  pub valid : IsDate date
  pub shown : text ≡ date_text date
  pub seconds : ℤ
  pub calendar : gmtime_r seconds ≡ some (tm_of date)
  pub whole : seconds *ℤ pos 1000 +ℤ pos date.millisecond ≡ unix_milliseconds

timestamp_text-checked_timestamp :
    (gmtime_r : Gmtime) (ms : ℤ)
    → timestamp_text gmtime_r ms
      ≡ checked_timestamp (split_milliseconds ms).1 (gmtime_r (split_milliseconds ms).0)
unfolding timestamp_text
timestamp_text-checked_timestamp gmtime_r ms = refl

checked_timestamp-none : (m : ℤ) → checked_timestamp m none ≡ none
unfolding checked_timestamp
checked_timestamp-none m = refl

module _ (gmtime_r : Gmtime) (calendar : IsCalendar gmtime_r) (ms : ℤ) where
  Shows-split :
      (seconds m : ℤ) (utc : Tm) (t : Bytes)
      → IsSplit ms (seconds, m)
      → gmtime_r seconds ≡ some utc
      → checked_timestamp m (some utc) ≡ some t
      → Shows gmtime_r ms t
  Shows-split seconds (negsuc k) utc t s e h = absurd (omega (arith, s.lower))
  Shows-split seconds (pos k) utc t s e h =
      let r : InRange utc = calendar seconds utc e in
      let (hi, lo) = checked_timestamp-some utc (pos k) t h in
      let small : k ≤ 999 = omega (arith, s.upper) in
      let d : Date = date_of utc k in
      let v : IsDate d = date_of-IsDate utc k r small hi lo in
      let back : tm_of d ≡ utc = tm_of-date_of utc k r small hi lo in
      let ms_eq : d.millisecond ≡ k = millisecond-date_of utc k in
      let text : checked_timestamp (pos k) (some utc) ≡ some (date_text d) =
        ap₂ (λ a b. checked_timestamp (pos a) (some b)) (sym ms_eq) (sym back)
        ∙ checked_timestamp-date d v in
      record {
        date = d;
        valid = v;
        shown = (cc);
        seconds = seconds;
        calendar = rw back e;
        whole = rw ms_eq s.whole;
      }

  -- A time that is shown is shown by the calendar fields of its seconds, rounded down, and its
  -- milliseconds, where the fields that gmtime_r gives are in range.
  pub timestamp_text-Shows : (t : Bytes) → timestamp_text gmtime_r ms ≡ some t → Shows gmtime_r ms t
  timestamp_text-Shows t h =
      let text = sym (timestamp_text-checked_timestamp gmtime_r ms) ∙ h in
      elim (Option-cases (gmtime_r (split_milliseconds ms).0)) [
        | inl e ↦ cc (checked_timestamp-none (split_milliseconds ms).1)
        | inr (utc, e) ↦
            Shows-split _ _ utc t (split_milliseconds-IsSplit ms) e
              (ap (checked_timestamp (split_milliseconds ms).1) (sym e) ∙ text)
      ]
