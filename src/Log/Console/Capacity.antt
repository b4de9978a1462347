-- ===== src/Log/Console/Capacity.antt =====
-- The capacity of a record is enough for every message of a stream.
use adaptive_pi.Prelude.{
  ℕ, ◌+◌, ◌≤◌, ◌≡◌, sym, ap, ◌∙◌, Bool, true, false, Option, none, some, [], ◌∷◌, ◌++◌, Bytes,
  length, length-append, take, is_empty, if◌then◌else◌, arith, suc, zero,
}
use mathlib.Core.Path.{subst}
use adaptive_pi.Prelude.Int.{ℤ, pos, negsuc, ◌≤ℤ◌, leb_ℤ}
use adaptive_pi.Prelude.Decimal.{decimal_ℤ, to_chars, to_chars_fits, length-decimal}
use adaptive_pi.Log.Level.{LogLevel, IsSeverity, level_name, level_name-ne-nil, length-level_name}
use adaptive_pi.Log.Metadata.{RuntimeMetadata, int64_max}
use adaptive_pi.Log.RecordBuffer.{RecordBuffer, IsValid, view, c_record_capacity}
use adaptive_pi.Log.RecordBuffer.Appending.{Appended, Appended_fits, Appended_true}
use adaptive_pi.Log.Timestamp.{
  Tm, Gmtime, timestamp_text, checked_timestamp, split_milliseconds, format_timestamp,
}
use adaptive_pi.Log.Console.{c_decimal_capacity, render_console_record}
use adaptive_pi.Log.Console.Escaping.{escaped, length-escaped}
use adaptive_pi.Log.Console.Rendering.{
  layout, parts_text, console_text, render_console_record-Appended,
}

-- A process or thread id: positive, in 64 bits.
abbrev pub IsId : ℤ → Type 0
IsId a = (pos 1 ≤ℤ a) × (a ≤ℤ int64_max)

length-id : (a : ℤ) → IsId a → length (decimal_ℤ a) ≤ 19
unfolding decimal_ℤ
length-id (pos n) (lo, hi) = length-decimal n 18 (omega arith)
length-id (negsuc n) (lo, hi) = absurd (omega arith)

to_chars-id : (a : ℤ) → IsId a → to_chars c_decimal_capacity a ≡ some (decimal_ℤ a)
to_chars-id a h = to_chars_fits c_decimal_capacity a (omega (arith, length-id a h))

some_eq : {s t : Bytes} → some s ≡ some t → s ≡ t
some_eq h = cc

length-take_at_most : (n : ℕ) (s : Bytes) → length (take n s) ≤ n
length-take_at_most zero s = omega arith
length-take_at_most (suc n) [] = omega arith
length-take_at_most (suc n) (c ∷ s) = omega (arith, length-take_at_most n s)

length-guarded :
    (a b : Bool) (s t : Bytes)
    → (if a then none else if b then some (take 24 s) else none) ≡ some t
    → length t ≤ 24
length-guarded true b s t h = absurd (cc h)
length-guarded false true s t h = let e : take 24 s ≡ t = cc in rw (← e) (length-take_at_most 24 s)
length-guarded false false s t h = absurd (cc h)

length-checked_timestamp :
    (m : ℤ) (o : Option Tm) (t : Bytes) → checked_timestamp m o ≡ some t → length t ≤ 24
unfolding checked_timestamp
length-checked_timestamp m none t h = absurd (cc h)
length-checked_timestamp m (some utc) t h = length-guarded _ _ (format_timestamp utc m) t h

length-timestamp_text :
    (gmtime_r : Gmtime) (ms : ℤ) (t : Bytes) → timestamp_text gmtime_r ms ≡ some t → length t ≤ 24
unfolding timestamp_text
length-timestamp_text gmtime_r ms t h =
    length-checked_timestamp (split_milliseconds ms).1 (gmtime_r (split_milliseconds ms).0) t h

length-layout :
    (time pid tid name context message : Bytes)
    → length (layout time pid tid name context message)
      ≡ 12 + length time + length pid + length tid + length name + length context + length message
unfolding layout
length-layout time pid tid name context message = simp length-append (omega arith)

module _ (gmtime_r : Gmtime) (m : RuntimeMetadata) (level : LogLevel)
    (context message time : Bytes) where
  -- The text of a record of the given parts.
  abbrev pub record_of : Bytes
  record_of =
      layout time (decimal_ℤ m.process_id) (decimal_ℤ m.thread_id) (level_name level)
        (escaped true context) (escaped false message)

  pub console_text-record_of :
      IsSeverity level
      → IsId m.process_id
      → IsId m.thread_id
      → timestamp_text gmtime_r m.unix_milliseconds ≡ some time
      → console_text gmtime_r m level context message ≡ some record_of
  unfolding console_text parts_text
  console_text-record_of s p q t =
      let named : is_empty (level_name level) ≡ false = ground (arith, level_name-ne-nil level s) in
      let pid : leb_ℤ m.process_id (pos 0) ≡ false = ground arith in
      let tid : leb_ℤ m.thread_id (pos 0) ≡ false = ground arith in
      rw (named, pid, tid, t, to_chars-id m.process_id p, to_chars-id m.thread_id q)

  pub length-record_of :
      IsId m.process_id
      → IsId m.thread_id
      → timestamp_text gmtime_r m.unix_milliseconds ≡ some time
      → length context ≤ 4055
      → length message ≤ 4096
      → length record_of ≤ c_record_capacity
  length-record_of p q t c l = omega (
    arith,
    length-layout time (decimal_ℤ m.process_id) (decimal_ℤ m.thread_id) (level_name level)
        (escaped true context) (escaped false message),
    length-timestamp_text gmtime_r m.unix_milliseconds time t,
    length-id m.process_id p,
    length-id m.thread_id q,
    length-level_name level,
    length-escaped true context,
    length-escaped false message,
  )

  -- A record of at most 4055 bytes of context and at most 4096 of message is never refused: with a
  -- severity, positive ids of 64 bits, a time that can be shown and a fresh buffer, it is written
  -- whole.
  pub render_console_record-fits :
      (b : RecordBuffer)
      → IsValid b
      → view b ≡ []
      → IsSeverity level
      → IsId m.process_id
      → IsId m.thread_id
      → timestamp_text gmtime_r m.unix_milliseconds ≡ some time
      → length context ≤ 4055
      → length message ≤ 4096
      → ((render_console_record gmtime_r m level context message b).0 ≡ true)
        × (view (render_console_record gmtime_r m level context message b).1 ≡ record_of)
  render_console_record-fits b v fresh s p q t c l =
      let a : Appended b (some record_of)
          (render_console_record gmtime_r m level context message b) =
        subst (λ o. Appended b o (render_console_record gmtime_r m level context message b))
          (console_text-record_of s p q t)
          (render_console_record-Appended gmtime_r m level context message b v fresh) in
      let room : length (view b) + length record_of ≤ c_record_capacity =
        omega (arith, ap length fresh, length-record_of p q t c l) in
      let written = Appended_fits a room in
      let (u, same, shown, _) = Appended_true a written in
      (ap (λ r. r.0) written, shown ∙ ap (λ r. r ++ u) fresh ∙ sym (some_eq same))
