-- ===== src/Log/Console/Lines.antt =====
-- The output of the console as lines: no part of a record has a newline but its end.
use adaptive_pi.Prelude.{
  ℕ, zero, suc, ◌-◌, ◌/◌, ◌≡◌, refl, sym, ap, ◌∙◌, Bool, true, false, ◌||◌, Option, none, some, [],
  ◌∷◌, ◌++◌, Bytes, codes, length, take, replicate, append_assoc, ltb, ◌==◌, if◌then◌else◌, arith,
  Bool-cases, inl, inr,
}
use mathlib.Core.Path.{subst}
use adaptive_pi.Prelude.Int.{ℤ, pos, negsuc, ◌+ℤ◌}
use adaptive_pi.Prelude.Decimal.{decimal, decimal_ℤ, zero_padded, digits}
use adaptive_pi.Log.Level.{LogLevel, level_name}
use adaptive_pi.Log.Metadata.{RuntimeMetadata}
use adaptive_pi.Log.Timestamp.{
  Gmtime, Tm, timestamp_text, checked_timestamp, format_timestamp, split_milliseconds,
}
use adaptive_pi.Log.RecordBuffer.{RecordBuffer, IsValid, view}
use adaptive_pi.Log.RecordBuffer.Appending.{Appended_true}
use adaptive_pi.Log.Console.{replacement, render_console_record}
use adaptive_pi.Log.Console.Escaping.{escaped}
use adaptive_pi.Log.Console.Rendering.{
  layout, console_text, console_text-Parts, render_console_record-Appended,
}

abbrev pub has_newline : Bytes → Bool
has_newline [] = false
has_newline (c ∷ s) = c == b'\n' || has_newline s

has_newline_append :
    (s t : Bytes) → has_newline s ≡ false → has_newline t ≡ false → has_newline (s ++ t) ≡ false
has_newline_append [] t h k = k
has_newline_append (c ∷ s) t h k = ground (arith, has_newline_append s t)

has_newline-take : (n : ℕ) (s : Bytes) → has_newline s ≡ false → has_newline (take n s) ≡ false
has_newline-take zero s h = refl
has_newline-take (suc n) [] h = refl
has_newline-take (suc n) (c ∷ s) h = ground (arith, has_newline-take n s)

has_newline-digits : (f n : ℕ) → has_newline (digits f n) ≡ false
unfolding digits
has_newline-digits zero n = refl
has_newline-digits (suc f) n = elim (Bool-cases (ltb n 10)) [
  | inl e ↦ rw e (ground arith)
  | inr e ↦
      rw e (has_newline_append (digits f (n / 10)) _ (has_newline-digits f (n / 10)) (ground arith))
]

has_newline-decimal : (n : ℕ) → has_newline (decimal n) ≡ false
unfolding decimal
has_newline-decimal n = has_newline-digits (suc n) n

has_newline-decimal_ℤ : (a : ℤ) → has_newline (decimal_ℤ a) ≡ false
unfolding decimal_ℤ
has_newline-decimal_ℤ (pos n) = has_newline-decimal n
has_newline-decimal_ℤ (negsuc n) = has_newline-decimal (suc n)

has_newline-zeros : (k : ℕ) → has_newline (replicate k b'0') ≡ false
unfolding replicate
has_newline-zeros zero = refl
has_newline-zeros (suc k) = has_newline-zeros k

has_newline-zero_padded : (width : ℕ) (a : ℤ) → has_newline (zero_padded width a) ≡ false
unfolding zero_padded
has_newline-zero_padded width (pos n) =
    let k = width - length (decimal n) in
    has_newline_append (replicate k b'0') (decimal n) (has_newline-zeros k) (has_newline-decimal n)
has_newline-zero_padded width (negsuc n) =
    let k = width - 1 - length (decimal (suc n)) in
    has_newline_append (replicate k b'0') (decimal (suc n)) (has_newline-zeros k)
      (has_newline-decimal (suc n))

has_newline-replacement : (b : Bool) (c : ℕ) → has_newline (replacement b c) ≡ false
unfolding replacement
has_newline-replacement b c = ground arith

has_newline-escaped : (b : Bool) (s : Bytes) → has_newline (escaped b s) ≡ false
unfolding escaped
has_newline-escaped b [] = refl
has_newline-escaped b (c ∷ s) =
    has_newline_append (replacement b c) _ (has_newline-replacement b c) (has_newline-escaped b s)

has_newline-level_name : (level : LogLevel) → has_newline (level_name level) ≡ false
unfolding level_name
has_newline-level_name level = ground arith

-- A padded number, a byte that is no newline, and a text.
has_newline_behind :
    (width : ℕ) (a : ℤ) (c : ℕ) (t : Bytes)
    → (c == b'\n') ≡ false
    → has_newline t ≡ false
    → has_newline (zero_padded width a ++ c ∷ t) ≡ false
has_newline_behind width a c t k l =
    has_newline_append (zero_padded width a) (c ∷ t) (has_newline-zero_padded width a)
      (ground arith)

has_newline-format_timestamp : (utc : Tm) (ms : ℤ) → has_newline (format_timestamp utc ms) ≡ false
unfolding format_timestamp
has_newline-format_timestamp utc ms = has_newline_behind 4 (utc.tm_year +ℤ pos 1900) _ _ refl (
    has_newline_behind 2 (utc.tm_mon +ℤ pos 1) _ _ refl (
      has_newline_behind 2 utc.tm_mday _ _ refl (
        has_newline_behind 2 utc.tm_hour _ _ refl (
          has_newline_behind 2 utc.tm_min _ _ refl
            (has_newline_behind 2 utc.tm_sec _ _ refl (has_newline_behind 3 ms _ _ refl refl))))))

has_newline-guarded :
    (a b : Bool) (s : Bytes) {t : Bytes}
    → has_newline s ≡ false
    → (if a then none else if b then some (take 24 s) else none) ≡ some t
    → has_newline t ≡ false
has_newline-guarded true b s h e = absurd (cc e)
has_newline-guarded false true s {t} h e =
    let same : take 24 s ≡ t = cc in
    subst (λ t. has_newline t ≡ false) same (has_newline-take 24 s h)
has_newline-guarded false false s h e = absurd (cc e)

has_newline-checked_timestamp :
    (ms : ℤ) (o : Option Tm) {t : Bytes} → checked_timestamp ms o ≡ some t → has_newline t ≡ false
unfolding checked_timestamp
has_newline-checked_timestamp ms none h = absurd (cc h)
has_newline-checked_timestamp ms (some utc) h =
    has_newline-guarded _ _ (format_timestamp utc ms) (has_newline-format_timestamp utc ms) h

has_newline-timestamp_text :
    (gmtime_r : Gmtime) (ms : ℤ) {t : Bytes}
    → timestamp_text gmtime_r ms ≡ some t
    → has_newline t ≡ false
unfolding timestamp_text
has_newline-timestamp_text gmtime_r ms h =
    has_newline-checked_timestamp (split_milliseconds ms).1 (gmtime_r (split_milliseconds ms).0) h

-- A text that is one line: a newline ends it, and it has no other.
pub record IsLine (t : Bytes) : Type 0 where
  pub body : Bytes
  pub whole : t ≡ body ++ b'\n' ∷ []
  pub single : has_newline body ≡ false

has_newline_part :
    (s a t : Bytes)
    → has_newline s ≡ false
    → has_newline a ≡ false
    → has_newline t ≡ false
    → has_newline (s ++ (a ++ t)) ≡ false
has_newline_part s a t h k l = has_newline_append s (a ++ t) h (has_newline_append a t k l)

layout-IsLine :
    (time pid tid name context message : Bytes)
    → has_newline time ≡ false
    → has_newline pid ≡ false
    → has_newline tid ≡ false
    → has_newline name ≡ false
    → has_newline context ≡ false
    → has_newline message ≡ false
    → IsLine (layout time pid tid name context message)
unfolding layout
layout-IsLine time pid tid name context message a b c d e f = record {
  body =
      codes "["
      ++ (time
          ++ (codes "]["
              ++ (pid
                  ++ (codes "]["
                      ++ (tid
                          ++ (codes "]["
                              ++ (name
                                  ++ (codes "][" ++ (context ++ (codes "] " ++ message))))))))));
  whole = simp append_assoc;
  single = has_newline_part (codes "[") time _ refl a (
      has_newline_part (codes "][") pid _ refl b (
        has_newline_part (codes "][") tid _ refl c (
          has_newline_part (codes "][") name _ refl d (
            has_newline_part (codes "][") context _ refl e
              (has_newline_append (codes "] ") message refl f)))));
}

-- The text of a record is one line, whatever context and message hold.
pub console_text-IsLine :
    (gmtime_r : Gmtime) (m : RuntimeMetadata) (level : LogLevel) (context message : Bytes)
    {t : Bytes}
    → console_text gmtime_r m level context message ≡ some t
    → IsLine t
console_text-IsLine gmtime_r m level context message h =
    let p = console_text-Parts gmtime_r m level context message h in
    subst IsLine (sym p.laid_out) (
      layout-IsLine p.time (decimal_ℤ m.process_id) (decimal_ℤ m.thread_id) (level_name level)
        (escaped true context) (escaped false message)
        (has_newline-timestamp_text gmtime_r m.unix_milliseconds p.timed)
        (has_newline-decimal_ℤ m.process_id) (has_newline-decimal_ℤ m.thread_id)
        (has_newline-level_name level) (has_newline-escaped true context)
        (has_newline-escaped false message))

-- A record that was rendered into a fresh buffer is one line, whatever context and message hold: it ends with a
-- newline and has no other, so that no message can forge a second record.
pub render_console_record-IsLine :
    (gmtime_r : Gmtime) (m : RuntimeMetadata) (level : LogLevel) (context message : Bytes)
    (b b' : RecordBuffer)
    → IsValid b
    → view b ≡ []
    → render_console_record gmtime_r m level context message b ≡ (true, b')
    → IsLine (view b')
render_console_record-IsLine gmtime_r m level context message b b' v fresh e =
    let a = render_console_record-Appended gmtime_r m level context message b v fresh in
    let (u, same, shown, _) = Appended_true a e in
    subst IsLine (sym (shown ∙ ap (λ r. r ++ u) fresh))
      (console_text-IsLine gmtime_r m level context message same)
