-- ===== src/Log/Console/Rendering.antt =====
-- The text of a record by its documented format, and that RenderConsoleRecord writes it.
use adaptive_pi.Prelude.{
  ◌≡◌, refl, ◌≢◌, Bool, true, false, ◌||◌, Option, none, some, [], ◌++◌, Bytes, codes, bind,
  bind-some, is_empty, if◌then◌else◌, arith,
}
use adaptive_pi.Prelude.Int.{pos, leb_ℤ, ◌≤ℤ◌}
use adaptive_pi.Prelude.Decimal.{to_chars, to_chars-some, decimal_ℤ}
use adaptive_pi.Log.Level.{LogLevel, level_name, level_name-nil, IsSeverity}
use adaptive_pi.Log.Metadata.{RuntimeMetadata}
use adaptive_pi.Log.RecordBuffer.{RecordBuffer, IsValid, view}
use adaptive_pi.Log.RecordBuffer.Appending.{
  Appended, Appends, failed, join, append-Appends, &&&-Appends,
}
use adaptive_pi.Log.Timestamp.{
  Gmtime, timestamp_text, append_timestamp-Appends, append_formatted-Appends,
}
use adaptive_pi.Log.Console.{
  c_decimal_capacity, append_decimal, render_parts, render_console_record,
}
use adaptive_pi.Log.Console.Escaping.{escaped, append_escaped-Appends}

infixl 5 ◌>>=◌
abbrev ◌>>=◌ : {A B : Type 0} → Option A → (A → Option B) → Option B
m >>= f = bind m f

-- "[TIMESTAMP][PID][TID][LEVEL][CONTEXT] message\n", of the texts of its parts.
unfoldable pub layout : (time pid tid name context message : Bytes) → Bytes
layout time pid tid name context message =
    codes "["
    ++ (time
        ++ (codes "]["
            ++ (pid
                ++ (codes "]["
                    ++ (tid
                        ++ (codes "]["
                            ++ (name
                                ++ (codes "]["
                                    ++ (context ++ (codes "] " ++ (message ++ codes "\n")))))))))))

-- The parts of a record behind the guards, where each has a text.
unfoldable pub parts_text : Gmtime → RuntimeMetadata → Bytes → Bytes → Bytes → Option Bytes
parts_text gmtime_r metadata name context message = do
  time ← timestamp_text gmtime_r metadata.unix_milliseconds
  pid ← to_chars c_decimal_capacity metadata.process_id
  tid ← to_chars c_decimal_capacity metadata.thread_id
  some (layout time pid tid name (escaped true context) (escaped false message))

-- The text of a record, where it has one: the level is a severity, the ids are positive, the time
-- can be shown.
unfoldable pub console_text : Gmtime → RuntimeMetadata → LogLevel → Bytes → Bytes → Option Bytes
unfolding parts_text
console_text gmtime_r metadata level context message =
    if is_empty (level_name level)
      || (leb_ℤ metadata.process_id (pos 0) || leb_ℤ metadata.thread_id (pos 0))
    then none
    else parts_text gmtime_r metadata (level_name level) context message

append_decimal-Appends : (a : _) → Appends (append_decimal a) (to_chars c_decimal_capacity a)
unfolding append_decimal
append_decimal-Appends a = append_formatted-Appends (to_chars c_decimal_capacity a)

joined : (time pid tid : Option Bytes) (name context message : Bytes) → Option Bytes
joined time pid tid name context message = join (some (codes "[")) (
    join time (
      join (some (codes "][")) (
        join pid (
          join (some (codes "][")) (
            join tid (
              join (some (codes "][")) (
                join (some name) (
                  join (some (codes "][")) (
                    join (some context)
                      (join (some (codes "] ")) (join (some message) (some (codes "\n")))))))))))))

joined-layout :
    (time pid tid : Option Bytes) (name context message : Bytes)
    → joined time pid tid name context message
      ≡ (do t ← time; p ← pid; q ← tid; some (layout t p q name context message))
unfolding joined layout
joined-layout none pid tid name context message = refl
joined-layout (some t) none tid name context message = refl
joined-layout (some t) (some p) none name context message = refl
joined-layout (some t) (some p) (some q) name context message = refl

render_parts-Appends :
    (gmtime_r : Gmtime) (m : RuntimeMetadata) (name context message : Bytes)
    → Appends (render_parts gmtime_r m name context message) (
        joined
          (timestamp_text gmtime_r m.unix_milliseconds)
          (to_chars c_decimal_capacity m.process_id)
          (to_chars c_decimal_capacity m.thread_id)
          name
          (escaped true context)
          (escaped false message))
unfolding render_parts joined
render_parts-Appends gmtime_r m name context message = &&&-Appends (append-Appends _) (
    &&&-Appends (append_timestamp-Appends gmtime_r _) (
      &&&-Appends (append-Appends _) (
        &&&-Appends (append_decimal-Appends _) (
          &&&-Appends (append-Appends _) (
            &&&-Appends (append_decimal-Appends _) (
              &&&-Appends (append-Appends _) (
                &&&-Appends (append-Appends _) (
                  &&&-Appends (append-Appends _) (
                    &&&-Appends (append_escaped-Appends context true) (
                      &&&-Appends (append-Appends _) (
                        &&&-Appends (append_escaped-Appends message false)
                          (append-Appends _))))))))))))

refuse-Appended :
    {b : RecordBuffer} {t : Option Bytes} {r : Bool × RecordBuffer} (refused : Bool)
    → IsValid b
    → Appended b t r
    → Appended b (if refused then none else t) (if refused then (false, b) else r)
refuse-Appended true v a = failed v
refuse-Appended false v a = a

-- On a fresh buffer the text of the record is written whole and true is returned, or false is:
-- since the record has no text, or since it does not fit.
pub render_console_record-Appended :
    (gmtime_r : Gmtime) (m : RuntimeMetadata) (level : LogLevel) (context message : Bytes)
    (b : RecordBuffer)
    → IsValid b
    → view b ≡ []
    → Appended b
        (console_text gmtime_r m level context message)
        (render_console_record gmtime_r m level context message b)
unfolding render_console_record console_text
render_console_record-Appended gmtime_r m level context message b v e = rw e (
    refuse-Appended _ v (
      rw (joined-layout _ _ _ (level_name level) (escaped true context) (escaped false message)) at
        (render_parts-Appends gmtime_r m (level_name level) context message b v)))

-- A buffer that holds something is left as it was.
pub render_console_record_used :
    (gmtime_r : Gmtime) (m : RuntimeMetadata) (level : LogLevel) (context message : Bytes)
    (b : RecordBuffer)
    → view b ≢ []
    → render_console_record gmtime_r m level context message b ≡ (false, b)
unfolding render_console_record
render_console_record_used gmtime_r m level context message b h = ground arith

-- The texts that make up a record.
pub record Parts (gmtime_r : Gmtime) (m : RuntimeMetadata) (level : LogLevel)
    (context message text : Bytes) : Type 0 where
  pub severity : IsSeverity level
  pub process : pos 1 ≤ℤ m.process_id
  pub thread : pos 1 ≤ℤ m.thread_id
  pub time : Bytes
  pub timed : timestamp_text gmtime_r m.unix_milliseconds ≡ some time
  pub laid_out :
      text
      ≡ layout time
          (decimal_ℤ m.process_id)
          (decimal_ℤ m.thread_id)
          (level_name level)
          (escaped true context)
          (escaped false message)

parts_text-some :
    (gmtime_r : Gmtime) (m : RuntimeMetadata) (name context message : Bytes) {t : Bytes}
    → parts_text gmtime_r m name context message ≡ some t
    → (time : Bytes) × (timestamp_text gmtime_r m.unix_milliseconds ≡ some time)
      × (t
          ≡ layout time
              (decimal_ℤ m.process_id)
              (decimal_ℤ m.thread_id)
              name
              (escaped true context)
              (escaped false message))
unfolding parts_text
parts_text-some gmtime_r m name context message h =
    let (time, timed, h) = bind-some _ _ h in
    let (pid, p, h) = bind-some _ _ h in
    let (tid, q, h) = bind-some _ _ h in
    (
      time,
      timed,
      cc (
        to_chars-some c_decimal_capacity m.process_id p,
        to_chars-some c_decimal_capacity m.thread_id q,
      ),
    )

guard_some :
    (refused : Bool) (t : Option Bytes) {s : Bytes}
    → (if refused then none else t) ≡ some s
    → (refused ≡ false) × (t ≡ some s)
guard_some refused t h = (ground arith, ground arith)

pub console_text-Parts :
    (gmtime_r : Gmtime) (m : RuntimeMetadata) (level : LogLevel) (context message : Bytes)
    {t : Bytes}
    → console_text gmtime_r m level context message ≡ some t
    → Parts gmtime_r m level context message t
unfolding console_text
console_text-Parts gmtime_r m level context message h =
    let (guards, text) = guard_some _ _ h in
    let (time, timed, laid) = parts_text-some gmtime_r m (level_name level) context message text in
    record {
      severity = level_name-nil level (ground arith);
      process = ground arith;
      thread = ground arith;
      time = time;
      timed = timed;
      laid_out = laid;
    }
