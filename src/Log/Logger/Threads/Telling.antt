-- ===== src/Log/Logger/Threads/Telling.antt =====
-- The calls of Submit that threads make a record of, and their records read back.
use adaptive_pi.Prelude.{ℕ, ◌≡◌, refl, sym, ap, ◌∙◌, Option, none, some, List, [], ◌∷◌, ◌++◌, Bytes}
use adaptive_pi.Prelude.Updates.{update, update-all, update_self, update-other}
use adaptive_pi.Log.Level.{LogLevel}
use adaptive_pi.Log.RecordBuffer.{empty, empty-IsValid, view-empty}
use adaptive_pi.Log.Timestamp.{Gmtime}
use adaptive_pi.Log.Timestamp.Fields.{IsCalendar}
use adaptive_pi.Log.Timestamp.Utc.{IsUtc}
use adaptive_pi.Log.Console.Calls.{Call, read_call, read_call-render_console_record}
use adaptive_pi.Log.Logger.{Logger, context_id}
use adaptive_pi.Log.Logger.Threads.{
  Place, outside, Act, suppress, miss_metadata, contain_exception, reject_record, render, write,
}
use adaptive_pi.Log.Logger.Threads.Reaching.{
  Logging, held, emitted, act, LogReach, begin, afterwards,
}

-- Reads a list of lines, if each is a record.
abbrev read_next : Option Call → Option (List Call) → Option (List Call)
read_next (some call) (some calls) = some (call ∷ calls)
read_next _ _ = none

unfoldable pub read_calls : List Bytes → Option (List Call)
read_calls [] = some []
read_calls (line ∷ lines) = read_next (read_call line) (read_calls lines)

some_injective : {A : Type 0} {a b : A} → Path (Option A) (some a) (some b) → a ≡ b
some_injective h = cc

read_next-some :
    (o : Option Call) (o' : Option (List Call)) (x : List Call)
    → read_next o o' ≡ some x
    → (call : Call) × (calls : List Call) × (o ≡ some call) × (o' ≡ some calls) × (x ≡ call ∷ calls)
read_next-some (some call) (some calls) x h = (call, calls, refl, refl, sym (some_injective h))
read_next-some (some call) none x h = absurd (cc h)
read_next-some none o x h = absurd (cc h)

read_calls_append :
    (a b : List Bytes) (x y : List Call)
    → read_calls a ≡ some x
    → read_calls b ≡ some y
    → read_calls (a ++ b) ≡ some (x ++ y)
unfolding read_calls
read_calls_append [] b x y h k = k ∙ ap (λ z. some (z ++ y)) (some_injective h)
read_calls_append (line ∷ a) b x y h k =
    let (call, calls, first, rest, whole) = read_next-some (read_call line) (read_calls a) x h in
    rw (first, read_calls_append a b calls y rest k) (ap (λ z. some (z ++ y)) (sym whole))

module _ {W : Type 0} (gmtime_r : Gmtime) where
  -- The call that a move makes a record of.
  abbrev pub told :
      {logger : Logger W} {level : LogLevel} {message : Bytes} {w w' : W} {p p' : Place W}
      → Act gmtime_r logger level message w p w' p'
      → List Call
  told {logger} {level} {message} (render {m = m} g e x) =
      record { metadata = m; level = level; context = context_id logger; message = message } ∷ []
  told _ = []

  -- The states that threads reach that log at the same time, with the calls of each thread that it
  -- has made a record of, in order.
  pub data LogHistory (logger : ℕ → Logger W) (w : W) : (ℕ → List Call) → Logging W → Type 0 where
    untold :
        LogHistory logger w
          (λ i. [])
          (record { world = w; place = λ i. outside; written = []; made = λ i. [] })
    telling :
        {calls : ℕ → List Call} {s : Logging W}
        → LogHistory logger w calls s
        → (i k : ℕ) (level : LogLevel) (message : Bytes) {w' : W} {p : Place W}
          (a : Act gmtime_r (logger k) level message s.world (s.place i) w' p)
        → LogHistory logger w (update calls i (calls i ++ told a)) (record {
          world = w';
          place = update s.place i p;
          written = s.written ++ emitted i (s.place i);
          made = update s.made i (s.made i ++ held p);
        })

  pub LogHistory-LogReach :
      (logger : ℕ → Logger W) (w : W) {calls : ℕ → List Call} {s : Logging W}
      → LogHistory logger w calls s
      → LogReach gmtime_r logger w s
  LogHistory-LogReach logger w untold = begin
  LogHistory-LogReach logger w (telling r i k level message a) =
      afterwards (LogHistory-LogReach logger w r) (act i k level message a)

  module _ (gregorian : IsCalendar gmtime_r) (utc : IsUtc gmtime_r) where
    Act-told :
        {logger : Logger W} {level : LogLevel} {message : Bytes} {w w' : W} {p p' : Place W}
        → (a : Act gmtime_r logger level message w p w' p') → read_calls (held p') ≡ some (told a)
    unfolding read_calls
    Act-told {logger} {level} {message} (render {m = m} {output = b} g e x) =
        ap (λ c. read_next c (some []))
          (read_call-render_console_record gmtime_r gregorian utc
            (record { metadata = m; level = level; context = context_id logger; message = message })
            empty empty-IsValid view-empty x)
    Act-told (suppress g) = refl
    Act-told (miss_metadata g e) = refl
    Act-told (contain_exception g e) = refl
    Act-told (reject_record g e x) = refl
    Act-told write = refl

    -- The records of each thread read back as its calls.
    pub read_calls-made :
        (logger : ℕ → Logger W) (w : W) {calls : ℕ → List Call} {s : Logging W}
        → LogHistory logger w calls s
        → (i : ℕ) → read_calls (s.made i) ≡ some (calls i)
    unfolding read_calls
    read_calls-made logger w untold i = refl
    read_calls-made logger w (telling {calls = calls} {s = s} r i k level message {p = p} a) j =
        update-all (λ j made. read_calls made ≡ some (update calls i (calls i ++ told a) j)) s.made
          i (s.made i ++ held p)
          (read_calls_append (s.made i) (held p) (calls i) (told a) (read_calls-made logger w r i)
              (Act-told a)
            ∙ ap some (sym (update_self calls i (calls i ++ told a))))
          (λ j n.
            read_calls-made logger w r j
            ∙ ap some (sym (update-other calls i (calls i ++ told a) j n)))
          j
