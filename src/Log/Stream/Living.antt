-- ===== src/Log/Stream/Living.antt =====
-- The life of a stream of platform/ara-log/src/log_stream.cpp: whatever is done to it between its
-- opening and its end, it submits the messages that a text with a capacity would.
use adaptive_pi.Prelude.{◌≡◌, refl, sym, ap, ◌∙◌, some, List, [], ◌∷◌, ◌++◌, Bytes, if◌then◌else◌}
use mathlib.Core.Path.{ap₂}
use adaptive_pi.Log.Level.{LogLevel}
use adaptive_pi.Log.Timestamp.{Gmtime}
use adaptive_pi.Log.Logger.{Logger, is_enabled, submit}
use adaptive_pi.Log.Stream.{
  LogStream, Floating, open_stream, flush, submit_pending, destroy, move_stream,
}
use adaptive_pi.Log.Stream.Pending.{Pending, closed, broken, holding, push, IsValid, pending}
use adaptive_pi.Log.Stream.Lifetime.{insert-Keeps}
use adaptive_pi.Log.Stream.Inserting.{Value, insert, text_of, pending-insert}
use adaptive_pi.Log.Stream.Submitting.{
  reset, submit_held, submit_pending-submit_held, pending-open_stream, open_stream-logger,
  open_stream-level, open_stream-IsValid, flush_fresh, move_stream_lem,
}

-- What a program does to a stream: an insertion, a flush, or a move to a new stream, with which it
-- goes on when the old one is destroyed.
pub data Use (F : Type 0) : Type 0 where
  inserting : Value F → Use F
  flushing : Use F
  moving_on : Use F

-- The message that a pending record ends as.
abbrev pub message_of : Pending → List Bytes
message_of closed = []
message_of broken = []
message_of (holding t) = t ∷ []

-- The messages of a pending record, by what is done to it.
unfoldable pub messages : {F : Type 0} → Floating F → List (Use F) → Pending → List Bytes
messages f [] p = message_of p
messages f (inserting v ∷ us) p = messages f us (push (text_of f v) p)
messages f (flushing ∷ us) p = message_of p ++ messages f us (reset p)
messages f (moving_on ∷ us) p = messages f us p

module _ {W : Type 0} (gmtime_r : Gmtime) where
  -- Messages that are submitted one after the other.
  unfoldable pub submit_each : Logger W → LogLevel → List Bytes → W → W
  submit_each logger level [] w = w
  submit_each logger level (t ∷ ts) w =
      submit_each logger level ts (submit gmtime_r logger level t w)

  submit_each-message_of :
      (logger : Logger W) (level : LogLevel) (p : Pending) (ts : List Bytes) (w : W)
      → submit_each logger level (message_of p ++ ts) w
        ≡ submit_each logger level ts (submit_held gmtime_r logger level p w)
  unfolding submit_each submit_held
  submit_each-message_of logger level closed ts w = refl
  submit_each-message_of logger level broken ts w = refl
  submit_each-message_of logger level (holding t) ts w = refl

  submit_each-last :
      (logger : Logger W) (level : LogLevel) (p : Pending) (w : W)
      → submit_each logger level (message_of p) w ≡ submit_held gmtime_r logger level p w
  unfolding submit_each submit_held
  submit_each-last logger level closed w = refl
  submit_each-last logger level broken w = refl
  submit_each-last logger level (holding t) w = refl

module _ {W F : Type 0} (gmtime_r : Gmtime) (f : Floating F) where
  -- What the code does, up to the destructor.
  unfoldable pub live : List (Use F) → LogStream W → W → W
  live [] s w = destroy gmtime_r s w
  live (inserting v ∷ us) s w = live us (insert f v s) w
  live (flushing ∷ us) s w = live us (flush gmtime_r s w).0 (flush gmtime_r s w).1
  live (moving_on ∷ us) s w = live us (move_stream s).0 (destroy gmtime_r (move_stream s).1 w)

  -- A stream that stands for a pending record of a logger.
  record Stands (logger : Logger W) (level : LogLevel) (s : LogStream W) (p : Pending)
      : Type 0 where
    valid : IsValid s
    holds : pending s ≡ p
    owner : s.logger ≡ some logger
    severity : s.level ≡ level

  flush-submit_held :
      (logger : Logger W) (level : LogLevel) (s : LogStream W) (p : Pending) (w : W)
      → Stands logger level s p
      → (flush gmtime_r s w).1 ≡ submit_held gmtime_r logger level p w
  unfolding flush
  flush-submit_held logger level s p w st =
      ap (λ l. submit_pending gmtime_r l s w) st.owner
      ∙ submit_pending-submit_held gmtime_r logger s w st.owner
      ∙ ap₂ (λ l q. submit_held gmtime_r logger l q w) st.severity st.holds

  flush-Stands :
      (logger : Logger W) (level : LogLevel) (s : LogStream W) (p : Pending) (w : W)
      → Stands logger level s p
      → Stands logger level (flush gmtime_r s w).0 (reset p)
  unfolding flush
  flush-Stands logger level s p w st =
      let (valid, fresh, again) = flush_fresh gmtime_r s w w st.valid in
      record {
        valid = valid;
        holds = fresh ∙ ap reset st.holds;
        owner = st.owner;
        severity = st.severity;
      }

  move-Stands :
      (logger : Logger W) (level : LogLevel) (s : LogStream W) (p : Pending) (w : W)
      → Stands logger level s p
      → Stands logger level (move_stream s).0 p
  unfolding move_stream
  move-Stands logger level s p w st =
      let moved = move_stream_lem gmtime_r s w st.valid in
      record {
        valid = moved.0;
        holds = moved.1 ∙ st.holds;
        owner = st.owner;
        severity = st.severity;
      }

  destroy-flush : (s : LogStream W) (w : W) → destroy gmtime_r s w ≡ (flush gmtime_r s w).1
  unfolding destroy
  destroy-flush s w = refl

  live-Stands :
      (us : List (Use F)) (logger : Logger W) (level : LogLevel) (s : LogStream W) (p : Pending)
      (w : W)
      → Stands logger level s p
      → live us s w ≡ submit_each gmtime_r logger level (messages f us p) w
  unfolding live messages
  live-Stands [] logger level s p w st =
      destroy-flush s w
      ∙ flush-submit_held logger level s p w st
      ∙ sym (submit_each-last gmtime_r logger level p w)
  live-Stands (inserting v ∷ us) logger level s p w st =
      let (valid, held) = pending-insert f v s st.valid in
      let keeps = insert-Keeps f v s in
      live-Stands us logger level (insert f v s) (push (text_of f v) p) w (record {
        valid = valid;
        holds = held ∙ ap (push (text_of f v)) st.holds;
        owner = keeps.logger ∙ st.owner;
        severity = keeps.level ∙ st.severity;
      })
  live-Stands (flushing ∷ us) logger level s p w st =
      live-Stands us logger level (flush gmtime_r s w).0 (reset p) (flush gmtime_r s w).1
        (flush-Stands logger level s p w st)
      ∙ ap (submit_each gmtime_r logger level (messages f us (reset p)))
          (flush-submit_held logger level s p w st)
      ∙ sym (submit_each-message_of gmtime_r logger level p (messages f us (reset p)) w)
  live-Stands (moving_on ∷ us) logger level s p w st =
      ap (live us (move_stream s).0) ((move_stream_lem gmtime_r s w st.valid).4)
      ∙ live-Stands us logger level (move_stream s).0 p w (move-Stands logger level s p w st)

  -- A stream that is opened, taken through any insertions, flushes and moves in any order, and
  -- destroyed, submits the messages that a text with the capacity of a stream would: at each flush and
  -- at the end what was inserted since the last flush, whole, or nothing where that is more than the
  -- capacity, or a value has no text, or the level is not enabled. A move changes nothing of this.
  pub live-messages :
      (us : List (Use F)) (logger : Logger W) (level : LogLevel) (w : W)
      → live us (open_stream logger level) w
        ≡ submit_each gmtime_r logger level
            (messages f us (if is_enabled logger level then holding [] else closed))
            w
  live-messages us logger level w =
      live-Stands us logger level (open_stream logger level) _ w (record {
        valid = open_stream-IsValid logger level;
        holds = pending-open_stream gmtime_r logger level;
        owner = open_stream-logger gmtime_r logger level;
        severity = open_stream-level gmtime_r logger level;
      })
