-- ===== src/Log/Stream/Submitting.antt =====
-- What a stream submits: by Flush, by its destructor, and after a move.
use adaptive_pi.Prelude.{
  ℕ, ◌≡◌, refl, ap, ◌∙◌, Bool, true, false, Option, none, some, List, [], Bytes, length,
  length-take, take, take-memcpy, length-memcpy, memcpy, leb, if◌then◌else◌, arith, Bool-cases, inl,
  inr, replicate, length-replicate, ◌==◌,
}
use mathlib.Core.Path.{ap₂}
use adaptive_pi.Log.Level.{LogLevel}
use adaptive_pi.Log.Timestamp.{Gmtime}
use adaptive_pi.Log.Logger.{Logger, is_enabled, submit}
use adaptive_pi.Log.Logger.Submission.{submit_suppressed}
use adaptive_pi.Log.Stream.{
  LogStream, Floating, c_message_capacity, open_stream, contents, flush, submit_pending, destroy,
  move_stream,
}
use adaptive_pi.Log.Stream.Pending.{Pending, closed, broken, holding, push, IsValid, pending}
use adaptive_pi.Log.Stream.Steps.{Appends, insert_all-Appends}
use adaptive_pi.Log.Stream.Inserting.{Value, insert_all, texts}

abbrev pub reset : Pending → Pending
reset closed = closed
reset broken = holding []
reset (holding t) = holding []

length-moved :
    (c : Bool) (t : Bytes)
    → length
        (if c then replicate c_message_capacity 0 else memcpy (replicate c_message_capacity 0) 0 t)
      ≡ c_message_capacity
length-moved true t = length-replicate c_message_capacity 0
length-moved false t =
    length-memcpy (replicate c_message_capacity 0) 0 t ∙ length-replicate c_message_capacity 0

module _ {W : Type 0} where
  pub open_stream-IsValid :
      (logger : Logger W) (level : LogLevel) → IsValid (open_stream logger level)
  unfolding open_stream
  open_stream-IsValid logger level = record {
    array = length-replicate c_message_capacity 0;
    bounded = omega arith;
  }

module _ {W : Type 0} (gmtime_r : Gmtime) where
  unfoldable pub submit_held : Logger W → LogLevel → Pending → W → W
  submit_held logger level closed w = w
  submit_held logger level broken w = w
  submit_held logger level (holding t) w = submit gmtime_r logger level t w

  contents-nil : (s : LogStream W) → (s.size == 0) ≡ true → contents s ≡ []
  unfolding contents
  contents-nil s h = let e : s.size ≡ 0 = ground arith in rw e

  pub submit_pending-submit_held :
      (logger : Logger W) (s : LogStream W) (w : W)
      → s.logger ≡ some logger
      → submit_pending gmtime_r (some logger) s w ≡ submit_held logger s.level (pending s) w
  unfolding submit_pending submit_held pending
  submit_pending-submit_held logger s w h =
      ground (arith, contents-nil s, submit_suppressed logger gmtime_r s.level [] w (inl refl))

  -- What is submitted of the texts of a row of insertions: their concatenation, if all have a text
  -- and the message fits.
  unfoldable pub submit_texts : Logger W → LogLevel → Option Bytes → W → W
  submit_texts logger level none w = w
  submit_texts logger level (some t) w =
      if leb (length t) c_message_capacity then submit gmtime_r logger level t w else w

  pub pending-open_stream :
      (logger : Logger W) (level : LogLevel)
      → pending (open_stream logger level)
        ≡ (if is_enabled logger level then holding [] else closed)
  unfolding pending open_stream contents
  pending-open_stream logger level = ground arith

  submit_held-submit_texts :
      (logger : Logger W) (level : LogLevel) (t : Option Bytes) (w : W)
      → submit_held logger level (push t (if is_enabled logger level then holding [] else closed)) w
        ≡ submit_texts logger level t w
  unfolding submit_held submit_texts push
  submit_held-submit_texts logger level none w = ground arith
  submit_held-submit_texts logger level (some t) w = elim (Bool-cases (is_enabled logger level)) [
    | inl e ↦ rw e (ground arith)
    | inr e ↦ rw (e, submit_suppressed logger gmtime_r level t w (inr e)) (ground arith)
  ]

  pub open_stream-logger :
      (logger : Logger W) (level : LogLevel) → (open_stream logger level).logger ≡ some logger
  unfolding open_stream
  open_stream-logger logger level = refl

  pub open_stream-level :
      (logger : Logger W) (level : LogLevel) → (open_stream logger level).level ≡ level
  unfolding open_stream
  open_stream-level logger level = refl

  submit_pending_empty :
      (logger : Option (Logger W)) (s : LogStream W) (w : W)
      → s.size ≡ 0
      → submit_pending gmtime_r logger s w ≡ w
  unfolding submit_pending
  submit_pending_empty none s w h = refl
  submit_pending_empty (some logger) s w h = ground arith

  -- A stream that is opened, taken through a step and destroyed submits the text of the step once,
  -- whole, or nothing.
  pub destroy-Appends :
      (logger : Logger W) (level : LogLevel) (step : LogStream W → LogStream W) (t : Option Bytes)
      (w : W)
      → Appends step t
      → destroy gmtime_r (step (open_stream logger level)) w ≡ submit_texts logger level t w
  unfolding destroy
  destroy-Appends logger level step t w a =
      let s = open_stream logger level in
      let (_, held, keeps) = a s (open_stream-IsValid logger level) in
      let owner : (step s).logger ≡ some logger = keeps.logger ∙ open_stream-logger logger level in
      let severity : (step s).level ≡ level = keeps.level ∙ open_stream-level logger level in
      ap (λ l. submit_pending gmtime_r l (step s) w) owner
      ∙ submit_pending-submit_held logger (step s) w owner
      ∙ ap₂ (λ l p. submit_held logger l p w) severity
          (held ∙ ap (push t) (pending-open_stream logger level))
      ∙ submit_held-submit_texts logger level t w

  -- A stream that is opened, filled with a row of values and destroyed submits the concatenation of
  -- their texts in one call, if all have a text and it fits the capacity, and otherwise nothing.
  pub destroy-insert_all :
      {F : Type 0} (f : Floating F) (logger : Logger W) (level : LogLevel) (vs : List (Value F))
      (w : W)
      → destroy gmtime_r (insert_all f vs (open_stream logger level)) w
        ≡ submit_texts logger level (texts f vs) w
  destroy-insert_all f logger level vs w =
      destroy-Appends logger level (insert_all f vs) (texts f vs) w (insert_all-Appends f vs)

  -- After the flush of a valid stream nothing is pending, and a broken record is open again; a
  -- second flush leaves the world alone.
  pub flush_fresh :
      (s : LogStream W) (w u : W)
      → IsValid s
      → IsValid (flush gmtime_r s w).0
        × (pending (flush gmtime_r s w).0 ≡ reset (pending s))
        × ((flush gmtime_r (flush gmtime_r s w).0 u).1 ≡ u)
  unfolding flush pending contents
  flush_fresh s w u v = (
    record { array = v.array; bounded = omega arith },
    ground arith,
    submit_pending_empty s.logger (record s { size = 0; failed = false }) u refl,
  )

  contents-move_stream : (s : LogStream W) → IsValid s → contents (move_stream s).0 ≡ contents s
  unfolding contents move_stream
  contents-move_stream s v = elim (Bool-cases (s.size == 0)) [
    | inl e ↦ let z : s.size ≡ 0 = ground arith in rw z
    | inr e ↦ rw e (
        take-memcpy (replicate c_message_capacity 0) 0 s.size (take s.size s.buffer)
          (omega (arith, length-take s.size s.buffer (omega (arith, v.array, v.bounded))))
          (omega (arith, v.bounded, length-replicate {0} {A = ℕ} c_message_capacity 0)))
  ]

  -- The move of a valid stream hands the pending record over: destroying the new stream does what
  -- destroying the old one would have done, and destroying what is left of the old one does
  -- nothing.
  pub move_stream_lem :
      (s : LogStream W) (w : W)
      → IsValid s
      → IsValid (move_stream s).0
        × (pending (move_stream s).0 ≡ pending s)
        × (pending (move_stream s).1 ≡ closed)
        × (destroy gmtime_r (move_stream s).0 w ≡ destroy gmtime_r s w)
        × (destroy gmtime_r (move_stream s).1 w ≡ w)
  unfolding move_stream pending destroy submit_pending
  move_stream_lem s w v = (
    record { array = length-moved (s.size == 0) (take s.size s.buffer); bounded = v.bounded },
    ground (arith, contents-move_stream s v),
    refl,
    ground (arith, contents-move_stream s v),
    refl,
  )
