-- ===== src/Log/Modelled/Payload.antt =====
-- What a modelled message submits, and where it is routed.
use adaptive_pi.Prelude.{
  ◌≡◌, refl, sym, ap, false, Option, none, some, List, Bytes, codes, if◌then◌else◌, arith,
  Bool-cases, inl, inr,
}
use adaptive_pi.Log.Level.{LogLevel}
use adaptive_pi.Log.Timestamp.{Gmtime}
use adaptive_pi.Log.Logger.{Logger, is_enabled}
use adaptive_pi.Log.Logger.Submission.{submit_suppressed}
use adaptive_pi.Log.Stream.{Floating, insert_view}
use adaptive_pi.Log.Stream.Steps.{Appends, concat, Appends-then}
use adaptive_pi.Log.Stream.Submitting.{submit_texts, destroy-Appends}
use adaptive_pi.Log.Writer.Spacing.{NeverEmpty, stream_of, written_texts, write_all-written_texts}
use adaptive_pi.Log.Attributes.{Attribute, append_attributes}
use adaptive_pi.Log.Attributes.Quoting.{
  HaveLines, attributes_text, append_attributes-Appends, insert_view-Appends,
}
use adaptive_pi.Log.Modelled.{Message, fill, log_to_logger, log_with}

-- "id=", the identifier, the text behind one space, the attributes.
unfoldable pub payload : {F : Type 0} → Floating F → List Attribute → Message F → Option Bytes
payload f attributes message = concat (some (codes "id=")) (
    concat (some message.id)
      (concat (written_texts f false message.rendered) (some (attributes_text attributes))))

module _ {W F : Type 0} (gmtime_r : Gmtime) (f : Floating F) (law : NeverEmpty f) where
  pub fill-payload :
      (attributes : List Attribute) (message : Message F)
      → HaveLines attributes
      → Appends {W = W} (fill gmtime_r f attributes message) (payload f attributes message)
  unfolding fill payload stream_of
  fill-payload attributes message h =
      Appends-then (insert_view (codes "id=")) _ (some (codes "id=")) _
        (insert_view-Appends (codes "id="))
        (Appends-then (insert_view message.id) _ (some message.id) _
          (insert_view-Appends message.id)
          (Appends-then (stream_of f false message.rendered) (append_attributes attributes) _ _
            (write_all-written_texts f law message.rendered)
            (append_attributes-Appends attributes h)))

  submit_texts_disabled :
      (logger : Logger W) (level : LogLevel) (t : Option Bytes) (w : W)
      → is_enabled logger level ≡ false
      → submit_texts gmtime_r logger level t w ≡ w
  unfolding submit_texts
  submit_texts_disabled logger level none w h = refl
  submit_texts_disabled logger level (some t) w h =
      ground (arith, submit_suppressed logger gmtime_r level t w (inr h))

  log_to_logger-submit_texts :
      (logger : Logger W) (attributes : List Attribute) (message : Message F) (w : W)
      → HaveLines attributes
      → log_to_logger gmtime_r f logger attributes message w
        ≡ submit_texts gmtime_r logger message.level (payload f attributes message) w
  unfolding log_to_logger
  log_to_logger-submit_texts logger attributes message w h =
      elim (Bool-cases (is_enabled logger message.level)) [
        | inl e ↦ rw e (
            destroy-Appends gmtime_r logger message.level (fill gmtime_r f attributes message)
              (payload f attributes message) w (fill-payload attributes message h))
        | inr e ↦
            rw e
              (sym (submit_texts_disabled logger message.level (payload f attributes message) w e))
      ]

  -- Where a message is routed to the logger, its payload is submitted in one call at its level, if
  -- it has one that fits the capacity of a stream, and otherwise nothing is; then the trace is
  -- called, where the message is routed to it, whatever became of the record. The lines of the
  -- attributes have 32 bits, and the formatter of floating-point numbers never writes an empty
  -- text.
  pub log_with-payload :
      (trace_arti : Message F → W → W) (logger : Logger W) (attributes : List Attribute)
      (message : Message F) (w : W)
      → HaveLines attributes
      → log_with gmtime_r f trace_arti logger attributes message w ≡ (
          let logged =
            if message.routing.logger_enabled
            then submit_texts gmtime_r logger message.level (payload f attributes message) w
            else w in
          if message.routing.trace_enabled then trace_arti message logged else logged)
  unfolding log_with
  log_with-payload trace_arti logger attributes message w h =
      ap
        (λ u.
          let logged = if message.routing.logger_enabled then u else w in
          if message.routing.trace_enabled then trace_arti message logged else logged)
        (log_to_logger-submit_texts logger attributes message w h)
