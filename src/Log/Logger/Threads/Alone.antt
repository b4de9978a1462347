-- ===== src/Log/Logger/Threads/Alone.antt =====
-- A thread that is not interrupted does what Submit does.
use adaptive_pi.Prelude.{
  ◌≡◌, refl, Bool, true, false, not, ◌||◌, Bytes, is_empty, Bool-cases, inl, inr,
}
use mathlib.Core.Path.{subst}
use adaptive_pi.Log.Level.{LogLevel}
use adaptive_pi.Log.Metadata.{Reading, returns, throws, zero_metadata}
use adaptive_pi.Log.RecordBuffer.{RecordBuffer, empty}
use adaptive_pi.Log.Timestamp.{Gmtime}
use adaptive_pi.Log.Console.{render_console_record}
use adaptive_pi.Log.Logger.{Logger, context_id, is_enabled, submit, after_reading, write_rendered}
use adaptive_pi.Log.Logger.Threads.{
  Place, outside, Act, suppress, miss_metadata, contain_exception, reject_record, render, write,
}

module _ {W : Type 0} (gmtime_r : Gmtime) (logger : Logger W) (level : LogLevel)
    (message : Bytes) where
  -- The moves of one call, one after the other.
  pub data Acts (w : W) (p : Place W) : W → Place W → Type 0 where
    once : {w' : W} {p' : Place W} → Act gmtime_r logger level message w p w' p' → Acts w p w' p'
    twice :
        {w' w'' : W} {p' p'' : Place W}
        → Act gmtime_r logger level message w p w' p'
        → Act gmtime_r logger level message w' p' w'' p''
        → Acts w p w'' p''

  rendering-Acts :
      (w w' : W) (r : Bool × RecordBuffer) {m : _}
      → (is_empty message || not (is_enabled logger level)) ≡ false
      → logger.metadata_provider.read zero_metadata w ≡ (returns true m, w')
      → render_console_record gmtime_r m level (context_id logger) message empty ≡ r
      → Acts w outside (write_rendered logger r w') outside
  unfolding write_rendered
  rendering-Acts w w' (false, output) g e k = once (reject_record g e k)
  rendering-Acts w w' (true, output) g e k = twice (render g e k) write

  reading-Acts :
      (w : W) (r : Reading × W)
      → (is_empty message || not (is_enabled logger level)) ≡ false
      → logger.metadata_provider.read zero_metadata w ≡ r
      → Acts w outside (after_reading gmtime_r logger level message r) outside
  unfolding after_reading
  reading-Acts w (throws, w') g e = once (contain_exception g e)
  reading-Acts w (returns false m, w') g e = once (miss_metadata g e)
  reading-Acts w (returns true m, w') g e = rendering-Acts w w' _ g e refl

  -- A call of Submit that nothing interrupts is one move or two, a reading that renders the record and its
  -- write, and they leave the world as Submit does.
  pub submit-Acts : (w : W) → Acts w outside (submit gmtime_r logger level message w) outside
  unfolding submit
  submit-Acts w = elim (Bool-cases (is_empty message || not (is_enabled logger level))) [
    | inl e ↦ subst (λ u. Acts w outside u outside) (rw e) (once (suppress e))
    | inr e ↦ subst (λ u. Acts w outside u outside) (rw e) (reading-Acts w _ e refl)
  ]
