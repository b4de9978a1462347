-- ===== src/Log/Facade/Severities.antt =====
-- What the streams of the severities submit.
use adaptive_pi.Prelude.{◌≡◌, List}
use adaptive_pi.Log.Level.{LogLevel, k_fatal, k_error, k_warn, k_info, k_debug, k_verbose}
use adaptive_pi.Log.Timestamp.{Gmtime}
use adaptive_pi.Log.Logger.{Logger}
use adaptive_pi.Log.Stream.{LogStream, Floating, destroy}
use adaptive_pi.Log.Stream.Inserting.{Value, insert_all, texts}
use adaptive_pi.Log.Stream.Submitting.{submit_texts, destroy-insert_all}
use adaptive_pi.Log.Facade.{
  with_level, log_fatal, log_error, log_warn, log_info, log_debug, log_verbose,
}

module _ {W F : Type 0} (gmtime_r : Gmtime) (f : Floating F) (logger : Logger W)
    (vs : List (Value F)) (w : W) where
  -- A stream that is filled and destroyed submits its message at the given level.
  abbrev pub SubmitsAt : LogStream W → LogLevel → Type 0
  SubmitsAt s level =
      destroy gmtime_r (insert_all f vs s) w ≡ submit_texts gmtime_r logger level (texts f vs) w

  -- Each of the named streams, filled and destroyed, submits its message at the severity of its name, and
  -- WithLevel at the level that it is given.
  pub severities-SubmitsAt :
      (level : LogLevel)
      → SubmitsAt (with_level logger level) level
        × SubmitsAt (log_fatal logger) k_fatal
        × SubmitsAt (log_error logger) k_error
        × SubmitsAt (log_warn logger) k_warn
        × SubmitsAt (log_info logger) k_info
        × SubmitsAt (log_debug logger) k_debug
        × SubmitsAt (log_verbose logger) k_verbose
  unfolding with_level log_fatal log_error log_warn log_info log_debug log_verbose
  severities-SubmitsAt level = (
    destroy-insert_all gmtime_r f logger level vs w,
    destroy-insert_all gmtime_r f logger k_fatal vs w,
    destroy-insert_all gmtime_r f logger k_error vs w,
    destroy-insert_all gmtime_r f logger k_warn vs w,
    destroy-insert_all gmtime_r f logger k_info vs w,
    destroy-insert_all gmtime_r f logger k_debug vs w,
    destroy-insert_all gmtime_r f logger k_verbose vs w,
  )
