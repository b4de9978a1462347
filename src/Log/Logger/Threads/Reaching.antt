-- ===== src/Log/Logger/Threads/Reaching.antt =====
-- The states of threads that log at the same time.
use adaptive_pi.Prelude.{ℕ, List, [], ◌∷◌, ◌++◌, Bytes, ◌==◌, if◌then◌else◌}
use adaptive_pi.Prelude.Updates.{update}
use adaptive_pi.Log.Level.{LogLevel}
use adaptive_pi.Log.Timestamp.{Gmtime}
use adaptive_pi.Log.Logger.{Logger}
use adaptive_pi.Log.Logger.Threads.{Place, outside, rendered, Act}

-- The threads, with what is no part of the program: the records that were written, each with its thread, in
-- order, and those that each thread has rendered.
pub record Logging (W : Type 0) : Type 0 where
  pub world : W
  pub place : ℕ → Place W
  pub written : List (ℕ × Bytes)
  pub made : ℕ → List Bytes

abbrev pub texts_of : List (ℕ × Bytes) → List Bytes
texts_of [] = []
texts_of ((i, r) ∷ ws) = r ∷ texts_of ws

-- Of the records that were written, those of one thread.
unfoldable pub of_thread : ℕ → List (ℕ × Bytes) → List Bytes
of_thread i [] = []
of_thread i ((j, r) ∷ ws) = let rest = of_thread i ws in if i == j then r ∷ rest else rest

module _ {W : Type 0} where
  -- The record that a thread has still to write.
  abbrev pub held : Place W → List Bytes
  held outside = []
  held (rendered logger bytes) = bytes ∷ []

  -- What a move from `p` writes, and what a move to `p'` has rendered.
  abbrev pub emitted : ℕ → Place W → List (ℕ × Bytes)
  emitted i outside = []
  emitted i (rendered logger bytes) = (i, bytes) ∷ []

  pub data LogStep (gmtime_r : Gmtime) (logger : ℕ → Logger W) (s : Logging W)
      : Logging W → Type 0 where
    act :
        (i k : ℕ) (level : LogLevel) (message : Bytes) {w : W} {p : Place W}
        → Act gmtime_r (logger k) level message s.world (s.place i) w p
        → LogStep gmtime_r logger s (record {
          world = w;
          place = update s.place i p;
          written = s.written ++ emitted i (s.place i);
          made = update s.made i (s.made i ++ held p);
        })

  pub data LogReach (gmtime_r : Gmtime) (logger : ℕ → Logger W) (w : W) : Logging W → Type 0 where
    begin :
        LogReach gmtime_r logger w
          (record { world = w; place = λ i. outside; written = []; made = λ i. [] })
    afterwards :
        {s t : Logging W}
        → LogReach gmtime_r logger w s
        → LogStep gmtime_r logger s t
        → LogReach gmtime_r logger w t
