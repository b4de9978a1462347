-- ===== src/Log/Facade/Sharing.antt =====
-- Threads that log through the console sink and the Linux provider of the process-wide registry.
use adaptive_pi.Prelude.{ℕ, ◌≡◌, refl, sym, ap, ◌∙◌, [], ◌∷◌, ◌++◌, append-nil, Bytes}
use adaptive_pi.Log.Metadata.{Clock}
use adaptive_pi.Log.Sink.{console_sink, console_write, console_write-fwrite}
use adaptive_pi.Log.Timestamp.{Gmtime}
use adaptive_pi.Log.Console.Splitting.{split_lines}
use adaptive_pi.Log.Logger.{Logger}
use adaptive_pi.Log.Logger.Threads.Reaching.{Logging, texts_of, of_thread, held, LogReach}
use adaptive_pi.Log.Logger.Threads.Output.{IsOutput, LogReach-records}
use adaptive_pi.Log.Facade.{linux_provider, linux_provider_lem}

module _ {W : Type 0} (fwrite : Bytes → W → ℕ × W) (ask : W → Clock × W) (stdout : W → Bytes) where
  -- `fwrite` succeeds and appends what it is given; the kernel writes nothing when it is asked.
  pub record IsConsole : Type 0 where
    pub appends : (bytes : Bytes) (w : W) → stdout (fwrite bytes w).1 ≡ stdout w ++ bytes
    pub silent : (w : W) → stdout (ask w).1 ≡ stdout w

  console_write-appends :
      IsConsole
      → (bytes : Bytes) (w : W) → stdout (console_write fwrite bytes w).1 ≡ stdout w ++ bytes
  unfolding console_write
  console_write-appends law [] w = sym (append-nil (stdout w))
  console_write-appends law (c ∷ bytes) w =
      ap stdout (console_write-fwrite fwrite (c ∷ bytes) w refl) ∙ law.appends (c ∷ bytes) w

  console-IsOutput :
      (gmtime_r : Gmtime) (logger : ℕ → Logger W)
      → IsConsole
      → ((k : ℕ) → (logger k).sink ≡ console_sink fwrite)
      → ((k : ℕ) → (logger k).metadata_provider ≡ linux_provider ask)
      → IsOutput gmtime_r logger stdout
  console-IsOutput gmtime_r logger law s p = record {
    writes =
        λ k bytes w. ap (λ t. stdout (t.write bytes w).1) (s k) ∙ console_write-appends law bytes w;
    reads = λ k m w.
        ap (λ t. stdout (t.read m w).1) (p k)
        ∙ ap (λ q. stdout q.1) (linux_provider_lem ask m w)
        ∙ law.silent w;
  }

  -- Threads log through any loggers with the console sink and the Linux provider, however they
  -- interleave, on a standard output that was empty, where `fwrite` succeeds: the lines of the output are the
  -- records that were written, in order, none torn or mixed with another; and what a thread has rendered was
  -- written once, in its order, but for the one record that it has still to write.
  pub LogReach-lines :
      (gmtime_r : Gmtime) (logger : ℕ → Logger W) {w : W} {s : Logging W}
      → IsConsole
      → ((k : ℕ) → (logger k).sink ≡ console_sink fwrite)
      → ((k : ℕ) → (logger k).metadata_provider ≡ linux_provider ask)
      → stdout w ≡ []
      → LogReach gmtime_r logger w s
      → (split_lines (stdout s.world) ≡ (texts_of s.written, []))
        × ((i : ℕ) → s.made i ≡ of_thread i s.written ++ held (s.place i))
  LogReach-lines gmtime_r logger law s p e r =
      LogReach-records gmtime_r logger stdout (console-IsOutput gmtime_r logger law s p) e r
