-- ===== src/Log/Logger/Threads/Output.antt =====
-- What threads that log at the same time leave on the output.
use adaptive_pi.Prelude.{
  ℕ, ◌≡◌, ◌≢◌, refl, sym, ap, ◌∙◌, List, [], ◌∷◌, ◌++◌, append_assoc, append-nil, Bytes, arith,
}
use mathlib.Core.Path.{subst}
use adaptive_pi.Prelude.Updates.{update, update-all, update_self, update-other}
use adaptive_pi.Log.Level.{LogLevel}
use adaptive_pi.Log.Metadata.{RuntimeMetadata, zero_metadata}
use adaptive_pi.Log.RecordBuffer.{empty, view-empty, empty-IsValid}
use adaptive_pi.Log.Timestamp.{Gmtime}
use adaptive_pi.Log.Console.Lines.{render_console_record-IsLine}
use adaptive_pi.Log.Console.Splitting.{
  AllLines, joined_records, split_lines, split_lines-joined_records,
}
use adaptive_pi.Log.Logger.Threads.Reaching.{
  Logging, texts_of, of_thread, held, emitted, LogStep, act, LogReach, begin, afterwards,
}
use adaptive_pi.Log.Logger.{Logger, context_id}
use adaptive_pi.Log.Logger.Threads.{
  Place, outside, rendered, Act, suppress, miss_metadata, contain_exception, reject_record, render,
  write,
}

texts_of_append : (a b : List (ℕ × Bytes)) → texts_of (a ++ b) ≡ texts_of a ++ texts_of b
texts_of_append [] b = refl
texts_of_append ((i, r) ∷ a) b = ap (λ l. r ∷ l) (texts_of_append a b)

joined_records_append :
    (a b : List Bytes) → joined_records (a ++ b) ≡ joined_records a ++ joined_records b
joined_records_append [] b = refl
joined_records_append (r ∷ a) b =
    ap (λ l. r ++ l) (joined_records_append a b)
    ∙ sym (append_assoc r (joined_records a) (joined_records b))

AllLines_append : (a b : List Bytes) → AllLines a → AllLines b → AllLines (a ++ b)
AllLines_append [] b h k = k
AllLines_append (r ∷ a) b (l, h) k = (l, AllLines_append a b h k)

of_thread_append :
    (i : ℕ) (a b : List (ℕ × Bytes)) → of_thread i (a ++ b) ≡ of_thread i a ++ of_thread i b
unfolding of_thread
of_thread_append i [] b = refl
of_thread_append i ((j, r) ∷ a) b = ground (arith, of_thread_append i a b)

module _ {W : Type 0} (gmtime_r : Gmtime) (logger : ℕ → Logger W) (stdout : W → Bytes) where
  -- The writes of the sinks succeed, each as a whole, and the readings write nothing.
  pub record IsOutput : Type 0 where
    pub writes :
        (k : ℕ) (bytes : Bytes) (w : W)
        → stdout ((logger k).sink.write bytes w).1 ≡ stdout w ++ bytes
    pub reads :
        (k : ℕ) (m : RuntimeMetadata) (w : W)
        → stdout ((logger k).metadata_provider.read m w).1 ≡ stdout w

  record LogInv (w : W) (s : Logging W) : Type 0 where
    out : stdout s.world ≡ stdout w ++ joined_records (texts_of s.written)
    lines : AllLines (texts_of s.written)
    pending : (i : ℕ) → AllLines (held (s.place i))
    order : (i : ℕ) → s.made i ≡ of_thread i s.written ++ held (s.place i)

  emitted-held : (i : ℕ) (p : Place W) → texts_of (emitted i p) ≡ held p
  emitted-held i outside = refl
  emitted-held i (rendered l bytes) = refl

  own-emitted : (i : ℕ) (p : Place W) → of_thread i (emitted i p) ≡ held p
  unfolding of_thread
  own-emitted i outside = refl
  own-emitted i (rendered l bytes) = ground arith

  other-emitted : (i j : ℕ) (p : Place W) → j ≢ i → of_thread j (emitted i p) ≡ []
  unfolding of_thread
  other-emitted i j outside n = refl
  other-emitted i j (rendered l bytes) n = ground arith

  after_read :
      (k : ℕ) {w w' : W} {r : _}
      → IsOutput
      → (logger k).metadata_provider.read zero_metadata w ≡ (r, w')
      → stdout w' ≡ stdout w ++ []
  after_read k {w} law e =
      ap (λ q. stdout q.1) (sym e) ∙ law.reads k zero_metadata w ∙ sym (append-nil (stdout w))

  Act-out :
      (i : ℕ) {k : ℕ} {level : LogLevel} {message : Bytes} {w w' : W} {p p' : Place W}
      → IsOutput
      → Act gmtime_r (logger k) level message w p w' p'
      → stdout w' ≡ stdout w ++ joined_records (texts_of (emitted i p))
  Act-out i {w = w} law (suppress g) = sym (append-nil (stdout w))
  Act-out i {k = k} law (miss_metadata g e) = after_read k law e
  Act-out i {k = k} law (contain_exception g e) = after_read k law e
  Act-out i {k = k} law (reject_record g e x) = after_read k law e
  Act-out i {k = k} law (render g e x) = after_read k law e
  Act-out i {k = k} {w = w} law (write {bytes = bytes}) =
      law.writes k bytes w ∙ ap (λ r. stdout w ++ r) (sym (append-nil bytes))

  Act-lines :
      {k : ℕ} {level : LogLevel} {message : Bytes} {w w' : W} {p p' : Place W}
      → Act gmtime_r (logger k) level message w p w' p'
      → AllLines (held p')
  Act-lines (suppress g) = tt
  Act-lines (miss_metadata g e) = tt
  Act-lines (contain_exception g e) = tt
  Act-lines (reject_record g e x) = tt
  Act-lines {k} {level} {message} (render {m = m} {output = b} g e x) = (
    render_console_record-IsLine gmtime_r m level (context_id (logger k)) message empty b
        empty-IsValid view-empty x,
    tt,
  )
  Act-lines write = tt

  own-order :
      (i : ℕ) (ws : List (ℕ × Bytes)) (p p' : Place W) (ms : List Bytes)
      → ms ≡ of_thread i ws ++ held p
      → ms ++ held p' ≡ of_thread i (ws ++ emitted i p) ++ held p'
  own-order i ws p p' ms h =
      ap (λ l. l ++ held p')
        (h
          ∙ ap (λ l. of_thread i ws ++ l) (sym (own-emitted i p))
          ∙ sym (of_thread_append i ws (emitted i p)))

  other-order :
      (i j : ℕ) (ws : List (ℕ × Bytes)) (p : Place W)
      → j ≢ i
      → of_thread j ws ≡ of_thread j (ws ++ emitted i p)
  other-order i j ws p n =
      sym (append-nil (of_thread j ws))
      ∙ ap (λ l. of_thread j ws ++ l) (sym (other-emitted i j p n))
      ∙ sym (of_thread_append j ws (emitted i p))

  LogStep-LogInv :
      {w : W} {s t : Logging W} → IsOutput → LogStep gmtime_r logger s t → LogInv w s → LogInv w t
  LogStep-LogInv {w} {s} law (act i k level message {p = p} a) inv = record {
    out =
        Act-out i law a
        ∙ ap (λ o. o ++ joined_records (texts_of (emitted i (s.place i)))) inv.out
        ∙ append_assoc (stdout w) (joined_records (texts_of s.written)) _
        ∙ ap (λ l. stdout w ++ l)
            (sym (joined_records_append (texts_of s.written) (texts_of (emitted i (s.place i)))))
        ∙ ap (λ l. stdout w ++ joined_records l)
            (sym (texts_of_append s.written (emitted i (s.place i))));
    lines = subst AllLines (sym (texts_of_append s.written (emitted i (s.place i)))) (
        AllLines_append (texts_of s.written) _ inv.lines
          (subst AllLines (sym (emitted-held i (s.place i))) (inv.pending i)));
    pending =
        update-all (λ j q. AllLines (held q)) s.place i p (Act-lines a) (λ j n. inv.pending j);
    order =
        update-all
          (λ j q.
            update s.made i (s.made i ++ held p) j
            ≡ of_thread j (s.written ++ emitted i (s.place i)) ++ held q)
          s.place i p
          (update_self s.made i (s.made i ++ held p)
            ∙ own-order i s.written (s.place i) p (s.made i) (inv.order i))
          (λ j n.
            update-other s.made i (s.made i ++ held p) j n
            ∙ inv.order j
            ∙ ap (λ l. l ++ held (s.place j)) (other-order i j s.written (s.place i) n));
  }

  LogReach-LogInv : {w : W} {s : Logging W} → IsOutput → LogReach gmtime_r logger w s → LogInv w s
  unfolding of_thread
  LogReach-LogInv {w} law begin = record {
    out = sym (append-nil (stdout w));
    lines = tt;
    pending = λ i. tt;
    order = λ i. refl;
  }
  LogReach-LogInv law (afterwards r st) = LogStep-LogInv law st (LogReach-LogInv law r)

  -- However threads interleave that log through any loggers, on an output that was empty, with sinks whose
  -- writes succeed as a whole: the lines of the output are the records that were written, in order, none
  -- torn or mixed with another; and what a thread has rendered was written once, in its order, but for the one
  -- record that it has still to write.
  pub LogReach-records :
      {w : W} {s : Logging W}
      → IsOutput
      → stdout w ≡ []
      → LogReach gmtime_r logger w s
      → (split_lines (stdout s.world) ≡ (texts_of s.written, []))
        × ((i : ℕ) → s.made i ≡ of_thread i s.written ++ held (s.place i))
  LogReach-records {w} {s} law e r =
      let inv = LogReach-LogInv law r in
      (
        ap split_lines (inv.out ∙ ap (λ o. o ++ joined_records (texts_of s.written)) e)
            ∙ split_lines-joined_records (texts_of s.written) inv.lines,
        inv.order,
      )
