-- ===== src/Log/RecordBuffer/Appending.antt =====
-- Functions that append to a record and report by a Bool whether they could, as every step of
-- console_record_formatter.cpp does, and their composition by `&&`.
use adaptive_pi.Prelude.{
  ◌+◌, ◌-◌, ◌≤◌, ◌<◌, ◌≡◌, refl, ap, Bool, true, false, Option, none, some, [], ◌∷◌, ◌++◌,
  append_assoc, append-nil, Bytes, length, length-append, length-memcpy, take-memcpy, ltb, memcpy,
  is_empty, if◌then◌else◌, Bool-cases, inl, inr, ltb→lt, arith, sym, ◌∙◌,
}
use adaptive_pi.Log.RecordBuffer.{
  RecordBuffer, c_record_capacity, append, view, IsValid, length-view,
}

abbrev pub Appender : Type 0
Appender = RecordBuffer → Bool × RecordBuffer

-- `f(output) && g(output)`: `g` runs only if `f` returned true.
abbrev pub and_then : Bool × RecordBuffer → Appender → Bool × RecordBuffer
and_then (true, b) g = g b
and_then (false, b) g = (false, b)

infixr 36 ◌&&&◌
abbrev pub ◌&&&◌ : Appender → Appender → Appender
(f &&& g) b = and_then (f b) g

-- The outcome of appending a text to the record `b`; no text stands for a step that must fail.
pub data Appended (b : RecordBuffer) : Option Bytes → Bool × RecordBuffer → Type 0 where
  wrote :
      {t : Bytes} {b' : RecordBuffer}
      → IsValid b'
      → view b' ≡ view b ++ t
      → Appended b (some t) (true, b')
  full :
      {t : Bytes} {b' : RecordBuffer}
      → IsValid b'
      → c_record_capacity < length (view b) + length t
      → Appended b (some t) (false, b')
  failed : {b' : RecordBuffer} → IsValid b' → Appended b none (false, b')

-- The step appends the text whole, or fails: because there is no text, or because it does not fit.
abbrev pub Appends : Appender → Option Bytes → Type 0
Appends f text = (b : RecordBuffer) → IsValid b → Appended b text (f b)

abbrev pub join : Option Bytes → Option Bytes → Option Bytes
join none t = none
join (some s) none = none
join (some s) (some t) = some (s ++ t)

-- `Append` writes the whole value when it fits and otherwise changes nothing.
pub append-Appends : (value : Bytes) → Appends (append value) (some value)
unfolding append view
append-Appends value b v = elim (Bool-cases (ltb (c_record_capacity - b.size) (length value))) [
  | inl over ↦ rw over (full v (omega (arith, length-view v, ltb→lt _ _ over)))
  | inr fits ↦ rw fits (written value fits)
]
  where
    written :
        (t : Bytes)
        → ltb (c_record_capacity - b.size) (length t) ≡ false
        → Appended b (some t) (
            if is_empty t
            then (true, b)
            else (true, record { buffer = memcpy b.buffer b.size t; size = b.size + length t }))
    written [] _ = wrote {t = []} v (sym (append-nil _))
    written (c ∷ t) fits =
        let room : b.size + length (c ∷ t) ≤ c_record_capacity = ground arith in
        wrote (record { array = length-memcpy b.buffer b.size (c ∷ t) ∙ v.array; bounded = room })
          (take-memcpy b.buffer b.size _ (c ∷ t) refl (omega (arith, v.array)))

-- On a valid buffer `Append` writes a value whole behind the record and returns true, or returns
-- false; then the value did not fit.
pub append-Appended :
    (value : Bytes) (b : RecordBuffer) → IsValid b → Appended b (some value) (append value b)
append-Appended value b v = append-Appends value b v

&&&-Appended :
    {b : RecordBuffer} {s t : Option Bytes} {r : Bool × RecordBuffer} {g : Appender}
    → Appended b s r
    → Appends g t
    → Appended b (join s t) (and_then r g)
&&&-Appended {b} (wrote {t = s} {b'} v e) next = after (next b' v)
  where
    after :
        {t : Option Bytes} {r : Bool × RecordBuffer}
        → Appended b' t r
        → Appended b (join (some s) t) r
    after (wrote {t} w e') =
        wrote {t = s ++ t} w (e' ∙ ap (λ r. r ++ t) e ∙ append_assoc (view b) s t)
    after (full {t} w h) =
        full {t = s ++ t} w
          (omega (arith, length-append {0} s t, length-append {0} (view b) s, ap length e))
    after (failed w) = failed w
&&&-Appended {t = none} (full v h) next = failed v
&&&-Appended {t = some t} (full {t = s} v h) next = full v (omega (arith, length-append {0} s t))
&&&-Appended (failed v) next = failed v

-- The composition of two steps appends the two texts, one behind the other.
pub &&&-Appends :
    {f g : Appender} {s t : Option Bytes} → Appends f s → Appends g t → Appends (f &&& g) (join s t)
&&&-Appends p q b v = &&&-Appended (p b v) q

-- What a step that returned true has appended.
pub Appended_true :
    {b b' : RecordBuffer} {o : Option Bytes} {r : Bool × RecordBuffer}
    → Appended b o r
    → r ≡ (true, b')
    → (t : Bytes) × (o ≡ some t) × (view b' ≡ view b ++ t) × IsValid b'
Appended_true {b} (wrote {t} {b' = c} v e) h =
    let same : c ≡ _ = ap (λ r. r.1) h in (t, refl, rw (← same) e, rw (← same) v)
Appended_true (full v h) e = absurd (cc (ap (λ r. r.0) e))
Appended_true (failed v) e = absurd (cc (ap (λ r. r.0) e))

-- A text that fits is not refused.
pub Appended_fits :
    {b : RecordBuffer} {t : Bytes} {r : Bool × RecordBuffer}
    → Appended b (some t) r
    → length (view b) + length t ≤ c_record_capacity
    → r ≡ (true, r.1)
Appended_fits (wrote v e) h = refl
Appended_fits (full v over) h = absurd (omega arith)
