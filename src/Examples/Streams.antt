-- ===== src/Examples/Streams.antt =====
-- Streams, writers, attributes and modelled messages at concrete values.
use adaptive_pi.Prelude.{
  ℕ, ◌≡◌, ◌≢◌, ◌↔◌, ◌≤◌, refl, ap, ◌∙◌, Bool, true, false, Option, none, some, List, [], ◌∷◌, ◌++◌,
  Bytes, codes, arith, length, length-replicate, if◌then◌else◌,
}
use adaptive_pi.Prelude.Int.{negsuc}
use adaptive_pi.Prelude.Decimal.{decimal_ℤ}
use adaptive_pi.Log.Level.{k_warn, k_info}
use adaptive_pi.Log.Stream.{
  LogStream, Floating, c_message_capacity, open_stream, flush, move_stream, destroy,
}
use adaptive_pi.Log.Logger.{is_enabled}
use adaptive_pi.Log.Logger.Submission.{submit_enabled}
use adaptive_pi.Log.Stream.Values.{int8}
use adaptive_pi.Log.Stream.Pending.{closed, holding, push, IsValid, pending}
use adaptive_pi.Log.Stream.Inserting.{
  Value, view, c_string, char, bool, integer, floating, insert, insert_all, text_of, texts,
  pending-insert,
}
use adaptive_pi.Log.Stream.Living.{
  Use, inserting, flushing, moving_on, messages, live, submit_each, live-messages,
}
use adaptive_pi.Log.Stream.Submitting.{
  submit_texts, open_stream-IsValid, pending-open_stream, destroy-insert_all, move_stream_lem,
}
use adaptive_pi.Log.Writer.{write_all}
use adaptive_pi.Log.Writer.Spacing.{NeverEmpty, written_texts, pending-write_all}
use adaptive_pi.Log.Attributes.{Attribute, location, tag, append_attributes}
use adaptive_pi.Log.Attributes.Reading.{read_attributes, append_attributes-read_attributes}
use adaptive_pi.Log.Attributes.Quoting.{attributes_text}
use adaptive_pi.Log.Modelled.{Message, default_routing, fill, log_with, is_valid_message_id}
use adaptive_pi.Log.Modelled.Payload.{payload, fill-payload, log_with-payload}
use adaptive_pi.Log.Modelled.Checks.{read_id, read_id-fill}
use adaptive_pi.Examples.Records.{World, net, stopped_clock, enabled, emitted}

-- A floating-point type with the values 1.5 and the two infinities.
pub data Tiny : Type 0 where
  one_and_a_half above_all below_all : Tiny

abbrev pub tiny : Floating Tiny
tiny = record {
  is_nan = λ x. false;
  is_inf = λ x. elim x [ one_and_a_half ↦ false | _ ↦ true ];
  sign_bit = λ x. elim x [ below_all ↦ true | _ ↦ false ];
  max_digits10 = 9;
  to_chars = λ size precision x. some (codes "1.5");
}

pub tiny-NeverEmpty : NeverEmpty tiny
tiny-NeverEmpty x h = cc h

-- A stream of the logger `net` that has taken nothing.
abbrev fresh : LogStream World
fresh = open_stream net k_warn

abbrev fresh-IsValid : IsValid fresh
fresh-IsValid = open_stream-IsValid net k_warn

abbrev pub row : List (Value Tiny)
row =
    view (codes "n=")
    ∷ integer int8 (negsuc 127)
    ∷ bool true
    ∷ floating below_all
    ∷ char b'!'
    ∷ c_string (some (codes "end"))
    ∷ []

pub row_text : texts tiny row ≡ some (codes "n=-128true-inf!end")
unfolding texts adaptive_pi.Prelude.Decimal.to_chars adaptive_pi.Log.Stream.until_null
row_text = refl

pending-insert_example :
    IsValid (insert tiny (c_string none) fresh)
    × (pending (insert tiny (c_string none) fresh)
        ≡ push (text_of tiny (c_string none)) (pending fresh))
pending-insert_example = pending-insert tiny (c_string none) fresh fresh-IsValid

destroy-insert_all_example :
    destroy stopped_clock (insert_all tiny row (open_stream net k_warn)) []
    ≡ submit_texts stopped_clock net k_warn (texts tiny row) []
destroy-insert_all_example = destroy-insert_all stopped_clock tiny net k_warn row []

submitted :
    submit_texts stopped_clock net k_warn (some (codes "up")) []
    ≡ codes "[2026-01-01T00:00:00.123Z][12][34][WARN][NET] up\n" ∷ []
unfolding submit_texts
submitted = submit_enabled net stopped_clock k_warn (codes "up") [] (λ h. cc h) enabled ∙ emitted

move_stream_lem_example :
    IsValid (move_stream fresh).0
    × (pending (move_stream fresh).0 ≡ pending fresh)
    × (pending (move_stream fresh).1 ≡ closed)
    × (destroy stopped_clock (move_stream fresh).0 [] ≡ destroy stopped_clock fresh [])
    × (destroy stopped_clock (move_stream fresh).1 [] ≡ [])
move_stream_lem_example = move_stream_lem stopped_clock fresh [] fresh-IsValid

pending-write_all_example :
    pending (write_all tiny row (record { stream = fresh; text_started = false })).stream
    ≡ push (written_texts tiny false row) (pending fresh)
pending-write_all_example = pending-write_all tiny row fresh tiny-NeverEmpty fresh-IsValid

abbrev place : List Attribute
place = location (codes "a\".cpp") 17 ∷ tag (codes "boot") ∷ []

place_text : attributes_text place ≡ codes " location=\"a\\\".cpp:17\" tag=\"boot\""
unfolding attributes_text adaptive_pi.Prelude.Decimal.decimal
place_text = refl

abbrev started : Message Tiny
started = record { id = codes "BOOT_1"; level = k_info; routing = default_routing; rendered = row }

log_with-payload_example :
    log_with stopped_clock tiny (λ m w. w) net place started []
    ≡ submit_texts stopped_clock net k_info (payload tiny place started) []
log_with-payload_example =
    log_with-payload stopped_clock tiny tiny-NeverEmpty (λ m w. w) net place started []
      (omega arith, (tt, tt))

abbrev started_text : Bytes
started_text = codes "id=BOOT_1 n=-128true-inf!end location=\"a\\\".cpp:17\" tag=\"boot\""

started-payload : payload tiny place started ≡ some started_text
unfolding payload written_texts texts adaptive_pi.Prelude.Decimal.to_chars
    adaptive_pi.Log.Writer.Spacing.spaced adaptive_pi.Log.Stream.until_null attributes_text
started-payload = refl

valid_id : is_valid_message_id (codes "BOOT_1") ≡ true
unfolding is_valid_message_id
valid_id = refl

fresh-holding : pending fresh ≡ holding []
fresh-holding = pending-open_stream stopped_clock net k_warn ∙ rw enabled refl

started-pending : pending (fill stopped_clock tiny place started fresh) ≡ holding started_text
unfolding push
started-pending =
    (fill-payload stopped_clock tiny tiny-NeverEmpty place started (omega arith, (tt, tt)) fresh
      fresh-IsValid).1
    ∙ ap (λ o. push o (pending fresh)) started-payload
    ∙ ap (push (some started_text)) fresh-holding

read_id-fill_example : read_id started_text ≡ some (codes "BOOT_1")
read_id-fill_example =
    read_id-fill stopped_clock tiny tiny-NeverEmpty place started fresh started_text
      (omega arith, (tt, tt)) fresh-IsValid fresh-holding valid_id started-pending

append_attributes-read_attributes_example :
    (text : Bytes) × (pending (append_attributes place fresh) ≡ push (some text) (pending fresh))
    × (read_attributes 2 text ≡ some place)
append_attributes-read_attributes_example =
    append_attributes-read_attributes 2 place fresh (omega arith, (tt, tt)) fresh-IsValid
      (omega arith)

-- Two values, a flush, a value without a text, a flush, a move, and one more value.
abbrev uses : List (Use Tiny)
uses =
    inserting (view (codes "n="))
    ∷ inserting (integer int8 (negsuc 127))
    ∷ flushing
    ∷ inserting (c_string none)
    ∷ flushing
    ∷ moving_on
    ∷ inserting (bool true)
    ∷ []

two_sent : messages tiny uses (holding []) ≡ codes "n=-128" ∷ codes "true" ∷ []
unfolding messages push adaptive_pi.Prelude.Decimal.to_chars text_of
two_sent = refl

live-messages_example :
    live stopped_clock tiny uses (open_stream net k_warn) []
    ≡ submit_each stopped_clock net k_warn
        (messages tiny uses (if is_enabled net k_warn then holding [] else closed))
        []
live-messages_example = live-messages stopped_clock tiny uses net k_warn []
