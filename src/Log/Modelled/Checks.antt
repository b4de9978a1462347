-- ===== src/Log/Modelled/Checks.antt =====
-- What the compile-time checks of modelled messages accept, and what they are good for.
use adaptive_pi.Prelude.{
  ◌==◌, leb, Bool-cases, inl, inr, ◌+◌, ◌≤◌, ◌≡◌, ◌↔◌, refl, sym, ap, ◌∙◌, true, Option, none, some,
  List, [], ◌∷◌, ◌++◌, Bytes, codes, bind, length, if◌then◌else◌, arith,
}
use adaptive_pi.Prelude.Decimal.{expect}
use adaptive_pi.Log.Timestamp.{Gmtime}
use adaptive_pi.Log.Stream.{Floating, LogStream, c_message_capacity}
use adaptive_pi.Log.Stream.Pending.{holding, push, IsValid, pending}
use adaptive_pi.Log.Stream.Inserting.{texts}
use adaptive_pi.Log.Stream.Steps.{concat}
use adaptive_pi.Log.Writer.Spacing.{NeverEmpty, spaced, written_texts}
use adaptive_pi.Log.Attributes.{Attribute, location, tag}
use adaptive_pi.Log.Attributes.Quoting.{HaveLines, attribute_text, attributes_text}
use adaptive_pi.Log.Modelled.{
  is_allowed, all_allowed, is_valid_message_id, AttributeType, location_type, tag_type, other_type,
  all_supported, count_locations, count_tags, valid_attributes, is_supported, Message, fill,
}
use adaptive_pi.Log.Modelled.Payload.{payload, fill-payload}

-- The attribute lists that are meant to be accepted.
pub data Selection : List AttributeType → Type 0 where
  no_attribute : Selection []
  only_location : Selection (location_type ∷ [])
  only_tag : Selection (tag_type ∷ [])
  location_then_tag : Selection (location_type ∷ tag_type ∷ [])
  tag_then_location : Selection (tag_type ∷ location_type ∷ [])

length-supported :
    (ts : List AttributeType)
    → all_supported ts ≡ true
    → length ts ≡ count_locations ts + count_tags ts
unfolding all_supported count_locations count_tags is_supported
length-supported [] h = refl
length-supported (location_type ∷ ts) h = omega (arith, length-supported ts h)
length-supported (tag_type ∷ ts) h = omega (arith, length-supported ts h)
length-supported (other_type ∷ ts) h = cc

valid-length : (ts : List AttributeType) → valid_attributes ts ≡ true → length ts ≤ 2
unfolding valid_attributes
valid-length ts h = ground (arith, length-supported ts)

valid-Selection : (ts : List AttributeType) → valid_attributes ts ≡ true → Selection ts
unfolding valid_attributes all_supported count_locations count_tags is_supported
valid-Selection [] h = no_attribute
valid-Selection (location_type ∷ []) h = only_location
valid-Selection (tag_type ∷ []) h = only_tag
valid-Selection (other_type ∷ ts) h = absurd (cc)
valid-Selection (location_type ∷ location_type ∷ []) h = absurd (cc)
valid-Selection (location_type ∷ tag_type ∷ []) h = location_then_tag
valid-Selection (location_type ∷ other_type ∷ []) h = absurd (cc)
valid-Selection (tag_type ∷ location_type ∷ []) h = tag_then_location
valid-Selection (tag_type ∷ tag_type ∷ []) h = absurd (cc)
valid-Selection (tag_type ∷ other_type ∷ []) h = absurd (cc)
valid-Selection (t ∷ u ∷ v ∷ ts) h = absurd (omega (arith, valid-length (t ∷ u ∷ v ∷ ts) h))

Selection-valid : (ts : List AttributeType) → Selection ts → valid_attributes ts ≡ true
unfolding valid_attributes all_supported count_locations count_tags is_supported
Selection-valid _ no_attribute = refl
Selection-valid _ only_location = refl
Selection-valid _ only_tag = refl
Selection-valid _ location_then_tag = refl
Selection-valid _ tag_then_location = refl

-- A list of attribute types passes the check exactly if it is empty, a location, a tag, or one of
-- each in either order.
pub valid_attributes_iff : (ts : List AttributeType) → (valid_attributes ts ≡ true) ↔ Selection ts
valid_attributes_iff ts = (valid-Selection ts, Selection-valid ts)

-- Reads the identifier of a payload: what stands behind "id=", up to a space or the end.
read_word : Bytes → Bytes
read_word [] = []
read_word (c ∷ s) = let rest = read_word s in if c == b' ' then [] else c ∷ rest

unfoldable pub read_id : Bytes → Option Bytes
unfolding read_word
read_id s =
    bind (expect b'i' s) λ s. bind (expect b'd' s) λ s. bind (expect b'=' s) λ s. some (read_word s)

-- What follows the identifier: nothing, or something that starts with a space.
data Separated : Bytes → Type 0 where
  at_end : Separated []
  at_space : (s : Bytes) → Separated (b' ' ∷ s)

read_word-Separated : (s : Bytes) → Separated s → read_word s ≡ []
unfolding read_word
read_word-Separated _ at_end = refl
read_word-Separated _ (at_space s) = refl

read_word-append : (id s : Bytes) → all_allowed id ≡ true → Separated s → read_word (id ++ s) ≡ id
unfolding read_word all_allowed is_allowed
read_word-append [] s h p = read_word-Separated s p
read_word-append (c ∷ id) s h p = ground (arith, read_word-append id s)

attribute_text-Separated : (a : Attribute) (s : Bytes) → Separated (attribute_text a ++ s)
unfolding attribute_text
attribute_text-Separated (location file line) s = at_space _
attribute_text-Separated (tag value) s = at_space _

attributes_text-Separated : (as' : List Attribute) → Separated (attributes_text as')
unfolding attributes_text
attributes_text-Separated [] = at_end
attributes_text-Separated (a ∷ as') = attribute_text-Separated a (attributes_text as')

spaced-Separated : (t s : Bytes) → Separated s → Separated (spaced t ++ s)
unfolding spaced
spaced-Separated [] s p = p
spaced-Separated (c ∷ t) s p = at_space _

is_valid-all_allowed : (id : Bytes) → is_valid_message_id id ≡ true → all_allowed id ≡ true
unfolding is_valid_message_id
is_valid-all_allowed [] h = cc
is_valid-all_allowed (c ∷ id) h = h

read_id-append :
    (id s : Bytes)
    → is_valid_message_id id ≡ true
    → Separated s
    → read_id (codes "id=" ++ (id ++ s)) ≡ some id
unfolding read_id expect
read_id-append id s v p = ap some (read_word-append id s (is_valid-all_allowed id v) p)

read_id-concat :
    (o : Option Bytes) (id s t : Bytes)
    → is_valid_message_id id ≡ true
    → Separated s
    → concat (some (codes "id=")) (concat (some id) (concat (bind o λ u. some (spaced u)) (some s)))
      ≡ some t
    → read_id t ≡ some id
read_id-concat none id s t v p h = cc
read_id-concat (some u) id s t v p h =
    let same : codes "id=" ++ (id ++ (spaced u ++ s)) ≡ t = cc in
    ap read_id (sym same) ∙ read_id-append id (spaced u ++ s) v (spaced-Separated u s p)

read_id-payload :
    {F : Type 0} (f : Floating F) (attributes : List Attribute) (message : Message F) (t : Bytes)
    → is_valid_message_id message.id ≡ true
    → payload f attributes message ≡ some t
    → read_id t ≡ some message.id
unfolding payload written_texts
read_id-payload f attributes message t v h =
    read_id-concat (texts f message.rendered) message.id (attributes_text attributes) t v
      (attributes_text-Separated attributes) h

holding-push : (o : Option Bytes) (t : Bytes) → push o (holding []) ≡ holding t → o ≡ some t
unfolding push
holding-push none t h = absurd (cc h)
holding-push (some u) t h = elim (Bool-cases (leb (length u) c_message_capacity)) [
  | inl e ↦ ground arith
  | inr e ↦ absurd (ground arith)
]

-- LogWith fills a stream whose pending text is empty with the message and the attributes. If the identifier
-- passed its check and the record is not broken behind that, the identifier can be read off the text
-- that is pending, up to the first space behind "id=". The lines of the attributes have 32
-- bits, and the formatter of floating-point numbers never writes an empty text.
pub read_id-fill :
    {W F : Type 0} (gmtime_r : Gmtime) (f : Floating F) (law : NeverEmpty f)
    (attributes : List Attribute) (message : Message F) (stream : LogStream W) (t : Bytes)
    → HaveLines attributes
    → IsValid stream
    → pending stream ≡ holding []
    → is_valid_message_id message.id ≡ true
    → pending (fill gmtime_r f attributes message stream) ≡ holding t
    → read_id t ≡ some message.id
read_id-fill gmtime_r f law attributes message stream t lines valid nothing id h =
    let (_, filled, _) = fill-payload gmtime_r f law attributes message lines stream valid in
    read_id-payload f attributes message t id (
      holding-push (payload f attributes message) t
        (ap (push (payload f attributes message)) (sym nothing) ∙ sym filled ∙ h))
