-- ===== src/Log/Stream/Pending.antt =====
-- The pending record of a stream as a text, and the insertions as one operation on it.
use adaptive_pi.Prelude.{
  ◌+◌, ◌≤◌, ◌≡◌, refl, not, ◌||◌, Option, none, some, [], ◌∷◌, ◌++◌, append-nil, Bytes, length,
  take, memcpy, length-memcpy, take-memcpy, length-take, leb, is_some, if◌then◌else◌, arith,
}
use adaptive_pi.Log.Stream.{LogStream, c_message_capacity, append, contents}

-- Closed is a stream that was moved from or whose level is filtered out.
pub data Pending : Type 0 where
  closed broken : Pending
  holding : Bytes → Pending

-- The text that is pending behind one more text.
unfoldable pub push : Option Bytes → Pending → Pending
push t closed = closed
push t broken = broken
push none (holding s) = broken
push (some t) (holding s) =
    if leb (length s + length t) c_message_capacity then holding (s ++ t) else broken

pub record IsValid {W : Type 0} (s : LogStream W) : Type 0 where
  pub array : length s.buffer ≡ c_message_capacity
  pub bounded : s.size ≤ c_message_capacity

module _ {W : Type 0} where
  unfoldable pub pending : LogStream W → Pending
  pending s =
      if not (is_some s.logger) || not s.enabled
      then closed
      else if s.failed
      then broken
      else holding (contents s)

  pub append-IsValid : (value : Bytes) (s : LogStream W) → IsValid s → IsValid (append value s)
  unfolding append
  append-IsValid value s v = record {
    array = ground (arith, length-memcpy s.buffer s.size value);
    bounded = ground arith;
  }

  contents-append :
      (value : Bytes) (s : LogStream W)
      → IsValid s
      → s.size + length value ≤ c_message_capacity
      → take (s.size + length value) (memcpy s.buffer s.size value) ≡ take s.size s.buffer ++ value
  contents-append value s v h =
      take-memcpy s.buffer s.size (s.size + length value) value refl (omega (arith, v.array))

  -- A text is appended whole, or it breaks the pending record; a closed or broken record stays.
  pub pending-append :
      (value : Bytes) (s : LogStream W)
      → IsValid s
      → pending (append value s) ≡ push (some value) (pending s)
  unfolding append pending push contents
  pending-append [] s v =
      ground (arith, length-take s.size s.buffer, append-nil (take s.size s.buffer))
  pending-append (c ∷ value) s v =
      ground (arith, length-take s.size s.buffer, contents-append (c ∷ value) s v)
