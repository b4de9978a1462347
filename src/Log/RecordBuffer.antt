-- ===== src/Log/RecordBuffer.antt =====
-- platform/ara-log/src/record_buffer.h and record_buffer.cpp: the array of a record.
pub mod Appending
use adaptive_pi.Prelude.{
  ℕ, ◌+◌, ◌-◌, ◌≤◌, ◌≡◌, refl, Bool, true, false, Bytes, length, take, replicate, memcpy,
  length-replicate, length-take, ltb, is_empty, [], if◌then◌else◌, arith,
}

abbrev pub c_record_capacity : ℕ
c_record_capacity = 16384

-- `buffer_` holds `c_record_capacity` cells, of which the first `size_` are the record.
pub record RecordBuffer : Type 0 where
  pub buffer : Bytes
  pub size : ℕ

-- `RecordBuffer record{}`.
unfoldable pub empty : RecordBuffer
empty = record { buffer = replicate c_record_capacity 0; size = 0 }

unfoldable pub view : RecordBuffer → Bytes
view b = take b.size b.buffer

-- `buffer_.size()` is a constant of the array's type.
unfoldable pub append : Bytes → RecordBuffer → Bool × RecordBuffer
append value b =
    if ltb (c_record_capacity - b.size) (length value)
    then (false, b)
    else if is_empty value
    then (true, b)
    else (true, record { buffer = memcpy b.buffer b.size value; size = b.size + length value })

pub record IsValid (b : RecordBuffer) : Type 0 where
  pub array : length b.buffer ≡ c_record_capacity
  pub bounded : b.size ≤ c_record_capacity

pub empty-IsValid : IsValid empty
unfolding empty
empty-IsValid = record { array = length-replicate c_record_capacity 0; bounded = omega arith }

pub view-empty : view empty ≡ []
unfolding empty view
view-empty = refl

pub length-view : {b : RecordBuffer} → IsValid b → length (view b) ≡ b.size
unfolding view
length-view {b} v = length-take b.size b.buffer (omega (arith, v.array, v.bounded))
