-- ===== src/Log/Modelled.antt =====
-- Log and LogWith of platform/ara-log/include/ara/log/logger.h, with modelled_message.h and
-- trace_routing.h. The checks of types that the compiler makes are functions on lists of types.
pub mod Payload
pub mod Checks
pub mod Compiling
use adaptive_pi.Prelude.{
  ℕ, ◌+◌, Bool, true, false, ◌||◌, ◌&&◌, List, [], ◌∷◌, Bytes, codes, leb, ◌==◌, if◌then◌else◌,
}
use adaptive_pi.Log.Level.{LogLevel}
use adaptive_pi.Log.Timestamp.{Gmtime}
use adaptive_pi.Log.Logger.{Logger, is_enabled}
use adaptive_pi.Log.Stream.{LogStream, Floating, open_stream, insert_view, destroy}
use adaptive_pi.Log.Stream.Inserting.{Value}
use adaptive_pi.Log.Writer.{MessageWriter, write_all}
use adaptive_pi.Log.Attributes.{Attribute, append_attributes}

-- A character that a message identifier may have.
unfoldable pub is_allowed : ℕ → Bool
is_allowed c =
    (leb b'A' c && leb c b'Z')
    || ((leb b'a' c && leb c b'z') || ((leb b'0' c && leb c b'9') || c == b'_'))

unfoldable pub all_allowed : Bytes → Bool
unfolding is_allowed
all_allowed [] = true
all_allowed (c ∷ s) = let rest = all_allowed s in if is_allowed c then rest else false

-- `IsValidMessageId`.
unfoldable pub is_valid_message_id : Bytes → Bool
unfolding all_allowed
is_valid_message_id [] = false
is_valid_message_id (c ∷ s) = all_allowed (c ∷ s)

-- The type of an attribute, up to references and qualifiers.
pub data AttributeType : Type 0 where
  location_type tag_type other_type : AttributeType

-- `kSupportedAttribute`.
unfoldable pub is_supported : AttributeType → Bool
is_supported location_type = true
is_supported tag_type = true
is_supported other_type = false

all_supported : List AttributeType → Bool
unfolding is_supported
all_supported [] = true
all_supported (t ∷ ts) = is_supported t && all_supported ts

count_locations : List AttributeType → ℕ
count_locations [] = 0
count_locations (location_type ∷ ts) = 1 + count_locations ts
count_locations (tag_type ∷ ts) = count_locations ts
count_locations (other_type ∷ ts) = count_locations ts

count_tags : List AttributeType → ℕ
count_tags [] = 0
count_tags (location_type ∷ ts) = count_tags ts
count_tags (tag_type ∷ ts) = 1 + count_tags ts
count_tags (other_type ∷ ts) = count_tags ts

-- `kValidAttributes`.
unfoldable pub valid_attributes : List AttributeType → Bool
unfolding all_supported count_locations count_tags
valid_attributes ts = all_supported ts && (leb (count_locations ts) 1 && leb (count_tags ts) 1)

-- `TraceRouting`.
pub record TraceRouting : Type 0 where
  pub logger_enabled : Bool
  pub trace_enabled : Bool

abbrev pub default_routing : TraceRouting
default_routing = record { logger_enabled = true; trace_enabled = false }

-- A message definition with its parameters: what its Render writes is a row of values.
pub record Message (F : Type 0) : Type 0 where
  pub id : Bytes
  pub level : LogLevel
  pub routing : TraceRouting
  pub rendered : List (Value F)

module _ {W F : Type 0} (gmtime_r : Gmtime) (f : Floating F) where
  -- What is inserted into the stream of the message.
  unfoldable pub fill : List Attribute → Message F → LogStream W → LogStream W
  fill attributes message stream =
      let writer : MessageWriter W = record {
        stream = insert_view message.id (insert_view (codes "id=") stream);
        text_started = false;
      } in
      append_attributes attributes (write_all f message.rendered writer).stream

  -- The branch of the logger. The stream is destroyed at its end.
  unfoldable pub log_to_logger : Logger W → List Attribute → Message F → W → W
  unfolding fill
  log_to_logger logger attributes message w =
      if is_enabled logger message.level
      then destroy gmtime_r (fill attributes message (open_stream logger message.level)) w
      else w

  -- `LogWith`; `trace_arti` is the program's specialisation of TraceArti, which is given the message with its
  -- parameters.
  unfoldable pub log_with :
      (trace_arti : Message F → W → W) → Logger W → List Attribute → Message F → W → W
  unfolding log_to_logger
  log_with trace_arti logger attributes message w =
      let logged =
        if message.routing.logger_enabled then log_to_logger logger attributes message w else w in
      if message.routing.trace_enabled then trace_arti message logged else logged

  -- `Log`.
  unfoldable pub log : (trace_arti : Message F → W → W) → Logger W → Message F → W → W
  unfolding log_with
  log trace_arti logger message w = log_with trace_arti logger [] message w
