-- ===== src/Protobuf.antt =====
-- src/pb-util.c, src/pb-encode.c and src/pb-decode.c: protobuf messages to and from JSON values.
-- This file has the types of fields; the children have the streams and the messages.
pub mod Names
pub mod Output
pub mod Input
pub mod Varint
pub mod RoundTrip
pub mod Encode
pub mod Emit
pub mod Reference
pub mod Agrees
pub mod Refines
pub mod Decode
pub mod Bounds
pub mod Strings
pub mod Returns
pub mod Consumes
pub mod Meaning
pub mod Values
pub mod Elements
pub mod Steps
pub mod Members
pub mod ReadBack
pub mod Fits
pub mod Whole
pub mod Sample
pub mod SampleFacts
pub mod SampleFits
mod Tests
use libpomelo.Common.{ℕ, List, Bool, ◌||◌, if◌then◌else◌}
use libpomelo.Common.Bytes.{same_str}
use libpomelo.Protobuf.Names

-- The values of `pb_wire_type_t`, and 0, which `pb__get_type` gives for the name of a message.
pub data FieldType : Type 0 where
  message uint32 int32 sint32 float double string : FieldType

-- `pb__get_type`
unfoldable pub get_type : List ℕ → FieldType
get_type type =
    if same_str type Names.uint32
    then uint32
    else if same_str type Names.int32
    then int32
    else if same_str type Names.sint32
    then sint32
    else if same_str type Names.float
    then float
    else if same_str type Names.double
    then double
    else if same_str type Names.string
    then string
    else message

-- `pb__get_constant_type`
unfoldable pub get_constant_type : List ℕ → ℕ
get_constant_type type =
    if same_str type Names.uint32 || same_str type Names.sint32 || same_str type Names.int32
    then 0
    else if same_str type Names.double
    then 1
    else if same_str type Names.string
    then 2
    else if same_str type Names.float
    then 5
    else 2
