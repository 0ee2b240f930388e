-- ===== src/Protobuf/Decode.antt =====
-- src/pb-decode.c: the bytes of a message to a JSON value.
-- The schemas are read by `Jansson`, and the result is built by `Builder`. A value that the code
-- changes in place is passed on: what a function gives is `result` after it.
use libpomelo.Common.{
  ℕ, zero, suc, ◌+◌, ◌^◌, ◌%◌, Bool, ◌||◌, Option, none, some, List, ◌==◌, if◌then◌else◌, length,
}
use libpomelo.Common.Bytes.{same_str}
use libpomelo.Common.Outcome.{ok, stuck, ◌>>=◌}
use libpomelo.Protobuf.{FieldType, uint32, int32, sint32, float, double, string, message, get_type}
use libpomelo.Protobuf.Names
use libpomelo.Protobuf.Input.{
  Istream, istream_from_buffer, Reads, ◌>>?◌, pb_decode_varint, pb_decode_varint32,
  pb_decode_svarint, pb_decode_fixed32, pb_decode_fixed64, pb_decode_strlen, pb_decode_string, Tag,
  tag, eof, failure, pb_decode_tag, pb_make_string_substream, pb_close_string_substream,
}
use libpomelo.Protobuf.Encode.{Jansson, text, sub_msg}

-- What src/pb-decode.c calls of jansson to build a value: `json_object()`, `json_array()`,
-- `json_is_object`, `json_object_get`, `json_object_set` (and `_new`), `json_array_append` (and
-- `_new`), and the values of numbers and strings. A number is given by its pattern of 64 bits or by
-- the bytes of a `float` or a `double` in memory, a string by its bytes up to the first 0;
-- `json_string` gives NULL for one that is not UTF-8.
pub record Builder (R : Type 0) : Type 0 where
  pub object : R
  pub array : R
  pub is_object : R → Bool
  pub get : R → List ℕ → Option R
  pub put : R → List ℕ → R → R
  pub append : R → R → R
  pub integer : ℕ → R
  pub float_real : List ℕ → R
  pub double_real : List ℕ → R
  pub text_value : List ℕ → Option R

-- `sprintf(buffer, "%u", tag)`, the digits of a number, highest first; a `uint32_t` has ten at most.
pub record Printer : Type 0 where
  pub decimal : ℕ → List ℕ

module _ {R : Type 0} (build : Builder R) where
  -- `if (json_is_object(result))`: a member of an object, which needs a key, or one more element of
  -- an array.
  abbrev pub put_member : R → Option (List ℕ) → R → R
  put_member result none value = result
  put_member result (some key) value = build.put result key value

  abbrev pub put_value : R → Option (List ℕ) → R → R
  put_value result key value =
      if build.is_object result then put_member result key value else build.append result value

  -- The same with what `json_string` gives: NULL changes nothing.
  abbrev pub put_text : R → Option (List ℕ) → Option R → R
  put_text result key none = result
  put_text result key (some value) = put_value result key value

  -- `pb_decode_proto` for a string: its length, its allocation, of which the size is a `uint32_t`,
  -- and its bytes.
  unfoldable pub decode_text : (ℕ → Bool) → Istream → R → Option (List ℕ) → Reads R
  decode_text malloc s result key = pb_decode_strlen s >>? (λ s₁ str_len.
      let size = (str_len + 1) % 2 ^ 32 in
      if malloc size
      then pb_decode_string s₁ size str_len
        >>? (λ s₂ str. ok (s₂, some (put_text result key (build.text_value str))))
      else ok (s₁, none))

module _ {J R : Type 0} (json : Jansson J) (build : Builder R) (printer : Printer)
    (malloc : ℕ → Bool) (gprotos : J) (decode : Istream → J → R → Reads R) where
  -- `pb_decode_submessage`
  unfoldable pub pb_decode_submessage : Istream → J → R → Reads R
  pb_decode_submessage s protos dest = pb_make_string_substream s >>? (λ s₁ substream.
      decode substream protos dest
      >>= (λ (sub, result). ok (pb_close_string_substream s₁ sub, result)))

  -- The default case of `pb_decode_proto`: a message that is a member, or, without a key, one that is
  -- read into `result` itself. Nothing is read when there is no `__messages`.
  abbrev pub decode_found : Istream → Option J → Option (List ℕ) → R → Reads R
  decode_found s none key result = ok (s, none)
  decode_found s (some protos) none result = pb_decode_submessage s protos result
  decode_found s (some protos) (some key) result =
      pb_decode_submessage s protos build.object
      >>? (λ s₁ value. ok (s₁, some (build.put result key value)))

  abbrev pub decode_message : Istream → Option J → List ℕ → Option (List ℕ) → R → Reads R
  decode_message s none type key result = ok (s, some result)
  decode_message s (some messages) type key result =
      sub_msg json malloc gprotos messages type >>= (λ found. decode_found s found key result)

  abbrev pub decode_field : FieldType → Istream → J → List ℕ → Option (List ℕ) → R → Reads R
  decode_field uint32 s protos type key result =
      pb_decode_varint s >>? (λ s₁ v. ok (s₁, some (put_value build result key (build.integer v))))
  decode_field int32 s protos type key result =
      pb_decode_svarint s >>? (λ s₁ v. ok (s₁, some (put_value build result key (build.integer v))))
  decode_field sint32 s protos type key result =
      pb_decode_svarint s >>? (λ s₁ v. ok (s₁, some (put_value build result key (build.integer v))))
  decode_field float s protos type key result =
      pb_decode_fixed32 s
      >>? (λ s₁ v. ok (s₁, some (put_value build result key (build.float_real v))))
  decode_field double s protos type key result =
      pb_decode_fixed64 s
      >>? (λ s₁ v. ok (s₁, some (put_value build result key (build.double_real v))))
  decode_field string s protos type key result = decode_text build malloc s result key
  decode_field message s protos type key result =
      decode_message s (json.object_get protos Names.messages_key) type key result

  unfoldable pub pb_decode_proto : Istream → J → J → Option (List ℕ) → R → Reads R
  pb_decode_proto s proto protos key result =
      text json proto Names.type_key
      >>= (λ type. decode_field (get_type type) s protos type key result)

  -- The loop over the elements of a packed array, by their number.
  unfoldable pub decode_packed : ℕ → Istream → J → J → List ℕ → R → Reads R
  decode_packed zero s proto protos key array = ok (s, some array)
  decode_packed (suc n) s proto protos key array =
      pb_decode_proto s proto protos (some key) array
      >>? (λ s₁ array₁. decode_packed n s₁ proto protos key array₁)

  abbrev pub array_or_new : Option R → R
  array_or_new none = build.array
  array_or_new (some array) = array

  -- The branches of `pb_decode_array`: the array with what was read.
  abbrev pub decode_elements : FieldType → Istream → J → J → List ℕ → R → Reads R
  decode_elements message s proto protos key array =
      pb_decode_proto s proto protos none build.object
      >>? (λ s₁ value. ok (s₁, some (build.append array value)))
  decode_elements string s proto protos key array = pb_decode_proto s proto protos (some key) array
  decode_elements _ s proto protos key array =
      pb_decode_varint32 s >>? (λ s₁ size. decode_packed size s₁ proto protos key array)

  unfoldable pub pb_decode_array : Istream → J → J → List ℕ → R → Reads R
  pb_decode_array s proto protos key result = text json proto Names.type_key >>= (λ type.
      decode_elements (get_type type) s proto protos key (array_or_new (build.get result key))
      >>? (λ s₁ array. ok (s₁, some (build.put result key array))))

  -- A field, by its option.
  abbrev pub decode_option : List ℕ → Istream → J → J → List ℕ → R → Reads R
  decode_option option s proto protos name result =
      if same_str option Names.optional || same_str option Names.required
      then pb_decode_proto s proto protos (some name) result
      else if same_str option Names.repeated
      then pb_decode_array s proto protos name result
      else ok (s, some result)

  abbrev pub decode_defined : Istream → Option J → J → List ℕ → R → Reads R
  decode_defined s none protos name result = ok (s, none)
  decode_defined s (some proto) protos name result =
      text json proto Names.option_key
      >>= (λ option. decode_option option s proto protos name result)

  -- The definition of the field `name`.
  abbrev pub decode_named : Istream → J → Option (List ℕ) → R → Reads R
  decode_named s protos none result = ok (s, none)
  decode_named s protos (some name) result =
      decode_defined s (json.object_get protos name) protos name result

  -- The name under the number of a field in `__tags`.
  abbrev pub name_of : Option J → Option (List ℕ)
  name_of none = none
  name_of (some name) = json.string_value name

  abbrev pub decode_tagged : Istream → J → Option J → ℕ → R → Reads R
  decode_tagged s protos none n result = ok (s, none)
  decode_tagged s protos (some tags) n result =
      decode_named s protos (name_of (json.object_get tags (printer.decimal n))) result

  -- A round of the loop of `pb_decode`, behind the tag.
  abbrev pub decode_round : Istream → J → Tag → R → Reads R
  decode_round s protos eof result = ok (s, some result)
  decode_round s protos failure result = ok (s, none)
  decode_round s protos (tag n wire_type) result =
      decode_tagged s protos (json.object_get protos Names.tags_key) n result
      >>? (λ s₁ result₁. decode s₁ protos result₁)

module _ {J R : Type 0} (json : Jansson J) (build : Builder R) (printer : Printer)
    (malloc : ℕ → Bool) (gprotos : J) where
  -- `pb_decode`. The rest of its loop is the call of it on the stream that is left.
  unfoldable pub pb_decode : ℕ → Istream → J → R → Reads R
  pb_decode zero s protos result = if s.bytes_left == 0 then ok (s, some result) else stuck
  pb_decode (suc fuel) s protos result =
      if s.bytes_left == 0
      then ok (s, some result)
      else pb_decode_tag s >>= (λ (s₁, t).
        decode_round json build printer malloc gprotos (pb_decode fuel) s₁ protos t result)

  -- `pc_pb_decode`; every field takes a byte at least, so `len` is fuel enough.
  unfoldable pub pc_pb_decode : List ℕ → J → R → Reads R
  pc_pb_decode buf protos result = pb_decode (length buf) (istream_from_buffer buf) protos result
