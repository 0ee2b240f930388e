-- ===== src/Protobuf/Encode.antt =====
-- src/pb-encode.c: a JSON value to the bytes of a message.
-- The calls of jansson are those of `Jansson`. A definition of a message (`protos`) and of a field
-- (`proto`) are JSON values too. A pointer to one that may be NULL is an Option.
use libpomelo.Common.{
  ℕ, zero, suc, ◌+◌, ◌%◌, ◌^◌, Bool, true, false, not, ◌&&◌, ◌||◌, Option, none, some, List, [],
  ◌∷◌, ◌++◌, ltb, leb, ◌==◌, if◌then◌else◌, length,
}
use libpomelo.Common.Bytes.{same_str}
use libpomelo.Common.Outcome.{Outcome, ok, err, fault, stuck, ◌>>=◌, checked, defined}
use libpomelo.Protobuf.{
  FieldType, uint32, int32, sint32, float, double, string, message, get_type, get_constant_type,
}
use libpomelo.Protobuf.Names
use libpomelo.Protobuf.Output.{
  Ostream, ostream_from_buffer, sizing_stream, pb_write, pb_encode_varint, pb_encode_svarint,
  pb_encode_fixed32, pb_encode_fixed64, pb_encode_tag, pb_encode_string,
}

-- What src/pb-encode.c calls of jansson, on values that are not NULL: `json_object_get`,
-- `json_string_value`, `json_is_array`, `json_array_size` with `json_array_get`, and the iterator of
-- an object's members. `integer`, `uint`, `float_bytes` and `double_bytes` are `json_number_value`
-- with its conversion to a `json_int_t`, a `uint32_t`, a `float` and a `double`, the latter two as
-- their bytes in memory.
pub record Jansson (J : Type 0) : Type 0 where
  pub object_get : J → List ℕ → Option J
  pub string_value : J → Option (List ℕ)
  pub is_array : J → Bool
  pub elements : J → List J
  pub members : J → List (List ℕ × J)
  pub integer : J → ℕ
  pub uint : J → ℕ
  pub float_bytes : J → List ℕ
  pub double_bytes : J → List ℕ

-- `pb__get_type(type_text) && pb__get_type(type_text) != PB_string`
abbrev pub is_packed : FieldType → Bool
is_packed message = false
is_packed string = false
is_packed _ = true

module _ {J : Type 0} (json : Jansson J) where
  -- `json_string_value(json_object_get(value, key))`, handed to `strcmp`, which NULL must not reach.
  abbrev pub text_of : Option J → Outcome (List ℕ)
  text_of none = fault
  text_of (some value) = elim (json.string_value value) [ none ↦ fault | some text ↦ ok text ]

  abbrev pub text : J → List ℕ → Outcome (List ℕ)
  text value key = text_of (json.object_get value key)

  -- `json_number_value(json_object_get(field, "tag"))`: 0 of NULL.
  abbrev pub number_or_zero : Option J → ℕ
  number_or_zero none = 0
  number_or_zero (some value) = json.uint value

  unfoldable pub pb_encode_tag_for_field : Ostream → J → Outcome Ostream
  pb_encode_tag_for_field s field = text field Names.type_key >>= (λ type.
      pb_encode_tag s (get_constant_type type)
        (number_or_zero (json.object_get field Names.tag_key)))

  -- The length of a string is kept in an `int`.
  abbrev pub encode_text : Ostream → Option (List ℕ) → Outcome Ostream
  encode_text s none = fault
  encode_text s (some str) =
      defined (ltb (length str) (2 ^ 31)) (pb_encode_string s str (length str))

-- The submessage of a level, by the encoder of the messages below.
module _ {J : Type 0} (encode : Ostream → J → J → Outcome Ostream) where
  -- The end of `pb_encode_submessage`: the pass that writes, within a limit of the counted size.
  unfoldable pub body_pass : J → J → ℕ → Ostream → Outcome Ostream
  body_pass protos value size s =
      if not s.writes
      then pb_write s [] size
      else checked (leb ((s.bytes_written + size) % 2 ^ 64) s.max_size) (
          encode (record { writes = true; state = s.state; max_size = size; bytes_written = 0 })
            protos value
          >>= (λ sub. checked (sub.bytes_written == size) (
              ok (record s {
                state = sub.state;
                bytes_written = (s.bytes_written + sub.bytes_written) % 2 ^ 64;
              }))))

  -- `pb_encode_submessage`, behind the pass that only counts.
  unfoldable pub encode_sized : Ostream → J → J → ℕ → Outcome Ostream
  encode_sized s protos value size = pb_encode_varint s size >>= body_pass protos value size

  unfoldable pub pb_encode_submessage : Ostream → J → J → Outcome Ostream
  pb_encode_submessage s protos value =
      encode sizing_stream protos value
      >>= (λ sized. encode_sized s protos value sized.bytes_written)

module _ {J : Type 0} (json : Jansson J) (malloc : ℕ → Bool) (gprotos : J) where
  -- The definition of a message: in `__messages`, or under "message " and its name in `gprotos`.
  -- The allocation of that string is not tested.
  abbrev pub found_or_root : Option J → List ℕ → Outcome (Option J)
  found_or_root (some found) type = ok (some found)
  found_or_root none type =
      defined (malloc (length Names.message_head + length type + 1))
        (ok (json.object_get gprotos (Names.message_head ++ type)))

  abbrev pub sub_msg : J → List ℕ → Outcome (Option J)
  sub_msg messages type = found_or_root (json.object_get messages type) type

  -- The functions of one level, by the encoder of the messages below.
  module _ (encode : Ostream → J → J → Outcome Ostream) where
    -- The default case of `pb_encode_proto`: nothing is written when there is no `__messages`.
    abbrev pub encode_message : Ostream → Option J → List ℕ → J → Outcome Ostream
    encode_message s none type value = ok s
    encode_message s (some messages) type value = sub_msg messages type >>= (λ found. elim found [
      | none ↦ err
      | some protos ↦ pb_encode_submessage encode s protos value
    ])

    abbrev pub encode_field : FieldType → Ostream → J → List ℕ → J → Outcome Ostream
    encode_field uint32 s protos type value = pb_encode_varint s (json.integer value)
    encode_field int32 s protos type value = pb_encode_svarint s (json.integer value)
    encode_field sint32 s protos type value = pb_encode_svarint s (json.integer value)
    encode_field float s protos type value = pb_encode_fixed32 s (json.float_bytes value)
    encode_field double s protos type value = pb_encode_fixed64 s (json.double_bytes value)
    encode_field string s protos type value = encode_text json s (json.string_value value)
    encode_field message s protos type value =
        encode_message s (json.object_get protos Names.messages_key) type value

    unfoldable pub pb_encode_proto : Ostream → J → J → J → Outcome Ostream
    pb_encode_proto s protos proto value =
        text json proto Names.type_key
        >>= (λ type. encode_field (get_type type) s protos type value)

    -- The loops of `pb_encode_array`: over the packed elements, and over those with a tag each.
    unfoldable pub encode_packed : Ostream → J → J → List J → Outcome Ostream
    encode_packed s protos proto [] = ok s
    encode_packed s protos proto (v ∷ vs) =
        pb_encode_proto s protos proto v >>= (λ s₁. encode_packed s₁ protos proto vs)

    unfoldable pub encode_tagged : Ostream → J → J → List J → Outcome Ostream
    encode_tagged s protos proto [] = ok s
    encode_tagged s protos proto (v ∷ vs) =
        pb_encode_tag_for_field json s proto
        >>= (λ s₁. pb_encode_proto s₁ protos proto v)
        >>= (λ s₂. encode_tagged s₂ protos proto vs)

    unfoldable pub pb_encode_array : Ostream → J → J → J → Outcome Ostream
    pb_encode_array s protos proto array = text json proto Names.type_key >>= (λ type.
        if is_packed (get_type type)
        then pb_encode_tag_for_field json s proto
          >>= (λ s₁. pb_encode_varint s₁ (length (json.elements array)))
          >>= (λ s₂. encode_packed s₂ protos proto (json.elements array))
        else encode_tagged s protos proto (json.elements array))

    -- A member with its field's definition, by the option of the field.
    abbrev pub encode_option : List ℕ → Ostream → J → J → J → Outcome Ostream
    encode_option option s protos proto value =
        if same_str option Names.required || same_str option Names.optional
        then pb_encode_tag_for_field json s proto >>= (λ s₁. pb_encode_proto s₁ protos proto value)
        else if same_str option Names.repeated && json.is_array value
        then pb_encode_array s protos proto value
        else ok s

    -- A round of the loop of `pb_encode`.
    abbrev pub encode_member : Ostream → J → Option J → J → Outcome Ostream
    encode_member s protos none value = err
    encode_member s protos (some proto) value =
        text json proto Names.option_key >>= (λ option. encode_option option s protos proto value)

    unfoldable pub encode_members : Ostream → J → List (List ℕ × J) → Outcome Ostream
    encode_members s protos [] = ok s
    encode_members s protos ((key, value) ∷ rest) =
        encode_member s protos (json.object_get protos key) value
        >>= (λ s₁. encode_members s₁ protos rest)

  -- `pb_encode`, with the depth of the messages that it may go down to.
  unfoldable pub pb_encode : ℕ → Ostream → J → J → Outcome Ostream
  pb_encode zero s protos msg = stuck
  pb_encode (suc depth) s protos msg = encode_members (pb_encode depth) s protos (json.members msg)

  -- `pc_pb_encode`: the bytes in `buf`, their number being `*written`.
  unfoldable pub pc_pb_encode : ℕ → ℕ → J → J → Outcome (List ℕ)
  pc_pb_encode depth len protos msg =
      pb_encode depth (ostream_from_buffer len) protos msg >>= (λ s. ok s.state)
