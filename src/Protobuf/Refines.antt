-- ===== src/Protobuf/Refines.antt =====
-- src/pb-encode.c against the description of its bytes, at every level of messages.
use libpomelo.Common.{
  ℕ, zero, suc, ◌+◌, ◌*◌, ◌%◌, ◌^◌, ◌<◌, ◌≡◌, refl, Bool, true, false, ◌&&◌, ◌||◌, Option, none,
  some, List, [], ◌∷◌, leb, if◌then◌else◌, length, arith, inl, inr, lt_or_le, ltb-true, ltb-false,
}
use libpomelo.Common.Bytes.{same_str}
use libpomelo.Common.Groups.{groups}
use libpomelo.Common.Outcome.{Outcome, ok, err, fault, stuck, ◌>>=◌, checked}
use libpomelo.Protobuf.{
  FieldType, uint32, int32, sint32, float, double, string, message, get_type, get_constant_type,
}
use libpomelo.Protobuf.Names
use libpomelo.Protobuf.Output.{Ostream, ostream_from_buffer, pb_encode_tag, pb_encode_string}
use libpomelo.Protobuf.Encode.{
  Jansson, text, number_or_zero, sub_msg, is_packed, pb_encode_tag_for_field, encode_text,
  pb_encode_submessage, encode_message, encode_field, pb_encode_proto, encode_packed, encode_tagged,
  pb_encode_array, encode_option, encode_member, encode_members, pb_encode, pc_pb_encode,
}
use libpomelo.Protobuf.Emit.{Emits-varint, Emits-nothing, Emits-submessage, Room, emit}
use libpomelo.Protobuf.Reference.{
  prefixed, tag_of, tag_bytes, str_bytes, found_bytes, message_bytes, field_bytes, proto_bytes,
  packed_bytes, tagged_bytes, array_bytes, option_bytes, member_bytes, members_bytes, bytes_of,
}
use libpomelo.Protobuf.RoundTrip.{holding}
use libpomelo.Protobuf.Agrees.{
  Agrees, Agrees-ok, Agrees-bind, Agrees-if, Agrees-seq, Widths, constant_type_small, Emits-tag,
  Emits-fixed, Emits-string, Emits-svarint,
}

Agrees-prefixed :
    {J : Type 0} (encode : Ostream → J → J → Outcome Ostream) (protos value : J)
    (g : Outcome (List ℕ))
    → Agrees (λ s. encode s protos value) g
    → Agrees
        (λ s. pb_encode_submessage encode s protos value)
        (g >>= (λ bytes. ok (prefixed bytes)))
Agrees-prefixed encode protos value (ok bytes) below =
    Agrees-ok (λ s. pb_encode_submessage encode s protos value) (prefixed bytes)
      (Emits-submessage encode protos value bytes (below bytes refl))
Agrees-prefixed encode protos value err below = λ b e. absurd cc
Agrees-prefixed encode protos value fault below = λ b e. absurd cc
Agrees-prefixed encode protos value stuck below = λ b e. absurd cc

filled_or_err :
    (c : Bool) (s : Ostream)
    → (checked c (ok s) >>= (λ s. ok s.state)) ≡ (if c then ok s.state else err)
filled_or_err true s = refl
filled_or_err false s = refl

module _ {J : Type 0} (json : Jansson J) (widths : Widths json) where
  tag-Agrees :
      (field : J) → Agrees (λ s. pb_encode_tag_for_field json s field) (tag_bytes json field)
  unfolding pb_encode_tag_for_field tag_bytes
  tag-Agrees field =
      let number = number_or_zero json (json.object_get field Names.tag_key) in
      Agrees-bind (text json field Names.type_key)
        (λ type s. pb_encode_tag s (get_constant_type type) number)
        (λ type. tag_of json type (json.object_get field Names.tag_key))
        (λ type.
          Agrees-ok (λ s. pb_encode_tag s (get_constant_type type) number)
            (groups 9 (get_constant_type type + number % 2 ^ 29 * 8))
            (Emits-tag (get_constant_type type) number (constant_type_small type)))

  str-Agrees : (str : Option (List ℕ)) → Agrees (λ s. encode_text json s str) (str_bytes json str)
  str-Agrees none = λ b e. absurd cc
  str-Agrees (some str) = elim (lt_or_le (length str) (2 ^ 31)) [
    | inl small ↦ rw (ltb-true (length str) (2 ^ 31) small) (
        Agrees-ok (λ s. pb_encode_string s str (length str)) (prefixed str)
          (Emits-string str small))
    | inr large ↦ rw (ltb-false (length str) (2 ^ 31) large) (λ b e. absurd cc)
  ]

  module _ (malloc : ℕ → Bool) (gprotos : J) (encode : Ostream → J → J → Outcome Ostream)
      (sub : J → J → Outcome (List ℕ))
      (below : (protos value : J) → Agrees (λ s. encode s protos value) (sub protos value)) where
    found-Agrees :
        (value : J) (found : Option J)
        → Agrees
            (λ s. elim found [
              | none ↦ err
              | some protos ↦ pb_encode_submessage encode s protos value
            ])
            (found_bytes json malloc gprotos sub value found)
    found-Agrees value none = λ b e. absurd cc
    found-Agrees value (some protos) =
        Agrees-prefixed encode protos value (sub protos value) (below protos value)

    message-Agrees :
        (messages : Option J) (type : List ℕ) (value : J)
        → Agrees
            (λ s. encode_message json malloc gprotos encode s messages type value)
            (message_bytes json malloc gprotos sub messages type value)
    message-Agrees none type value = Agrees-ok (λ s. ok s) [] Emits-nothing
    message-Agrees (some messages) type value =
        Agrees-bind (sub_msg json malloc gprotos messages type) _
          (found_bytes json malloc gprotos sub value) (found-Agrees value)

    field-Agrees :
        (t : FieldType) (protos : J) (type : List ℕ) (value : J)
        → Agrees
            (λ s. encode_field json malloc gprotos encode t s protos type value)
            (field_bytes json malloc gprotos sub t protos type value)
    field-Agrees uint32 protos type value =
        Agrees-ok _ _ (Emits-varint _ (widths.integer_width value))
    field-Agrees int32 protos type value =
        Agrees-ok _ _ (Emits-svarint _ (widths.integer_width value))
    field-Agrees sint32 protos type value =
        Agrees-ok _ _ (Emits-svarint _ (widths.integer_width value))
    field-Agrees float protos type value =
        Agrees-ok _ _ (Emits-fixed 4 _ (widths.float_width value))
    field-Agrees double protos type value =
        Agrees-ok _ _ (Emits-fixed 8 _ (widths.double_width value))
    field-Agrees string protos type value = str-Agrees (json.string_value value)
    field-Agrees message protos type value =
        message-Agrees (json.object_get protos Names.messages_key) type value

    proto-Agrees :
        (protos proto value : J)
        → Agrees
            (λ s. pb_encode_proto json malloc gprotos encode s protos proto value)
            (proto_bytes json malloc gprotos sub protos proto value)
    unfolding pb_encode_proto proto_bytes
    proto-Agrees protos proto value =
        Agrees-bind (text json proto Names.type_key) _ _
          (λ type. field-Agrees (get_type type) protos type value)

    packed-Agrees :
        (protos proto : J) (vs : List J)
        → Agrees
            (λ s. encode_packed json malloc gprotos encode s protos proto vs)
            (packed_bytes json malloc gprotos sub protos proto vs)
    unfolding encode_packed packed_bytes
    packed-Agrees protos proto [] = Agrees-ok _ [] Emits-nothing
    packed-Agrees protos proto (v ∷ vs) =
        Agrees-seq _ _ _ _ (proto-Agrees protos proto v) (packed-Agrees protos proto vs)

    tagged-Agrees :
        (protos proto : J) (vs : List J)
        → Agrees
            (λ s. encode_tagged json malloc gprotos encode s protos proto vs)
            (tagged_bytes json malloc gprotos sub protos proto vs)
    unfolding encode_tagged tagged_bytes
    tagged-Agrees protos proto [] = Agrees-ok _ [] Emits-nothing
    tagged-Agrees protos proto (v ∷ vs) =
        Agrees-seq _ _ _ _ (Agrees-seq _ _ _ _ (tag-Agrees proto) (proto-Agrees protos proto v))
          (tagged-Agrees protos proto vs)

    array-Agrees :
        (protos proto array : J)
        → length (json.elements array) < 2 ^ 64
        → Agrees
            (λ s. pb_encode_array json malloc gprotos encode s protos proto array)
            (array_bytes json malloc gprotos sub protos proto array)
    unfolding pb_encode_array array_bytes
    array-Agrees protos proto array h = Agrees-bind (text json proto Names.type_key) _ _ (λ type.
        Agrees-if (is_packed (get_type type)) _ _ _ _
          (Agrees-seq _ _ _ _
            (Agrees-seq _ _ _ _ (tag-Agrees proto)
              (Agrees-ok _ _ (Emits-varint (length (json.elements array)) h)))
            (packed-Agrees protos proto (json.elements array)))
          (tagged-Agrees protos proto (json.elements array)))

    option-Agrees :
        (option : List ℕ) (protos proto value : J)
        → Agrees
            (λ s. encode_option json malloc gprotos encode option s protos proto value)
            (option_bytes json malloc gprotos sub option protos proto value)
    option-Agrees option protos proto value =
        Agrees-if (same_str option Names.required || same_str option Names.optional) _ _ _ _
          (Agrees-seq _ _ _ _ (tag-Agrees proto) (proto-Agrees protos proto value))
          (Agrees-if (same_str option Names.repeated && json.is_array value) _ _ _ _
            (array-Agrees protos proto value (widths.array_width value))
            (Agrees-ok _ [] Emits-nothing))

    member-Agrees :
        (protos : J) (proto : Option J) (value : J)
        → Agrees
            (λ s. encode_member json malloc gprotos encode s protos proto value)
            (member_bytes json malloc gprotos sub protos proto value)
    member-Agrees protos none value = λ b e. absurd cc
    member-Agrees protos (some proto) value =
        Agrees-bind (text json proto Names.option_key) _ _
          (λ option. option-Agrees option protos proto value)

    members-Agrees :
        (protos : J) (rest : List (List ℕ × J))
        → Agrees
            (λ s. encode_members json malloc gprotos encode s protos rest)
            (members_bytes json malloc gprotos sub protos rest)
    unfolding encode_members members_bytes
    members-Agrees protos [] = Agrees-ok _ [] Emits-nothing
    members-Agrees protos ((key, value) ∷ rest) =
        Agrees-seq _ _ _ _ (member-Agrees protos (json.object_get protos key) value)
          (members-Agrees protos rest)

  module _ (malloc : ℕ → Bool) (gprotos : J) where
    encode-Agrees :
        (depth : ℕ) (protos msg : J)
        → Agrees
            (λ s. pb_encode json malloc gprotos depth s protos msg)
            (bytes_of json malloc gprotos depth protos msg)
    unfolding pb_encode bytes_of
    encode-Agrees zero protos msg = λ b e. absurd cc
    encode-Agrees (suc depth) protos msg =
        members-Agrees malloc gprotos (pb_encode json malloc gprotos depth)
          (bytes_of json malloc gprotos depth) (encode-Agrees depth) protos (json.members msg)

    -- The description has the bytes of a message. Then `pb_encode` writes them all to a stream that
    -- has room for them, fails on a stream that writes and has not, and on a stream that only counts
    -- adds their number: the pass that sizes a message and the pass that writes it agree.
    pub pb_encode-bytes_of :
        (depth : ℕ) (protos msg : J) (bytes : List ℕ) (s : Ostream)
        → bytes_of json malloc gprotos depth protos msg ≡ ok bytes
        → Room s
        → s.bytes_written + length bytes < 2 ^ 64
        → pb_encode json malloc gprotos depth s protos msg ≡ emit s bytes
    pb_encode-bytes_of depth protos msg bytes s e room total =
        encode-Agrees depth protos msg bytes e s room total

    -- The description has the bytes of a message. Then `pc_pb_encode` fills the buffer with them if
    -- they fit into its `len` bytes, and reports an error if they do not.
    pub pc_pb_encode-bytes_of :
        (depth len : ℕ) (protos msg : J) (bytes : List ℕ)
        → bytes_of json malloc gprotos depth protos msg ≡ ok bytes
        → len < 2 ^ 64
        → length bytes < 2 ^ 64
        → pc_pb_encode json malloc gprotos depth len protos msg
          ≡ (if leb (length bytes) len then ok bytes else err)
    unfolding pc_pb_encode
    pc_pb_encode-bytes_of depth len protos msg bytes e width total =
        let z : 0 + length bytes ≡ length bytes = omega arith in
        rw
          (
            encode-Agrees depth protos msg bytes e (ostream_from_buffer len)
                (λ q. omega arith, width) (omega arith),
            z,
          )
          (filled_or_err (leb (length bytes) len) (holding len bytes))
