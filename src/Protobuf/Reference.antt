-- ===== src/Protobuf/Reference.antt =====
-- The bytes of a message, described without a stream: what src/pb-encode.c is to write.
-- A number is its groups of seven bits, a string or a message within a message is its length and
-- its bytes, a field is its tag and its value.
use libpomelo.Common.{
  ℕ, zero, suc, ◌+◌, ◌*◌, ◌%◌, ◌^◌, Bool, ◌&&◌, ◌||◌, Option, none, some, List, [], ◌∷◌, ◌++◌, ltb,
  if◌then◌else◌, length,
}
use libpomelo.Common.Bytes.{same_str}
use libpomelo.Common.Groups.{groups}
use libpomelo.Common.Outcome.{Outcome, ok, err, fault, stuck, ◌>>=◌, defined}
use libpomelo.Protobuf.{
  FieldType, uint32, int32, sint32, float, double, string, message, get_type, get_constant_type,
}
use libpomelo.Protobuf.Names
use libpomelo.Protobuf.Output.{zigzag}
use libpomelo.Protobuf.Encode.{Jansson, text, number_or_zero, sub_msg, is_packed}

-- One after the other.
infixr 45 ◌⋄◌
abbrev pub ◌⋄◌ : Outcome (List ℕ) → Outcome (List ℕ) → Outcome (List ℕ)
g ⋄ g' = g >>= (λ a. g' >>= (λ b. ok (a ++ b)))

abbrev pub prefixed : List ℕ → List ℕ
prefixed bytes = groups 9 (length bytes) ++ bytes

module _ {J : Type 0} (json : Jansson J) where
  abbrev pub tag_of : List ℕ → Option J → Outcome (List ℕ)
  tag_of type number =
      ok (groups 9 (get_constant_type type + number_or_zero json number % 2 ^ 29 * 8))

  unfoldable pub tag_bytes : J → Outcome (List ℕ)
  tag_bytes field =
      text json field Names.type_key >>= (λ type. tag_of type (json.object_get field Names.tag_key))

  abbrev pub str_bytes : Option (List ℕ) → Outcome (List ℕ)
  str_bytes none = fault
  str_bytes (some str) = defined (ltb (length str) (2 ^ 31)) (ok (prefixed str))

module _ {J : Type 0} (json : Jansson J) (malloc : ℕ → Bool) (gprotos : J) where
  module _ (sub : J → J → Outcome (List ℕ)) where
    abbrev pub found_bytes : J → Option J → Outcome (List ℕ)
    found_bytes value none = err
    found_bytes value (some protos) = sub protos value >>= (λ bytes. ok (prefixed bytes))

    abbrev pub message_bytes : Option J → List ℕ → J → Outcome (List ℕ)
    message_bytes none type value = ok []
    message_bytes (some messages) type value =
        sub_msg json malloc gprotos messages type >>= found_bytes value

    abbrev pub field_bytes : FieldType → J → List ℕ → J → Outcome (List ℕ)
    field_bytes uint32 protos type value = ok (groups 9 (json.integer value))
    field_bytes int32 protos type value = ok (groups 9 (zigzag (json.integer value)))
    field_bytes sint32 protos type value = ok (groups 9 (zigzag (json.integer value)))
    field_bytes float protos type value = ok (json.float_bytes value)
    field_bytes double protos type value = ok (json.double_bytes value)
    field_bytes string protos type value = str_bytes json (json.string_value value)
    field_bytes message protos type value =
        message_bytes (json.object_get protos Names.messages_key) type value

    unfoldable pub proto_bytes : J → J → J → Outcome (List ℕ)
    proto_bytes protos proto value =
        text json proto Names.type_key >>= (λ type. field_bytes (get_type type) protos type value)

    unfoldable pub packed_bytes : J → J → List J → Outcome (List ℕ)
    packed_bytes protos proto [] = ok []
    packed_bytes protos proto (v ∷ vs) = proto_bytes protos proto v ⋄ packed_bytes protos proto vs

    unfoldable pub tagged_bytes : J → J → List J → Outcome (List ℕ)
    tagged_bytes protos proto [] = ok []
    tagged_bytes protos proto (v ∷ vs) =
        (tag_bytes json proto ⋄ proto_bytes protos proto v) ⋄ tagged_bytes protos proto vs

    unfoldable pub array_bytes : J → J → J → Outcome (List ℕ)
    array_bytes protos proto array = text json proto Names.type_key >>= (λ type.
        if is_packed (get_type type)
        then (tag_bytes json proto ⋄ ok (groups 9 (length (json.elements array))))
          ⋄ packed_bytes protos proto (json.elements array)
        else tagged_bytes protos proto (json.elements array))

    abbrev pub option_bytes : List ℕ → J → J → J → Outcome (List ℕ)
    option_bytes option protos proto value =
        if same_str option Names.required || same_str option Names.optional
        then tag_bytes json proto ⋄ proto_bytes protos proto value
        else if same_str option Names.repeated && json.is_array value
        then array_bytes protos proto value
        else ok []

    abbrev pub member_bytes : J → Option J → J → Outcome (List ℕ)
    member_bytes protos none value = err
    member_bytes protos (some proto) value =
        text json proto Names.option_key >>= (λ option. option_bytes option protos proto value)

    unfoldable pub members_bytes : J → List (List ℕ × J) → Outcome (List ℕ)
    members_bytes protos [] = ok []
    members_bytes protos ((key, value) ∷ rest) =
        member_bytes protos (json.object_get protos key) value ⋄ members_bytes protos rest

  unfoldable pub bytes_of : ℕ → J → J → Outcome (List ℕ)
  bytes_of zero protos msg = stuck
  bytes_of (suc depth) protos msg = members_bytes (bytes_of depth) protos (json.members msg)
