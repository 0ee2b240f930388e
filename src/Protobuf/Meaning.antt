-- ===== src/Protobuf/Meaning.antt =====
-- What the bytes of a message stand for: the value that src/pb-decode.c is to build from the bytes of
-- src/pb-encode.c, described from the message and its schema, without bytes. A schema that has no field
-- for a member, or none of its texts, leaves the result as it is.
use libpomelo.Common.{
  ℕ, zero, suc, Bool, ◌&&◌, ◌||◌, Option, none, some, List, [], ◌∷◌, if◌then◌else◌,
}
use libpomelo.Common.Bytes.{same_str}
use libpomelo.Common.Outcome.{Outcome, ok, err, fault, stuck}
use libpomelo.Protobuf.{FieldType, uint32, int32, sint32, float, double, string, message, get_type}
use libpomelo.Protobuf.Names
use libpomelo.Protobuf.Encode.{Jansson, text, sub_msg, is_packed}
use libpomelo.Protobuf.Decode.{Builder, put_value, put_text}

-- What a defined computation is used for.
abbrev pub on_ok : {A R : Type 0} → Outcome A → R → (A → R) → R
on_ok (ok a) r f = f a
on_ok err r f = r
on_ok fault r f = r
on_ok stuck r f = r

module _ {J R : Type 0} (json : Jansson J) (build : Builder R) (malloc : ℕ → Bool)
    (gprotos : J) where
  abbrev pub elements_so_far : Option R → R
  elements_so_far none = build.array
  elements_so_far (some array) = array

  module _ (sub : J → J → R → R) where
    abbrev pub into_message : Option J → Option (List ℕ) → J → R → R
    into_message none key value result = result
    into_message (some protos) none value result = sub protos value result
    into_message (some protos) (some key) value result =
        build.put result key (sub protos value build.object)

    abbrev pub store_message : Option J → List ℕ → Option (List ℕ) → J → R → R
    store_message none type key value result = result
    store_message (some messages) type key value result =
        on_ok (sub_msg json malloc gprotos messages type) result
          (λ found. into_message found key value result)

    abbrev pub store_text : Option (List ℕ) → Option (List ℕ) → R → R
    store_text none key result = result
    store_text (some str) key result = put_text build result key (build.text_value str)

    abbrev pub store_field : FieldType → J → List ℕ → Option (List ℕ) → J → R → R
    store_field uint32 protos type key value result =
        put_value build result key (build.integer (json.integer value))
    store_field int32 protos type key value result =
        put_value build result key (build.integer (json.integer value))
    store_field sint32 protos type key value result =
        put_value build result key (build.integer (json.integer value))
    store_field float protos type key value result =
        put_value build result key (build.float_real (json.float_bytes value))
    store_field double protos type key value result =
        put_value build result key (build.double_real (json.double_bytes value))
    store_field string protos type key value result =
        store_text (json.string_value value) key result
    store_field message protos type key value result =
        store_message (json.object_get protos Names.messages_key) type key value result

    unfoldable pub store_proto : J → J → Option (List ℕ) → J → R → R
    store_proto protos proto key value result =
        on_ok (text json proto Names.type_key) result
          (λ type. store_field (get_type type) protos type key value result)

    unfoldable pub append_all : J → J → List ℕ → List J → R → R
    append_all protos proto key [] array = array
    append_all protos proto key (v ∷ vs) array =
        append_all protos proto key vs (store_proto protos proto (some key) v array)

    abbrev pub append_one : FieldType → J → J → List ℕ → J → R → R
    append_one message protos proto key v array =
        build.append array (store_proto protos proto none v build.object)
    append_one _ protos proto key v array = store_proto protos proto (some key) v array

    -- An array with a field for each element has none if it is empty.
    unfoldable pub append_each : FieldType → J → J → List ℕ → List J → R → R
    append_each t protos proto key [] result = result
    append_each t protos proto key (v ∷ vs) result = append_each t protos proto key vs (
        build.put result key
          (append_one t protos proto key v (elements_so_far (build.get result key))))

    unfoldable pub store_array : J → J → List ℕ → J → R → R
    store_array protos proto key value result =
        on_ok (text json proto Names.type_key) result (λ type.
          if is_packed (get_type type)
          then build.put result key (
              append_all protos proto key (json.elements value)
                (elements_so_far (build.get result key)))
          else append_each (get_type type) protos proto key (json.elements value) result)

    abbrev pub store_option : List ℕ → J → J → List ℕ → J → R → R
    store_option option protos proto key value result =
        if same_str option Names.required || same_str option Names.optional
        then store_proto protos proto (some key) value result
        else if same_str option Names.repeated && json.is_array value
        then store_array protos proto key value result
        else result

    abbrev pub store_member : J → Option J → List ℕ → J → R → R
    store_member protos none key value result = result
    store_member protos (some proto) key value result =
        on_ok (text json proto Names.option_key) result
          (λ option. store_option option protos proto key value result)

    unfoldable pub store_members : J → List (List ℕ × J) → R → R
    store_members protos [] result = result
    store_members protos ((key, value) ∷ rest) result =
        store_members protos rest
          (store_member protos (json.object_get protos key) key value result)

  -- The members of a message, stored one after the other.
  unfoldable pub stored : ℕ → J → J → R → R
  stored zero protos msg result = result
  stored (suc depth) protos msg result =
      store_members (stored depth) protos (json.members msg) result
