-- ===== src/Protobuf/Returns.antt =====
-- The end of src/pb-decode.c, whatever the input and the schema are.
use libpomelo.Common.{
  ℕ, zero, suc, ◌≤◌, ◌≢◌, subst, Bool, ◌||◌, Option, none, some, List, length, arith, inl, inr,
  eq_or_ne, ==_true, ==_false,
}
use libpomelo.Common.Bytes.{same_str}
use libpomelo.Common.Outcome.{Outcome, ok, err, fault, stuck, ◌>>=◌}
use libpomelo.Protobuf.{FieldType, uint32, int32, sint32, float, double, string, message, get_type}
use libpomelo.Protobuf.Names
use libpomelo.Protobuf.Input.{
  Istream, istream_from_buffer, Reads, ◌>>?◌, pb_read, pb_decode_varint, pb_decode_varint32,
  pb_decode_svarint, Tag, tag, eof, failure, pb_decode_tag, pb_make_string_substream,
}
use libpomelo.Protobuf.Encode.{Jansson, text, sub_msg}
use libpomelo.Protobuf.Decode.{
  Builder, Printer, pb_decode_submessage, decode_found, decode_message, decode_field,
  pb_decode_proto, decode_packed, array_or_new, decode_elements, pb_decode_array, decode_option,
  decode_named, decode_defined, decode_tagged, decode_round, pb_decode, pc_pb_decode,
}
use libpomelo.Protobuf.Bounds.{
  Ends, Left, Ends-then, Ends-if, pb_read-Ends, pb_decode_varint-Ends, pb_decode_varint32-Ends,
  pb_decode_svarint-Ends, pb_make_string_substream-Ends, TagEnds, pb_decode_tag-TagEnds,
}
use libpomelo.Protobuf.Strings.{
  Any, Ends-after, close-Ends, decode_text-Ends, text_of-Returns, found_or_root-Returns,
}

module _ {J R : Type 0} (json : Jansson J) (build : Builder R) (printer : Printer)
    (malloc : ℕ → Bool) (gprotos : J) where
  module _ (decode : Istream → J → R → Reads R) (n : ℕ)
      (below : (s : Istream) (protos : J) (r : R)
        → s.bytes_left ≤ n
        → Ends Any (decode s protos r)) where
    submessage-Ends :
        (s : Istream) (protos : J) (dest : R)
        → s.bytes_left ≤ n
        → Ends
            (Left 0 n)
            (pb_decode_submessage json build printer malloc gprotos decode s protos dest)
    unfolding pb_decode_submessage
    submessage-Ends s protos dest h =
        Ends-then (λ s₁ sub. (s₁.bytes_left ≤ n) × (sub.bytes_left ≤ n)) (Left 0 n)
          (pb_make_string_substream s) _ (pb_make_string_substream-Ends n s h)
          (λ s₁ sub (left, inner).
            close-Ends n s₁ (decode sub protos dest) left (below sub protos dest inner))

    found-Ends :
        (s : Istream) (found : Option J) (key : Option (List ℕ)) (result : R)
        → s.bytes_left ≤ n
        → Ends (Left 0 n) (decode_found json build printer malloc gprotos decode s found key result)
    found-Ends s none key result h = tt
    found-Ends s (some protos) none result h = submessage-Ends s protos result h
    found-Ends s (some protos) (some key) result h =
        Ends-then (Left 0 n) (Left 0 n)
          (pb_decode_submessage json build printer malloc gprotos decode s protos build.object) _
          (submessage-Ends s protos build.object h) (λ s₁ v left. left)

    message-Ends :
        (s : Istream) (messages : Option J) (type : List ℕ) (key : Option (List ℕ)) (result : R)
        → s.bytes_left ≤ n
        → Ends
            (Left 0 n)
            (decode_message json build printer malloc gprotos decode s messages type key result)
    message-Ends s none type key result h = omega arith
    message-Ends s (some messages) type key result h =
        Ends-after (Left 0 n) (sub_msg json malloc gprotos messages type) _
          (found_or_root-Returns json malloc gprotos (json.object_get messages type) type)
          (λ found. found-Ends s found key result h)

    field-Ends :
        (t : FieldType) (s : Istream) (protos : J) (type : List ℕ) (key : Option (List ℕ))
        (result : R)
        → s.bytes_left ≤ n
        → Ends
            (Left 0 n)
            (decode_field json build printer malloc gprotos decode t s protos type key result)
    field-Ends uint32 s protos type key result h =
        Ends-then (Left 1 n) (Left 0 n) (pb_decode_varint s) _ (pb_decode_varint-Ends n s h)
          (λ s₁ v left. omega arith)
    field-Ends int32 s protos type key result h =
        Ends-then (Left 1 n) (Left 0 n) (pb_decode_svarint s) _ (pb_decode_svarint-Ends n s h)
          (λ s₁ v left. omega arith)
    field-Ends sint32 s protos type key result h =
        Ends-then (Left 1 n) (Left 0 n) (pb_decode_svarint s) _ (pb_decode_svarint-Ends n s h)
          (λ s₁ v left. omega arith)
    field-Ends float s protos type key result h =
        Ends-then (Left 4 n) (Left 0 n) (pb_read s 4) _ (pb_read-Ends n s 4 h)
          (λ s₁ v left. omega arith)
    field-Ends double s protos type key result h =
        Ends-then (Left 8 n) (Left 0 n) (pb_read s 8) _ (pb_read-Ends n s 8 h)
          (λ s₁ v left. omega arith)
    field-Ends string s protos type key result h = decode_text-Ends build malloc n s result key h
    field-Ends message s protos type key result h =
        message-Ends s (json.object_get protos Names.messages_key) type key result h

    proto-Ends :
        (s : Istream) (proto protos : J) (key : Option (List ℕ)) (result : R)
        → s.bytes_left ≤ n
        → Ends
            (Left 0 n)
            (pb_decode_proto json build printer malloc gprotos decode s proto protos key result)
    unfolding pb_decode_proto
    proto-Ends s proto protos key result h =
        Ends-after (Left 0 n) (text json proto Names.type_key) _
          (text_of-Returns json (json.object_get proto Names.type_key))
          (λ type. field-Ends (get_type type) s protos type key result h)

    packed-Ends :
        (size : ℕ) (s : Istream) (proto protos : J) (key : List ℕ) (array : R)
        → s.bytes_left ≤ n
        → Ends
            (Left 0 n)
            (decode_packed json build printer malloc gprotos decode size s proto protos key array)
    unfolding decode_packed
    packed-Ends zero s proto protos key array h = omega arith
    packed-Ends (suc size) s proto protos key array h =
        Ends-then (Left 0 n) (Left 0 n)
          (pb_decode_proto json build printer malloc gprotos decode s proto protos (some key) array)
          _ (proto-Ends s proto protos (some key) array h)
          (λ s₁ array₁ left. packed-Ends size s₁ proto protos key array₁ (omega arith))

    sized-Ends :
        (s : Istream) (proto protos : J) (key : List ℕ) (array : R)
        → s.bytes_left ≤ n
        → Ends (Left 0 n) (
            pb_decode_varint32 s >>? (λ s₁ size.
              decode_packed json build printer malloc gprotos decode size s₁ proto protos key
                array))
    sized-Ends s proto protos key array h =
        Ends-then (Left 1 n) (Left 0 n) (pb_decode_varint32 s) _ (pb_decode_varint32-Ends n s h)
          (λ s₁ size left. packed-Ends size s₁ proto protos key array (omega arith))

    elements-Ends :
        (t : FieldType) (s : Istream) (proto protos : J) (key : List ℕ) (array : R)
        → s.bytes_left ≤ n
        → Ends
            (Left 0 n)
            (decode_elements json build printer malloc gprotos decode t s proto protos key array)
    elements-Ends message s proto protos key array h =
        Ends-then (Left 0 n) (Left 0 n)
          (pb_decode_proto json build printer malloc gprotos decode s proto protos none
            build.object)
          _ (proto-Ends s proto protos none build.object h) (λ s₁ v left. left)
    elements-Ends string s proto protos key array h = proto-Ends s proto protos (some key) array h
    elements-Ends uint32 s proto protos key array h = sized-Ends s proto protos key array h
    elements-Ends int32 s proto protos key array h = sized-Ends s proto protos key array h
    elements-Ends sint32 s proto protos key array h = sized-Ends s proto protos key array h
    elements-Ends float s proto protos key array h = sized-Ends s proto protos key array h
    elements-Ends double s proto protos key array h = sized-Ends s proto protos key array h

    array-Ends :
        (s : Istream) (proto protos : J) (key : List ℕ) (result : R)
        → s.bytes_left ≤ n
        → Ends
            (Left 0 n)
            (pb_decode_array json build printer malloc gprotos decode s proto protos key result)
    unfolding pb_decode_array
    array-Ends s proto protos key result h =
        Ends-after (Left 0 n) (text json proto Names.type_key) _
          (text_of-Returns json (json.object_get proto Names.type_key))
          (λ type.
            Ends-then (Left 0 n) (Left 0 n) _ _
              (elements-Ends (get_type type) s proto protos key
                (array_or_new json build printer malloc gprotos decode (build.get result key)) h)
              (λ s₁ v left. left))

    option-Ends :
        (option : List ℕ) (s : Istream) (proto protos : J) (name : List ℕ) (result : R)
        → s.bytes_left ≤ n
        → Ends (Left 0 n) (
            decode_option json build printer malloc gprotos decode option s proto protos name
              result)
    option-Ends option s proto protos name result h =
        Ends-if (Left 0 n) (same_str option Names.optional || same_str option Names.required) _ _
          (proto-Ends s proto protos (some name) result h)
          (Ends-if (Left 0 n) (same_str option Names.repeated) _ _
            (array-Ends s proto protos name result h) (omega arith))

    defined-Ends :
        (s : Istream) (proto : Option J) (protos : J) (name : List ℕ) (result : R)
        → s.bytes_left ≤ n
        → Ends
            (Left 0 n)
            (decode_defined json build printer malloc gprotos decode s proto protos name result)
    defined-Ends s none protos name result h = tt
    defined-Ends s (some proto) protos name result h =
        Ends-after (Left 0 n) (text json proto Names.option_key) _
          (text_of-Returns json (json.object_get proto Names.option_key))
          (λ option. option-Ends option s proto protos name result h)

    named-Ends :
        (s : Istream) (protos : J) (name : Option (List ℕ)) (result : R)
        → s.bytes_left ≤ n
        → Ends
            (Left 0 n)
            (decode_named json build printer malloc gprotos decode s protos name result)
    named-Ends s protos none result h = tt
    named-Ends s protos (some name) result h =
        defined-Ends s (json.object_get protos name) protos name result h

    tagged-Ends :
        (s : Istream) (protos : J) (tags : Option J) (number : ℕ) (result : R)
        → s.bytes_left ≤ n
        → Ends
            (Left 0 n)
            (decode_tagged json build printer malloc gprotos decode s protos tags number result)
    tagged-Ends s protos none number result h = tt
    tagged-Ends s protos (some tags) number result h = named-Ends s protos _ result h

    -- A round, behind what `pb_decode_tag` gives.
    round-Ends :
        (m : Outcome (Istream × Tag)) (protos : J) (result : R)
        → TagEnds (suc n) m
        → Ends Any (
            m >>= (λ (s₁, t).
              decode_round json build printer malloc gprotos decode s₁ protos t result))
    round-Ends (ok (s₁, tag number wire_type)) protos result e =
        Ends-then (Left 0 n) Any _ _
          (tagged-Ends s₁ protos (json.object_get protos Names.tags_key) number result
            (omega arith))
          (λ s₂ r left. below s₂ protos r (omega arith))
    round-Ends (ok (s₁, eof)) protos result e = tt
    round-Ends (ok (s₁, failure)) protos result e = tt
    round-Ends err protos result e = tt
    round-Ends fault protos result e = tt
    round-Ends stuck protos result e = e

  decode-Ends :
      (fuel : ℕ) (s : Istream) (protos : J) (result : R)
      → s.bytes_left ≤ fuel
      → Ends Any (pb_decode json build printer malloc gprotos fuel s protos result)
  unfolding pb_decode
  decode-Ends zero s protos result h = rw (==_true s.bytes_left 0 (omega arith)) tt
  decode-Ends (suc fuel) s protos result h = elim (eq_or_ne s.bytes_left 0) [
    | inl e ↦ rw (==_true s.bytes_left 0 e) tt
    | inr e ↦ rw (==_false s.bytes_left 0 e) (
        round-Ends (pb_decode json build printer malloc gprotos fuel) fuel (decode-Ends fuel)
          (pb_decode_tag s) protos result (pb_decode_tag-TagEnds (suc fuel) s h))
  ]

  -- The decoder returns on every input: it reads a byte at least for every field, so as many rounds
  -- and levels as there are bytes are enough, whatever the schema is.
  pub pc_pb_decode-returns :
      (buf : List ℕ) (protos : J) (result : R)
      → pc_pb_decode json build printer malloc gprotos buf protos result ≢ stuck
  unfolding pc_pb_decode
  pc_pb_decode-returns buf protos result e =
      subst (Ends Any) e
        (decode-Ends (length buf) (istream_from_buffer buf) protos result (omega arith))
