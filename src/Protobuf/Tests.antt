-- ===== src/Protobuf/Tests.antt =====
-- Runs of the protobuf codec on a small schema, and the theorems at concrete inputs.
use libpomelo.Common.{
  ◌+◌, ◌-◌, ◌^◌, ◌≡◌, refl, some, [], ◌∷◌, ◌++◌, leb, if◌then◌else◌, length, arith, ◌≢◌, inl,
}
use libpomelo.Common.Outcome.{ok, err, fault, stuck, ◌>>=◌}
use libpomelo.Common.Groups.{groups}
use libpomelo.Protobuf.{get_type, get_constant_type}
use libpomelo.Protobuf.Names
use libpomelo.Protobuf.Output.{
  ostream_from_buffer, sizing_stream, pb_encode_varint, pb_encode_svarint, pb_encode_tag,
  pb_encode_string,
}
use libpomelo.Protobuf.Input.{
  pb_decode_varint, pb_decode_svarint, pb_decode_tag, pb_decode_strlen, pb_decode_string, tag,
  ◌>>?◌,
}
use libpomelo.Protobuf.RoundTrip.{
  reading, decode-encode_varint, decode-encode_svarint, decode-encode_tag, decode-encode_string,
}
use libpomelo.Protobuf.Encode.{pb_encode, pc_pb_encode}
use libpomelo.Protobuf.Emit.{emit}
use libpomelo.Protobuf.Reference.{
  bytes_of, members_bytes, tagged_bytes, packed_bytes, array_bytes, proto_bytes, tag_bytes,
}
use libpomelo.Protobuf.Refines.{pb_encode-bytes_of, pc_pb_encode-bytes_of}
use libpomelo.Protobuf.Sample.{
  object, end, values, values-Widths, schema, player, player_bytes, built, digits,
}
use libpomelo.Protobuf.Decode.{
  pc_pb_decode, pb_decode, pb_decode_proto, pb_decode_array, decode_packed, pb_decode_submessage,
  decode_text,
}
use libpomelo.Protobuf.Returns.{pc_pb_decode-returns}
use libpomelo.Protobuf.Strings.{decode_text-overflow}
use libpomelo.Protobuf.Whole.{decode-encode_message}
use libpomelo.Protobuf.SampleFits.{built-Builds, player-Fits}
use libpomelo.Protobuf.SampleFacts.{plenty, Sampled, sample-Schemas}
use libpomelo.Protobuf.Input.{pb_decode_varint32, read_varint, pb_read, pb_make_string_substream}

player_described : bytes_of values plenty schema 2 schema player ≡ ok player_bytes
unfolding bytes_of members_bytes tagged_bytes packed_bytes array_bytes proto_bytes tag_bytes
    get_type get_constant_type groups
player_described = refl

pb_encode-bytes_of_example :
    pb_encode values plenty schema 2 sizing_stream schema player ≡ emit sizing_stream player_bytes
pb_encode-bytes_of_example =
    pb_encode-bytes_of values values-Widths plenty schema 2 schema player player_bytes sizing_stream
      player_described (λ q. cc, omega arith) (omega arith)

-- Twelve bytes are one too few.
pc_pb_encode-bytes_of_example :
    pc_pb_encode values plenty schema 2 12 schema player
    ≡ (if leb (length player_bytes) 12 then ok player_bytes else err)
pc_pb_encode-bytes_of_example =
    pc_pb_encode-bytes_of values values-Widths plenty schema 2 12 schema player player_bytes
      player_described (omega arith) (omega arith)

decode-encode_varint_run :
    (pb_encode_varint (ostream_from_buffer 16) 300
      >>= (λ s. pb_decode_varint (reading s (7 ∷ []) 1)))
    ≡ ok (record { state = 7 ∷ []; bytes_left = 1 }, some 300)
decode-encode_varint_run =
    decode-encode_varint 16 300 1 (7 ∷ []) (omega arith) (omega arith) (omega arith)

-- The pattern of -2.
decode-encode_svarint_run :
    (pb_encode_svarint (ostream_from_buffer 16) (2 ^ 64 - 2)
      >>= (λ s. pb_decode_svarint (reading s [] 0)))
    ≡ ok (record { state = []; bytes_left = 0 }, some (2 ^ 64 - 2))
decode-encode_svarint_run =
    decode-encode_svarint 16 (2 ^ 64 - 2) 0 [] (omega arith) (omega arith) (omega arith)

tag_run :
    (pb_encode_tag (ostream_from_buffer 16) 2 100 >>= (λ s. pb_decode_tag (reading s (1 ∷ []) 1)))
    ≡ ok (record { state = 1 ∷ []; bytes_left = 1 }, tag 100 2)
tag_run =
    decode-encode_tag 16 2 100 1 (1 ∷ []) (omega arith) (omega arith) (omega arith) (omega arith)
      (omega arith)

decode-encode_string_run :
    (pb_encode_string (ostream_from_buffer 16) (104 ∷ 105 ∷ []) 2 >>= (λ s.
      pb_decode_strlen (reading s (1 ∷ []) 1) >>? (λ s₁ len. pb_decode_string s₁ (len + 1) len)))
    ≡ ok (record { state = 1 ∷ []; bytes_left = 1 }, some (104 ∷ 105 ∷ []))
decode-encode_string_run =
    decode-encode_string 16 1 (104 ∷ 105 ∷ []) (1 ∷ []) (omega arith) (omega arith) (omega arith)

player_read :
    pc_pb_decode values built digits plenty schema player_bytes schema (object end)
    ≡ ok (record { state = []; bytes_left = 0 }, some player)
unfolding pc_pb_decode pb_decode pb_decode_proto pb_decode_array decode_packed pb_decode_submessage
    decode_text get_type pb_decode_tag pb_decode_varint32 pb_decode_varint read_varint pb_read
    pb_make_string_substream
player_read = refl

-- A string that says that it is longer than the input.
pc_pb_decode-returns_example :
    pc_pb_decode values built digits plenty schema (10 ∷ 200 ∷ 97 ∷ []) schema (object end) ≢ stuck
pc_pb_decode-returns_example =
    pc_pb_decode-returns values built digits plenty schema (10 ∷ 200 ∷ 97 ∷ []) schema (object end)

decode_text-overflow_example :
    decode_text built plenty
      (record {
        state = groups 9 (2 ^ 32 - 1) ++ (97 ∷ []);
        bytes_left = length (groups 9 (2 ^ 32 - 1)) + 1;
      })
      (object end)
      (some Names.string)
    ≡ fault
decode_text-overflow_example =
    decode_text-overflow built plenty 1 (97 ∷ []) (object end) (some Names.string) refl

-- The player comes back whole.
decode-encode_message_example :
    (pc_pb_encode values plenty schema 2 64 schema player
      >>= (λ buf. pc_pb_decode values built digits plenty schema buf schema (object end)))
    ≡ ok (record { state = []; bytes_left = 0 }, some player)
decode-encode_message_example =
    decode-encode_message values built digits plenty schema Sampled 2 64 schema player player_bytes
      (sample-Schemas schema (λ type. refl)) values-Widths built-Builds (λ n. refl) (inl refl)
      (player-Fits schema) player_described (omega arith) (omega arith)
