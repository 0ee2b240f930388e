-- ===== src/Protocol/Tests.antt =====
-- A message through the default functions of src/protocol.c, and the theorem at a concrete input.
use libpomelo.Common.{
  ℕ, ◌≡◌, refl, true, Option, none, some, List, [], ◌∷◌, inl, inr, drop, replicate,
  length-replicate, arith,
}
use libpomelo.Common.Outcome.{ok, ◌>>=◌}
use libpomelo.Message.{granted, encode_code, msg_id_length, msg_encode_id}
use libpomelo.Message.Sizes.{Grants}
use libpomelo.Protobuf.Sample.{Value, object, str, num, field, end, values, number, built, digits}
use libpomelo.Common.Groups.{groups}
use libpomelo.Protobuf.{get_type, get_constant_type}
use libpomelo.Protobuf.Sample.{schema, player, player_bytes, values-Widths}
use libpomelo.Protobuf.SampleFacts.{Sampled, sample-Schemas}
use libpomelo.Protobuf.Reference.{
  bytes_of, members_bytes, tagged_bytes, packed_bytes, array_bytes, proto_bytes, tag_bytes,
}
use libpomelo.Protobuf.SampleFits.{built-Builds, player-Fits}
use libpomelo.Client.{Client}
use libpomelo.Client.Sample.{working_client}
use libpomelo.Protocol.{default_msg_parse, default_msg_encode, resolve_dictionary}
use libpomelo.Protocol.RoundTrip.{IsReadable, parse-encode}
use libpomelo.Protocol.Defined.{parse-encode_pb}

abbrev memory : ℕ → Option (List ℕ)
memory n = some (replicate n 0)

memory-Grants : Grants memory
memory-Grants n = (replicate n 0, refl, length-replicate n 0)

-- "a.b", which has the code 5.
abbrev route_ab : List ℕ
route_ab = 97 ∷ 46 ∷ 98 ∷ []

abbrev dictionary_client : Client Value
dictionary_client = record working_client {
  route_to_code = some (object (field route_ab (num 5) end));
  code_to_route = some (object (field (53 ∷ []) (str route_ab) end));
}

-- "{}"
abbrev print_text : Value → Option (List ℕ)
print_text v = some (123 ∷ 125 ∷ [])

abbrev read_text : List ℕ → Option Value
read_text text = some (object end)

route_ab-IsReadable :
    IsReadable memory memory-Grants true values built digits read_text none number print_text 3
      dictionary_client route_ab
unfolding resolve_dictionary
route_ab-IsReadable = record {
  whole = refl;
  some_bytes = omega arith;
  short = omega arith;
  coded = inr (omega arith, omega arith, refl);
}

-- The code is written, in two bytes.
encode_run :
    default_msg_encode memory values number print_text 3 dictionary_client 7 route_ab (object end)
    ≡ ok (1 ∷ 7 ∷ 0 ∷ 5 ∷ 123 ∷ 125 ∷ [])
unfolding default_msg_encode encode_code msg_id_length msg_encode_id
encode_run = refl

parse-encode_example :
    (default_msg_encode memory values number print_text 3 dictionary_client 7 route_ab (object end)
      >>= default_msg_parse memory true values built digits read_text none dictionary_client)
    ≡ ok (record { id = 7; route = some route_ab; msg = some (object end) })
parse-encode_example =
    parse-encode memory memory-Grants true values built digits read_text none number print_text 3
      dictionary_client 7 123 route_ab (125 ∷ []) (object end) (object end) (omega arith)
      route_ab-IsReadable refl refl refl (omega arith) refl

-- The definitions of both ends: the route "a.b" has the messages of the sample.
abbrev definitions : Value
definitions = object (field route_ab schema end)

abbrev defined_client : Client Value
defined_client = record dictionary_client {
  client_protos = some definitions;
  server_protos = some definitions;
}

-- A text of the length of the JSON text of the player.
abbrev player_text : Value → Option (List ℕ)
player_text v = some (replicate 43 32)

defined_route-IsReadable :
    IsReadable memory memory-Grants true values built digits read_text
      (some (object end))
      number
      player_text
      2
      defined_client
      route_ab
unfolding resolve_dictionary
defined_route-IsReadable = record {
  whole = refl;
  some_bytes = omega arith;
  short = omega arith;
  coded = inr (omega arith, omega arith, refl);
}

player_described : bytes_of values (granted memory) definitions 2 schema player ≡ ok player_bytes
unfolding bytes_of members_bytes tagged_bytes packed_bytes array_bytes proto_bytes tag_bytes
    get_type get_constant_type groups
player_described = refl

-- The player comes to the other end as it was.
parse-encode_pb_example :
    (default_msg_encode memory values number player_text 2 defined_client 7 route_ab player
      >>= default_msg_parse memory true values built digits read_text
          (some (object end))
          defined_client)
    ≡ ok (record { id = 7; route = some route_ab; msg = some player })
parse-encode_pb_example =
    parse-encode_pb memory memory-Grants true values values-Widths built digits read_text number
      player_text 2 defined_client definitions Sampled (sample-Schemas definitions (λ type. refl)) 7
      10 route_ab (replicate 43 32) (drop 1 player_bytes) player schema built-Builds (omega arith)
      defined_route-IsReadable refl refl refl (inl refl) (player-Fits definitions) refl
      (omega arith) player_described (omega arith) (omega arith)
