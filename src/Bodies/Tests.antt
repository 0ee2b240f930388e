-- ===== src/Bodies/Tests.antt =====
-- A message of src/msg-pb.c that is more than twice as long as its JSON text: whole numbers in a
-- field of type double.
use libpomelo.Common.{
  ℕ, ◌*◌, ◌≡◌, refl, Bool, true, Option, some, List, [], ◌∷◌, length, leb, replicate, if◌then◌else◌,
  arith,
}
use libpomelo.Common.Groups.{groups}
use libpomelo.Common.Outcome.{ok}
use libpomelo.Protobuf.{get_type, get_constant_type}
use libpomelo.Protobuf.Names
use libpomelo.Protobuf.Reference.{
  bytes_of, members_bytes, packed_bytes, array_bytes, proto_bytes, tag_bytes,
}
use libpomelo.Protobuf.Sample.{
  Value, object, array, num, end, field, item, none_left, definition, values, values-Widths,
}
use libpomelo.Bodies.{pb_encode_body}
use libpomelo.Bodies.Sizes.{pb_encode_body-sized}

abbrev key : List ℕ
key = 100 ∷ []

abbrev schema : Value
schema = object (field key (definition Names.repeated Names.double 1) end)

abbrev points : Value
points =
    object
      (field key (array (item (num 1) (item (num 1) (item (num 1) (item (num 1) none_left))))) end)

-- {"d":[1,1,1,1]}
abbrev printed : List ℕ
printed = 123 ∷ 34 ∷ 100 ∷ 34 ∷ 58 ∷ 91 ∷ 49 ∷ 44 ∷ 49 ∷ 44 ∷ 49 ∷ 44 ∷ 49 ∷ 93 ∷ 125 ∷ []

abbrev point_bytes : List ℕ
point_bytes = 9 ∷ 4 ∷ replicate 32 0

abbrev plenty : ℕ → Bool
plenty n = true

abbrev dumps : Value → Option (List ℕ)
dumps v = some printed

points_described : bytes_of values plenty schema 1 schema points ≡ ok point_bytes
unfolding bytes_of members_bytes packed_bytes array_bytes proto_bytes tag_bytes get_type
    get_constant_type groups
points_described = refl

pb_encode_body-sized_example :
    pb_encode_body values plenty dumps 1 schema schema points
    ≡ ok (
        if leb (length point_bytes) (length printed * 2)
        then record { len = some (length point_bytes); base = some point_bytes }
        else record { len = some 0; base = some [] })
pb_encode_body-sized_example =
    pb_encode_body-sized values values-Widths plenty dumps 1 schema schema points printed
      point_bytes refl (omega arith) refl points_described (omega arith)
