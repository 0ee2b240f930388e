-- ===== src/Protocol/Defined.antt =====
-- A message with a protobuf definition, through the default functions of src/protocol.c and back.
use libpomelo.Common.{
  ap, ◌∙◌, ℕ, ◌+◌, ◌*◌, ◌^◌, ◌≤◌, ◌<◌, ◌≡◌, Bool, Option, some, List, ◌∷◌, leb-true, length,
  take_all, arith,
}
use libpomelo.Common.Outcome.{ok, ◌>>=◌}
use libpomelo.Message.{granted}
use libpomelo.Message.Sizes.{Grants}
use libpomelo.Message.RoundTrip.{granted-eq}
use libpomelo.Bodies.{pb_decode_body}
use libpomelo.Bodies.Sizes.{pb_encode_body-sized}
use libpomelo.Protobuf.Encode.{Jansson}
use libpomelo.Protobuf.Decode.{Builder, Printer}
use libpomelo.Protobuf.Reference.{bytes_of}
use libpomelo.Protobuf.Meaning.{stored}
use libpomelo.Protobuf.Agrees.{Widths}
use libpomelo.Protobuf.Values.{Schemas}
use libpomelo.Protobuf.ReadBack.{pc_pb_decode-bytes_of}
use libpomelo.Protobuf.Fits.{Builds, Fits}
use libpomelo.Protobuf.Whole.{stored-Fits}
use libpomelo.Client.{Client}
use libpomelo.Protocol.{
  body_bytes, get_of, parsed_body, body_buf, default_msg_parse, default_msg_encode,
}
use libpomelo.Protocol.RoundTrip.{IsReadable, parse-encode_body}

module _ {J : Type 0} (malloc : ℕ → Option (List ℕ)) (grants : Grants malloc) (signed_char : Bool)
    (json : Jansson J) (widths : Widths json) (build : Builder J) (printer : Printer)
    (json_loadb : List ℕ → Option J) (integer_value : J → ℕ) (json_dumps : J → Option (List ℕ))
    (depth : ℕ) (c : Client J) (gprotos : J) (Known : J → Type 0)
    (schemas : Schemas json printer (granted malloc) gprotos Known) where
  pb-encoded :
      (route text bytes : List ℕ) (v pb_def : J)
      → c.client_protos ≡ some gprotos
      → json.object_get gprotos route ≡ some pb_def
      → json_dumps v ≡ some text
      → length text * 2 < 2 ^ 64
      → bytes_of json (granted malloc) gprotos depth pb_def v ≡ ok bytes
      → length bytes ≤ length text * 2
      → (body_buf malloc json integer_value json_dumps depth c v (get_of json c.client_protos route)
          >>= body_bytes)
        ≡ ok bytes
  pb-encoded route text bytes v pb_def own found printed small described fits = rw (
    own,
    found,
    pb_encode_body-sized json widths (granted malloc) json_dumps depth gprotos pb_def v text bytes
        printed small (granted-eq malloc grants (length text * 2)) described (omega arith),
    leb-true (length bytes) (length text * 2) fits,
    take_all (length bytes) bytes (omega arith),
  )

  pb-parsed :
      (b : ℕ) (route bs : List ℕ) (v pb_def : J)
      → c.server_protos ≡ some gprotos
      → json.object_get gprotos route ≡ some pb_def
      → Known pb_def
      → bytes_of json (granted malloc) gprotos depth pb_def v ≡ ok (b ∷ bs)
      → length (b ∷ bs) < 2 ^ 32
      → parsed_body malloc signed_char json build printer json_loadb
          (some build.object)
          c
          route
          (b ∷ bs)
        ≡ ok (some (stored json build (granted malloc) gprotos depth pb_def v build.object))
  unfolding pb_decode_body
  pb-parsed b route bs v pb_def own found known described small =
      let body : List ℕ = b ∷ bs in
      rw (
        own,
        found,
        leb-true (0 + length body) (length body) (omega arith),
        take_all (length bs) bs (omega arith),
        pc_pb_decode-bytes_of json build printer (granted malloc) gprotos Known schemas widths
            (λ n. granted-eq malloc grants n) depth pb_def v body build.object known described
            small,
      )

  -- A request or a notification whose route has a protobuf definition, the same at the two ends: what the
  -- default encoder writes for it, the default parser reads as the same number, the same route and the
  -- same message; if the message fits its definition (its values are of their types, it has no key twice,
  -- an array that is not packed is not empty), has bytes, one at least, at most twice as many as its JSON
  -- text, and fewer than 2 ^ 32, each field of its schemas has a number from 1 on below 2 ^ 29, under
  -- which `__tags` has its name, the tables of the two ends agree on the route, which is a C string of 1
  -- to 127 bytes, or to 255 where `char` is unsigned, the number is below 2 ^ 31, twice the length of the
  -- text is below 2 ^ 64, allocations succeed, and jansson builds objects and arrays of what is put in.
  pub parse-encode_pb :
      (id b : ℕ) (route text bs : List ℕ) (v pb_def : J)
      → Builds build
      → id < 2 ^ 31
      → IsReadable malloc grants signed_char json build printer json_loadb
          (some build.object)
          integer_value
          json_dumps
          depth
          c
          route
      → c.client_protos ≡ some gprotos
      → c.server_protos ≡ some gprotos
      → json.object_get gprotos route ≡ some pb_def
      → Known pb_def
      → Fits json build (granted malloc) gprotos depth pb_def v
      → json_dumps v ≡ some text
      → length text * 2 < 2 ^ 64
      → bytes_of json (granted malloc) gprotos depth pb_def v ≡ ok (b ∷ bs)
      → length (b ∷ bs) ≤ length text * 2
      → length (b ∷ bs) < 2 ^ 32
      → (default_msg_encode malloc json integer_value json_dumps depth c id route v
          >>= default_msg_parse malloc signed_char json build printer json_loadb
              (some build.object)
              c)
        ≡ ok (record { id = id; route = some route; msg = some v })
  parse-encode_pb id b route text bs v pb_def builds low readable client_own server_own found known
        fits printed small described room short =
      parse-encode_body malloc grants signed_char json build printer json_loadb (some build.object)
        integer_value json_dumps depth c id b route bs v v low readable
        (pb-encoded route text (b ∷ bs) v pb_def client_own found printed small described room)
        (omega arith)
        (pb-parsed b route bs v pb_def server_own found known described short
          ∙ ap (λ z. ok (some z))
              (stored-Fits json build (granted malloc) gprotos builds depth pb_def v fits))
