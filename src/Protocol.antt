-- ===== src/Protocol.antt =====
-- src/protocol.c: the functions that parse and encode a message by default. They put together the
-- message codec, the bodies, the dictionaries of routes and the requests of the client.
pub mod RoundTrip
pub mod Defined
mod Tests
use libpomelo.Common.{
  ℕ, ◌+◌, ◌%◌, ◌^◌, ◌&&◌, Bool, Option, none, some, List, [], ◌∷◌, ◌==◌, ltb, if◌then◌else◌, length,
  take,
}
use libpomelo.Common.Outcome.{Outcome, ok, err, fault, stuck, ◌>>=◌, checked}
use libpomelo.HashMap.{map_get}
use libpomelo.Message.{
  RawMsg, Route, code, str, has_route, granted, decode, encode_code, encode_route,
}
use libpomelo.Message as Codec
use libpomelo.Bodies.{Buf, json_encode, json_decode, pb_encode_body, pb_decode_body}
use libpomelo.Protobuf.Encode.{Jansson}
use libpomelo.Protobuf.Decode.{Builder, Printer}
use libpomelo.Client.{Client, Request}
use libpomelo.Client.Session.{integer_of}

-- `pc_msg_s` with the value of its body.
pub record Parsed (J : Type 0) : Type 0 where
  pub id : ℕ
  pub route : Option (List ℕ)
  pub msg : Option J

-- The bytes in front of the first 0, which `strlen` counts.
abbrev pub c_string : List ℕ → List ℕ
c_string [] = []
c_string (c ∷ cs) = if c == 0 then [] else c ∷ c_string cs

-- sizeof(pc_msg_t)
abbrev pub msg_size : ℕ
msg_size = 24

-- The bytes of a body that was encoded, and the failure of that.
abbrev pub bytes_at : Option ℕ → Option (List ℕ) → Outcome (List ℕ)
bytes_at none base = err
bytes_at (some n) none = if n == 0 then ok [] else fault
bytes_at (some n) (some bytes) = ok (take n bytes)

abbrev pub body_bytes : Buf → Outcome (List ℕ)
body_bytes buf = bytes_at buf.len buf.base

-- `json_object_get` and `json_string_value` of what may be NULL.
abbrev pub get_of : {J : Type 0} → Jansson J → Option J → List ℕ → Option J
get_of json none key = none
get_of json (some v) key = json.object_get v key

abbrev pub string_of : {J : Type 0} → Jansson J → Option J → Option (List ℕ)
string_of json none = none
string_of json (some v) = json.string_value v

module _ {J : Type 0} (malloc : ℕ → Option (List ℕ)) (signed_char : Bool) (json : Jansson J)
    (build : Builder J) (printer : Printer) (json_loadb : List ℕ → Option J)
    (json_object : Option J) (c : Client J) where
  -- `pc__resolve_dictionary`
  unfoldable pub resolve_dictionary : ℕ → Option (List ℕ)
  resolve_dictionary route_code =
      string_of json (get_of json c.code_to_route (printer.decimal (route_code % 256)))

  -- The route in the message: the string whose length is taken, `none` for NULL from the dictionary.
  abbrev pub origin_route : Route → Outcome (List ℕ)
  origin_route (code n) = elim (resolve_dictionary n) [ none ↦ err | some route ↦ ok route ]
  origin_route (str none) = fault
  origin_route (str (some route)) = ok route

  abbrev pub requested : Option Request → Outcome (List ℕ × Option (List ℕ))
  requested none = err
  requested (some r) = ok (r.route, none)

  -- The route for the body, and the `route` of the message: its copy, or NULL for an answer, of which the
  -- request has the route. The union has the case that `compressRoute` says.
  abbrev pub parsed_route : RawMsg → Outcome (List ℕ × Option (List ℕ))
  parsed_route raw =
      if has_route raw.msg_type
      then origin_route raw.route >>= (λ origin.
        let copy = c_string origin in
        checked (granted malloc (length copy + 1)) (ok (copy, some copy)))
      else map_get signed_char c.requests (printer.decimal raw.id) >>= requested

  abbrev pub parsed_value : List ℕ → Option J → Outcome (Option J)
  parsed_value body none = json_decode json_loadb body 0 (length body)
  parsed_value body (some pb_def) = elim c.server_protos [
    | none ↦ ok none
    | some protos ↦
        pb_decode_body json build printer (granted malloc) json_object body 0 (length body) protos
          pb_def
  ]

  -- The value of a body that is not empty must not be NULL.
  abbrev pub not_null : Option J → Outcome (Option J)
  not_null none = err
  not_null (some v) = ok (some v)

  abbrev pub parsed_body : List ℕ → List ℕ → Outcome (Option J)
  parsed_body route [] = ok none
  parsed_body route (b ∷ bs) =
      parsed_value (b ∷ bs) (get_of json c.server_protos route) >>= not_null

  -- `pc__default_msg_parse_cb`, behind the decoder; `err` is NULL.
  abbrev pub parsed : RawMsg → Outcome (Parsed J)
  parsed raw = checked (granted malloc msg_size) (
      parsed_route raw >>= (λ (for_body, route).
        parsed_body for_body raw.body
        >>= (λ value. ok (record { id = raw.id; route = route; msg = value }))))

  unfoldable pub default_msg_parse : List ℕ → Outcome (Parsed J)
  default_msg_parse bytes = decode malloc signed_char bytes >>= parsed

module _ {J : Type 0} (malloc : ℕ → Option (List ℕ)) (json : Jansson J) (integer_value : J → ℕ)
    (json_dumps : J → Option (List ℕ)) (depth : ℕ) (c : Client J) where
  -- The code of the route, as an `int`: 0 where there is none.
  abbrev pub route_code_of : List ℕ → ℕ
  route_code_of route = integer_of integer_value (get_of json c.route_to_code route) % 2 ^ 32

  abbrev pub body_buf : J → Option J → Outcome Buf
  body_buf msg none = ok (json_encode (json_dumps msg))
  body_buf msg (some pb_def) = elim c.client_protos [
    | none ↦ fault
    | some protos ↦ pb_encode_body json (granted malloc) json_dumps depth protos pb_def msg
  ]

  abbrev pub msg_type_of : ℕ → ℕ
  msg_type_of id = if id == 0 then Codec.notify else Codec.request

  -- A code that is positive as an `int` is written in place of the route.
  abbrev pub encoded_msg : ℕ → List ℕ → ℕ → List ℕ → Outcome (List ℕ)
  encoded_msg id route n bytes =
      if ltb 0 n && ltb n (2 ^ 31)
      then encode_code malloc id (msg_type_of id) n bytes
      else encode_route malloc id (msg_type_of id) route bytes

  -- `pc__default_msg_encode_cb`, for messages that nest at most `depth` deep.
  unfoldable pub default_msg_encode : ℕ → List ℕ → J → Outcome (List ℕ)
  default_msg_encode id route msg =
      body_buf msg (get_of json c.client_protos route)
      >>= body_bytes
      >>= encoded_msg id route (route_code_of route)
