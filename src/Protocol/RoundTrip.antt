-- ===== src/Protocol/RoundTrip.antt =====
-- A message that src/protocol.c encodes by default, and its default parser.
use libpomelo.Common.{
  ℕ, ◌+◌, ◌^◌, ◌<◌, ◌≡◌, refl, sym, ◌∙◌, ap, subst, ◌&&◌, Bool, true, false, Option, none, some,
  List, ◌∷◌, ◌⊎◌, inl, inr, ◌==◌, ltb, ltb-true, eq_or_ne, ==_false, if◌then◌else◌, length,
  take_all, arith,
}
use libpomelo.Common.Outcome.{Outcome, ok, err, fault, stuck, ◌>>=◌}
use libpomelo.Message.{
  RawMsg, Route, code, str, has_route, has_id, validate, granted, decode, encode_code, encode_route,
}
use libpomelo.Message as Codec
use libpomelo.Message.Sizes.{Grants}
use libpomelo.Message.RoundTrip.{granted-eq, id_of, decode-encode_route, decode-encode_code}
use libpomelo.Bodies.{json_encode}
use libpomelo.Bodies.Sizes.{json_decode-all}
use libpomelo.Protobuf.Encode.{Jansson}
use libpomelo.Protobuf.Decode.{Builder, Printer}
use libpomelo.Client.{Client}
use libpomelo.Client.Drops.{if-then, if-else}
use libpomelo.Protocol.{
  Parsed, c_string, msg_size, body_bytes, get_of, resolve_dictionary, origin_route, parsed,
  parsed_body, default_msg_parse, route_code_of, body_buf, encoded_msg, default_msg_encode,
}

bind_assoc :
    {A B C : Type 0} (m : Outcome A) (f : A → Outcome B) (g : B → Outcome C)
    → (m >>= (λ a. f a >>= g)) ≡ (m >>= f >>= g)
bind_assoc (ok a) f g = refl
bind_assoc err f g = refl
bind_assoc fault f g = refl
bind_assoc stuck f g = refl

in_range : (n : ℕ) → 0 < n → n < 2 ^ 16 → (ltb 0 n && ltb n (2 ^ 31)) ≡ true
in_range n pos low = rw (ltb-true 0 n pos, ltb-true n (2 ^ 31) (omega arith)) refl

found_route : Option (List ℕ) → Outcome (List ℕ)
found_route found = elim found [ none ↦ err | some route ↦ ok route ]

type_of : Bool → ℕ
type_of b = if b then Codec.notify else Codec.request

type-valid : (b : Bool) → (validate (type_of b) ≡ true) × (has_route (type_of b) ≡ true)
unfolding type_of
type-valid true = (refl, refl)
type-valid false = (refl, refl)

type-id : (id : ℕ) → id_of (type_of (id == 0)) id ≡ id
unfolding type_of
type-id id = elim (eq_or_ne id 0) [
  | inl same ↦ subst (λ k. id_of (type_of (k == 0)) k ≡ k) (sym same) refl
  | inr other ↦ rw (==_false id 0 other) refl
]

module _ {J : Type 0} (malloc : ℕ → Option (List ℕ)) (grants : Grants malloc) (signed_char : Bool)
    (json : Jansson J) (build : Builder J) (printer : Printer) (json_loadb : List ℕ → Option J)
    (json_object : Option J) (c : Client J) where
  parsed-ok :
      (id t b : ℕ) (compressed : Bool) (r : Route) (route text : List ℕ) (w : J)
      → has_route t ≡ true
      → origin_route malloc signed_char json build printer json_loadb json_object c r ≡ ok route
      → c_string route ≡ route
      → parsed_body malloc signed_char json build printer json_loadb json_object c route (b ∷ text)
        ≡ ok (some w)
      → parsed malloc signed_char json build printer json_loadb json_object c (record {
        id = id;
        msg_type = t;
        compress_route = compressed;
        route = r;
        body = b ∷ text;
      })
        ≡ ok (record { id = id; route = some route; msg = some w })
  parsed-ok id t b compressed r route text w routed origin whole reads = rw (
    granted-eq malloc grants msg_size,
    routed,
    origin,
    whole,
    granted-eq malloc grants (length route + 1),
    reads,
  )

  -- A body of JSON text.
  json-parsed :
      (b : ℕ) (route text : List ℕ) (w : J)
      → get_of json c.server_protos route ≡ none
      → json_loadb (b ∷ text) ≡ some w
      → parsed_body malloc signed_char json build printer json_loadb json_object c route (b ∷ text)
        ≡ ok (some w)
  json-parsed b route text w plain loads = rw (plain, json_decode-all json_loadb (b ∷ text), loads)

module _ {J : Type 0} (malloc : ℕ → Option (List ℕ)) (grants : Grants malloc) (signed_char : Bool)
    (json : Jansson J) (build : Builder J) (printer : Printer) (json_loadb : List ℕ → Option J)
    (json_object : Option J) (integer_value : J → ℕ) (json_dumps : J → Option (List ℕ)) (depth : ℕ)
    (c : Client J) where
  -- A route that the peer can read: a C string, and where it has a code, the same string for that code.
  pub record IsReadable (route : List ℕ) : Type 0 where
    pub whole : c_string route ≡ route
    pub some_bytes : 0 < length route
    pub short : length route < (if signed_char then 128 else 256)
    pub coded :
        (route_code_of malloc json integer_value json_dumps depth c route ≡ 0)
        ⊎ ((0 < route_code_of malloc json integer_value json_dumps depth c route)
            × (route_code_of malloc json integer_value json_dumps depth c route < 2 ^ 16)
            × (resolve_dictionary malloc signed_char json build printer json_loadb json_object c
                  (route_code_of malloc json integer_value json_dumps depth c route)
                ≡ some route))

  abbrev Parses : Outcome (List ℕ) → Parsed J → Type 0
  Parses m p =
      (m >>= default_msg_parse malloc signed_char json build printer json_loadb json_object c)
      ≡ ok p

  json-encoded :
      (b : ℕ) (route text : List ℕ) (v : J)
      → get_of json c.client_protos route ≡ none
      → json_dumps v ≡ some (b ∷ text)
      → (body_buf malloc json integer_value json_dumps depth c v (get_of json c.client_protos route)
          >>= body_bytes)
        ≡ ok (b ∷ text)
  json-encoded b route text v plain printed =
      ap (λ d. body_buf malloc json integer_value json_dumps depth c v d >>= body_bytes) plain
      ∙ ap (λ t. body_bytes (json_encode t)) printed
      ∙ ap ok (take_all (length (b ∷ text)) (b ∷ text) (omega arith))

  -- A message with any body, by what its body is written as and what that is read as.
  pub parse-encode_body :
      (id b : ℕ) (route text : List ℕ) (v w : J)
      → id < 2 ^ 31
      → IsReadable route
      → (body_buf malloc json integer_value json_dumps depth c v (get_of json c.client_protos route)
          >>= body_bytes)
        ≡ ok (b ∷ text)
      → length (b ∷ text) < 2 ^ 62
      → parsed_body malloc signed_char json build printer json_loadb json_object c route (b ∷ text)
        ≡ ok (some w)
      → (default_msg_encode malloc json integer_value json_dumps depth c id route v
          >>= default_msg_parse malloc signed_char json build printer json_loadb json_object c)
        ≡ ok (record { id = id; route = some route; msg = some w })
  unfolding default_msg_parse default_msg_encode type_of resolve_dictionary found_route
  parse-encode_body id b route text v w small h wrote fits reads =
      let t : ℕ = type_of (id == 0) in
      let n : ℕ = route_code_of malloc json integer_value json_dumps depth c route in
      let (valid, routed) = type-valid (id == 0) in
      let k = parsed malloc signed_char json build printer json_loadb json_object c in
      let read_back : (compressed : Bool) (r : Route)
          → origin_route malloc signed_char json build printer json_loadb json_object c r ≡ ok route
          → k (record {
            id = id_of t id;
            msg_type = t;
            compress_route = compressed;
            route = r;
            body = b ∷ text;
          })
            ≡ ok (record { id = id; route = some route; msg = some w }) =
        λ compressed r origin.
          parsed-ok malloc grants signed_char json build printer json_loadb json_object c
            (id_of t id) t b compressed r route text w routed origin h.whole reads
          ∙ ap (λ z. ok (record { id = z; route = some route; msg = some w })) (type-id id) in
      ap
        (λ m.
          m
          >>= encoded_msg malloc json integer_value json_dumps depth c id route n
          >>= (λ bytes. decode malloc signed_char bytes >>= k))
        wrote
      ∙ bind_assoc (encoded_msg malloc json integer_value json_dumps depth c id route n (b ∷ text))
          (decode malloc signed_char) k
      ∙ elim h.coded [
        | inl plain ↦
            ap (λ m. m >>= decode malloc signed_char >>= k)
              (if-else _ _ _ (ap (λ z. ltb 0 z && ltb z (2 ^ 31)) plain))
            ∙ ap (λ m. m >>= k)
                (decode-encode_route malloc grants signed_char id t route (b ∷ text) valid routed
                  small h.some_bytes h.short fits)
            ∙ read_back false (str (some route)) refl
        | inr (pos, low, found) ↦
            ap (λ m. m >>= decode malloc signed_char >>= k) (if-then _ _ _ (in_range n pos low))
            ∙ ap (λ m. m >>= k)
                (decode-encode_code malloc grants signed_char id t n (b ∷ text) valid routed small
                  low)
            ∙ read_back true (code n) (ap found_route found)
      ]

  -- The default encoder and the default parser of messages belong together: what the one writes for a
  -- request or a notification with a JSON body, the other reads as the same number, the same route and what
  -- `json_loadb` makes of the text, whether the route is written as a string or as its code; if the
  -- tables of the two ends agree on the route, which is a C string of 1 to 127 bytes, or to 255 where `char`
  -- is unsigned, there is no protobuf definition for it, the number is below 2 ^ 31, the text is not
  -- empty and fits in memory, and allocations succeed.
  pub parse-encode :
      (id b : ℕ) (route text : List ℕ) (v w : J)
      → id < 2 ^ 31
      → IsReadable route
      → get_of json c.client_protos route ≡ none
      → get_of json c.server_protos route ≡ none
      → json_dumps v ≡ some (b ∷ text)
      → length (b ∷ text) < 2 ^ 62
      → json_loadb (b ∷ text) ≡ some w
      → (default_msg_encode malloc json integer_value json_dumps depth c id route v
          >>= default_msg_parse malloc signed_char json build printer json_loadb json_object c)
        ≡ ok (record { id = id; route = some route; msg = some w })
  parse-encode id b route text v w small h client_plain server_plain printed fits loads =
      parse-encode_body id b route text v w small h
        (json-encoded b route text v client_plain printed) fits
        (json-parsed malloc grants signed_char json build printer json_loadb json_object c b route
          text w server_plain loads)
