-- ===== src/Message.antt =====
-- src/message.c and include/pomelo-protocol/message.h: the head of a message (type, id, route) and
-- its body. A byte is a number below 256, `char *` with its length a list of bytes, and a route the
-- list of its bytes without the final 0. `msg_type` is the number of the enum: 0 request, 1 notify,
-- 2 response, 3 push. `malloc n` is the memory that an allocation of n bytes gives, with whatever
-- stands in it, or `none` for NULL.
pub mod Encode
pub mod Sizes
pub mod RoundTrip
pub mod Faults
mod Tests
use libpomelo.Common.{
  ℕ, zero, suc, ◌+◌, ◌-◌, ◌*◌, ◌/◌, ◌%◌, ◌^◌, bit_or, Bool, true, false, not, ◌&&◌, ◌||◌, Option,
  none, some, List, [], ◌∷◌, ◌++◌, ltb, leb, ◌==◌, if◌then◌else◌, length, take, drop,
}
use libpomelo.Common.Bytes.{size_of_char}
use libpomelo.Common.Outcome.{Outcome, ok, err, fault, stuck, ◌>>=◌, checked, defined}

abbrev pub request : ℕ
request = 0

abbrev pub notify : ℕ
notify = 1

abbrev pub response : ℕ
response = 2

abbrev pub push : ℕ
push = 3

-- PC_MSG_HAS_ID, PC_MSG_HAS_ROUTE and PC_MSG_VALIDATE
abbrev pub has_id : ℕ → Bool
has_id msg_type = msg_type == request || msg_type == response

abbrev pub has_route : ℕ → Bool
has_route msg_type = not (msg_type == response)

abbrev pub validate : ℕ → Bool
validate msg_type =
    msg_type == request || msg_type == notify || msg_type == response || msg_type == push

-- `pc__msg_id_length`: the rounds of its loop, each of which drops seven bits.
unfoldable pub msg_id_length : ℕ → ℕ → Outcome ℕ
msg_id_length zero id = stuck
msg_id_length (suc fuel) id =
    let rest = msg_id_length fuel (id / 128) in
    if ltb 0 (id / 128) then rest >>= (λ len. ok ((len + 1) % 256)) else ok 1

-- `pc__msg_encode_id`: the bytes that it writes.
unfoldable pub msg_encode_id : ℕ → ℕ → Outcome (List ℕ)
msg_encode_id zero id = stuck
msg_encode_id (suc fuel) id =
    let rest = msg_encode_id fuel (id / 128) in
    if id / 128 == 0 then ok (id % 128 ∷ []) else rest >>= (λ bytes. ok ((id % 128 + 128) ∷ bytes))

-- Both loops end after at most five rounds on a `uint32_t`.
abbrev pub id_fuel : ℕ
id_fuel = 5

-- `pc__msg_encode_flag`
abbrev pub msg_encode_flag : ℕ → Bool → ℕ
msg_encode_flag msg_type compress = bit_or (msg_type * 2) (if compress then 1 else 0) % 256

-- `pc__msg_encode_route`: `route_len` is a `uint16_t`, of which one byte is written.
abbrev pub msg_encode_route : List ℕ → ℕ → List ℕ
msg_encode_route route route_len = route_len % 256 ∷ take route_len route

-- The buffer of `msg_len` bytes after `written` was written from its start on.
abbrev pub filled : Option (List ℕ) → ℕ → List ℕ → Outcome (List ℕ)
filled none msg_len written = err
filled (some memory) msg_len written =
    defined (leb (length written) msg_len) (ok (written ++ drop (length written) memory))

module _ (malloc : ℕ → Option (List ℕ)) where
  -- `pc_msg_encode_route`, under the name that the header gives it without its prefix.
  unfoldable pub encode_route : ℕ → ℕ → List ℕ → List ℕ → Outcome (List ℕ)
  encode_route id msg_type route msg = do
    id_len ← if has_id msg_type then msg_id_length id_fuel id else ok 0
    let route_len = if has_route msg_type then length route % 2 ^ 16 else 0
    let msg_len = 1 + id_len + 1 + route_len + length msg
    id_bytes ← if has_id msg_type then msg_encode_id id_fuel id else ok []
    let route_bytes = if has_route msg_type then msg_encode_route route route_len else []
    filled (malloc msg_len) msg_len
        (msg_encode_flag msg_type false ∷ (id_bytes ++ (route_bytes ++ msg)))

  -- `pc_msg_encode_code`, for a code that is not negative.
  unfoldable pub encode_code : ℕ → ℕ → ℕ → List ℕ → Outcome (List ℕ)
  encode_code id msg_type route_code msg = do
    id_len ← if has_id msg_type then msg_id_length id_fuel id else ok 0
    let route_len = if has_route msg_type then 2 else 0
    let msg_len = 1 + id_len + route_len + length msg
    id_bytes ← if has_id msg_type then msg_encode_id id_fuel id else ok []
    let route_bytes =
        if has_route msg_type then route_code / 2 ^ 8 % 256 ∷ route_code % 256 ∷ [] else []
    filled (malloc msg_len) msg_len
        (msg_encode_flag msg_type true ∷ (id_bytes ++ (route_bytes ++ msg)))

-- The union `route`: a code, or a string that may be NULL.
pub data Route : Type 0 where
  code : ℕ → Route
  str : Option (List ℕ) → Route

-- `pc__msg_raw_t`
pub record RawMsg : Type 0 where
  pub id : ℕ
  pub msg_type : ℕ
  pub compress_route : Bool
  pub route : Route
  pub body : List ℕ

-- `id + ((m & 0x7f) * (1 << (7 * i)))` is computed in `int` but for the sum.
abbrev pub fits_int : ℕ → ℕ → Bool
fits_int m i = ltb (7 * i) 31 && ltb (m % 128 * 2 ^ (7 * i)) (2 ^ 31)

-- The loop over the bytes of the id. It has no bound but the byte that ends it: the end of the data
-- is a read out of bounds.
unfoldable pub decode_id : List ℕ → ℕ → ℕ → Outcome (ℕ × List ℕ)
decode_id [] i id = fault
decode_id (m ∷ rest) i id =
    let id' = (id + m % 128 * 2 ^ (7 * i)) % 2 ^ 32 in
    let more = decode_id rest (i + 1) id' in
    if fits_int m i then (if leb 128 m then more else ok (id', rest)) else fault

-- sizeof(pc__msg_raw_t)
abbrev pub raw_msg_size : ℕ
raw_msg_size = 40

abbrev pub granted : (ℕ → Option (List ℕ)) → ℕ → Bool
granted malloc n = elim (malloc n) [ none ↦ false | some memory ↦ true ]

-- The loop for the id, after the test that there is a byte.
abbrev pub decode_id_checked : List ℕ → Outcome (ℕ × List ℕ)
decode_id_checked [] = err
decode_id_checked (m ∷ rest) = decode_id (m ∷ rest) 0 0

module _ (malloc : ℕ → Option (List ℕ)) where
  -- The route string. `offset` is the place of `rest` in the data, and `len` the data's length.
  unfoldable pub decode_str : ℕ → ℕ → ℕ → List ℕ → Outcome (Route × List ℕ)
  decode_str route_len offset len rest =
      if route_len == 0
      then ok (str none, rest)
      else checked (granted malloc ((route_len + 1) % 2 ^ 64)) (
          checked (leb ((offset + route_len) % 2 ^ 64) len) (
            defined (leb route_len (length rest))
              (ok (str (some (take route_len rest)), drop route_len rest))))

  -- The body: its allocation is not tested.
  abbrev pub decode_body : List ℕ → Outcome (List ℕ)
  decode_body [] = ok []
  decode_body (b ∷ rest) = defined (granted malloc (length (b ∷ rest))) (ok (b ∷ rest))

module _ (malloc : ℕ → Option (List ℕ)) (signed_char : Bool) where
  -- The route code, or the length of the route string and the string, with the test of the length
  -- before each.
  unfoldable pub decode_route : Bool → ℕ → List ℕ → Outcome (Route × List ℕ)
  decode_route true len (hi ∷ lo ∷ rest) = ok (code (hi * 2 ^ 8 + lo), rest)
  decode_route true len _ = err
  decode_route false len [] = err
  decode_route false len (b ∷ rest) =
      decode_str malloc (size_of_char signed_char b) (len - length rest) len rest

  -- `pc_msg_decode`, behind the id.
  unfoldable pub decode_tail : ℕ → ℕ → ℕ → List ℕ → Outcome RawMsg
  decode_tail flag len id rest = do
    let compressed = flag % 2 == 1
    (route, rest₂) ←
        if has_route (flag / 2)
        then decode_route compressed len rest
        else ok (if compressed then code 0 else str none, rest)
    body ← decode_body malloc rest₂
    ok (record {
      id = id;
      msg_type = flag / 2;
      compress_route = compressed;
      route = route;
      body = body;
    })

  -- `pc_msg_decode`, behind the flag.
  unfoldable pub decode_rest : ℕ → ℕ → List ℕ → Outcome RawMsg
  decode_rest flag len rest = checked (validate (flag / 2)) (do
    (id, rest₁) ← if has_id (flag / 2) then decode_id_checked rest else ok (0, rest)
    decode_tail flag len id rest₁)

  -- `pc_msg_decode`
  unfoldable pub decode : List ℕ → Outcome RawMsg
  decode [] = err
  decode (flag ∷ rest) =
      checked (granted malloc raw_msg_size) (decode_rest flag (length (flag ∷ rest)) rest)
