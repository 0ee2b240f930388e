-- ===== src/Message/Tests.antt =====
-- Runs of src/message.c on concrete bytes, and the theorems at concrete inputs.
use libpomelo.Common.{
  ℕ, ◌≡◌, refl, true, false, Option, some, List, [], ◌∷◌, ◌++◌, arith, ◌≢◌, replicate,
  length-replicate,
}
use libpomelo.Common.Outcome.{ok, fault, ◌>>=◌}
use libpomelo.Message.{
  request, notify, response, encode_route, encode_code, code, str, decode, decode_rest, decode_tail,
  decode_id, msg_encode_id, msg_id_length, msg_encode_flag,
}
use libpomelo.Message.Sizes.{Grants, id_part, encode_route-written, encode_code-written}
use libpomelo.Message.RoundTrip.{decode-encode_route, decode-encode_code}
use libpomelo.Common.{subst, ltb, length, none, if◌then◌else◌}
use libpomelo.Message.Faults.{Sized, IsLost, decode-unended_id, decode-safe, decode-long_route}

abbrev memory : ℕ → Option (List ℕ)
memory n = some (replicate n 0xaa)

memory-Grants : Grants memory
memory-Grants n = (replicate n 0xaa, refl, length-replicate n 0xaa)

-- "a.b" and "{}"
abbrev route_ab : List ℕ
route_ab = 97 ∷ 46 ∷ 98 ∷ []

abbrev body_ab : List ℕ
body_ab = 123 ∷ 125 ∷ []

encode_route_run :
    encode_route memory 300 request route_ab body_ab
    ≡ ok (0 ∷ 172 ∷ 2 ∷ 3 ∷ 97 ∷ 46 ∷ 98 ∷ 123 ∷ 125 ∷ [])
unfolding encode_route msg_encode_id msg_id_length
encode_route_run = refl

-- A response has no route, but room for its length byte: the last byte is what was in memory.
encode_route-response :
    encode_route memory 5 response route_ab body_ab ≡ ok (4 ∷ 5 ∷ 123 ∷ 125 ∷ 170 ∷ [])
unfolding encode_route msg_encode_id msg_id_length
encode_route-response = refl

decode_run :
    decode memory true (5 ∷ 7 ∷ 123 ∷ 125 ∷ [])
    ≡ ok (record {
      id = 7;
      msg_type = response;
      compress_route = true;
      route = code 0;
      body = body_ab;
    })
unfolding decode decode_rest decode_tail decode_id
decode_run = refl

-- An id byte in the middle of a message that is cut.
decode_cut : decode memory true (0 ∷ 172 ∷ []) ≡ fault
unfolding decode decode_rest decode_tail decode_id
decode_cut = refl

decode-encode_route_example :
    (encode_route memory 300 request route_ab body_ab >>= decode memory true)
    ≡ ok (record {
      id = 300;
      msg_type = request;
      compress_route = false;
      route = str (some route_ab);
      body = body_ab;
    })
decode-encode_route_example =
    decode-encode_route memory memory-Grants true 300 request route_ab body_ab refl refl
      (omega arith) (omega arith) (omega arith) (omega arith)

decode-encode_code_example :
    (encode_code memory 300 notify 258 body_ab >>= decode memory false)
    ≡ ok (record {
      id = 0;
      msg_type = notify;
      compress_route = true;
      route = code 258;
      body = body_ab;
    })
decode-encode_code_example =
    decode-encode_code memory memory-Grants false 300 notify 258 body_ab refl refl (omega arith)
      (omega arith)

encode_route-written_example :
    encode_route memory 300 request route_ab body_ab
    ≡ ok (
        msg_encode_flag request false
        ∷ (id_part request 300 ++ (3 ∷ 97 ∷ 46 ∷ 98 ∷ 123 ∷ 125 ∷ [])))
encode_route-written_example =
    encode_route-written memory memory-Grants 300 request route_ab body_ab refl (omega arith)

encode_code-written_run :
    encode_code memory 300 request 258 body_ab
    ≡ ok (msg_encode_flag request true ∷ (id_part request 300 ++ (1 ∷ 2 ∷ 123 ∷ 125 ∷ [])))
encode_code-written_run =
    encode_code-written memory memory-Grants 300 request 258 body_ab refl (omega arith)

decode-unended_id_example : decode memory true (0 ∷ 172 ∷ 200 ∷ []) ≡ fault
decode-unended_id_example =
    decode-unended_id memory true 0 172 (200 ∷ []) refl refl refl (omega arith)

decode-safe_example : decode memory false (6 ∷ 9 ∷ 97 ∷ []) ≢ fault
decode-safe_example =
    decode-safe memory 6 (9 ∷ 97 ∷ []) (λ n. refl) refl (omega arith) (omega arith)

abbrev long_route : List ℕ
long_route = replicate 130 97

-- A memory of 4096 bytes.
abbrev small_memory : ℕ → Option (List ℕ)
small_memory n = if ltb n 4096 then memory n else none

memory-Sized : Sized memory
memory-Sized n block e =
    let same : replicate n 0xaa ≡ block = cc e in
    subst (λ z. length z ≡ n) same (length-replicate n 0xaa)

decode-long_route_example :
    IsLost (encode_route memory 1 request long_route body_ab >>= decode small_memory true)
decode-long_route_example =
    decode-long_route memory small_memory memory-Sized 1 request long_route body_ab refl refl
      (omega arith) (omega arith) (omega arith) (omega arith)
