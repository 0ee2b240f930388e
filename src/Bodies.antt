-- ===== src/Bodies.antt =====
-- src/msg-json.c and src/msg-pb.c: the body of a message as JSON text or as a protobuf message.
-- What jansson prints a value as is a parameter, `json_dumps`, and so is what it reads of a text,
-- `json_loadb`; both with `none` for NULL.
pub mod Sizes
mod Tests
use libpomelo.Common.{
  ℕ, ◌-◌, ◌&&◌, ◌*◌, ◌%◌, ◌^◌, Bool, Option, none, some, List, [], length, ◌+◌, leb, take, drop,
  if◌then◌else◌,
}
use libpomelo.Common.Outcome.{Outcome, ok, err, fault, stuck, ◌>>=◌, defined}
use libpomelo.Protobuf.Input.{Istream}
use libpomelo.Protobuf.Decode.{Builder, Printer, pc_pb_decode}
use libpomelo.Protobuf.Encode.{Jansson, pc_pb_encode}

-- `pc_buf_t`: the length, which is `none` for -1, and the bytes behind `base`, `none` for NULL. Only
-- `length` bytes of them are known.
pub record Buf : Type 0 where
  pub len : Option ℕ
  pub base : Option (List ℕ)

-- After `memset(&buf, 0, …)`.
abbrev pub zero_buf : Buf
zero_buf = record { len = some 0; base = none }

abbrev pub failed_buf : Buf
failed_buf = record { len = none; base = none }

-- `pc__json_encode`
abbrev pub json_encode : Option (List ℕ) → Buf
json_encode none = failed_buf
json_encode (some text) = record { len = some (length text); base = some text }

-- `pc__json_decode`; `none` is NULL. `json_loadb` reads the `len - offset` bytes from the offset on.
unfoldable pub json_decode :
    {J : Type 0} → (List ℕ → Option J) → List ℕ → ℕ → ℕ → Outcome (Option J)
json_decode json_loadb bytes offset len =
    defined (leb offset len && leb len (length bytes))
      (ok (json_loadb (take (len - offset) (drop offset bytes))))

-- PC_PB_EVAL_FACTOR
abbrev pub eval_factor : ℕ
eval_factor = 2

-- The end of `pc__pb_encode`. When `pc_pb_encode` fails, `len` is still the 0 of `memset`, and what it
-- had written stays behind `base`.
abbrev pub encoded_buf : Outcome (List ℕ) → Outcome Buf
encoded_buf (ok bytes) = ok (record { len = some (length bytes); base = some bytes })
encoded_buf err = ok (record { len = some 0; base = some [] })
encoded_buf fault = fault
encoded_buf stuck = stuck

module _ {J : Type 0} (json : Jansson J) (malloc : ℕ → Bool)
    (json_dumps : J → Option (List ℕ)) where
  -- `pc__pb_encode`, behind the JSON text; the nesting of the message is at most `depth`.
  abbrev pub encode_text_sized : ℕ → J → J → J → Option ℕ → Outcome Buf
  encode_text_sized depth gprotos pb_def msg none = ok zero_buf
  encode_text_sized depth gprotos pb_def msg (some len) =
      let eval_size = len * eval_factor % 2 ^ 64 in
      if malloc eval_size
      then encoded_buf (pc_pb_encode json malloc gprotos depth eval_size pb_def msg)
      else ok failed_buf

  unfoldable pub pb_encode_body : ℕ → J → J → J → Outcome Buf
  pb_encode_body depth gprotos pb_def msg =
      encode_text_sized depth gprotos pb_def msg (json_encode (json_dumps msg)).len

-- `pc__pb_decode`: the value that was read, `none` for NULL. `new` is what `json_object()` gives.
module _ {J R : Type 0} (json : Jansson J) (build : Builder R) (printer : Printer)
    (malloc : ℕ → Bool) where
  abbrev pub decoded_value : Istream × Option R → Outcome (Option R)
  decoded_value (s, result) = ok result

  unfoldable pub pb_decode_body : Option R → List ℕ → ℕ → ℕ → J → J → Outcome (Option R)
  pb_decode_body none bytes offset len gprotos pb_def = ok none
  pb_decode_body (some result) bytes offset len gprotos pb_def =
      defined (leb (offset + len) (length bytes)) (
        pc_pb_decode json build printer malloc gprotos (take len (drop offset bytes)) pb_def result
        >>= decoded_value)
