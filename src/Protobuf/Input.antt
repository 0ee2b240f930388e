-- ===== src/Protobuf/Input.antt =====
-- The input stream of src/pb-decode.c and how one value is read. A function gives the stream
-- after it also when it fails: its result is then `none`, the return of 0.
use libpomelo.Common.{
  ℕ, zero, suc, ◌+◌, ◌-◌, ◌*◌, ◌/◌, ◌%◌, ◌^◌, bit_or, Option, none, some, List, [], ◌∷◌, ltb, leb,
  ◌==◌, if◌then◌else◌, length, take, drop,
}
use libpomelo.Common.Outcome.{Outcome, ok, err, fault, stuck, ◌>>=◌, defined}

-- `_pb_istream_t` without its message; its callback is always `buf_read`. `state` is the bytes from
-- the pointer of that name to the end of the buffer.
pub record Istream : Type 0 where
  pub state : List ℕ
  pub bytes_left : ℕ

-- `pb_istream_from_buffer`
abbrev pub istream_from_buffer : List ℕ → Istream
istream_from_buffer buf = record { state = buf; bytes_left = length buf }

abbrev pub Reads {ℓ} : Type ℓ → Type ℓ
Reads A = Outcome (Istream × Option A)

-- The next function is called if the one before returned 1.
infixl 5 ◌>>?◌
abbrev pub ◌>>?◌ {ℓ κ} : {A : Type ℓ} {B : Type κ} → Reads A → (Istream → A → Reads B) → Reads B
ok (s, some a) >>? f = f s a
ok (s, none) >>? f = ok (s, none)
err >>? f = err
fault >>? f = fault
stuck >>? f = stuck

-- `pb_read` with `buf_read`
unfoldable pub pb_read : Istream → ℕ → Reads (List ℕ)
pb_read s count =
    if ltb s.bytes_left count
    then ok (s, none)
    else defined (leb count (length s.state)) (
        ok (
          record { state = drop count s.state; bytes_left = s.bytes_left - count },
          some (take count s.state),
        ))

-- The byte that one `pb_read` stored.
abbrev pub first_byte : List ℕ → ℕ
first_byte [] = 0
first_byte (b ∷ bs) = b

-- The loop of `pb_decode_varint`: a round reads a byte and moves `bitpos` by 7.
unfoldable pub read_varint : ℕ → ℕ → ℕ → Istream → Reads ℕ
read_varint zero bitpos dest s = if ltb bitpos 64 then stuck else ok (s, none)
read_varint (suc fuel) bitpos dest s =
    if ltb bitpos 64
    then pb_read s 1 >>? (λ s₁ bytes.
      let byte = first_byte bytes in
      let dest₁ = bit_or dest (byte % 128 * 2 ^ bitpos % 2 ^ 64) in
      if leb 128 byte then read_varint fuel (bitpos + 7) dest₁ s₁ else ok (s₁, some dest₁))
    else ok (s, none)

-- `bitpos` is below 64 for ten rounds.
unfoldable pub pb_decode_varint : Istream → Reads ℕ
pb_decode_varint s = read_varint 10 0 0 s

unfoldable pub pb_decode_varint32 : Istream → Reads ℕ
pb_decode_varint32 s = pb_decode_varint s >>? (λ s₁ temp. ok (s₁, some (temp % 2 ^ 32)))

-- `pb_decode_svarint`
abbrev pub unzigzag : ℕ → ℕ
unzigzag value = if value % 2 == 1 then 2 ^ 64 - 1 - value / 2 else value / 2

unfoldable pub pb_decode_svarint : Istream → Reads ℕ
pb_decode_svarint s = pb_decode_varint s >>? (λ s₁ value. ok (s₁, some (unzigzag value)))

-- `pb_decode_fixed32` and `pb_decode_fixed64`: the value's bytes in memory.
abbrev pub pb_decode_fixed32 : Istream → Reads (List ℕ)
pb_decode_fixed32 s = pb_read s 4

abbrev pub pb_decode_fixed64 : Istream → Reads (List ℕ)
pb_decode_fixed64 s = pb_read s 8

abbrev pub pb_decode_strlen : Istream → Reads ℕ
pb_decode_strlen s = pb_decode_varint32 s

-- `pb_decode_string` into an allocation of `room` bytes: a 0 is stored behind the bytes, also when
-- they could not be read.
abbrev pub pb_decode_string : Istream → ℕ → ℕ → Reads (List ℕ)
pb_decode_string s room size = defined (ltb size room) (pb_read s size)

-- What `pb_decode_tag` leaves: the field's number and its wire type, the end of the message, or a
-- failure.
pub data Tag : Type 0 where
  tag : ℕ → ℕ → Tag
  eof failure : Tag

unfoldable pub pb_decode_tag : Istream → Outcome (Istream × Tag)
pb_decode_tag s = pb_decode_varint32 s >>= (λ (s₁, result). elim result [
  | none ↦ ok (s₁, if s₁.bytes_left == 0 then eof else failure)
  | some temp ↦ ok (s₁, if temp == 0 then eof else tag (temp / 8) (temp % 8))
])

-- `pb_make_string_substream`: the stream behind the length, with the substream of that length.
unfoldable pub pb_make_string_substream : Istream → Reads Istream
pb_make_string_substream s = pb_decode_varint32 s >>? (λ s₁ size.
    if ltb s₁.bytes_left size
    then ok (s₁, none)
    else ok
        (record s₁ { bytes_left = s₁.bytes_left - size }, some (record s₁ { bytes_left = size })))

-- `pb_close_string_substream`
abbrev pub pb_close_string_substream : Istream → Istream → Istream
pb_close_string_substream s substream = record s { state = substream.state }
