-- ===== src/Protobuf/Output.antt =====
-- The output stream of src/pb-encode.c and what is written for one value. An `int64_t` is its
-- pattern of 64 bits, a number below 2 ^ 64; shifts of it are shifts of the pattern.
use libpomelo.Common.{
  ℕ, zero, suc, ◌+◌, ◌-◌, ◌*◌, ◌/◌, ◌%◌, ◌^◌, bit_or, Bool, true, false, List, [], ◌∷◌, ◌++◌, leb,
  ◌==◌, if◌then◌else◌, length, take,
}
use libpomelo.Common.Outcome.{Outcome, ok, fault, ◌>>=◌, checked}

-- `_pb_ostream_t`. `writes` is `callback != NULL`, the only callback being `buf_write`; `state` is
-- what was written in front of the pointer of that name.
pub record Ostream : Type 0 where
  pub writes : Bool
  pub state : List ℕ
  pub max_size : ℕ
  pub bytes_written : ℕ

-- `pb_ostream_from_buffer`, and the substream that only counts: `{ 0, 0, 0, 0 }`.
abbrev pub ostream_from_buffer : ℕ → Ostream
ostream_from_buffer bufsize = record {
  writes = true;
  state = [];
  max_size = bufsize;
  bytes_written = 0;
}

abbrev pub sizing_stream : Ostream
sizing_stream = record { writes = false; state = []; max_size = 0; bytes_written = 0 }

-- `pb_write(stream, buf, count)`; `err` is the return of 0.
unfoldable pub pb_write : Ostream → List ℕ → ℕ → Outcome Ostream
pb_write s buf count =
    let total = (s.bytes_written + count) % 2 ^ 64 in
    if s.writes
    then checked (leb total s.max_size)
        (ok (record s { state = s.state ++ take count buf; bytes_written = total }))
    else ok (record s { bytes_written = total })

-- The loop of `pb_encode_varint`, with the room that is left in `buffer[10]`.
unfoldable pub varint_loop : ℕ → ℕ → Outcome (List ℕ)
varint_loop room zero = ok []
varint_loop zero (suc value) = fault
varint_loop (suc room) (suc value) =
    varint_loop room (suc value / 128) >>= (λ rest. ok ((suc value % 128 + 128) ∷ rest))

-- `buffer[i - 1] &= 0x7F`
abbrev pub unset_top : List ℕ → List ℕ
unset_top [] = []
unset_top (b ∷ []) = b % 128 ∷ []
unset_top (b ∷ c ∷ bs) = b ∷ unset_top (c ∷ bs)

unfoldable pub pb_encode_varint : Ostream → ℕ → Outcome Ostream
pb_encode_varint s value =
    if value == 0
    then pb_write s (0 ∷ []) 1
    else varint_loop 10 value >>= (λ buffer. pb_write s (unset_top buffer) (length buffer))

-- `pb_encode_svarint`
abbrev pub zigzag : ℕ → ℕ
zigzag value =
    let twice = value * 2 % 2 ^ 64 in if leb (2 ^ 63) value then 2 ^ 64 - 1 - twice else twice

unfoldable pub pb_encode_svarint : Ostream → ℕ → Outcome Ostream
pb_encode_svarint s value = pb_encode_varint s (zigzag value)

-- `pb_encode_fixed32` and `pb_encode_fixed64`, of the value's bytes in memory.
abbrev pub pb_encode_fixed32 : Ostream → List ℕ → Outcome Ostream
pb_encode_fixed32 s value = pb_write s value 4

abbrev pub pb_encode_fixed64 : Ostream → List ℕ → Outcome Ostream
pb_encode_fixed64 s value = pb_write s value 8

-- `pb_encode_tag`
unfoldable pub pb_encode_tag : Ostream → ℕ → ℕ → Outcome Ostream
pb_encode_tag s wiretype field_number =
    pb_encode_varint s (bit_or wiretype (field_number * 8 % 2 ^ 32))

-- `pb_encode_string`
unfoldable pub pb_encode_string : Ostream → List ℕ → ℕ → Outcome Ostream
pb_encode_string s buffer size = pb_encode_varint s size >>= (λ s₁. pb_write s₁ buffer size)
