-- ===== src/Protobuf/RoundTrip.antt =====
-- What src/pb-decode.c reads of the values that src/pb-encode.c wrote to a fresh buffer.
use libpomelo.Common.{
  ℕ, ◌+◌, ◌-◌, ◌*◌, ◌/◌, ◌%◌, ◌^◌, ◌≤◌, ◌<◌, ◌≡◌, refl, ◌∙◌, ap, bit_or, true, List, ◌++◌, some,
  length, lt_or_le, inl, inr, ltb-false, leb-true, ltb-true, leb-false, ==_true, ==_false, arith,
  take_all, take_left, drop_left, append_assoc, length-append,
}
use libpomelo.Common.Bits.{bit_or-disjoint}
use libpomelo.Common.Groups.{groups, length-groups}
use libpomelo.Common.Outcome.{ok, ◌>>=◌}
use libpomelo.Protobuf.Output.{
  Ostream, ostream_from_buffer, pb_write, pb_encode_varint, pb_encode_svarint, zigzag,
  pb_encode_tag, pb_encode_string,
}
use libpomelo.Protobuf.Input.{
  Istream, pb_read, pb_decode_varint, pb_decode_svarint, unzigzag, tag, pb_decode_tag,
  pb_decode_strlen, pb_decode_string, ◌>>?◌,
}
use libpomelo.Protobuf.Varint.{
  pb_encode_varint-groups, pb_decode_varint-groups, pb_decode_varint32-groups,
}

-- The stream after some bytes were written.
abbrev pub advance : Ostream → List ℕ → Ostream
advance s bytes = record s {
  state = s.state ++ bytes;
  bytes_written = s.bytes_written + length bytes;
}

pub pb_write-eq :
    (s : Ostream) (bytes : List ℕ)
    → s.writes ≡ true
    → s.bytes_written + length bytes ≤ s.max_size
    → s.max_size < 2 ^ 64
    → pb_write s bytes (length bytes) ≡ ok (advance s bytes)
unfolding pb_write
pb_write-eq s bytes w room small =
    let m : (s.bytes_written + length bytes) % 2 ^ 64 ≡ s.bytes_written + length bytes =
      omega arith in
    rw (
      w,
      m,
      leb-true (s.bytes_written + length bytes) s.max_size room,
      take_all (length bytes) bytes (omega arith),
    )

-- `n` bytes of the stream follow those that `s` holds.
abbrev pub reading : Ostream → List ℕ → ℕ → Istream
reading s rest n = record { state = s.state ++ rest; bytes_left = s.bytes_written + n }

-- A buffer of `size` bytes that holds some.
abbrev pub holding : ℕ → List ℕ → Ostream
holding size bytes = record {
  writes = true;
  state = bytes;
  max_size = size;
  bytes_written = length bytes;
}

pub varint_written :
    (size value : ℕ)
    → value < 2 ^ 64
    → 10 ≤ size
    → size < 2 ^ 64
    → pb_encode_varint (ostream_from_buffer size) value ≡ ok (holding size (groups 9 value))
varint_written size value h room small =
    pb_encode_varint-groups (ostream_from_buffer size) value h
    ∙ pb_write-eq (ostream_from_buffer size) (groups 9 value) refl
        (omega (arith, length-groups 9 value)) small
    ∙ ap
        (λ z.
          ok (record { writes = true; state = groups 9 value; max_size = size; bytes_written = z }))
        (omega arith)

-- In a buffer of ten bytes or more every `uint64_t` can be written, and the decoder reads it back
-- and stops behind it, whatever follows.
pub decode-encode_varint :
    (size value n : ℕ) (rest : List ℕ)
    → value < 2 ^ 64
    → 10 ≤ size
    → size < 2 ^ 64
    → (pb_encode_varint (ostream_from_buffer size) value
        >>= (λ s. pb_decode_varint (reading s rest n)))
      ≡ ok (record { state = rest; bytes_left = n }, some value)
decode-encode_varint size value n rest h room small =
    rw (varint_written size value h room small)
      (pb_decode_varint-groups value (length (groups 9 value) + n) n rest h refl)

pub zigzag_small : (value : ℕ) → value < 2 ^ 64 → zigzag value < 2 ^ 64
zigzag_small value h = elim (lt_or_le value (2 ^ 63)) [
  | inl low ↦ rw (leb-false (2 ^ 63) value low) (omega arith)
  | inr high ↦ rw (leb-true (2 ^ 63) value high) (omega arith)
]

pub unzigzag-zigzag : (value : ℕ) → value < 2 ^ 64 → unzigzag (zigzag value) ≡ value
unzigzag-zigzag value h = elim (lt_or_le value (2 ^ 63)) [
  | inl low ↦
      rw
        (
          leb-false (2 ^ 63) value low,
          ==_false (value * 2 % 2 ^ 64 % 2) 1 (λ e. absurd (omega arith)),
        )
        (omega arith)
  | inr high ↦
      rw
        (
          leb-true (2 ^ 63) value high,
          ==_true ((2 ^ 64 - 1 - value * 2 % 2 ^ 64) % 2) 1 (omega arith),
        )
        (omega arith)
]

-- Every `int64_t`, as its pattern of 64 bits, is read back from its zig-zag varint, negative ones too.
pub decode-encode_svarint :
    (size value n : ℕ) (rest : List ℕ)
    → value < 2 ^ 64
    → 10 ≤ size
    → size < 2 ^ 64
    → (pb_encode_svarint (ostream_from_buffer size) value
        >>= (λ s. pb_decode_svarint (reading s rest n)))
      ≡ ok (record { state = rest; bytes_left = n }, some value)
unfolding pb_encode_svarint pb_decode_svarint
decode-encode_svarint size value n rest h room small =
    let z : ℕ = zigzag value in
    rw (
      varint_written size z (zigzag_small value h) room small,
      pb_decode_varint-groups z (length (groups 9 z) + n) n rest (zigzag_small value h) refl,
      unzigzag-zigzag value h,
    )

small_tag :
    (wiretype field : ℕ)
    → wiretype < 8
    → field < 2 ^ 29
    → bit_or wiretype (field * 8 % 2 ^ 32) ≡ wiretype + field * 8
small_tag wiretype field w f =
    let m : field * 8 % 2 ^ 32 ≡ field * 8 = omega arith in
    rw m (bit_or-disjoint 3 wiretype field w)

-- The head of a field with a number from 1 on below 2 ^ 29 is read back: its number and its wire
-- type, and the stream stands behind it.
pub decode-encode_tag :
    (size wiretype field n : ℕ) (rest : List ℕ)
    → wiretype < 8
    → 0 < field
    → field < 2 ^ 29
    → 10 ≤ size
    → size < 2 ^ 64
    → (pb_encode_tag (ostream_from_buffer size) wiretype field
        >>= (λ s. pb_decode_tag (reading s rest n)))
      ≡ ok (record { state = rest; bytes_left = n }, tag field wiretype)
unfolding pb_encode_tag pb_decode_tag
decode-encode_tag size wiretype field n rest w pos f room small =
    let value : ℕ = wiretype + field * 8 in
    let high : value / 8 ≡ field = omega arith in
    let low : value % 8 ≡ wiretype = omega arith in
    rw (
      small_tag wiretype field w f,
      varint_written size value (omega arith) room small,
      pb_decode_varint32-groups value (length (groups 9 value) + n) n rest (omega arith) refl,
      ==_false value 0 (λ e. absurd (omega arith)),
      high,
      low,
    )

pub pb_read-front :
    (bytes rest : List ℕ) (n : ℕ)
    → pb_read (record { state = bytes ++ rest; bytes_left = length bytes + n }) (length bytes)
      ≡ ok (record { state = rest; bytes_left = n }, some bytes)
unfolding pb_read
pb_read-front bytes rest n =
    let left : length bytes + n - length bytes ≡ n = omega arith in
    rw (
      ltb-false (length bytes + n) (length bytes) (omega arith),
      leb-true (length bytes) (length (bytes ++ rest)) (omega (arith, length-append bytes rest)),
      left,
      take_left (length bytes) bytes rest refl,
      drop_left (length bytes) bytes rest refl,
    )

-- A string of any bytes is read back by its length and its bytes, and the stream stands behind it.
pub decode-encode_string :
    (size n : ℕ) (str rest : List ℕ)
    → length str < 2 ^ 32
    → length str + 10 ≤ size
    → size < 2 ^ 64
    → (pb_encode_string (ostream_from_buffer size) str (length str) >>= (λ s.
        pb_decode_strlen (reading s rest n) >>? (λ s₁ len. pb_decode_string s₁ (len + 1) len)))
      ≡ ok (record { state = rest; bytes_left = n }, some str)
unfolding pb_encode_string pb_read
decode-encode_string size n str rest h room small =
    let value : ℕ = length str in
    let head : List ℕ = groups 9 value in
    rw
      (
        varint_written size value (omega arith) (omega arith) small,
        pb_write-eq (holding size head) str refl (omega (arith, length-groups 9 value)) small,
        append_assoc head str rest,
        pb_decode_varint32-groups value (length head + length str + n) (length str + n)
            (str ++ rest) h (omega arith),
      )
      (rw (ltb-true value (value + 1) (omega arith)) (pb_read-front str rest n))
