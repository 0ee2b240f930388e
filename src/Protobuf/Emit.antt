-- ===== src/Protobuf/Emit.antt =====
-- What it means for a part of src/pb-encode.c to write certain bytes, and how parts compose.
use libpomelo.Common.{
  ℕ, ◌+◌, ◌%◌, ◌^◌, ◌≤◌, ◌<◌, ◌≡◌, ◌∙◌, true, false, List, [], ◌++◌, leb, if◌then◌else◌, length,
  lt_or_le, Bool-cases, inl, inr, leb-true, leb-false, ==_true, arith, take_all, append_assoc,
  append-nil, length-append,
}
use libpomelo.Common.Groups.{groups}
use libpomelo.Common.Outcome.{Outcome, ok, ◌>>=◌, checked}
use libpomelo.Protobuf.Encode.{body_pass, pb_encode_submessage, encode_sized}
use libpomelo.Protobuf.Output.{Ostream, sizing_stream, pb_write, pb_encode_varint}
use libpomelo.Protobuf.RoundTrip.{advance}
use libpomelo.Protobuf.Varint.{pb_encode_varint-groups}

-- A stream that writes has all of its bytes within its limit.
abbrev pub Room : Ostream → Type 0
Room s = (s.writes ≡ true → s.bytes_written ≤ s.max_size) × (s.max_size < 2 ^ 64)

-- The stream that counts has the count; the one that writes has the bytes, if its limit allows all
-- of them, and fails if not.
abbrev pub emit : Ostream → List ℕ → Outcome Ostream
emit s bytes =
    if s.writes
    then checked (leb (s.bytes_written + length bytes) s.max_size) (ok (advance s bytes))
    else ok (record s { bytes_written = s.bytes_written + length bytes })

abbrev pub Emits : (Ostream → Outcome Ostream) → List ℕ → Type 0
Emits f bytes =
    (s : Ostream) → Room s → s.bytes_written + length bytes < 2 ^ 64 → f s ≡ emit s bytes

pub Emits-write : (bytes : List ℕ) → Emits (λ s. pb_write s bytes (length bytes)) bytes
unfolding pb_write
Emits-write bytes s room total =
    let m : (s.bytes_written + length bytes) % 2 ^ 64 ≡ s.bytes_written + length bytes =
      omega arith in
    rw (m, take_all (length bytes) bytes (omega arith))

pub Emits-varint :
    (value : ℕ) → value < 2 ^ 64 → Emits (λ s. pb_encode_varint s value) (groups 9 value)
Emits-varint value h s room total =
    pb_encode_varint-groups s value h ∙ Emits-write (groups 9 value) s room total

pub Emits-nothing : Emits (λ s. ok s) []
Emits-nothing s (within, small) total = elim (Bool-cases s.writes) [
  | inl e ↦
      let z : s.bytes_written + 0 ≡ s.bytes_written = omega arith in
      rw (
        e,
        leb-true (s.bytes_written + 0) s.max_size (omega (arith, within e)),
        append-nil s.state,
        z,
      )
  | inr e ↦ let z : s.bytes_written + 0 ≡ s.bytes_written = omega arith in rw (e, z)
]

pub Emits-seq :
    (f g : Ostream → Outcome Ostream) (a b : List ℕ)
    → Emits f a
    → Emits g b
    → Emits (λ s. f s >>= g) (a ++ b)
Emits-seq f g a b fa gb s (within, small) total =
    let size : length (a ++ b) ≡ length a + length b = length-append a b in
    let sum : s.bytes_written + length a + length b ≡ s.bytes_written + length (a ++ b) =
      omega arith in
    let first : f s ≡ emit s a = fa s (within, small) (omega arith) in
    elim (Bool-cases s.writes) [
      | inl e ↦ elim (lt_or_le s.max_size (s.bytes_written + length a)) [
        | inl over ↦ rw (
          first,
          e,
          leb-false (s.bytes_written + length a) s.max_size over,
          leb-false (s.bytes_written + length (a ++ b)) s.max_size (omega arith),
        )
        | inr fits ↦
            rw (first, e, leb-true (s.bytes_written + length a) s.max_size fits)
              (gb
                  (record s {
                    writes = true;
                    state = s.state ++ a;
                    bytes_written = s.bytes_written + length a;
                  })
                  (λ q. fits, small) (omega arith)
                ∙ rw (sum, append_assoc s.state a b))
      ]
      | inr e ↦
          rw (first, e)
            (gb (record s { writes = false; bytes_written = s.bytes_written + length a })
                (λ q. cc, small) (omega arith)
              ∙ rw sum)
    ]

module _ {J : Type 0} (encode : Ostream → J → J → Outcome Ostream) (protos value : J)
    (bytes : List ℕ) (emits : Emits (λ s. encode s protos value) bytes) where
  Emits-body_pass : Emits (λ s. body_pass encode protos value (length bytes) s) bytes
  unfolding body_pass pb_write
  Emits-body_pass s (within, small) total =
      let size : ℕ = length bytes in
      let m : (s.bytes_written + size) % 2 ^ 64 ≡ s.bytes_written + size = omega arith in
      let m₀ : (s.bytes_written + (0 + size)) % 2 ^ 64 ≡ s.bytes_written + size = omega arith in
      elim (Bool-cases s.writes) [
        | inl e ↦ elim (lt_or_le s.max_size (s.bytes_written + size)) [
          | inl over ↦ rw (e, m, leb-false (s.bytes_written + size) s.max_size over)
          | inr fits ↦ rw (
            e,
            m,
            leb-true (s.bytes_written + size) s.max_size fits,
            emits (record { writes = true; state = s.state; max_size = size; bytes_written = 0 })
                (λ q. omega arith, omega arith) (omega arith),
            leb-true (0 + size) size (omega arith),
            ==_true (0 + size) size (omega arith),
            m₀,
          )
        ]
        | inr e ↦ rw (e, m)
      ]

  -- A message within a message: its length, and its bytes from the pass that writes them.
  pub Emits-submessage :
      Emits (λ s. pb_encode_submessage encode s protos value) (groups 9 (length bytes) ++ bytes)
  unfolding pb_encode_submessage encode_sized body_pass
  Emits-submessage s room total =
      let split = length-append (groups 9 (length bytes)) bytes in
      let z : 0 + length bytes ≡ length bytes = omega arith in
      rw (emits sizing_stream (λ q. cc, omega arith) (omega arith), z)
        (Emits-seq (λ s. pb_encode_varint s (length bytes))
          (body_pass encode protos value (length bytes)) (groups 9 (length bytes)) bytes
          (Emits-varint (length bytes) (omega arith)) Emits-body_pass s room total)
