-- ===== src/Protobuf/Varint.antt =====
-- The bytes of a varint: what src/pb-encode.c writes, and what src/pb-decode.c reads of them.
use libpomelo.Common.{
  ℕ, zero, suc, ◌+◌, ◌-◌, ◌*◌, ◌/◌, ◌%◌, ◌^◌, ◌<◌, ◌≡◌, refl, ◌∙◌, ap, List, [], ◌∷◌, ◌++◌, leb,
  some, if◌then◌else◌, length, lt_or_le, eq_or_ne, inl, inr, ltb-true, ltb-false, leb-true,
  leb-false, ==_false, arith,
}
use native.Mathlib.Numerals.{towards_suc}
use libpomelo.Common.Bits.{bit_or-disjoint}
use libpomelo.Common.Groups.{groups, length-groups, split_group}
use libpomelo.Common.Outcome.{ok, ◌>>=◌}
use libpomelo.Protobuf.Output.{Ostream, pb_write, varint_loop, unset_top, pb_encode_varint}
use libpomelo.Protobuf.Input.{pb_read, read_varint, pb_decode_varint, pb_decode_varint32}

-- A round of the loop of the encoder.
varint_loop-suc :
    (room value : ℕ)
    → 0 < value
    → varint_loop (suc room) value
      ≡ (varint_loop room (value / 128) >>= (λ rest. ok ((value % 128 + 128) ∷ rest)))
unfolding varint_loop
varint_loop-suc room zero h = absurd (omega arith)
varint_loop-suc room (suc value) h = refl

unset_top-cons : (b : ℕ) (bs : List ℕ) → 0 < length bs → unset_top (b ∷ bs) ≡ b ∷ unset_top bs
unset_top-cons b [] h = absurd (omega arith)
unset_top-cons b (c ∷ bs) h = refl

-- The buffer of the encoder, before the top bit of its last byte is unset.
abbrev Fills : ℕ → ℕ → Type 0
Fills k value =
    (buffer : List ℕ) × (varint_loop (suc k) value ≡ ok buffer)
    × (unset_top buffer ≡ groups k value)
    × (length buffer ≡ length (groups k value))

varint_loop-groups : (k value : ℕ) → 0 < value → value < 128 ^ suc k → Fills k value
unfolding groups varint_loop
varint_loop-groups zero value pos h = (
  (value % 128 + 128) ∷ [],
  varint_loop-suc 0 value pos ∙ (let e : value / 128 ≡ 0 = omega arith in rw (e, varint_loop)),
  ap (λ z. z ∷ []) (omega arith),
  refl,
)
varint_loop-groups (suc k) value pos h = elim (lt_or_le value 128) [
  | inl small ↦ (
    (value % 128 + 128) ∷ [],
    varint_loop-suc (suc k) value pos
        ∙ (let e : value / 128 ≡ 0 = omega arith in rw (e, varint_loop)),
    rw (ltb-true value 128 small) (ap (λ z. z ∷ []) (omega arith)),
    rw (ltb-true value 128 small),
  )
  | inr large ↦
      let (rest, loops, tops, size) =
        varint_loop-groups k (value / 128) (omega arith) (omega arith) in
      (
        (value % 128 + 128) ∷ rest,
        varint_loop-suc (suc k) value pos ∙ rw loops,
        unset_top-cons (value % 128 + 128) rest (omega (arith, size, length-groups k (value / 128)))
            ∙ rw (ltb-false value 128 large, tops),
        rw (ltb-false value 128 large, size),
      )
]

-- What the encoder writes for a value, with its number of bytes.
pub pb_encode_varint-groups :
    (s : Ostream) (value : ℕ)
    → value < 2 ^ 64
    → pb_encode_varint s value ≡ pb_write s (groups 9 value) (length (groups 9 value))
unfolding pb_encode_varint groups
pb_encode_varint-groups s value h = elim (eq_or_ne value 0) [
  | inl e ↦ rw (e, groups)
  | inr ne ↦
      let (buffer, loops, tops, size) = varint_loop-groups 9 value (omega arith) (omega arith) in
      rw (==_false value 0 ne, loops, tops, size)
]

-- A round of the loop of the decoder on a byte that is there.
read_round :
    (fuel bitpos dest b left : ℕ) (rest : List ℕ)
    → bitpos < 64
    → dest < 2 ^ bitpos
    → b % 128 * 2 ^ bitpos < 2 ^ 64
    → 0 < left
    → read_varint (suc fuel) bitpos dest (record { state = b ∷ rest; bytes_left = left }) ≡ (
        if leb 128 b
        then read_varint fuel
            (bitpos + 7)
            (dest + b % 128 * 2 ^ bitpos)
            (record { state = rest; bytes_left = left - 1 })
        else ok
            (record { state = rest; bytes_left = left - 1 }, some (dest + b % 128 * 2 ^ bitpos)))
unfolding read_varint pb_read
read_round fuel bitpos dest b left rest room low fits pos =
    let m : b % 128 * 2 ^ bitpos % 2 ^ 64 ≡ b % 128 * 2 ^ bitpos = omega arith in
    rw (
      ltb-true bitpos 64 room,
      ltb-false left 1 (omega arith),
      leb-true 1 (suc (length rest)) (omega arith),
      m,
      bit_or-disjoint bitpos dest (b % 128) low,
    )

seven_more : (bitpos : ℕ) → 2 ^ (bitpos + 7) ≡ 128 * 2 ^ bitpos
seven_more bitpos = simp towards_suc (omega arith)

group_below : (g p dest : ℕ) → g < 128 → dest < p → dest + g * p < 128 * p
group_below g p dest h low = grind arith

last_round :
    (fuel bitpos dest b left : ℕ) (rest : List ℕ)
    → bitpos < 64
    → dest < 2 ^ bitpos
    → b < 128
    → dest + b * 2 ^ bitpos < 2 ^ 64
    → 0 < left
    → read_varint (suc fuel) bitpos dest (record { state = b ∷ rest; bytes_left = left })
      ≡ ok (record { state = rest; bytes_left = left - 1 }, some (dest + b * 2 ^ bitpos))
last_round fuel bitpos dest b left rest room low small fits pos =
    let e : b % 128 ≡ b = omega arith in
    let f : b % 128 * 2 ^ bitpos ≡ b * 2 ^ bitpos = ap (λ (t : ℕ). t * 2 ^ bitpos) e in
    read_round fuel bitpos dest b left rest room low (omega (arith, f)) pos
    ∙ rw (leb-false 128 b small, e)

inner_round :
    (fuel bitpos dest g left : ℕ) (rest : List ℕ)
    → bitpos < 64
    → dest < 2 ^ bitpos
    → g < 128
    → dest + g * 2 ^ bitpos < 2 ^ 64
    → 0 < left
    → read_varint (suc fuel) bitpos dest (record { state = (g + 128) ∷ rest; bytes_left = left })
      ≡ read_varint fuel
          (bitpos + 7)
          (dest + g * 2 ^ bitpos)
          (record { state = rest; bytes_left = left - 1 })
inner_round fuel bitpos dest g left rest room low small fits pos =
    let e : (g + 128) % 128 ≡ g = omega arith in
    let f : (g + 128) % 128 * 2 ^ bitpos ≡ g * 2 ^ bitpos = ap (λ (t : ℕ). t * 2 ^ bitpos) e in
    read_round fuel bitpos dest (g + 128) left rest room low (omega (arith, f)) pos
    ∙ rw (leb-true 128 (g + 128) (omega arith), e)

-- `k` more groups may follow the next.
read_varint-groups :
    (k value bitpos dest left n : ℕ) (rest : List ℕ)
    → bitpos + 7 * k ≡ 63
    → value < 128 ^ suc k
    → dest < 2 ^ bitpos
    → dest + value * 2 ^ bitpos < 2 ^ 64
    → left ≡ length (groups k value) + n
    → read_varint (suc k) bitpos dest (record { state = groups k value ++ rest; bytes_left = left })
      ≡ ok (record { state = rest; bytes_left = n }, some (dest + value * 2 ^ bitpos))
unfolding groups
read_varint-groups zero value bitpos dest left n rest e small low fits size =
    last_round 0 bitpos dest value left rest (omega arith) low (omega arith) fits (omega arith)
    ∙ ap (λ z. ok (record { state = rest; bytes_left = z }, some (dest + value * 2 ^ bitpos)))
        (omega arith)
read_varint-groups (suc k) value bitpos dest left n rest e small low fits size =
    elim (lt_or_le value 128) [
      | inl one ↦
          let g : groups (suc k) value ≡ value ∷ [] = rw (ltb-true value 128 one) in
          rw (ltb-true value 128 one) (
            last_round (suc k) bitpos dest value left rest (omega arith) low one fits
              (omega (arith, ap length g))
            ∙ ap
                (λ z.
                  ok (record { state = rest; bytes_left = z }, some (dest + value * 2 ^ bitpos)))
                (omega (arith, ap length g)))
      | inr large ↦
          let g : groups (suc k) value ≡ (value % 128 + 128) ∷ groups k (value / 128) =
            rw (ltb-false value 128 large) in
          let split = split_group value (2 ^ bitpos) (2 ^ (bitpos + 7)) (seven_more bitpos) in
          rw (ltb-false value 128 large) (
            inner_round (suc k) bitpos dest (value % 128) left (groups k (value / 128) ++ rest)
              (omega arith) low (omega arith) (omega arith) (omega (arith, ap length g))
            ∙ read_varint-groups k (value / 128) (bitpos + 7) (dest + value % 128 * 2 ^ bitpos)
                (left - 1) n rest (omega arith) (omega arith)
                (omega (
                  arith,
                  seven_more bitpos,
                  group_below (value % 128) (2 ^ bitpos) dest (omega arith) low,
                ))
                (omega arith) (omega (arith, ap length g))
            ∙ ap (λ z. ok (record { state = rest; bytes_left = n }, some z)) (omega arith))
    ]

-- The decoder reads back the bytes of a value and stops behind them.
pub pb_decode_varint-groups :
    (value left n : ℕ) (rest : List ℕ)
    → value < 2 ^ 64
    → left ≡ length (groups 9 value) + n
    → pb_decode_varint (record { state = groups 9 value ++ rest; bytes_left = left })
      ≡ ok (record { state = rest; bytes_left = n }, some value)
unfolding pb_decode_varint
pb_decode_varint-groups value left n rest h size =
    read_varint-groups 9 value 0 0 left n rest refl (omega arith) (omega arith) (omega arith) size
    ∙ ap (λ z. ok (record { state = rest; bytes_left = n }, some z)) (omega arith)

pub pb_decode_varint32-groups :
    (value left n : ℕ) (rest : List ℕ)
    → value < 2 ^ 32
    → left ≡ length (groups 9 value) + n
    → pb_decode_varint32 (record { state = groups 9 value ++ rest; bytes_left = left })
      ≡ ok (record { state = rest; bytes_left = n }, some value)
unfolding pb_decode_varint32
pb_decode_varint32-groups value left n rest h size =
    let m : value % 2 ^ 32 ≡ value = omega arith in
    rw (pb_decode_varint-groups value left n rest (omega arith) size, m)
