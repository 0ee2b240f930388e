-- ===== src/Message/Encode.antt =====
-- The two loops of src/message.c over an id, and the sizes of what is encoded.
use libpomelo.Common.{
  ℕ, zero, suc, ◌+◌, ◌*◌, ◌/◌, ◌%◌, ◌^◌, ◌≤◌, ◌<◌, ◌≡◌, ◌∙◌, ap, List, [], ◌∷◌, ◌++◌, length,
  lt_or_le, inl, inr, ltb-true, ltb-false, leb-true, ==_true, ==_false, arith,
}
use libpomelo.Common.Outcome.{ok}
use libpomelo.Common.Groups.{groups, length-groups, shift_seven, split_group}
use libpomelo.Message.{msg_id_length, msg_encode_id, decode_id}

pub msg_encode_id-groups :
    (k id : ℕ) → id < 128 ^ suc k → msg_encode_id (suc k) id ≡ ok (groups k id)
unfolding msg_encode_id groups
msg_encode_id-groups zero id h = ground arith
msg_encode_id-groups (suc k) id h = elim (lt_or_le id 128) [
  | inl small ↦
      rw (ltb-true id 128 small, ==_true (id / 128) 0 (omega arith))
        (ap (λ z. ok (z ∷ [])) (omega arith))
  | inr large ↦ rw (
    ltb-false id 128 large,
    ==_false (id / 128) 0 (omega arith),
    msg_encode_id-groups k (id / 128) (omega arith),
  )
]

pub msg_id_length-groups :
    (k id : ℕ) → k < 200 → id < 128 ^ suc k → msg_id_length (suc k) id ≡ ok (length (groups k id))
unfolding msg_id_length groups
msg_id_length-groups zero id small h = ground arith
msg_id_length-groups (suc k) id small h = elim (lt_or_le id 128) [
  | inl one ↦ rw (ltb-true id 128 one, ltb-false 0 (id / 128) (omega arith))
  | inr large ↦
      rw
        (
          ltb-false id 128 large,
          ltb-true 0 (id / 128) (omega arith),
          msg_id_length-groups k (id / 128) (omega arith) (omega arith),
        )
        (ap ok (omega (arith, length-groups k (id / 128))))
]

-- One round of the loop on a last byte, and on a byte with its top bit set.
last_byte :
    (w i acc : ℕ) (rest : List ℕ)
    → w < 128
    → i ≤ 4
    → acc + w * 2 ^ (7 * i) < 2 ^ 31
    → decode_id (w ∷ rest) i acc ≡ ok (acc + w * 2 ^ (7 * i), rest)
unfolding decode_id
last_byte w i acc rest small le fits = let e : w % 128 ≡ w = omega arith in rw e (ground arith)

inner_byte :
    (g i acc : ℕ) (rest : List ℕ)
    → g < 128
    → i ≤ 4
    → acc + g * 2 ^ (7 * i) < 2 ^ 31
    → decode_id ((g + 128) ∷ rest) i acc ≡ decode_id rest (i + 1) (acc + g * 2 ^ (7 * i))
unfolding decode_id
inner_byte g i acc rest small le fits =
    let e : (g + 128) % 128 ≡ g = omega arith in
    let m : (acc + g * 2 ^ (7 * i)) % 2 ^ 32 ≡ acc + g * 2 ^ (7 * i) = omega arith in
    rw (
      e,
      m,
      ltb-true (7 * i) 31 (omega arith),
      ltb-true (g * 2 ^ (7 * i)) (2 ^ 31) (omega arith),
      leb-true 128 (g + 128) (omega arith),
    )

-- `i` groups are read, and `k` more may follow the next.
pub decode_id-groups :
    (k id i acc : ℕ) (rest : List ℕ)
    → i + k ≡ 4
    → id < 128 ^ suc k
    → acc + id * 2 ^ (7 * i) < 2 ^ 31
    → decode_id (groups k id ++ rest) i acc ≡ ok (acc + id * 2 ^ (7 * i), rest)
unfolding groups
decode_id-groups zero id i acc rest e small fits =
    last_byte id i acc rest (omega arith) (omega arith) fits
decode_id-groups (suc k) id i acc rest e small fits = elim (lt_or_le id 128) [
  | inl one ↦ rw (ltb-true id 128 one) (last_byte id i acc rest one (omega arith) fits)
  | inr large ↦
      let split = split_group id (2 ^ (7 * i)) (2 ^ (7 * (i + 1))) (shift_seven i) in
      rw (ltb-false id 128 large) (
        inner_byte (id % 128) i acc (groups k (id / 128) ++ rest) (omega arith) (omega arith)
          (omega arith)
        ∙ decode_id-groups k (id / 128) (i + 1) (acc + id % 128 * 2 ^ (7 * i)) rest (omega arith)
            (omega arith) (omega arith)
        ∙ ap (λ z. ok (z, rest)) (omega arith))
]
