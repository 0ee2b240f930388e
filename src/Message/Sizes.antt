-- ===== src/Message/Sizes.antt =====
-- How much the encoders of src/message.c write, against what they allocate.
use libpomelo.Common.{
  ℕ, ◌+◌, ◌/◌, ◌%◌, ◌^◌, ◌<◌, ◌≡◌, ap, true, false, Option, some, List, [], ◌∷◌, ◌++◌,
  if◌then◌else◌, length, take, length-append, length-take, Bool-cases, inl, inr, leb-true, arith,
  append-nil, drop_all,
}
use libpomelo.Common.Outcome.{ok}
use libpomelo.Message.{
  has_id, has_route, msg_id_length, msg_encode_id, id_fuel, msg_encode_flag, msg_encode_route,
  filled, encode_route, encode_code,
}
use libpomelo.Common.Groups.{groups}
use libpomelo.Message.Encode.{msg_encode_id-groups, msg_id_length-groups}

-- `malloc` as documented, where no allocation fails: it gives as many bytes as it is asked for.
abbrev pub Grants : (ℕ → Option (List ℕ)) → Type 0
Grants malloc = (n : ℕ) → (memory : List ℕ) × (malloc n ≡ some memory) × (length memory ≡ n)

-- The bytes of the id, where the type has one.
abbrev pub id_part : ℕ → ℕ → List ℕ
id_part msg_type id = if has_id msg_type then groups 4 id else []

pub id_length_part :
    (msg_type id : ℕ)
    → id < 2 ^ 32
    → (if has_id msg_type then msg_id_length id_fuel id else ok 0)
      ≡ ok (length (id_part msg_type id))
id_length_part msg_type id h = elim (Bool-cases (has_id msg_type)) [
  | inl yes_id ↦ rw (yes_id, msg_id_length-groups 4 id (omega arith) (omega arith))
  | inr no_id ↦ rw no_id
]

pub id_encode_part :
    (msg_type id : ℕ)
    → id < 2 ^ 32
    → (if has_id msg_type then msg_encode_id id_fuel id else ok []) ≡ ok (id_part msg_type id)
id_encode_part msg_type id h = elim (Bool-cases (has_id msg_type)) [
  | inl yes_id ↦ rw (yes_id, msg_encode_id-groups 4 id (omega arith))
  | inr no_id ↦ rw no_id
]

-- A buffer that is filled to its end holds what was written, and nothing that was there before.
pub filled_all :
    (memory written : List ℕ) (n : ℕ)
    → length memory ≡ n
    → length written ≡ n
    → filled (some memory) n written ≡ ok written
filled_all memory written n lm lw =
    rw (leb-true (length written) n (omega arith), drop_all (length written) memory (omega arith))
      (ap ok (append-nil written))

module _ (malloc : ℕ → Option (List ℕ)) (grants : Grants malloc) where
  -- With a type that has a route, an id that is a `uint32_t` and a memory that is not exhausted, the
  -- encoder of a route string writes its buffer from the first byte to the last: the flag, the id if
  -- the type has one, the length byte, the route (cut to `strlen` modulo 2 ^ 16) and the body.
  pub encode_route-written :
      (id msg_type : ℕ) (route msg : List ℕ)
      → has_route msg_type ≡ true
      → id < 2 ^ 32
      → encode_route malloc id msg_type route msg
        ≡ ok (
            msg_encode_flag msg_type false
            ∷ (id_part msg_type id ++ (msg_encode_route route (length route % 2 ^ 16) ++ msg)))
  unfolding encode_route
  encode_route-written id msg_type route msg routed small =
      let k = length route % 2 ^ 16 in
      let n = 1 + length (id_part msg_type id) + 1 + k + length msg in
      let (memory, given, width) = grants n in
      rw (id_length_part msg_type id small, routed, id_encode_part msg_type id small, given)
        (filled_all memory _ n width (
          omega (
            arith,
            length-append (id_part msg_type id) (msg_encode_route route k ++ msg),
            length-append (take k route) msg,
            length-take k route,
          )))

  -- The same for a route code: two bytes, the higher first.
  pub encode_code-written :
      (id msg_type route_code : ℕ) (msg : List ℕ)
      → has_route msg_type ≡ true
      → id < 2 ^ 32
      → encode_code malloc id msg_type route_code msg
        ≡ ok (
            msg_encode_flag msg_type true
            ∷ (id_part msg_type id ++ (route_code / 2 ^ 8 % 256 ∷ route_code % 256 ∷ msg)))
  unfolding encode_code
  encode_code-written id msg_type route_code msg routed small =
      let n = 1 + length (id_part msg_type id) + 2 + length msg in
      let (memory, given, width) = grants n in
      rw (id_length_part msg_type id small, routed, id_encode_part msg_type id small, given)
        (filled_all memory _ n width (
          omega (
            arith,
            length-append (id_part msg_type id) (route_code / 2 ^ 8 % 256 ∷ route_code % 256 ∷ msg),
          )))
