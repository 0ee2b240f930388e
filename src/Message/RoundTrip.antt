-- ===== src/Message/RoundTrip.antt =====
-- What the decoder of src/message.c reads of what its encoders wrote.
use libpomelo.Common.{
  ℕ, zero, suc, ◌+◌, ◌-◌, ◌*◌, ◌/◌, ◌%◌, ◌^◌, ◌≤◌, ◌<◌, ◌≡◌, refl, ◌∙◌, ap, Bool, true, false,
  Option, none, some, List, [], ◌∷◌, ◌++◌, ◌==◌, if◌then◌else◌, length, length-append, Bool-cases,
  inl, inr, leb-true, leb-false, ==_true, ==_false, arith, take_all, take_left, drop_left,
}
use libpomelo.Common.Outcome.{ok, ◌>>=◌}
use libpomelo.Common.Bytes.{size_of_char}
use libpomelo.Message.{
  response, has_id, has_route, validate, msg_encode_flag, encode_route, encode_code, Route, code,
  str, decode_id, granted, decode_str, decode_route, decode_id_checked, decode_body, decode_tail,
  decode_rest, decode, raw_msg_size,
}
use libpomelo.Common.Groups.{groups, length-groups}
use libpomelo.Message.Encode.{decode_id-groups}
use libpomelo.Message.Sizes.{Grants, id_part, encode_route-written, encode_code-written}

pub below_four : (t : ℕ) → validate t ≡ true → t < 4
below_four t v = ground arith

-- The flag of a valid type, with and without the bit of a compressed route.
pub flag_even : (t : ℕ) → t < 4 → msg_encode_flag t false ≡ t * 2
flag_even zero h = refl
flag_even (suc zero) h = refl
flag_even (suc (suc zero)) h = refl
flag_even (suc (suc (suc zero))) h = refl
flag_even (suc (suc (suc (suc t)))) h = absurd (omega arith)

flag_odd : (t : ℕ) → t < 4 → msg_encode_flag t true ≡ t * 2 + 1
flag_odd zero h = refl
flag_odd (suc zero) h = refl
flag_odd (suc (suc zero)) h = refl
flag_odd (suc (suc (suc zero))) h = refl
flag_odd (suc (suc (suc (suc t)))) h = absurd (omega arith)

decode_id_checked-eq :
    (bytes : List ℕ) → 0 < length bytes → decode_id_checked bytes ≡ decode_id bytes 0 0
decode_id_checked-eq [] h = absurd (omega arith)
decode_id_checked-eq (m ∷ rest) h = refl

-- The id that the decoder reads, where the type has one; else 0.
abbrev pub id_of : ℕ → ℕ → ℕ
id_of t id = if has_id t then id else 0

length-id_part : (t id : ℕ) → length (id_part t id) ≤ 5
length-id_part t id = elim (Bool-cases (has_id t)) [
  | inl e ↦ rw e (omega (arith, length-groups 4 id))
  | inr e ↦ rw e (omega arith)
]

pub id_read :
    (t id : ℕ) (rest : List ℕ)
    → id < 2 ^ 31
    → (if has_id t then decode_id_checked (id_part t id ++ rest) else ok (0, id_part t id ++ rest))
      ≡ ok (id_of t id, rest)
id_read t id rest small = elim (Bool-cases (has_id t)) [
  | inl e ↦ rw e (
      decode_id_checked-eq (groups 4 id ++ rest)
        (omega (arith, length-groups 4 id, length-append (groups 4 id) rest))
      ∙ decode_id-groups 4 id 0 0 rest (omega arith) (omega arith) (omega arith)
      ∙ ap (λ z. ok (z, rest)) (omega arith))
  | inr e ↦ rw e
]

module _ (malloc : ℕ → Option (List ℕ)) (grants : Grants malloc) where
  pub granted-eq : (n : ℕ) → granted malloc n ≡ true
  granted-eq n = let (memory, given, width) = grants n in rw (given, granted)

  decode_body-eq : (msg : List ℕ) → decode_body malloc msg ≡ ok msg
  decode_body-eq [] = refl
  decode_body-eq (b ∷ msg) = rw (granted-eq (suc (length msg)))

  decode_str-eq :
      (route rest : List ℕ) (offset len : ℕ)
      → 0 < length route
      → length route < 2 ^ 16
      → offset + length (route ++ rest) ≡ len
      → len < 2 ^ 63
      → decode_str malloc (length route) offset len (route ++ rest) ≡ ok (str (some route), rest)
  unfolding decode_str
  decode_str-eq route rest offset len pos short at_end small =
      let whole_length = length-append route rest in
      rw (
        ==_false (length route) 0 (omega arith),
        granted-eq ((length route + 1) % 2 ^ 64),
        leb-true ((offset + length route) % 2 ^ 64) len (omega arith),
        leb-true (length route) (length (route ++ rest)) (omega arith),
        take_left (length route) route rest refl,
        drop_left (length route) route rest refl,
      )

  -- The decoder behind a flag that it can read, once the route is known.
  decode_rest-eq :
      (signed_char compressed : Bool) (t flag id len : ℕ) (route : Route) (bytes msg : List ℕ)
      → flag / 2 ≡ t
      → (flag % 2 == 1) ≡ compressed
      → validate t ≡ true
      → has_route t ≡ true
      → id < 2 ^ 31
      → decode_route malloc signed_char compressed len bytes ≡ ok (route, msg)
      → decode_rest malloc signed_char flag len (id_part t id ++ bytes)
        ≡ ok (record {
          id = id_of t id;
          msg_type = t;
          compress_route = compressed;
          route = route;
          body = msg;
        })
  unfolding decode_rest decode_tail
  decode_rest-eq signed_char compressed t flag id len route bytes msg et ec v routed small er =
      rw (et, ec, v, id_read t id bytes small, routed, er, decode_body-eq msg)

  size_of_char-small :
      (signed_char : Bool) (b : ℕ)
      → b < (if signed_char then 128 else 256)
      → size_of_char signed_char b ≡ b
  size_of_char-small true b h = rw (leb-false 128 b h)
  size_of_char-small false b h = refl

  route_read :
      (signed_char : Bool) (route msg : List ℕ) (len : ℕ)
      → 0 < length route
      → length route < (if signed_char then 128 else 256)
      → length (route ++ msg) < len
      → len < 2 ^ 63
      → decode_route malloc signed_char false len (length route ∷ (route ++ msg))
        ≡ ok (str (some route), msg)
  unfolding decode_route
  route_read signed_char route msg len pos short room small =
      rw (size_of_char-small signed_char (length route) short) (
        decode_str-eq route msg (len - length (route ++ msg)) len pos (ground arith) (omega arith)
          small)

  -- The decoder reads back what the encoder of a route string was given: with a valid type that has
  -- a route, an id below 2 ^ 31 (which comes back as 0 where the type has none), a route of 1 to 127
  -- bytes, or to 255 bytes where `char` is unsigned, a body that fits in memory, and allocations
  -- that succeed.
  pub decode-encode_route :
      (signed_char : Bool) (id t : ℕ) (route msg : List ℕ)
      → validate t ≡ true
      → has_route t ≡ true
      → id < 2 ^ 31
      → 0 < length route
      → length route < (if signed_char then 128 else 256)
      → length msg < 2 ^ 62
      → (encode_route malloc id t route msg >>= decode malloc signed_char)
        ≡ ok (record {
          id = id_of t id;
          msg_type = t;
          compress_route = false;
          route = str (some route);
          body = msg;
        })
  unfolding decode
  decode-encode_route signed_char id t route msg v routed small pos short fits =
      let bound : length route < 256 = ground arith in
      let k : length route % 2 ^ 16 ≡ length route = omega arith in
      let b : length route % 256 ≡ length route = omega arith in
      let lt = below_four t v in
      let grown = length-append (id_part t id) (length route ∷ (route ++ msg)) in
      rw
        (
          encode_route-written malloc grants id t route msg routed (omega arith),
          k,
          b,
          take_all (length route) route (omega arith),
          granted-eq raw_msg_size,
          flag_even t lt,
        )
        (decode_rest-eq signed_char false t (t * 2) id _ (str (some route))
          (length route ∷ (route ++ msg)) msg (omega arith) (==_false _ _ (omega arith)) v routed
          small
          (route_read signed_char route msg _ pos short (omega (arith, grown))
            (omega (arith, grown, length-append route msg, length-id_part t id, bound))))

  -- The decoder reads back what the encoder of a route code was given: with a valid type that has a
  -- route, an id below 2 ^ 31 (which comes back as 0 where the type has none), a code below 2 ^ 16
  -- and allocations that succeed.
  pub decode-encode_code :
      (signed_char : Bool) (id t route_code : ℕ) (msg : List ℕ)
      → validate t ≡ true
      → has_route t ≡ true
      → id < 2 ^ 31
      → route_code < 2 ^ 16
      → (encode_code malloc id t route_code msg >>= decode malloc signed_char)
        ≡ ok (record {
          id = id_of t id;
          msg_type = t;
          compress_route = true;
          route = code route_code;
          body = msg;
        })
  unfolding decode
  decode-encode_code signed_char id t route_code msg v routed small fits =
      let lt = below_four t v in
      rw
        (
          encode_code-written malloc grants id t route_code msg routed (omega arith),
          granted-eq raw_msg_size,
          flag_odd t lt,
        )
        (decode_rest-eq signed_char true t (t * 2 + 1) id _ (code route_code)
          (route_code / 2 ^ 8 % 256 ∷ route_code % 256 ∷ msg) msg (omega arith)
          (==_true _ _ (omega arith)) v routed small
          (unfold decode_route in ap (λ z. ok (code z, msg)) (omega arith)))

  -- An answer has no route: a number, of up to 31 bits, and a body.
  pub decode_answer :
      (signed_char : Bool) (id : ℕ) (msg : List ℕ)
      → id < 2 ^ 31
      → decode malloc signed_char (4 ∷ (groups 4 id ++ msg))
        ≡ ok (record {
          id = id;
          msg_type = response;
          compress_route = false;
          route = str none;
          body = msg;
        })
  unfolding decode decode_rest decode_tail
  decode_answer signed_char id msg small =
      rw (granted-eq raw_msg_size, id_read 2 id msg small, decode_body-eq msg)
