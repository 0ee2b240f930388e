-- ===== src/Message/Faults.antt =====
-- Where the decoder of src/message.c goes wrong, and where it does not.
use libpomelo.Common.{
  ap, ◌⊎◌, some, take, length-take, ℕ, suc, ◌+◌, ◌-◌, ◌*◌, ◌/◌, ◌%◌, ◌^◌, ◌≤◌, ◌<◌, ◌≡◌, refl, Bool,
  true, false, Option, none, List, [], ◌∷◌, ◌++◌, ◌==◌, if◌then◌else◌, length, length-append,
  Bool-cases, inl, inr, leb-true, ==_false, arith, take_all, ◌≢◌,
}
use libpomelo.Common.Outcome.{Outcome, ok, err, fault, stuck, ◌>>=◌, checked}
use mathlib.Core.Logic.{◌≢◌}
use libpomelo.Message.{
  msg_encode_flag, msg_encode_route, has_id, has_route, validate, encode_route, code, str,
  decode_id, granted, decode_str, decode_route, decode_body, decode_tail, decode_rest, decode,
  raw_msg_size,
}
use libpomelo.Common.{All}
use libpomelo.Message.RoundTrip.{below_four, flag_even, id_read}
use libpomelo.Message.Sizes.{id_part, id_length_part, id_encode_part, filled_all}

decode_id-unended :
    (rest : List ℕ) (i id : ℕ) → All (λ b. 128 ≤ b) rest → decode_id rest i id ≡ fault
unfolding decode_id
decode_id-unended [] i id h = refl
decode_id-unended (m ∷ rest) i id h =
    ground (arith, decode_id-unended rest (i + 1) ((id + m % 128 * 2 ^ (7 * i)) % 2 ^ 32))

-- A request or a response whose id is never ended by a byte below 128 makes the decoder read past
-- the end of the data: the length is tested once, before the first byte of the id.
pub decode-unended_id :
    (malloc : ℕ → Option (List ℕ)) (signed_char : Bool) (flag m : ℕ) (rest : List ℕ)
    → granted malloc raw_msg_size ≡ true
    → validate (flag / 2) ≡ true
    → has_id (flag / 2) ≡ true
    → All (λ b. 128 ≤ b) (m ∷ rest)
    → decode malloc signed_char (flag ∷ m ∷ rest) ≡ fault
unfolding decode decode_rest
decode-unended_id malloc signed_char flag m rest g v i h =
    rw (g, v, i, decode_id-unended (m ∷ rest) 0 0 h)

>>=-ne-fault {ℓ κ} :
    {A : Type ℓ} {B : Type κ} (m : Outcome A) (f : A → Outcome B)
    → m ≢ fault
    → ((a : A) → m ≡ ok a → f a ≢ fault)
    → (m >>= f) ≢ fault
>>=-ne-fault (ok a) f h k = k a refl
>>=-ne-fault err f h k = λ e. cc
>>=-ne-fault fault f h k = λ e. h refl
>>=-ne-fault stuck f h k = λ e. cc

checked-ne-fault {ℓ} : {A : Type ℓ} (b : Bool) (m : Outcome A) → m ≢ fault → checked b m ≢ fault
checked-ne-fault true m h = h
checked-ne-fault false m h = λ e. cc

decode_str-ne-fault :
    (malloc : ℕ → Option (List ℕ)) (route_len offset len : ℕ) (rest : List ℕ)
    → offset + length rest ≡ len
    → offset + route_len < 2 ^ 64
    → decode_str malloc route_len offset len rest ≢ fault
unfolding decode_str
decode_str-ne-fault malloc route_len offset len rest e small = λ f. ground arith

decode_route-ne-fault :
    (malloc : ℕ → Option (List ℕ)) (compressed : Bool) (len : ℕ) (rest : List ℕ)
    → All (λ b. b < 256) rest
    → length rest < len
    → len < 2 ^ 63
    → decode_route malloc false compressed len rest ≢ fault
unfolding decode_route
decode_route-ne-fault malloc true len [] h lt small = λ e. cc
decode_route-ne-fault malloc true len (b ∷ []) h lt small = λ e. cc
decode_route-ne-fault malloc true len (b ∷ c ∷ rest) h lt small = λ e. cc
decode_route-ne-fault malloc false len [] h lt small = λ e. cc
decode_route-ne-fault malloc false len (b ∷ rest) h lt small =
    decode_str-ne-fault malloc b (len - length rest) len rest (omega arith) (omega (arith, h.0))

decode_body-ne-fault :
    (malloc : ℕ → Option (List ℕ))
    → ((n : ℕ) → granted malloc n ≡ true)
    → (rest : List ℕ) → decode_body malloc rest ≢ fault
decode_body-ne-fault malloc g [] = λ e. cc
decode_body-ne-fault malloc g (b ∷ rest) = rw (g (suc (length rest))) (λ e. cc)

-- Where `char` is unsigned, no data of the size of a memory makes the decoder of a notify or a push
-- message read or write out of bounds, if every allocation succeeds.
pub decode-safe :
    (malloc : ℕ → Option (List ℕ)) (flag : ℕ) (rest : List ℕ)
    → ((n : ℕ) → granted malloc n ≡ true)
    → has_id (flag / 2) ≡ false
    → All (λ b. b < 256) rest
    → length rest < 2 ^ 62
    → decode malloc false (flag ∷ rest) ≢ fault
unfolding decode decode_rest decode_tail
decode-safe malloc flag rest g no_id h small =
    rw (g raw_msg_size, no_id)
      (checked-ne-fault (validate (flag / 2)) _ (
        >>=-ne-fault
          (if has_route (flag / 2)
            then decode_route malloc false (flag % 2 == 1) (length (flag ∷ rest)) rest
            else ok (if flag % 2 == 1 then code 0 else str none, rest))
          _
          (elim (Bool-cases (has_route (flag / 2))) [
            | inl e ↦ rw e (
                decode_route-ne-fault malloc (flag % 2 == 1) (length (flag ∷ rest)) rest h
                  (omega arith) (omega arith))
            | inr e ↦ rw e (λ q. cc)
          ])
          (λ r e.
            >>=-ne-fault (decode_body malloc r.1) _ (decode_body-ne-fault malloc g r.1)
              (λ body q. λ k. cc))))

given_cases {ℓ} : {A : Type ℓ} (o : Option A) → (o ≡ none) ⊎ ((a : A) × (o ≡ some a))
given_cases none = inl refl
given_cases (some a) = inr (a, refl)

-- A memory that is given has the size that was asked for.
abbrev pub Sized : (ℕ → Option (List ℕ)) → Type 0
Sized malloc = (n : ℕ) (memory : List ℕ) → malloc n ≡ some memory → length memory ≡ n

-- No message, but an end: the failure that is reported, or undefined behaviour.
abbrev pub IsLost {ℓ} : {A : Type ℓ} → Outcome A → Type ℓ
IsLost m = (m ≡ err) ⊎ (m ≡ fault)

>>=-IsLost {ℓ κ} :
    {A : Type ℓ} {B : Type κ} (m : Outcome A) (f : A → Outcome B) → IsLost m → IsLost (m >>= f)
>>=-IsLost m f (inl e) = inl (ap (λ o. o >>= f) e)
>>=-IsLost m f (inr e) = inr (ap (λ o. o >>= f) e)

decode_str-beyond :
    (malloc : ℕ → Option (List ℕ)) (route_len offset len : ℕ) (rest : List ℕ)
    → length rest < route_len
    → IsLost (decode_str malloc route_len offset len rest)
unfolding decode_str
decode_str-beyond malloc route_len offset len rest h = ground arith

-- What the encoder of a route string gives, if it gives anything.
encode_route-given :
    (malloc : ℕ → Option (List ℕ)) (id t : ℕ) (route msg : List ℕ)
    → Sized malloc
    → has_route t ≡ true
    → id < 2 ^ 32
    → (encode_route malloc id t route msg ≡ err)
      ⊎ (encode_route malloc id t route msg
          ≡ ok (
              msg_encode_flag t false
              ∷ (id_part t id ++ (msg_encode_route route (length route % 2 ^ 16) ++ msg))))
unfolding encode_route
encode_route-given malloc id t route msg sized routed small =
    let k = length route % 2 ^ 16 in
    let n = 1 + length (id_part t id) + 1 + k + length msg in
    elim (given_cases (malloc n)) [
      | inl refused ↦
          inl (rw (id_length_part t id small, routed, id_encode_part t id small, refused))
      | inr (memory, given) ↦ inr (
          rw (id_length_part t id small, routed, id_encode_part t id small, given)
            (filled_all memory _ n (sized n memory given) (
              omega (
                arith,
                length-append (id_part t id) (msg_encode_route route k ++ msg),
                length-append (take k route) msg,
                length-take k route,
              ))))
    ]

-- A route of 128 to 255 bytes, which the encoder writes, is never read back where `char` is signed: its
-- length byte is extended by its sign to a `size_t` of almost 2 ^ 64. Whatever allocations the two ends
-- refuse, they come to an end, a failure or undefined behaviour, and the decoder gives no message; if the type is valid and has a route, the id is below 2 ^ 31, the
-- body is shorter than 2 ^ 62, and a memory that is given has the size that was asked for.
pub decode-long_route :
    (malloc there : ℕ → Option (List ℕ))
    → Sized malloc
    → (id t : ℕ) (route msg : List ℕ) → validate t ≡ true
    → has_route t ≡ true
    → id < 2 ^ 31
    → 128 ≤ length route
    → length route < 256
    → length msg < 2 ^ 62
    → IsLost (encode_route malloc id t route msg >>= decode there true)
unfolding decode decode_rest decode_tail decode_route
decode-long_route malloc there sized id t route msg v routed small lo hi fits =
    let k : length route % 2 ^ 16 ≡ length route = omega arith in
    let b : length route % 256 ≡ length route = omega arith in
    let two : t * 2 / 2 ≡ t = omega arith in
    let n : ℕ = suc (length (id_part t id ++ (length route ∷ (route ++ msg)))) in
    elim (encode_route-given malloc id t route msg sized routed (omega arith)) [
      | inl refused ↦ rw refused (inl refl)
      | inr written ↦ elim (Bool-cases (granted there raw_msg_size)) [
        | inl room ↦
            rw
              (
                written,
                k,
                b,
                take_all (length route) route (omega arith),
                room,
                flag_even t (below_four t v),
                two,
                v,
                id_read t id (length route ∷ (route ++ msg)) small,
                routed,
                ==_false (t * 2 % 2) 1 (omega arith),
                leb-true 128 (length route) lo,
              )
              (>>=-IsLost
                (decode_str there (2 ^ 64 - 256 + length route) (n - length (route ++ msg)) n
                  (route ++ msg))
                _
                (decode_str-beyond there (2 ^ 64 - 256 + length route) (n - length (route ++ msg)) n
                  (route ++ msg) (omega (arith, length-append route msg))))
        | inr none_left ↦ rw (written, none_left) (inl refl)
      ]
    ]
