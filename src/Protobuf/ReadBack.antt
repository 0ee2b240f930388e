-- ===== src/Protobuf/ReadBack.antt =====
-- Whole messages: src/pb-decode.c on what src/pb-encode.c wrote.
use libpomelo.Common.{
  ℕ, zero, suc, ◌+◌, ◌^◌, ◌≤◌, ◌<◌, ◌≡◌, refl, ◌∙◌, Bool, true, ◌&&◌, ◌||◌, Option, none, some,
  List, [], ◌∷◌, ◌++◌, leb-true, append-nil, length, arith, Bool-cases, inl, inr,
}
use libpomelo.Common.Bytes.{same_str}
use libpomelo.Common.Outcome.{Outcome, ok, ◌>>=◌}
use libpomelo.Protobuf.{get_type}
use libpomelo.Protobuf.Names
use libpomelo.Protobuf.Encode.{Jansson, text, is_packed, pc_pb_encode}
use libpomelo.Protobuf.Decode.{Builder, Printer, pb_decode, pc_pb_decode}
use libpomelo.Protobuf.Reference.{array_bytes, option_bytes, member_bytes, members_bytes, bytes_of}
use libpomelo.Protobuf.Meaning.{store_array, store_option, store_member, store_members, stored}
use libpomelo.Protobuf.Agrees.{Widths}
use libpomelo.Protobuf.Refines.{pc_pb_encode-bytes_of}
use libpomelo.Protobuf.Values.{Schemas, Level}
use libpomelo.Protobuf.Members.{
  Walks, Walks-nothing, Walks-seq, Walks-bind, required-Walks, all-Walks, each-Walks, and_parts,
}

module _ {J R : Type 0} (json : Jansson J) (build : Builder R) (printer : Printer)
    (malloc : ℕ → Bool) (gprotos : J) (Known : J → Type 0)
    (schemas : Schemas json printer malloc gprotos Known) where
  module _ (sub : J → J → Outcome (List ℕ)) (mean : J → J → R → R)
      (levels : (fuel limit : ℕ)
        → limit ≤ fuel
        → limit < 2 ^ 32
        → Level json build printer malloc gprotos
            (pb_decode json build printer malloc gprotos fuel)
            sub
            mean
            limit
            Known)
      (protos : J) (known : Known protos) where
    option-Walks :
        (proto : J) (key option : List ℕ) (value : J)
        → json.object_get protos key ≡ some proto
        → text json proto Names.option_key ≡ ok option
        → Walks json build printer malloc gprotos protos
            (option_bytes json malloc gprotos sub option protos proto value)
            (λ r. store_option json build malloc gprotos mean option protos proto key value r)
    unfolding array_bytes store_array
    option-Walks proto key option value defined named =
        elim (Bool-cases (same_str option Names.required || same_str option Names.optional)) [
          | inl one ↦ rw one (
              required-Walks json build printer malloc gprotos sub mean Known schemas levels protos
                known proto key option defined named value one)
          | inr single ↦ elim (Bool-cases (same_str option Names.repeated && json.is_array value)) [
            | inl many ↦
                rw (single, many)
                  (Walks-bind json build printer malloc gprotos protos
                    (text json proto Names.type_key) _ _
                    (λ type has_type. elim (Bool-cases (is_packed (get_type type))) [
                      | inl packed ↦ rw packed (
                          all-Walks json build printer malloc gprotos sub mean Known schemas levels
                            protos known proto key option defined named single
                            (and_parts (same_str option Names.repeated) (json.is_array value) many)
                            type has_type (json.elements value) packed)
                      | inr packed ↦ rw packed (
                          each-Walks json build printer malloc gprotos sub mean Known schemas levels
                            protos known proto key option defined named single
                            (and_parts (same_str option Names.repeated) (json.is_array value) many)
                            type has_type (json.elements value) packed)
                    ]))
            | inr other ↦
                rw (single, other) (Walks-nothing json build printer malloc gprotos protos)
          ]
        ]

    member-Walks :
        (found : Option J) (key : List ℕ) (value : J)
        → json.object_get protos key ≡ found
        → Walks json build printer malloc gprotos protos
            (member_bytes json malloc gprotos sub protos found value)
            (λ r. store_member json build malloc gprotos mean protos found key value r)
    member-Walks none key value defined = λ bytes e. absurd cc
    member-Walks (some proto) key value defined =
        Walks-bind json build printer malloc gprotos protos (text json proto Names.option_key)
          (λ option. option_bytes json malloc gprotos sub option protos proto value)
          (λ option r. store_option json build malloc gprotos mean option protos proto key value r)
          (λ option named. option-Walks proto key option value defined named)

    members-Walks :
        (members : List (List ℕ × J))
        → Walks json build printer malloc gprotos protos
            (members_bytes json malloc gprotos sub protos members)
            (λ r. store_members json build malloc gprotos mean protos members r)
    unfolding members_bytes store_members
    members-Walks [] = Walks-nothing json build printer malloc gprotos protos
    members-Walks ((key, value) ∷ rest) =
        Walks-seq json build printer malloc gprotos protos
          (member_bytes json malloc gprotos sub protos (json.object_get protos key) value)
          (members_bytes json malloc gprotos sub protos rest)
          (λ r.
            store_member json build malloc gprotos mean protos (json.object_get protos key) key
              value r)
          (λ r. store_members json build malloc gprotos mean protos rest r)
          (member-Walks (json.object_get protos key) key value refl) (members-Walks rest)

  pb_decode-done :
      (fuel : ℕ) (rest : List ℕ) (protos : J) (r : R)
      → pb_decode json build printer malloc gprotos fuel
          (record { state = rest; bytes_left = 0 })
          protos
          r
        ≡ ok (record { state = rest; bytes_left = 0 }, some r)
  unfolding pb_decode
  pb_decode-done zero rest protos r = refl
  pb_decode-done (suc fuel) rest protos r = refl

  module _ (widths : Widths json) (granted : (n : ℕ) → malloc n ≡ true) where
    -- A message of any depth is read behind any start of the buffer, up to its last byte.
    pb_decode-stored :
        (depth fuel : ℕ) (protos msg : J) (bytes : List ℕ)
        → Known protos
        → bytes_of json malloc gprotos depth protos msg ≡ ok bytes
        → length bytes ≤ fuel
        → length bytes < 2 ^ 32
        → (rest : List ℕ) (r : R)
        → pb_decode json build printer malloc gprotos fuel
            (record { state = bytes ++ rest; bytes_left = length bytes })
            protos
            r
          ≡ ok (
            record { state = rest; bytes_left = 0 },
            some (stored json build malloc gprotos depth protos msg r),
          )
    unfolding bytes_of stored
    pb_decode-stored zero fuel protos msg bytes known e enough small rest r = absurd cc
    pb_decode-stored (suc depth) fuel protos msg bytes known e enough small rest r =
        let (fuel₁, enough₁, walked) =
          members-Walks (bytes_of json malloc gprotos depth)
            (stored json build malloc gprotos depth)
            (λ fuel₀ limit fits short. record {
              widths = widths;
              schemas = schemas;
              granted = granted;
              short = short;
              below = λ ps value bs known₁ described within rest₁ r₁.
                  pb_decode-stored depth fuel₀ ps value bs known₁ described (omega arith)
                    (omega arith) rest₁ r₁;
            })
            protos known (json.members msg) bytes e small fuel 0 rest r (omega arith) in
        let z : length bytes + 0 ≡ length bytes = omega arith in
        (rw z at walked) ∙ pb_decode-done fuel₁ rest protos _

    pub pc_pb_decode-bytes_of :
        (depth : ℕ) (protos msg : J) (bytes : List ℕ) (r : R)
        → Known protos
        → bytes_of json malloc gprotos depth protos msg ≡ ok bytes
        → length bytes < 2 ^ 32
        → pc_pb_decode json build printer malloc gprotos bytes protos r
          ≡ ok (
            record { state = []; bytes_left = 0 },
            some (stored json build malloc gprotos depth protos msg r),
          )
    unfolding pc_pb_decode
    pc_pb_decode-bytes_of depth protos msg bytes r known e small =
        let read =
          pb_decode-stored depth (length bytes) protos msg bytes known e (omega arith) small [] r in
        rw (append-nil bytes) at read

    -- What `pc_pb_encode` writes for a message, `pc_pb_decode` reads as the members of that message,
    -- stored one after the other, at every level of messages, with nothing left: if the description has
    -- the bytes of the message, they fit into a buffer of fewer than 2 ^ 32 bytes, every allocation
    -- succeeds, and in its schemas each field has a number from 1 on below 2 ^ 29, under which `__tags`
    -- has the name of the field.
    pub pc_pb_decode-encode :
        (depth len : ℕ) (protos msg : J) (bytes : List ℕ) (r : R)
        → Known protos
        → bytes_of json malloc gprotos depth protos msg ≡ ok bytes
        → length bytes ≤ len
        → len < 2 ^ 32
        → (pc_pb_encode json malloc gprotos depth len protos msg
            >>= (λ buf. pc_pb_decode json build printer malloc gprotos buf protos r))
          ≡ ok (
            record { state = []; bytes_left = 0 },
            some (stored json build malloc gprotos depth protos msg r),
          )
    pc_pb_decode-encode depth len protos msg bytes r known e fits small = rw (
      pc_pb_encode-bytes_of json widths malloc gprotos depth len protos msg bytes e (omega arith)
          (omega arith),
      leb-true (length bytes) len fits,
      pc_pb_decode-bytes_of depth protos msg bytes r known e (omega arith),
    )
