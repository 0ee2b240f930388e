-- ===== src/Protobuf/Members.antt =====
-- The members of a message: what the loop of src/pb-decode.c reads of what src/pb-encode.c wrote for
-- each.
use libpomelo.Common.{
  ℕ, ◌+◌, ◌*◌, ◌%◌, ◌^◌, ◌≤◌, ◌<◌, ◌≡◌, refl, ap, ◌∙◌, subst, Bool, true, false, ◌&&◌, ◌||◌, Option,
  some, List, [], ◌∷◌, ◌++◌, length, arith, length-append, append_assoc,
}
use libpomelo.Common.Bytes.{same_str}
use libpomelo.Common.Groups.{groups}
use libpomelo.Common.Outcome.{Outcome, ok, err, fault, stuck, ◌>>=◌}
use libpomelo.Protobuf.{get_type, get_constant_type}
use libpomelo.Protobuf.Names
use libpomelo.Protobuf.Encode.{Jansson, text, number_or_zero, is_packed}
use libpomelo.Protobuf.Decode.{Builder, Printer, pb_decode, decode_option}
use libpomelo.Protobuf.Reference.{◌⋄◌, tag_of, tag_bytes, proto_bytes, packed_bytes, tagged_bytes}
use libpomelo.Protobuf.Meaning.{
  on_ok, store_proto, append_all, append_one, append_each, elements_so_far,
}
use libpomelo.Protobuf.Consumes.{Consumes}
use libpomelo.Protobuf.Values.{Schemas, Level, proto-Recovers}
use libpomelo.Protobuf.Elements.{seq_parts, all-Recovers, one-Recovers}
use libpomelo.Protobuf.Steps.{Steps, Steps-nothing, Steps-then, Steps-field}

seq_assoc : (a b c : Outcome (List ℕ)) → ((a ⋄ b) ⋄ c) ≡ (a ⋄ (b ⋄ c))
seq_assoc (ok a) (ok b) (ok c) = ap ok (append_assoc a b c)
seq_assoc (ok a) (ok b) err = refl
seq_assoc (ok a) (ok b) fault = refl
seq_assoc (ok a) (ok b) stuck = refl
seq_assoc (ok a) err c = refl
seq_assoc (ok a) fault c = refl
seq_assoc (ok a) stuck c = refl
seq_assoc err b c = refl
seq_assoc fault b c = refl
seq_assoc stuck b c = refl

or_swap : (a b : Bool) → (a || b) ≡ (b || a)
or_swap true true = refl
or_swap true false = refl
or_swap false true = refl
or_swap false false = refl

pub and_parts : (a b : Bool) → (a && b) ≡ true → a ≡ true
and_parts true b e = refl
and_parts false b e = absurd cc

tag_parts :
    {J : Type 0} (json : Jansson J) (m : Outcome (List ℕ)) (number : Option J) (bytes : List ℕ)
    → (m >>= (λ type. tag_of json type number)) ≡ ok bytes
    → (type : List ℕ) × (m ≡ ok type)
      × (groups 9 (get_constant_type type + number_or_zero json number % 2 ^ 29 * 8) ≡ bytes)
tag_parts json (ok type) number bytes e = (type, refl, cc e)
tag_parts json err number bytes e = absurd cc
tag_parts json fault number bytes e = absurd cc
tag_parts json stuck number bytes e = absurd cc

module _ {J R : Type 0} (json : Jansson J) (build : Builder R) (printer : Printer)
    (malloc : ℕ → Bool) (gprotos protos : J) where
  -- Where the description has bytes, fewer than 2 ^ 32, the loop takes them and changes the result.
  abbrev pub Walks : Outcome (List ℕ) → (R → R) → Type 0
  Walks m g =
      (bytes : List ℕ)
      → m ≡ ok bytes
      → length bytes < 2 ^ 32
      → Steps json build printer malloc gprotos protos bytes g

  pub Walks-nothing : Walks (ok []) (λ r. r)
  Walks-nothing bytes e h =
      let same : [] ≡ bytes = cc e in
      subst (λ z. Steps json build printer malloc gprotos protos z (λ r. r)) same
        (Steps-nothing json build printer malloc gprotos protos)

  pub Walks-seq :
      (m m' : Outcome (List ℕ)) (g h : R → R)
      → Walks m g
      → Walks m' h
      → Walks (m ⋄ m') (λ r. h (g r))
  Walks-seq m m' g h first second bytes e small =
      let (x, y, ex, ey, same) = seq_parts m m' bytes e in
      let total = length-append x y in
      let equal = ap length same in
      subst (λ z. Steps json build printer malloc gprotos protos z (λ r. h (g r))) same
        (Steps-then json build printer malloc gprotos protos x y g h (first x ex (omega arith))
          (second y ey (omega arith)))

  pub Walks-bind :
      {A : Type 0} (m : Outcome A) (g : A → Outcome (List ℕ)) (h : A → R → R)
      → ((a : A) → m ≡ ok a → Walks (g a) (h a))
      → Walks (m >>= g) (λ r. on_ok m r (λ a. h a r))
  Walks-bind (ok a) g h walks = walks a refl
  Walks-bind err g h walks = λ bytes e. absurd cc
  Walks-bind fault g h walks = λ bytes e. absurd cc
  Walks-bind stuck g h walks = λ bytes e. absurd cc

module _ {J R : Type 0} (json : Jansson J) (build : Builder R) (printer : Printer)
    (malloc : ℕ → Bool) (gprotos : J) (sub : J → J → Outcome (List ℕ)) (mean : J → J → R → R)
    (Known : J → Type 0) (schemas : Schemas json printer malloc gprotos Known)
    (levels : (fuel limit : ℕ)
      → limit ≤ fuel
      → limit < 2 ^ 32
      → Level json build printer malloc gprotos
          (pb_decode json build printer malloc gprotos fuel)
          sub
          mean
          limit
          Known)
    (protos : J) (known : Known protos) where
  module _ (proto : J) (key option : List ℕ) (defined : json.object_get protos key ≡ some proto)
      (named : text json proto Names.option_key ≡ ok option) where
    -- A field and its value, by what reads the value.
    tagged-Walks :
        (m : Outcome (List ℕ)) (g : R → R)
        → ((fuel limit : ℕ) (r : R) (bytes : List ℕ)
            → limit ≤ fuel
            → limit < 2 ^ 32
            → m ≡ ok bytes
            → length bytes ≤ limit
            → Consumes
                (λ s.
                  decode_option json build printer malloc gprotos
                    (pb_decode json build printer malloc gprotos fuel)
                    option
                    s
                    proto
                    protos
                    key
                    r)
                bytes
                (g r))
        → Walks json build printer malloc gprotos protos (tag_bytes json proto ⋄ m) g
    unfolding tag_bytes
    tagged-Walks m g reads bytes e small =
        let (x, y, ex, ey, same) = seq_parts (tag_bytes json proto) m bytes e in
        let (type, has_type, head) =
          tag_parts json (text json proto Names.type_key) (json.object_get proto Names.tag_key) x
            ex in
        let total = length-append x y in
        let equal = ap length same in
        subst (λ z. Steps json build printer malloc gprotos protos z g)
          (ap (λ z. z ++ y) head ∙ same)
          (Steps-field json build printer malloc gprotos protos proto key type option y g
            (schemas.numbered protos proto key type option known defined has_type named) defined
            named
            (λ fuel r enough. reads fuel (length y) r y enough (omega arith) ey (omega arith)))

    pub required-Walks :
        (value : J)
        → (same_str option Names.required || same_str option Names.optional) ≡ true
        → Walks json build printer malloc gprotos protos
            (tag_bytes json proto ⋄ proto_bytes json malloc gprotos sub protos proto value)
            (λ r. store_proto json build malloc gprotos mean protos proto (some key) value r)
    required-Walks value c =
        let swapped : (same_str option Names.optional || same_str option Names.required) ≡ true =
          or_swap (same_str option Names.optional) (same_str option Names.required) ∙ c in
        tagged-Walks (proto_bytes json malloc gprotos sub protos proto value)
          (λ r. store_proto json build malloc gprotos mean protos proto (some key) value r)
          (λ fuel limit r bytes enough small e h. rw swapped (
            proto-Recovers json build printer malloc gprotos
              (pb_decode json build printer malloc gprotos fuel) sub mean limit Known
              (levels fuel limit enough small) protos proto (some key) value r known bytes e h))

    module _ (single : (same_str option Names.required || same_str option Names.optional) ≡ false)
        (many : same_str option Names.repeated ≡ true) (type : List ℕ)
        (has_type : text json proto Names.type_key ≡ ok type) where
      swapped : (same_str option Names.optional || same_str option Names.required) ≡ false
      swapped = or_swap (same_str option Names.optional) (same_str option Names.required) ∙ single

      pub all-Walks :
          (vs : List J)
          → is_packed (get_type type) ≡ true
          → Walks json build printer malloc gprotos protos
              ((tag_bytes json proto ⋄ ok (groups 9 (length vs)))
                ⋄ packed_bytes json malloc gprotos sub protos proto vs)
              (λ r. build.put r key (
                append_all json build malloc gprotos mean protos proto key vs
                  (elements_so_far json build malloc gprotos (build.get r key))))
      all-Walks vs packed =
          rw
            (seq_assoc (tag_bytes json proto) (ok (groups 9 (length vs)))
              (packed_bytes json malloc gprotos sub protos proto vs))
            (tagged-Walks
              (ok (groups 9 (length vs)) ⋄ packed_bytes json malloc gprotos sub protos proto vs)
              (λ r. build.put r key (
                append_all json build malloc gprotos mean protos proto key vs
                  (elements_so_far json build malloc gprotos (build.get r key))))
              (λ fuel limit r bytes enough small e h.
                rw (swapped, many)
                  (all-Recovers json build printer malloc gprotos
                    (pb_decode json build printer malloc gprotos fuel) sub mean limit Known
                    (levels fuel limit enough small) protos proto type key vs r known has_type
                    packed bytes e h)))

      pub each-Walks :
          (vs : List J)
          → is_packed (get_type type) ≡ false
          → Walks json build printer malloc gprotos protos
              (tagged_bytes json malloc gprotos sub protos proto vs)
              (λ r.
                append_each json build malloc gprotos mean (get_type type) protos proto key vs r)
      unfolding tagged_bytes append_each
      each-Walks [] packed = Walks-nothing json build printer malloc gprotos protos
      each-Walks (v ∷ vs) packed =
          Walks-seq json build printer malloc gprotos protos
            (tag_bytes json proto ⋄ proto_bytes json malloc gprotos sub protos proto v)
            (tagged_bytes json malloc gprotos sub protos proto vs)
            (λ r. build.put r key (
              append_one json build malloc gprotos mean (get_type type) protos proto key v
                (elements_so_far json build malloc gprotos (build.get r key))))
            (λ r. append_each json build malloc gprotos mean (get_type type) protos proto key vs r)
            (tagged-Walks (proto_bytes json malloc gprotos sub protos proto v)
              (λ r. build.put r key (
                append_one json build malloc gprotos mean (get_type type) protos proto key v
                  (elements_so_far json build malloc gprotos (build.get r key))))
              (λ fuel limit r bytes enough small e h.
                rw (swapped, many)
                  (one-Recovers json build printer malloc gprotos
                    (pb_decode json build printer malloc gprotos fuel) sub mean limit Known
                    (levels fuel limit enough small) protos proto type key v r known has_type packed
                    bytes e h)))
            (each-Walks vs packed)
