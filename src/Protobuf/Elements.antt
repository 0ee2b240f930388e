-- ===== src/Protobuf/Elements.antt =====
-- The elements of arrays: what src/pb-decode.c reads of what src/pb-encode.c wrote for one.
use libpomelo.Common.{
  ℕ, ◌^◌, ◌≤◌, ◌<◌, ◌≡◌, refl, ap, subst, Bool, true, false, Option, none, some, List, [], ◌∷◌,
  ◌++◌, length, arith, length-append,
}
use libpomelo.Common.Groups.{groups, length-groups}
use libpomelo.Common.Outcome.{Outcome, ok, err, fault, stuck}
use libpomelo.Protobuf.{FieldType, uint32, int32, sint32, float, double, string, message, get_type}
use libpomelo.Protobuf.Names
use libpomelo.Protobuf.Input.{Istream, Reads, ◌>>?◌, pb_decode_varint32}
use libpomelo.Protobuf.Output.{zigzag}
use libpomelo.Protobuf.Encode.{Jansson, text, is_packed}
use libpomelo.Protobuf.Decode.{
  Builder, Printer, pb_decode_proto, decode_packed, decode_elements, array_or_new, pb_decode_array,
}
use libpomelo.Protobuf.Reference.{◌⋄◌, field_bytes, proto_bytes, packed_bytes}
use libpomelo.Protobuf.Meaning.{store_proto, append_all, append_one, elements_so_far}
use libpomelo.Protobuf.Agrees.{Widths}
use libpomelo.Protobuf.Consumes.{
  behind, Consumes, Consumes-nothing, Consumes-map, Consumes-then, Consumes-varint32,
}
use libpomelo.Protobuf.Values.{Recovers, Recovers-ok, Level, proto-Recovers}

-- The two parts of bytes that are described one after the other.
pub seq_parts :
    (m m' : Outcome (List ℕ)) (bytes : List ℕ)
    → (m ⋄ m') ≡ ok bytes
    → (a : List ℕ) × (b : List ℕ) × (m ≡ ok a) × (m' ≡ ok b) × (a ++ b ≡ bytes)
seq_parts (ok a) (ok b) bytes e = (a, b, refl, refl, cc e)
seq_parts (ok a) err bytes e = absurd cc
seq_parts (ok a) fault bytes e = absurd cc
seq_parts (ok a) stuck bytes e = absurd cc
seq_parts err m' bytes e = absurd cc
seq_parts fault m' bytes e = absurd cc
seq_parts stuck m' bytes e = absurd cc

pub Recovers-seq :
    {A R : Type 0} (limit : ℕ) (f : Istream → Reads A) (g : Istream → A → Reads R)
    (m m' : Outcome (List ℕ)) (a : A) (b : R)
    → ((bytes : List ℕ) → m ≡ ok bytes → length bytes ≤ limit → Consumes f bytes a)
    → Recovers limit (λ s. g s a) m' b
    → Recovers limit (λ s. f s >>? g) (m ⋄ m') b
Recovers-seq limit f g m m' a b cf cg bytes e h =
    let (x, y, ex, ey, same) = seq_parts m m' bytes e in
    subst (λ z. Consumes (λ s. f s >>? g) z b) same
      (Consumes-then f g x y a b (cf x ex (omega (arith, length-append x y, ap length same)))
        (cg y ey (omega (arith, length-append x y, ap length same))))

module _ {J : Type 0} (json : Jansson J) (widths : Widths json) (malloc : ℕ → Bool) (gprotos : J)
    (sub : J → J → Outcome (List ℕ)) where
  groups_size : (v : ℕ) (bytes : List ℕ) → ok (groups 9 v) ≡ ok bytes → 1 ≤ length bytes
  groups_size v bytes e =
      let same : groups 9 v ≡ bytes = cc e in omega (arith, length-groups 9 v, ap length same)

  -- A packed element has a byte at least.
  field_size :
      (t : FieldType) (protos : J) (type : List ℕ) (value : J) (bytes : List ℕ)
      → is_packed t ≡ true
      → field_bytes json malloc gprotos sub t protos type value ≡ ok bytes
      → 1 ≤ length bytes
  field_size uint32 protos type value bytes p e = groups_size (json.integer value) bytes e
  field_size int32 protos type value bytes p e = groups_size (zigzag (json.integer value)) bytes e
  field_size sint32 protos type value bytes p e = groups_size (zigzag (json.integer value)) bytes e
  field_size float protos type value bytes p e =
      let same : json.float_bytes value ≡ bytes = cc e in
      omega (arith, widths.float_width value, ap length same)
  field_size double protos type value bytes p e =
      let same : json.double_bytes value ≡ bytes = cc e in
      omega (arith, widths.double_width value, ap length same)
  field_size string protos type value bytes p e = absurd cc
  field_size message protos type value bytes p e = absurd cc

  proto_size :
      (protos proto value : J) (type bytes : List ℕ)
      → text json proto Names.type_key ≡ ok type
      → is_packed (get_type type) ≡ true
      → proto_bytes json malloc gprotos sub protos proto value ≡ ok bytes
      → 1 ≤ length bytes
  unfolding proto_bytes
  proto_size protos proto value type bytes q p e =
      field_size (get_type type) protos type value bytes p (rw q at e)

  pub packed_size :
      (protos proto : J) (vs : List J) (type bytes : List ℕ)
      → text json proto Names.type_key ≡ ok type
      → is_packed (get_type type) ≡ true
      → packed_bytes json malloc gprotos sub protos proto vs ≡ ok bytes
      → length vs ≤ length bytes
  unfolding packed_bytes
  packed_size protos proto [] type bytes q p e = omega arith
  packed_size protos proto (v ∷ vs) type bytes q p e =
      let (x, y, ex, ey, same) =
        seq_parts (proto_bytes json malloc gprotos sub protos proto v)
          (packed_bytes json malloc gprotos sub protos proto vs) bytes e in
      omega (
        arith,
        proto_size protos proto v type x q p ex,
        packed_size protos proto vs type y q p ey,
        length-append x y,
        ap length same,
      )

module _ {J R : Type 0} (json : Jansson J) (build : Builder R) (printer : Printer)
    (malloc : ℕ → Bool) (gprotos : J) (decode : Istream → J → R → Reads R)
    (sub : J → J → Outcome (List ℕ)) (mean : J → J → R → R) (limit : ℕ) (Known : J → Type 0)
    (level : Level json build printer malloc gprotos decode sub mean limit Known) where
  packed-Recovers :
      (protos proto : J) (key : List ℕ) (vs : List J) (array : R)
      → Known protos
      → Recovers limit
          (λ s.
            decode_packed json build printer malloc gprotos decode
              (length vs)
              s
              proto
              protos
              key
              array)
          (packed_bytes json malloc gprotos sub protos proto vs)
          (append_all json build malloc gprotos mean protos proto key vs array)
  unfolding decode_packed packed_bytes append_all
  packed-Recovers protos proto key [] array known =
      Recovers-ok limit (λ s. ok (s, some array)) [] array (Consumes-nothing array)
  packed-Recovers protos proto key (v ∷ vs) array known =
      Recovers-seq limit
        (λ s.
          pb_decode_proto json build printer malloc gprotos decode s proto protos (some key) array)
        (λ s array₁.
          decode_packed json build printer malloc gprotos decode (length vs) s proto protos key
            array₁)
        (proto_bytes json malloc gprotos sub protos proto v)
        (packed_bytes json malloc gprotos sub protos proto vs)
        (store_proto json build malloc gprotos mean protos proto (some key) v array)
        (append_all json build malloc gprotos mean protos proto key vs
          (store_proto json build malloc gprotos mean protos proto (some key) v array))
        (proto-Recovers json build printer malloc gprotos decode sub mean limit Known level protos
          proto (some key) v array known)
        (packed-Recovers protos proto key vs
          (store_proto json build malloc gprotos mean protos proto (some key) v array) known)

  so_far :
      (o : Option R)
      → array_or_new json build printer malloc gprotos decode o
        ≡ elements_so_far json build malloc gprotos o
  so_far none = refl
  so_far (some array) = refl

  packed_elements :
      (t : FieldType) (s : Istream) (proto protos : J) (key : List ℕ) (array : R)
      → is_packed t ≡ true
      → decode_elements json build printer malloc gprotos decode t s proto protos key array ≡ (
          pb_decode_varint32 s >>? (λ s₁ size.
            decode_packed json build printer malloc gprotos decode size s₁ proto protos key array))
  packed_elements uint32 s proto protos key array p = refl
  packed_elements int32 s proto protos key array p = refl
  packed_elements sint32 s proto protos key array p = refl
  packed_elements float s proto protos key array p = refl
  packed_elements double s proto protos key array p = refl
  packed_elements string s proto protos key array p = absurd cc
  packed_elements message s proto protos key array p = absurd cc

  -- A packed array: the number of its elements, and they.
  pub all-Recovers :
      (protos proto : J) (type key : List ℕ) (vs : List J) (r : R)
      → Known protos
      → text json proto Names.type_key ≡ ok type
      → is_packed (get_type type) ≡ true
      → Recovers limit
          (λ s. pb_decode_array json build printer malloc gprotos decode s proto protos key r)
          (ok (groups 9 (length vs)) ⋄ packed_bytes json malloc gprotos sub protos proto vs)
          (build.put r key (
            append_all json build malloc gprotos mean protos proto key vs
              (elements_so_far json build malloc gprotos (build.get r key))))
  unfolding pb_decode_array
  all-Recovers protos proto type key vs r known q p bytes e h =
      let array : R = elements_so_far json build malloc gprotos (build.get r key) in
      let (x, y, ex, ey, same) =
        seq_parts (ok (groups 9 (length vs))) (packed_bytes json malloc gprotos sub protos proto vs)
          bytes e in
      let count : length vs < 2 ^ 32 = omega (
        arith,
        level.short,
        length-append x y,
        ap length same,
        packed_size json level.widths malloc gprotos sub protos proto vs type y q p ey,
      ) in
      let reads =
        Recovers-seq limit pb_decode_varint32
          (λ s size.
            decode_packed json build printer malloc gprotos decode size s proto protos key array)
          (ok (groups 9 (length vs))) (packed_bytes json malloc gprotos sub protos proto vs)
          (length vs) (append_all json build malloc gprotos mean protos proto key vs array)
          (λ b e' h'.
            subst (λ z. Consumes pb_decode_varint32 z (length vs)) (cc e')
              (Consumes-varint32 (length vs) count))
          (packed-Recovers protos proto key vs array known) bytes e h in
      λ rest n. rw (
        q,
        so_far (build.get r key),
        packed_elements (get_type type) (behind bytes rest n) proto protos key array p,
        reads rest n,
      )

  -- The only element of a field.
  element-Recovers :
      (t : FieldType) (protos proto : J) (key : List ℕ) (v : J) (array : R)
      → Known protos
      → is_packed t ≡ false
      → Recovers limit
          (λ s. decode_elements json build printer malloc gprotos decode t s proto protos key array)
          (proto_bytes json malloc gprotos sub protos proto v)
          (append_one json build malloc gprotos mean t protos proto key v array)
  element-Recovers message protos proto key v array known p bytes e h =
      Consumes-map
        (λ s.
          pb_decode_proto json build printer malloc gprotos decode s proto protos none build.object)
        (λ value. build.append array value) bytes
        (store_proto json build malloc gprotos mean protos proto none v build.object)
        (proto-Recovers json build printer malloc gprotos decode sub mean limit Known level protos
          proto none v build.object known bytes e h)
  element-Recovers string protos proto key v array known p bytes e h =
      proto-Recovers json build printer malloc gprotos decode sub mean limit Known level protos
        proto (some key) v array known bytes e h
  element-Recovers uint32 protos proto key v array known p bytes e h = absurd cc
  element-Recovers int32 protos proto key v array known p bytes e h = absurd cc
  element-Recovers sint32 protos proto key v array known p bytes e h = absurd cc
  element-Recovers float protos proto key v array known p bytes e h = absurd cc
  element-Recovers double protos proto key v array known p bytes e h = absurd cc

  pub one-Recovers :
      (protos proto : J) (type key : List ℕ) (v : J) (r : R)
      → Known protos
      → text json proto Names.type_key ≡ ok type
      → is_packed (get_type type) ≡ false
      → Recovers limit
          (λ s. pb_decode_array json build printer malloc gprotos decode s proto protos key r)
          (proto_bytes json malloc gprotos sub protos proto v)
          (build.put r key (
            append_one json build malloc gprotos mean
              (get_type type)
              protos
              proto
              key
              v
              (elements_so_far json build malloc gprotos (build.get r key))))
  unfolding pb_decode_array
  one-Recovers protos proto type key v r known q p bytes e h =
      let array : R = elements_so_far json build malloc gprotos (build.get r key) in
      λ rest n. rw (
        q,
        so_far (build.get r key),
        element-Recovers (get_type type) protos proto key v array known p bytes e h rest n,
      )
