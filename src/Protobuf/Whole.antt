-- ===== src/Protobuf/Whole.antt =====
-- Messages that fit their schemas, through src/pb-encode.c and src/pb-decode.c and back.
use libpomelo.Common.{
  ℕ, zero, suc, ◌^◌, ◌≤◌, ◌<◌, ◌≡◌, refl, ap, ◌∙◌, Bool, true, false, inl, inr, none, some, List,
  [], ◌∷◌, length, Bool-cases,
}
use libpomelo.Common.Outcome.{ok, ◌>>=◌}
use libpomelo.Protobuf.{FieldType, uint32, int32, sint32, float, double, string, message, get_type}
use libpomelo.Protobuf.Names
use libpomelo.Protobuf.Encode.{Jansson, text, is_packed, pc_pb_encode}
use libpomelo.Protobuf.Decode.{Builder, Printer, pc_pb_decode}
use libpomelo.Protobuf.Reference.{bytes_of}
use libpomelo.Protobuf.Agrees.{Widths}
use libpomelo.Protobuf.Values.{Schemas}
use libpomelo.Protobuf.ReadBack.{pc_pb_decode-encode}
use libpomelo.Protobuf.Meaning.{
  store_proto, append_all, append_one, append_each, store_array, store_member, store_members,
  stored,
}
use libpomelo.Protobuf.Fits.{
  Builds, putting, appending, FitsField, FitAll, FitsArray, FitsMember, FitMembers, Fits,
  store_field-object, store_field-array,
}

module _ {J : Type 0} (json : Jansson J) (build : Builder J) (malloc : ℕ → Bool) (gprotos : J)
    (builds : Builds build) where
  module _ (sub : J → J → Type 0) (mean : J → J → J → J)
      (below : (protos value : J) → sub protos value → mean protos value build.object ≡ value)
      (protos : J) where
    module _ (proto : J) (key type : List ℕ)
        (has_type : text json proto Names.type_key ≡ ok type) where
      append_all-appending :
          (vs : List J) (a : J)
          → is_packed (get_type type) ≡ true
          → build.is_object a ≡ false
          → FitAll json build malloc gprotos sub (get_type type) protos type vs
          → append_all json build malloc gprotos mean protos proto key vs a ≡ appending build vs a
      unfolding append_all appending store_proto
      append_all-appending [] a packed is fit = refl
      append_all-appending (v ∷ vs) a packed is (f, fit) =
          rw
            (
              has_type,
              store_field-array json build malloc gprotos builds sub mean below (get_type type)
                  protos type key v a (inl packed) is f,
            )
            (append_all-appending vs (build.append a v) packed (builds.append_is a v is) fit)

      store_proto-message :
          (v : J)
          → get_type type ≡ message
          → FitsField json build malloc gprotos sub message protos type v
          → store_proto json build malloc gprotos mean protos proto none v build.object ≡ v
      unfolding store_proto
      store_proto-message v same (messages, found, has, found_is, fits) =
          rw (has_type, same, has, found_is) (below found v fits)

      store_proto-string :
          (v a : J)
          → get_type type ≡ string
          → build.is_object a ≡ false
          → FitsField json build malloc gprotos sub string protos type v
          → store_proto json build malloc gprotos mean protos proto (some key) v a
            ≡ build.append a v
      unfolding store_proto
      store_proto-string v a same is f =
          rw (has_type, same)
            (store_field-array json build malloc gprotos builds sub mean below string protos type
              key v a (inr refl) is f)

      append_one-append :
          (t : FieldType) (v a : J)
          → get_type type ≡ t
          → is_packed t ≡ false
          → build.is_object a ≡ false
          → FitsField json build malloc gprotos sub t protos type v
          → append_one json build malloc gprotos mean t protos proto key v a ≡ build.append a v
      append_one-append message v a same loose is f =
          ap (λ w. build.append a w) (store_proto-message v same f)
      append_one-append string v a same loose is f = store_proto-string v a same is f
      append_one-append uint32 v a same loose is f = absurd cc
      append_one-append int32 v a same loose is f = absurd cc
      append_one-append sint32 v a same loose is f = absurd cc
      append_one-append float v a same loose is f = absurd cc
      append_one-append double v a same loose is f = absurd cc

      append_each-put :
          (vs : List J) (r a : J)
          → is_packed (get_type type) ≡ false
          → build.is_object r ≡ true
          → build.is_object a ≡ false
          → FitAll json build malloc gprotos sub (get_type type) protos type vs
          → append_each json build malloc gprotos mean
              (get_type type)
              protos
              proto
              key
              vs
              (build.put r key a)
            ≡ build.put r key (appending build vs a)
      unfolding append_each appending
      append_each-put [] r a loose o is fit = refl
      append_each-put (v ∷ vs) r a loose o is (f, fit) =
          rw
            (
              builds.get_put r key a o,
              append_one-append (get_type type) v a refl loose is f,
              builds.put_put r key a (build.append a v) o,
            )
            (append_each-put vs r (build.append a v) loose o (builds.append_is a v is) fit)

      -- The elements of an array that is not packed, the first of which makes it.
      append_each-whole :
          (vs rest : List J) (v r : J)
          → vs ≡ v ∷ rest
          → is_packed (get_type type) ≡ false
          → build.is_object r ≡ true
          → build.get r key ≡ none
          → FitAll json build malloc gprotos sub (get_type type) protos type vs
          → append_each json build malloc gprotos mean (get_type type) protos proto key vs r
            ≡ build.put r key (appending build vs build.array)
      unfolding append_each appending
      append_each-whole [] rest v r e loose o new fit = absurd cc
      append_each-whole (w ∷ vs) rest v r e loose o new (f, fit) =
          rw (new, append_one-append (get_type type) w build.array refl loose builds.array_is f)
            (append_each-put vs r (build.append build.array w) loose o
              (builds.append_is build.array w builds.array_is) fit)

      store_array-put :
          (value r : J)
          → build.is_object r ≡ true
          → build.get r key ≡ none
          → FitsArray json build malloc gprotos sub (get_type type) protos type value
          → store_array json build malloc gprotos mean protos proto key value r
            ≡ build.put r key value
      unfolding store_array
      store_array-put value r o new f = elim (Bool-cases (is_packed (get_type type))) [
        | inl packed ↦
            rw
              (
                has_type,
                packed,
                new,
                append_all-appending (json.elements value) build.array packed builds.array_is f.fit,
              )
              (ap (λ v. build.put r key v) f.whole)
        | inr loose ↦ elim f.shown [
          | inl packed ↦ absurd cc
          | inr (v, vs, e) ↦
              rw
                (
                  has_type,
                  loose,
                  append_each-whole (json.elements value) vs v r e loose o new f.fit,
                )
                (ap (λ v. build.put r key v) f.whole)
        ]
      ]

    store_member-put :
        (key : List ℕ) (value r : J)
        → build.is_object r ≡ true
        → build.get r key ≡ none
        → FitsMember json build malloc gprotos sub protos key value
        → store_member json build malloc gprotos mean protos
            (json.object_get protos key)
            key
            value
            r
          ≡ build.put r key value
    unfolding store_proto
    store_member-put key value r o new m = elim m.fits [
      | inl (single, f) ↦
          rw (m.defined, m.has_option, single, m.has_type)
            (store_field-object json build malloc gprotos builds sub mean below (get_type m.type)
              protos m.type key value r o f)
      | inr (several, repeats, f) ↦
          rw (m.defined, m.has_option, several, repeats, f.is_list)
            (store_array-put m.proto key m.type m.has_type value r o new f)
    ]

    store_members-putting :
        (members : List (List ℕ × J)) (r : J)
        → build.is_object r ≡ true
        → FitMembers json build malloc gprotos sub protos members r
        → store_members json build malloc gprotos mean protos members r ≡ putting build members r
    unfolding store_members putting
    store_members-putting [] r o fit = refl
    store_members-putting ((key, value) ∷ rest) r o (f, new, fit) =
        rw (store_member-put key value r o new f)
          (store_members-putting rest (build.put r key value) (builds.put_is r key value o) fit)

  pub stored-Fits :
      (depth : ℕ) (protos msg : J)
      → Fits json build malloc gprotos depth protos msg
      → stored json build malloc gprotos depth protos msg build.object ≡ msg
  unfolding stored Fits
  stored-Fits zero protos msg f = absurd f
  stored-Fits (suc depth) protos msg (whole, fit) =
      store_members-putting (Fits json build malloc gprotos depth)
        (stored json build malloc gprotos depth) (λ ps v f. stored-Fits depth ps v f) protos
        (json.members msg) build.object builds.object_is fit
      ∙ whole

-- What `pc_pb_encode` writes for a message that fits its schema, `pc_pb_decode` reads as the same message,
-- with nothing left, whatever its fields are: numbers, texts, messages within it to any depth, and arrays;
-- if its values are of their types, it has no key twice, an array that is not packed is not empty, the
-- description has its bytes and they fit into a buffer of fewer than 2 ^ 32, every allocation succeeds,
-- objects and arrays are built as `json_object_set` and `json_array_append` do, and in its schemas each
-- field has a number from 1 on below 2 ^ 29, under which `__tags` has the name of the field.
pub decode-encode_message :
    {J : Type 0} (json : Jansson J) (build : Builder J) (printer : Printer) (malloc : ℕ → Bool)
    (gprotos : J) (Known : J → Type 0) (depth len : ℕ) (protos msg : J) (bytes : List ℕ)
    → Schemas json printer malloc gprotos Known
    → Widths json
    → Builds build
    → ((n : ℕ) → malloc n ≡ true)
    → Known protos
    → Fits json build malloc gprotos depth protos msg
    → bytes_of json malloc gprotos depth protos msg ≡ ok bytes
    → length bytes ≤ len
    → len < 2 ^ 32
    → (pc_pb_encode json malloc gprotos depth len protos msg
        >>= (λ buf. pc_pb_decode json build printer malloc gprotos buf protos build.object))
      ≡ ok (record { state = []; bytes_left = 0 }, some msg)
decode-encode_message json build printer malloc gprotos Known depth len protos msg bytes schemas
      widths builds granted known fits described room small =
    pc_pb_decode-encode json build printer malloc gprotos Known schemas widths granted depth len
      protos msg bytes build.object known described room small
    ∙ ap (λ z. ok (record { state = []; bytes_left = 0 }, some z))
        (stored-Fits json build malloc gprotos builds depth protos msg fits)
