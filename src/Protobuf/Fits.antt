-- ===== src/Protobuf/Fits.antt =====
-- Messages that fit their schemas, and what src/pb-decode.c stores of their fields.
use libpomelo.Common.{
  ℕ, zero, suc, ◌≡◌, ap, Bool, true, false, ◌||◌, ◌⊎◌, inl, inr, none, some, List, [], ◌∷◌,
}
use libpomelo.Common.Bytes.{same_str}
use libpomelo.Common.Outcome.{ok}
use libpomelo.Protobuf.{FieldType, uint32, int32, sint32, float, double, string, message, get_type}
use libpomelo.Protobuf.Names
use libpomelo.Protobuf.Encode.{Jansson, text, sub_msg, is_packed}
use libpomelo.Protobuf.Decode.{Builder}
use libpomelo.Protobuf.Meaning.{store_field}

-- What `json_object_set` and `json_array_append` do to objects and arrays.
pub record Builds {J : Type 0} (build : Builder J) : Type 0 where
  pub object_is : build.is_object build.object ≡ true
  pub put_is :
      (r : J) (key : List ℕ) (v : J)
      → build.is_object r ≡ true
      → build.is_object (build.put r key v) ≡ true
  pub get_put :
      (r : J) (key : List ℕ) (v : J)
      → build.is_object r ≡ true
      → build.get (build.put r key v) key ≡ some v
  pub put_put :
      (r : J) (key : List ℕ) (v w : J)
      → build.is_object r ≡ true
      → build.put (build.put r key v) key w ≡ build.put r key w
  pub array_is : build.is_object build.array ≡ false
  pub append_is : (a v : J) → build.is_object a ≡ false → build.is_object (build.append a v) ≡ false

module _ {J : Type 0} (build : Builder J) where
  -- An object with these members, and an array with these elements, one after the other.
  unfoldable pub putting : List (List ℕ × J) → J → J
  putting [] r = r
  putting ((key, v) ∷ rest) r = putting rest (build.put r key v)

  unfoldable pub appending : List J → J → J
  appending [] a = a
  appending (v ∷ vs) a = appending vs (build.append a v)

module _ {J : Type 0} (json : Jansson J) (build : Builder J) (malloc : ℕ → Bool) (gprotos : J) where
  module _ (sub : J → J → Type 0) where
    -- The value is one of the type: what is made of its number or text is the value.
    abbrev pub FitsField : FieldType → J → List ℕ → J → Type 0
    FitsField uint32 protos type value = build.integer (json.integer value) ≡ value
    FitsField int32 protos type value = build.integer (json.integer value) ≡ value
    FitsField sint32 protos type value = build.integer (json.integer value) ≡ value
    FitsField float protos type value = build.float_real (json.float_bytes value) ≡ value
    FitsField double protos type value = build.double_real (json.double_bytes value) ≡ value
    FitsField string protos type value =
        (str : List ℕ) × (json.string_value value ≡ some str) × (build.text_value str ≡ some value)
    FitsField message protos type value =
        (messages : J) × (found : J) × (json.object_get protos Names.messages_key ≡ some messages)
        × (sub_msg json malloc gprotos messages type ≡ ok (some found))
        × sub found value

    abbrev pub FitAll : FieldType → J → List ℕ → List J → Type 0
    FitAll t protos type [] = Unit
    FitAll t protos type (v ∷ vs) = FitsField t protos type v × FitAll t protos type vs

    -- The elements of an array that has a field for each, or none if it is empty, are not none.
    pub record FitsArray (t : FieldType) (protos : J) (type : List ℕ) (value : J) : Type 0 where
      pub is_list : json.is_array value ≡ true
      pub fit : FitAll t protos type (json.elements value)
      pub whole : appending build (json.elements value) build.array ≡ value
      pub shown : (is_packed t ≡ true) ⊎ ((v : J) × (vs : List J) × (json.elements value ≡ v ∷ vs))

    pub record FitsMember (protos : J) (key : List ℕ) (value : J) : Type 0 where
      pub proto : J
      pub option : List ℕ
      pub type : List ℕ
      pub defined : json.object_get protos key ≡ some proto
      pub has_option : text json proto Names.option_key ≡ ok option
      pub has_type : text json proto Names.type_key ≡ ok type
      pub fits :
          (((same_str option Names.required || same_str option Names.optional) ≡ true)
            × FitsField (get_type type) protos type value)
          ⊎ (((same_str option Names.required || same_str option Names.optional) ≡ false)
              × (same_str option Names.repeated ≡ true)
              × FitsArray (get_type type) protos type value)

    -- Every member fits, and none has the key of one before it.
    abbrev pub FitMembers : J → List (List ℕ × J) → J → Type 0
    FitMembers protos [] r = Unit
    FitMembers protos ((key, value) ∷ rest) r =
        FitsMember protos key value
        × (build.get r key ≡ none)
        × FitMembers protos rest (build.put r key value)

  -- A message that nests less than `depth` deep, has its members and no other value, and fits.
  unfoldable pub Fits : ℕ → J → J → Type 0
  Fits zero protos msg = ⊥
  Fits (suc depth) protos msg =
      (putting build (json.members msg) build.object ≡ msg)
      × FitMembers (Fits depth) protos (json.members msg) build.object

module _ {J : Type 0} (json : Jansson J) (build : Builder J) (malloc : ℕ → Bool) (gprotos : J)
    (builds : Builds build) (sub : J → J → Type 0) (mean : J → J → J → J)
    (below : (protos value : J) → sub protos value → mean protos value build.object ≡ value) where
  pub store_field-object :
      (t : FieldType) (protos : J) (type key : List ℕ) (value r : J)
      → build.is_object r ≡ true
      → FitsField json build malloc gprotos sub t protos type value
      → store_field json build malloc gprotos mean t protos type (some key) value r
        ≡ build.put r key value
  store_field-object uint32 protos type key value r o f = rw (o, f)
  store_field-object int32 protos type key value r o f = rw (o, f)
  store_field-object sint32 protos type key value r o f = rw (o, f)
  store_field-object float protos type key value r o f = rw (o, f)
  store_field-object double protos type key value r o f = rw (o, f)
  store_field-object string protos type key value r o (str, has_text, made) = rw (has_text, made, o)
  store_field-object message protos type key value r o (messages, found, has, is, fits) =
      rw (has, is) (ap (λ v. build.put r key v) (below found value fits))

  -- An element that is no message.
  pub store_field-array :
      (t : FieldType) (protos : J) (type key : List ℕ) (value a : J)
      → (is_packed t ≡ true) ⊎ (t ≡ string)
      → build.is_object a ≡ false
      → FitsField json build malloc gprotos sub t protos type value
      → store_field json build malloc gprotos mean t protos type (some key) value a
        ≡ build.append a value
  store_field-array uint32 protos type key value a k o f = rw (o, f)
  store_field-array int32 protos type key value a k o f = rw (o, f)
  store_field-array sint32 protos type key value a k o f = rw (o, f)
  store_field-array float protos type key value a k o f = rw (o, f)
  store_field-array double protos type key value a k o f = rw (o, f)
  store_field-array string protos type key value a k o (str, has_text, made) =
      rw (has_text, made, o)
  store_field-array message protos type key value a (inl e) o f = absurd cc
  store_field-array message protos type key value a (inr e) o f = absurd cc
