-- ===== src/Protobuf/Values.antt =====
-- The values of fields: what src/pb-decode.c reads of what src/pb-encode.c wrote for one.
use libpomelo.Common.{
  ℕ, ◌^◌, ◌≤◌, ◌<◌, ◌≡◌, refl, ap, ◌∙◌, subst, Bool, true, Option, none, some, List, [], ◌++◌,
  length, ltb-true, ltb-false, lt_or_le, inl, inr, arith, length-append,
}
use libpomelo.Common.Groups.{groups}
use libpomelo.Common.Outcome.{Outcome, ok, err, fault, stuck, ◌>>=◌}
use libpomelo.Protobuf.{FieldType, uint32, int32, sint32, float, double, string, message, get_type}
use libpomelo.Protobuf.Names
use libpomelo.Protobuf.Input.{
  Istream, Reads, ◌>>?◌, pb_decode_varint, pb_decode_svarint, pb_decode_fixed32, pb_decode_fixed64,
}
use libpomelo.Protobuf.Encode.{Jansson, text, sub_msg, number_or_zero}
use libpomelo.Protobuf.Decode.{
  Builder, Printer, put_value, put_text, decode_text, pb_decode_submessage, decode_found,
  decode_message, decode_field, pb_decode_proto,
}
use libpomelo.Protobuf.Reference.{
  prefixed, str_bytes, found_bytes, message_bytes, field_bytes, proto_bytes,
}
use libpomelo.Protobuf.Meaning.{
  on_ok, into_message, store_message, store_text, store_field, store_proto,
}
use libpomelo.Protobuf.Agrees.{Widths}
use libpomelo.Protobuf.Consumes.{
  Consumes, Consumes-nothing, Consumes-map, Consumes-varint, Consumes-svarint, Consumes-fixed,
  Consumes-text, Consumes-submessage,
}

-- Where the description has bytes, `limit` of them at most, the part of the code reads them as the value.
abbrev pub Recovers : {R : Type 0} → ℕ → (Istream → Reads R) → Outcome (List ℕ) → R → Type 0
Recovers limit f g r = (bytes : List ℕ) → g ≡ ok bytes → length bytes ≤ limit → Consumes f bytes r

pub Recovers-ok :
    {R : Type 0} (limit : ℕ) (f : Istream → Reads R) (bytes : List ℕ) (r : R)
    → Consumes f bytes r
    → Recovers limit f (ok bytes) r
Recovers-ok limit f bytes r c b e h =
    let same : bytes ≡ b = cc e in subst (λ z. Consumes f z r) same c

pub Recovers-bind :
    {A R : Type 0} (limit : ℕ) (m : Outcome A) (f : A → Istream → Reads R)
    (g : A → Outcome (List ℕ)) (r : R) (h : A → R)
    → ((a : A) → m ≡ ok a → Recovers limit (f a) (g a) (h a))
    → Recovers limit (λ s. m >>= (λ a. f a s)) (m >>= g) (on_ok m r h)
Recovers-bind limit (ok a) f g r h recovers = recovers a refl
Recovers-bind limit err f g r h recovers = λ b e. absurd cc
Recovers-bind limit fault f g r h recovers = λ b e. absurd cc
Recovers-bind limit stuck f g r h recovers = λ b e. absurd cc

-- The field `key` has a number that `pb_encode_tag` writes whole, and `__tags` has its name under it.
abbrev pub IsNumbered : {J : Type 0} → Jansson J → Printer → J → List ℕ → ℕ → Type 0
IsNumbered {J} json printer protos key n =
    (0 < n)
    × (n < 2 ^ 29)
    × ((tags : J) × (json.object_get protos Names.tags_key ≡ some tags)
        × ((name : J) × (json.object_get tags (printer.decimal n) ≡ some name)
            × (json.string_value name ≡ some key)))

-- Schemas whose fields are numbered, with those of the messages within.
pub record Schemas {J : Type 0} (json : Jansson J) (printer : Printer) (malloc : ℕ → Bool)
    (gprotos : J) (Known : J → Type 0) : Type 0 where
  pub numbered :
      (protos proto : J) (key type option : List ℕ)
      → Known protos
      → json.object_get protos key ≡ some proto
      → text json proto Names.type_key ≡ ok type
      → text json proto Names.option_key ≡ ok option
      → IsNumbered json printer protos key
          (number_or_zero json (json.object_get proto Names.tag_key))
  pub inner :
      (protos messages found : J) (type : List ℕ)
      → Known protos
      → json.object_get protos Names.messages_key ≡ some messages
      → sub_msg json malloc gprotos messages type ≡ ok (some found)
      → Known found

Recovers-prefixed :
    {R : Type 0} (limit : ℕ) (f : Istream → Reads R) (g : Outcome (List ℕ)) (r : R)
    → ((bytes : List ℕ) → g ≡ ok bytes → length bytes ≤ limit → Consumes f (prefixed bytes) r)
    → Recovers limit f (g >>= (λ bytes. ok (prefixed bytes))) r
Recovers-prefixed limit f (ok bytes) r c b e h =
    let same : prefixed bytes ≡ b = cc e in
    subst (λ z. Consumes f z r) same
      (c bytes refl (omega (arith, length-append (groups 9 (length bytes)) bytes, ap length same)))
Recovers-prefixed limit f err r c b e h = absurd cc
Recovers-prefixed limit f fault r c b e h = absurd cc
Recovers-prefixed limit f stuck r c b e h = absurd cc

-- A level of messages: the decoder of the messages below it, their bytes and what they stand for, and
-- that it reads messages of `limit` bytes at most, whatever follows.
pub record Level {J R : Type 0} (json : Jansson J) (build : Builder R) (printer : Printer)
    (malloc : ℕ → Bool) (gprotos : J) (decode : Istream → J → R → Reads R)
    (sub : J → J → Outcome (List ℕ)) (mean : J → J → R → R) (limit : ℕ) (Known : J → Type 0)
    : Type 0 where
  pub widths : Widths json
  pub schemas : Schemas json printer malloc gprotos Known
  pub granted : (n : ℕ) → malloc n ≡ true
  pub short : limit < 2 ^ 32
  pub below :
      (protos value : J) (bytes : List ℕ)
      → Known protos
      → sub protos value ≡ ok bytes
      → length bytes ≤ limit
      → (rest : List ℕ) (r : R)
      → decode (record { state = bytes ++ rest; bytes_left = length bytes }) protos r
        ≡ ok (record { state = rest; bytes_left = 0 }, some (mean protos value r))

module _ {J R : Type 0} (json : Jansson J) (build : Builder R) (printer : Printer)
    (malloc : ℕ → Bool) (gprotos : J) (decode : Istream → J → R → Reads R)
    (sub : J → J → Outcome (List ℕ)) (mean : J → J → R → R) (limit : ℕ) (Known : J → Type 0)
    (level : Level json build printer malloc gprotos decode sub mean limit Known) where
  submessage-Recovers :
      (protos value : J) (r : R)
      → Known protos
      → Recovers limit
          (λ s. pb_decode_submessage json build printer malloc gprotos decode s protos r)
          (sub protos value >>= (λ bytes. ok (prefixed bytes)))
          (mean protos value r)
  unfolding pb_decode_submessage
  submessage-Recovers protos value r known =
      Recovers-prefixed limit
        (λ s. pb_decode_submessage json build printer malloc gprotos decode s protos r)
        (sub protos value) (mean protos value r)
        (λ bytes e h.
          Consumes-submessage (λ s. decode s protos r) bytes (mean protos value r)
            (omega (arith, level.short)) (λ rest. level.below protos value bytes known e h rest r))

  found-Recovers :
      (found : Option J) (key : Option (List ℕ)) (value : J) (result : R)
      → ((protos : J) → found ≡ some protos → Known protos)
      → Recovers limit
          (λ s. decode_found json build printer malloc gprotos decode s found key result)
          (found_bytes json malloc gprotos sub value found)
          (into_message json build malloc gprotos mean found key value result)
  found-Recovers none key value result known = λ b e. absurd cc
  found-Recovers (some protos) none value result known =
      submessage-Recovers protos value result (known protos refl)
  found-Recovers (some protos) (some key) value result known = λ b e h.
      Consumes-map
        (λ s. pb_decode_submessage json build printer malloc gprotos decode s protos build.object)
        (λ v. build.put result key v) b (mean protos value build.object)
        (submessage-Recovers protos value build.object (known protos refl) b e h)

  message-Recovers :
      (protos : J) (messages : Option J) (type : List ℕ) (key : Option (List ℕ)) (value : J)
      (result : R)
      → Known protos
      → json.object_get protos Names.messages_key ≡ messages
      → Recovers limit
          (λ s. decode_message json build printer malloc gprotos decode s messages type key result)
          (message_bytes json malloc gprotos sub messages type value)
          (store_message json build malloc gprotos mean messages type key value result)
  message-Recovers protos none type key value result known e =
      Recovers-ok limit (λ s. ok (s, some result)) [] result (Consumes-nothing result)
  message-Recovers protos (some messages) type key value result known e =
      Recovers-bind limit (sub_msg json malloc gprotos messages type)
        (λ found s. decode_found json build printer malloc gprotos decode s found key result)
        (found_bytes json malloc gprotos sub value) result
        (λ found. into_message json build malloc gprotos mean found key value result)
        (λ found e'.
          found-Recovers found key value result
            (λ p q. level.schemas.inner protos messages p type known e (e' ∙ ap ok q)))

  text-Recovers :
      (str : Option (List ℕ)) (key : Option (List ℕ)) (result : R)
      → Recovers limit
          (λ s. decode_text build malloc s result key)
          (str_bytes json str)
          (store_text json build malloc gprotos mean str key result)
  text-Recovers none key result = λ b e. absurd cc
  text-Recovers (some str) key result = elim (lt_or_le (length str) (2 ^ 31)) [
    | inl small ↦ rw (ltb-true (length str) (2 ^ 31) small) (
        Recovers-ok limit (λ s. decode_text build malloc s result key) (prefixed str)
          (put_text build result key (build.text_value str))
          (Consumes-text build malloc result key str level.granted small))
    | inr large ↦ rw (ltb-false (length str) (2 ^ 31) large) (λ b e. absurd cc)
  ]

  -- A value that `read` reads is stored.
  stored-Recovers :
      {A : Type 0} (read : Istream → Reads A) (make : A → R) (bytes : List ℕ) (a : A)
      (key : Option (List ℕ)) (result : R)
      → Consumes read bytes a
      → Recovers limit
          (λ s. read s >>? (λ s₁ v. ok (s₁, some (put_value build result key (make v)))))
          (ok bytes)
          (put_value build result key (make a))
  stored-Recovers read make bytes a key result c =
      Recovers-ok limit
        (λ s. read s >>? (λ s₁ v. ok (s₁, some (put_value build result key (make v))))) bytes
        (put_value build result key (make a))
        (Consumes-map read (λ v. put_value build result key (make v)) bytes a c)

  field-Recovers :
      (t : FieldType) (protos : J) (type : List ℕ) (key : Option (List ℕ)) (value : J) (result : R)
      → Known protos
      → Recovers limit
          (λ s. decode_field json build printer malloc gprotos decode t s protos type key result)
          (field_bytes json malloc gprotos sub t protos type value)
          (store_field json build malloc gprotos mean t protos type key value result)
  field-Recovers uint32 protos type key value result known =
      stored-Recovers pb_decode_varint build.integer _ (json.integer value) key result
        (Consumes-varint (json.integer value) (level.widths.integer_width value))
  field-Recovers int32 protos type key value result known =
      stored-Recovers pb_decode_svarint build.integer _ (json.integer value) key result
        (Consumes-svarint (json.integer value) (level.widths.integer_width value))
  field-Recovers sint32 protos type key value result known =
      stored-Recovers pb_decode_svarint build.integer _ (json.integer value) key result
        (Consumes-svarint (json.integer value) (level.widths.integer_width value))
  field-Recovers float protos type key value result known =
      stored-Recovers pb_decode_fixed32 build.float_real _ (json.float_bytes value) key result
        (Consumes-fixed 4 (json.float_bytes value) (level.widths.float_width value))
  field-Recovers double protos type key value result known =
      stored-Recovers pb_decode_fixed64 build.double_real _ (json.double_bytes value) key result
        (Consumes-fixed 8 (json.double_bytes value) (level.widths.double_width value))
  field-Recovers string protos type key value result known =
      text-Recovers (json.string_value value) key result
  field-Recovers message protos type key value result known =
      message-Recovers protos (json.object_get protos Names.messages_key) type key value result
        known refl

  pub proto-Recovers :
      (protos proto : J) (key : Option (List ℕ)) (value : J) (result : R)
      → Known protos
      → Recovers limit
          (λ s. pb_decode_proto json build printer malloc gprotos decode s proto protos key result)
          (proto_bytes json malloc gprotos sub protos proto value)
          (store_proto json build malloc gprotos mean protos proto key value result)
  unfolding pb_decode_proto proto_bytes store_proto
  proto-Recovers protos proto key value result known =
      Recovers-bind limit (text json proto Names.type_key)
        (λ type s.
          decode_field json build printer malloc gprotos decode (get_type type) s protos type key
            result)
        (λ type. field_bytes json malloc gprotos sub (get_type type) protos type value) result
        (λ type.
          store_field json build malloc gprotos mean (get_type type) protos type key value result)
        (λ type e. field-Recovers (get_type type) protos type key value result known)
