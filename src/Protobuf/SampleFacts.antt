-- ===== src/Protobuf/SampleFacts.antt =====
-- The fields of the schemas of the sample, and their numbers.
use libpomelo.Common.{
  ◌++◌, ℕ, ◌≡◌, refl, sym, subst, Bool, true, none, some, List, Bool-cases, ◌⊎◌, inl, inr, arith,
}
use libpomelo.Common.Bytes.{same_str, same_str→eq}
use libpomelo.Common.Outcome.{ok}
use libpomelo.Protobuf.Names
use libpomelo.Protobuf.Encode.{text, number_or_zero, sub_msg}
use libpomelo.Protobuf.Values.{IsNumbered, Schemas}
use libpomelo.Protobuf.Sample.{
  Value, object, str, Fields, field, end, get, lookup, values, digits, schema, hero, tags, tag_one,
  definition, name_key, hero_key, hp_key, bag_key,
}

abbrev pub plenty : ℕ → Bool
plenty n = true

-- The schemas of the sample.
abbrev pub Sampled : Value → Type 0
Sampled p = (p ≡ schema) ⊎ (p ≡ hero)

lookup_cases :
    (key k : List ℕ) (v w : Value) (rest : Fields)
    → lookup key (field k v rest) ≡ some w
    → ((k ≡ key) × (v ≡ w)) ⊎ (lookup key rest ≡ some w)
lookup_cases key k v w rest e = elim (Bool-cases (same_str k key)) [
  | inl same ↦ inl (same_str→eq k key same, cc (rw same at e))
  | inr other ↦ inr (rw other at e)
]

abbrev number : Value → ℕ
number proto = number_or_zero values (values.object_get proto Names.tag_key)

-- Where a field of a schema is found, it is one that is numbered, or one without a type.
Numbers : Value → Fields → List ℕ → Type 0
Numbers protos fs key =
    (proto : Value) (type : List ℕ)
    → lookup key fs ≡ some proto
    → text values proto Names.type_key ≡ ok type
    → IsNumbered values digits protos key (number proto)

Numbers-end : (protos : Value) (key : List ℕ) → Numbers protos end key
unfolding Numbers
Numbers-end protos key proto type e h = absurd cc

Numbers-field :
    (protos : Value) (key k : List ℕ) (v : Value) (rest : Fields)
    → IsNumbered values digits protos k (number v)
    → Numbers protos rest key
    → Numbers protos (field k v rest) key
unfolding Numbers
Numbers-field protos key k v rest numbered others proto type e h =
    elim (lookup_cases key k v proto rest e) [
      | inl (same_key, same) ↦
          subst (λ p. IsNumbered values digits protos key (number p)) same
            (subst (λ z. IsNumbered values digits protos z (number v)) same_key numbered)
      | inr later ↦ others proto type later h
    ]

Numbers-untyped :
    (protos : Value) (key k : List ℕ) (v : Value) (rest : Fields)
    → values.object_get v Names.type_key ≡ none
    → Numbers protos rest key
    → Numbers protos (field k v rest) key
unfolding Numbers
Numbers-untyped protos key k v rest untyped others proto type e h =
    elim (lookup_cases key k v proto rest e) [
      | inl (same_key, same) ↦ absurd (
          let u : values.object_get proto Names.type_key ≡ none =
            subst (λ p. values.object_get p Names.type_key ≡ none) same untyped in
          (let impossible = rw u at h in cc))
      | inr later ↦ others proto type later h
    ]

abbrev fields_in : Value → Fields
fields_in (object fs) = fs
fields_in _ = end

schema-Numbers : (key : List ℕ) → Numbers schema (fields_in schema) key
schema-Numbers key =
    Numbers-field schema key name_key (definition Names.required Names.string 1) _
      (omega arith, omega arith, (object tags, refl, (str name_key, refl, refl)))
      (Numbers-field schema key hero_key (definition Names.optional hero_key 2) _
        (omega arith, omega arith, (object tags, refl, (str hero_key, refl, refl)))
        (Numbers-field schema key bag_key (definition Names.repeated Names.uint32 3) _
          (omega arith, omega arith, (object tags, refl, (str bag_key, refl, refl)))
          (Numbers-untyped schema key Names.messages_key (object (field hero_key hero end)) _ refl (
            Numbers-untyped schema key Names.tags_key (object tags) end refl
              (Numbers-end schema key)))))

hero-Numbers : (key : List ℕ) → Numbers hero (fields_in hero) key
hero-Numbers key =
    Numbers-field hero key hp_key (definition Names.required Names.uint32 1) _
      (
        omega arith,
        omega arith,
        (object (field tag_one (str hp_key) end), refl, (str hp_key, refl, refl)),
      )
      (Numbers-untyped hero key Names.tags_key (object (field tag_one (str hp_key) end)) end refl
        (Numbers-end hero key))

-- The messages of the schema are those of "hero".
hero_only :
    (gprotos : Value) (type : List ℕ) (found : Value)
    → get gprotos (Names.message_head ++ type) ≡ none
    → sub_msg values plenty gprotos (object (field hero_key hero end)) type ≡ ok (some found)
    → hero ≡ found
hero_only gprotos type found no_root e = elim (Bool-cases (same_str hero_key type)) [
  | inl same ↦ cc (rw same at e)
  | inr other ↦ absurd (let impossible = rw (other, no_root) at e in cc)
]

-- With definitions that have no message at their root.
pub sample-Schemas :
    (gprotos : Value)
    → ((type : List ℕ) → get gprotos (Names.message_head ++ type) ≡ none)
    → Schemas values digits plenty gprotos Sampled
unfolding Numbers
sample-Schemas gprotos no_root = record {
  numbered = λ protos proto key type option known found typed named. elim known [
    | inl e ↦
        subst (λ p. IsNumbered values digits p key (number proto)) (sym e)
          (schema-Numbers key proto type (subst (λ p. get p key ≡ some proto) e found) typed)
    | inr e ↦
        subst (λ p. IsNumbered values digits p key (number proto)) (sym e)
          (hero-Numbers key proto type (subst (λ p. get p key ≡ some proto) e found) typed)
  ];
  inner = λ protos messages found type known has_messages e. elim known [
    | inl is ↦
        let q : values.object_get schema Names.messages_key ≡ some messages =
          subst (λ p. get p Names.messages_key ≡ some messages) is has_messages in
        let same : object (field hero_key hero end) ≡ messages = cc q in
        inr (
          sym (
            hero_only gprotos type found (no_root type)
              (subst (λ m. sub_msg values plenty gprotos m type ≡ ok (some found)) (sym same) e)))
    | inr is ↦ absurd (
        let q : values.object_get hero Names.messages_key ≡ some messages =
          subst (λ p. get p Names.messages_key ≡ some messages) is has_messages in
        cc)
  ];
}
