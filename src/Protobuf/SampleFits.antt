-- ===== src/Protobuf/SampleFits.antt =====
-- How the values of the sample are built, and the player against its schema.
use libpomelo.Common.{[], ◌∷◌, ◌≡◌, refl, ap, true, false, some, List, ℕ, Bool-cases, inl, inr}
use libpomelo.Common.Bytes.{same_str, same_str_refl}
use libpomelo.Protobuf.{get_type}
use libpomelo.Protobuf.Names
use libpomelo.Protobuf.Fits.{Builds, putting, appending, FitsMember, Fits}
use libpomelo.Protobuf.Sample.{
  Value, object, array, str, num, Fields, field, end, lookup, values, built, put_field, is_fields,
  schema, hero, player, definition, hero_key, hp_key,
}
use libpomelo.Protobuf.SampleFacts.{plenty}

lookup-put_field :
    (fs : Fields) (key : List ℕ) (v : Value) → lookup key (put_field fs key v) ≡ some v
lookup-put_field end key v = rw (same_str_refl key)
lookup-put_field (field k w rest) key v = elim (Bool-cases (same_str k key)) [
  | inl same ↦ rw (same, same)
  | inr other ↦ rw (other, other) (lookup-put_field rest key v)
]

put_field-twice :
    (fs : Fields) (key : List ℕ) (v w : Value)
    → put_field (put_field fs key v) key w ≡ put_field fs key w
put_field-twice end key v w = rw (same_str_refl key)
put_field-twice (field k u rest) key v w = elim (Bool-cases (same_str k key)) [
  | inl same ↦ rw (same, same)
  | inr other ↦ rw (other, other) (ap (λ r. field k u r) (put_field-twice rest key v w))
]

put_is :
    (r : Value) (key : List ℕ) (v : Value)
    → is_fields r ≡ true
    → is_fields (built.put r key v) ≡ true
put_is (object fs) key v e = refl
put_is (array vs) key v e = cc
put_is (str s) key v e = cc
put_is (num n) key v e = cc

get_put :
    (r : Value) (key : List ℕ) (v : Value)
    → is_fields r ≡ true
    → built.get (built.put r key v) key ≡ some v
get_put (object fs) key v e = lookup-put_field fs key v
get_put (array vs) key v e = absurd cc
get_put (str s) key v e = absurd cc
get_put (num n) key v e = absurd cc

put_put :
    (r : Value) (key : List ℕ) (v w : Value)
    → is_fields r ≡ true
    → built.put (built.put r key v) key w ≡ built.put r key w
put_put (object fs) key v w e = ap object (put_field-twice fs key v w)
put_put (array vs) key v w e = absurd cc
put_put (str s) key v w e = absurd cc
put_put (num n) key v w e = absurd cc

append_is : (a v : Value) → is_fields a ≡ false → is_fields (built.append a v) ≡ false
append_is (object fs) v e = cc
append_is (array vs) v e = refl
append_is (str s) v e = refl
append_is (num n) v e = refl

pub built-Builds : Builds built
built-Builds = record {
  object_is = refl;
  put_is = put_is;
  get_put = get_put;
  put_put = put_put;
  array_is = refl;
  append_is = append_is;
}

hero-Fits :
    (gprotos : Value)
    → FitsMember values built plenty gprotos
        (Fits values built plenty gprotos 0)
        hero
        hp_key
        (num 300)
unfolding get_type
hero-Fits gprotos = record {
  proto = definition Names.required Names.uint32 1;
  option = Names.required;
  type = Names.uint32;
  defined = refl;
  has_option = refl;
  has_type = refl;
  fits = inl (refl, refl);
}

-- With any definitions at the root.
pub player-Fits : (gprotos : Value) → Fits values built plenty gprotos 2 schema player
unfolding Fits putting appending get_type
player-Fits gprotos = (
  refl,
  (
    record {
      proto = definition Names.required Names.string 1;
      option = Names.required;
      type = Names.string;
      defined = refl;
      has_option = refl;
      has_type = refl;
      fits = inl (refl, (97 ∷ 98 ∷ [], refl, refl));
    },
    refl,
    (
      record {
        proto = definition Names.optional hero_key 2;
        option = Names.optional;
        type = hero_key;
        defined = refl;
        has_option = refl;
        has_type = refl;
        fits = inl (
          refl,
          (
            object (field hero_key hero end),
            hero,
            refl,
            refl,
            (refl, (hero-Fits gprotos, refl, tt)),
          ),
        );
      },
      refl,
      (
        record {
          proto = definition Names.repeated Names.uint32 3;
          option = Names.repeated;
          type = Names.uint32;
          defined = refl;
          has_option = refl;
          has_type = refl;
          fits = inr (
            refl,
            refl,
            record { is_list = refl; fit = (refl, (refl, tt)); whole = refl; shown = inl refl },
          );
        },
        refl,
        tt,
      ),
    ),
  ),
)
