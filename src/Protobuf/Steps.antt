-- ===== src/Protobuf/Steps.antt =====
-- The loop of src/pb-decode.c: the fields that it reads, one after the other.
use libpomelo.Common.{
  ℕ, zero, suc, ◌+◌, ◌*◌, ◌/◌, ◌%◌, ◌^◌, ◌≤◌, ◌<◌, ◌≡◌, ◌∙◌, some, List, [], ◌++◌, length, arith,
  length-append, ==_false, Bool,
}
use libpomelo.Common.Groups.{groups, length-groups}
use libpomelo.Common.Outcome.{ok}
use libpomelo.Protobuf.{get_constant_type}
use libpomelo.Protobuf.Names
use libpomelo.Protobuf.Input.{pb_decode_tag, tag}
use libpomelo.Protobuf.Encode.{Jansson, text, number_or_zero}
use libpomelo.Protobuf.Decode.{Builder, Printer, pb_decode, decode_option}
use libpomelo.Protobuf.Agrees.{constant_type_small}
use libpomelo.Protobuf.Consumes.{behind, behind-append, Consumes, Consumes-varint32}
use libpomelo.Protobuf.Values.{IsNumbered}

-- The bytes of the head of a field are read as its number and its wire type.
pub pb_decode_tag-groups :
    (w field n : ℕ) (rest : List ℕ)
    → w < 8
    → 0 < field
    → field < 2 ^ 29
    → pb_decode_tag (behind (groups 9 (w + field % 2 ^ 29 * 8)) rest n)
      ≡ ok (record { state = rest; bytes_left = n }, tag field w)
unfolding pb_decode_tag
pb_decode_tag-groups w field n rest small pos below =
    let value : ℕ = w + field % 2 ^ 29 * 8 in
    let high : value / 8 ≡ field = omega arith in
    let low : value % 8 ≡ w = omega arith in
    rw (
      Consumes-varint32 value (omega arith) rest n,
      ==_false value 0 (λ e. absurd (omega arith)),
      high,
      low,
    )

module _ {J R : Type 0} (json : Jansson J) (build : Builder R) (printer : Printer)
    (malloc : ℕ → Bool) (gprotos protos : J) where
  -- The loop takes the bytes, changes the result and goes on behind them with fuel for what is left.
  abbrev pub Steps : List ℕ → (R → R) → Type 0
  Steps bytes g =
      (fuel n : ℕ) (rest : List ℕ) (r : R)
      → length bytes + n ≤ fuel
      → (fuel₁ : ℕ) × (n ≤ fuel₁)
        × (pb_decode json build printer malloc gprotos fuel (behind bytes rest n) protos r
            ≡ pb_decode json build printer malloc gprotos fuel₁
                (record { state = rest; bytes_left = n }) protos (g r))

  pub Steps-nothing : Steps [] (λ r. r)
  Steps-nothing fuel n rest r h = let z : 0 + n ≡ n = omega arith in (fuel, omega arith, rw z)

  pub Steps-then :
      (as' bs : List ℕ) (g h : R → R) → Steps as' g → Steps bs h → Steps (as' ++ bs) (λ r. h (g r))
  Steps-then as' bs g h first second fuel n rest r enough =
      let size = length-append as' bs in
      let (fuel₁, enough₁, e₁) =
        first fuel (length bs + n) (bs ++ rest) r (omega (arith, length-append as' bs)) in
      let (fuel₂, enough₂, e₂) = second fuel₁ n rest (g r) enough₁ in
      (fuel₂, enough₂, rw (behind-append as' bs rest n) (e₁ ∙ e₂))

  -- A field whose value is read as `g` says.
  pub Steps-field :
      (proto : J) (key type option : List ℕ) (value : List ℕ) (g : R → R)
      → IsNumbered json printer protos key
          (number_or_zero json (json.object_get proto Names.tag_key))
      → json.object_get protos key ≡ some proto
      → text json proto Names.option_key ≡ ok option
      → ((fuel : ℕ) (r : R)
          → length value ≤ fuel
          → Consumes
              (λ s.
                decode_option json build printer malloc gprotos
                  (pb_decode json build printer malloc gprotos fuel)
                  option
                  s
                  proto
                  protos
                  key
                  r)
              value
              (g r))
      → Steps
          (groups 9 (
              get_constant_type type
              + number_or_zero json (json.object_get proto Names.tag_key) % 2 ^ 29 * 8)
            ++ value)
          g
  unfolding pb_decode
  Steps-field proto key type option value g numbered defined named reads zero n rest r enough =
      absurd (
        omega (
          arith,
          length-append
              (groups 9 (
                get_constant_type type
                + number_or_zero json (json.object_get proto Names.tag_key) % 2 ^ 29 * 8))
              value,
          length-groups 9 (
              get_constant_type type
              + number_or_zero json (json.object_get proto Names.tag_key) % 2 ^ 29 * 8),
        ))
  Steps-field proto key type option value g numbered defined named reads (suc fuel) n rest r
        enough =
      let number : ℕ = number_or_zero json (json.object_get proto Names.tag_key) in
      let (pos, below, (tags, has_tags, (name, has_name, name_is))) = numbered in
      let head : List ℕ = groups 9 (get_constant_type type + number % 2 ^ 29 * 8) in
      let some_bytes = length-groups 9 (get_constant_type type + number % 2 ^ 29 * 8) in
      let total = length-append head value in
      (
        fuel,
        omega arith,
        rw (
          ==_false (length (head ++ value) + n) 0 (λ e. absurd (omega arith)),
          behind-append head value rest n,
          pb_decode_tag-groups (get_constant_type type) number (length value + n) (value ++ rest)
              (constant_type_small type) pos below,
          has_tags,
          has_name,
          name_is,
          defined,
          named,
          reads fuel r (omega arith) rest n,
        ),
      )
