-- ===== src/Protobuf/Strings.antt =====
-- The strings of a message, and the part of it that a message inside takes: src/pb-decode.c.
use libpomelo.Common.{
  ℕ, ◌+◌, ◌-◌, ◌%◌, ◌^◌, ◌≤◌, ◌≡◌, refl, Bool, true, Option, none, some, List, ◌++◌, ltb, length,
  arith, Bool-cases, inl, inr,
}
use libpomelo.Common.Groups.{groups}
use libpomelo.Common.Outcome.{Outcome, ok, err, fault, stuck, ◌>>=◌}
use libpomelo.Protobuf.Names
use libpomelo.Protobuf.Input.{
  Istream, Reads, pb_read, pb_decode_varint32, pb_decode_string, pb_close_string_substream,
}
use libpomelo.Protobuf.Encode.{Jansson, text, text_of, found_or_root}
use libpomelo.Protobuf.Decode.{Builder, decode_text}
use libpomelo.Protobuf.Bounds.{
  Ends, Left, Ends-then, Ends-if, Ends-defined, pb_read-Ends, pb_decode_varint32-Ends,
}
use libpomelo.Protobuf.Varint.{pb_decode_varint32-groups}

abbrev pub Any : {A : Type 0} → Istream → A → Type 0
Any s a = Unit

-- A computation that is no reading, before one.
abbrev pub Returns : {A : Type 0} → Outcome A → Type 0
Returns stuck = ⊥
Returns _ = Unit

pub Ends-after :
    {A B : Type 0} (P : Istream → B → Type 0) (m : Outcome A) (f : A → Reads B)
    → Returns m
    → ((a : A) → Ends P (f a))
    → Ends P (m >>= f)
Ends-after P (ok a) f r q = q a
Ends-after P err f r q = tt
Ends-after P fault f r q = tt
Ends-after P stuck f r q = r

module _ {J : Type 0} (json : Jansson J) where
  pub text_of-Returns : (value : Option J) → Returns (text_of json value)
  text_of-Returns none = tt
  text_of-Returns (some value) =
      elim (json.string_value value)
        as (λ t. Returns (elim t [ none ↦ fault | some text ↦ ok text ])) [
          | none ↦ tt
          | some text ↦ tt
        ]

  pub found_or_root-Returns :
      (malloc : ℕ → Bool) (gprotos : J) (found : Option J) (type : List ℕ)
      → Returns (found_or_root json malloc gprotos found type)
  found_or_root-Returns malloc gprotos (some found) type = tt
  found_or_root-Returns malloc gprotos none type =
      elim (Bool-cases (malloc (length Names.message_head + length type + 1))) [
        | inl e ↦ rw e tt
        | inr e ↦ rw e tt
      ]

pub close-Ends :
    {R : Type 0} (n : ℕ) (s₁ : Istream) (m : Reads R)
    → s₁.bytes_left ≤ n
    → Ends Any m
    → Ends (Left 0 n) (m >>= (λ (sub, result). ok (pb_close_string_substream s₁ sub, result)))
close-Ends n s₁ (ok (sub, some r)) h e = omega arith
close-Ends n s₁ (ok (sub, none)) h e = tt
close-Ends n s₁ err h e = tt
close-Ends n s₁ fault h e = tt
close-Ends n s₁ stuck h e = e

pub decode_text-Ends :
    {R : Type 0} (build : Builder R) (malloc : ℕ → Bool) (n : ℕ) (s : Istream) (result : R)
    (key : Option (List ℕ))
    → s.bytes_left ≤ n
    → Ends (Left 0 n) (decode_text build malloc s result key)
unfolding decode_text
decode_text-Ends build malloc n s result key h =
    Ends-then (Left 1 n) (Left 0 n) (pb_decode_varint32 s) _ (pb_decode_varint32-Ends n s h)
      (λ s₁ len below.
        Ends-if (Left 0 n) (malloc ((len + 1) % 2 ^ 32)) _ _
          (Ends-then (Left len n) (Left 0 n) (pb_decode_string s₁ ((len + 1) % 2 ^ 32) len) _
            (Ends-defined (Left len n) (ltb len ((len + 1) % 2 ^ 32)) (pb_read s₁ len)
              (pb_read-Ends n s₁ len (omega arith)))
            (λ s₂ str below₂. omega arith))
          tt)

-- A string field of the length 2 ^ 32 - 1 makes the decoder allocate 0 bytes and store a 0 behind
-- 2 ^ 32 - 1 of them: the length and 1 are added as numbers of 32 bits. No byte of the string need be
-- there.
pub decode_text-overflow :
    {R : Type 0} (build : Builder R) (malloc : ℕ → Bool) (n : ℕ) (rest : List ℕ) (result : R)
    (key : Option (List ℕ))
    → malloc 0 ≡ true
    → decode_text build malloc
        (record {
          state = groups 9 (2 ^ 32 - 1) ++ rest;
          bytes_left = length (groups 9 (2 ^ 32 - 1)) + n;
        })
        result
        key
      ≡ fault
unfolding decode_text
decode_text-overflow build malloc n rest result key granted = rw (
  pb_decode_varint32-groups (2 ^ 32 - 1) (length (groups 9 (2 ^ 32 - 1)) + n) n rest (omega arith)
      refl,
  granted,
)
