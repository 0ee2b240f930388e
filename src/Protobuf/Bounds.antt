-- ===== src/Protobuf/Bounds.antt =====
-- How far the functions of src/pb-decode.c read, which bounds the loops and the depth of messages.
use libpomelo.Common.{
  ℕ, zero, suc, ◌+◌, ◌*◌, ◌/◌, ◌%◌, ◌≤◌, Bool, true, false, Option, none, some, ltb, leb, ◌==◌,
  if◌then◌else◌, length, arith, Bool-cases, inl, inr, lt_or_le, ltb-true, ltb-false,
}
use libpomelo.Common.Outcome.{Outcome, ok, err, fault, stuck, ◌>>=◌, defined}
use libpomelo.Protobuf.Input.{
  Istream, Reads, ◌>>?◌, pb_read, first_byte, read_varint, pb_decode_varint, pb_decode_varint32,
  pb_decode_svarint, Tag, tag, eof, failure, pb_decode_tag, pb_make_string_substream,
}

-- The function returns, and what it returns with 1 is so.
abbrev pub Ends : {A : Type 0} → (Istream → A → Type 0) → Reads A → Type 0
Ends P (ok (s, some a)) = P s a
Ends P (ok (s, none)) = Unit
Ends P err = Unit
Ends P fault = Unit
Ends P stuck = ⊥

-- At least `k` of `n` bytes are read.
abbrev pub Left : {A : Type 0} → ℕ → ℕ → Istream → A → Type 0
Left k n s a = s.bytes_left + k ≤ n

pub Ends-then :
    {A B : Type 0} (P : Istream → A → Type 0) (Q : Istream → B → Type 0) (m : Reads A)
    (f : Istream → A → Reads B)
    → Ends P m
    → ((s : Istream) (a : A) → P s a → Ends Q (f s a))
    → Ends Q (m >>? f)
Ends-then P Q (ok (s, some a)) f p q = q s a p
Ends-then P Q (ok (s, none)) f p q = tt
Ends-then P Q err f p q = tt
Ends-then P Q fault f p q = tt
Ends-then P Q stuck f p q = p

pub Ends-if :
    {A : Type 0} (P : Istream → A → Type 0) (c : Bool) (m m' : Reads A)
    → Ends P m
    → Ends P m'
    → Ends P (if c then m else m')
Ends-if P true m m' e e' = e
Ends-if P false m m' e e' = e'

pub Ends-defined :
    {A : Type 0} (P : Istream → A → Type 0) (c : Bool) (m : Reads A)
    → Ends P m
    → Ends P (defined c m)
Ends-defined P true m e = e
Ends-defined P false m e = tt

pub pb_read-Ends :
    (n : ℕ) (s : Istream) (count : ℕ) → s.bytes_left ≤ n → Ends (Left count n) (pb_read s count)
unfolding pb_read
pb_read-Ends n s count h = elim (lt_or_le s.bytes_left count) [
  | inl short ↦ rw (ltb-true s.bytes_left count short) tt
  | inr enough ↦
      rw (ltb-false s.bytes_left count enough)
        (Ends-defined (Left count n) (leb count (length s.state)) _ (omega arith))
]

read_varint-Ends :
    (n fuel bitpos dest : ℕ) (s : Istream)
    → 64 ≤ bitpos + 7 * fuel
    → s.bytes_left ≤ n
    → Ends (Left 1 n) (read_varint fuel bitpos dest s)
unfolding read_varint
read_varint-Ends n zero bitpos dest s e h = rw (ltb-false bitpos 64 (omega arith)) tt
read_varint-Ends n (suc fuel) bitpos dest s e h =
    Ends-if (Left 1 n) (ltb bitpos 64) _ _
      (Ends-then (Left 1 n) (Left 1 n) (pb_read s 1) _ (pb_read-Ends n s 1 h) (λ s₁ bytes below.
        Ends-if (Left 1 n) (leb 128 (first_byte bytes)) _ _
          (read_varint-Ends n fuel (bitpos + 7) _ s₁ (omega arith) (omega arith)) below))
      tt

-- A varint takes a byte at least.
pub pb_decode_varint-Ends :
    (n : ℕ) (s : Istream) → s.bytes_left ≤ n → Ends (Left 1 n) (pb_decode_varint s)
unfolding pb_decode_varint
pb_decode_varint-Ends n s h = read_varint-Ends n 10 0 0 s (omega arith) h

pub pb_decode_varint32-Ends :
    (n : ℕ) (s : Istream) → s.bytes_left ≤ n → Ends (Left 1 n) (pb_decode_varint32 s)
unfolding pb_decode_varint32
pb_decode_varint32-Ends n s h =
    Ends-then (Left 1 n) (Left 1 n) (pb_decode_varint s) _ (pb_decode_varint-Ends n s h)
      (λ s₁ v below. below)

pub pb_decode_svarint-Ends :
    (n : ℕ) (s : Istream) → s.bytes_left ≤ n → Ends (Left 1 n) (pb_decode_svarint s)
unfolding pb_decode_svarint
pb_decode_svarint-Ends n s h =
    Ends-then (Left 1 n) (Left 1 n) (pb_decode_varint s) _ (pb_decode_varint-Ends n s h)
      (λ s₁ v below. below)

-- A substream and what is left beside it are each shorter than the stream.
pub pb_make_string_substream-Ends :
    (n : ℕ) (s : Istream)
    → s.bytes_left ≤ n
    → Ends (λ s₁ sub. (s₁.bytes_left ≤ n) × (sub.bytes_left ≤ n)) (pb_make_string_substream s)
unfolding pb_make_string_substream
pb_make_string_substream-Ends n s h =
    let Both : Istream → Istream → Type 0 = λ s₁ sub. (s₁.bytes_left ≤ n) × (sub.bytes_left ≤ n) in
    Ends-then (Left 1 n) Both (pb_decode_varint32 s) _ (pb_decode_varint32-Ends n s h)
      (λ s₁ size below. elim (lt_or_le s₁.bytes_left size) [
        | inl short ↦ rw (ltb-true s₁.bytes_left size short) tt
        | inr enough ↦ rw (ltb-false s₁.bytes_left size enough) (omega arith, omega arith)
      ])

-- A tag takes a byte of the stream at least.
abbrev pub TagEnds : ℕ → Outcome (Istream × Tag) → Type 0
TagEnds n (ok (s, tag number wire_type)) = s.bytes_left + 1 ≤ n
TagEnds n (ok (s, eof)) = Unit
TagEnds n (ok (s, failure)) = Unit
TagEnds n err = Unit
TagEnds n fault = Unit
TagEnds n stuck = ⊥

read_tag : Istream × Option ℕ → Outcome (Istream × Tag)
read_tag (s₁, result) = elim result [
  | none ↦ ok (s₁, if s₁.bytes_left == 0 then eof else failure)
  | some temp ↦ ok (s₁, if temp == 0 then eof else tag (temp / 8) (temp % 8))
]

read_tag-TagEnds : (n : ℕ) (m : Reads ℕ) → Ends (Left 1 n) m → TagEnds n (m >>= read_tag)
unfolding read_tag
read_tag-TagEnds n (ok (s, some temp)) e = elim (Bool-cases (temp == 0)) [
  | inl z ↦ rw z tt
  | inr z ↦ rw z e
]
read_tag-TagEnds n (ok (s, none)) e = elim (Bool-cases (s.bytes_left == 0)) [
  | inl z ↦ rw z tt
  | inr z ↦ rw z tt
]
read_tag-TagEnds n err e = tt
read_tag-TagEnds n fault e = tt
read_tag-TagEnds n stuck e = e

pub pb_decode_tag-TagEnds : (n : ℕ) (s : Istream) → s.bytes_left ≤ n → TagEnds n (pb_decode_tag s)
unfolding pb_decode_tag read_tag
pb_decode_tag-TagEnds n s h =
    read_tag-TagEnds n (pb_decode_varint32 s) (pb_decode_varint32-Ends n s h)
