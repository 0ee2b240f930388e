-- ===== src/Protobuf/Agrees.antt =====
-- src/pb-encode.c against the description of its bytes: parts that agree with theirs, composed.
use libpomelo.Common.{
  ℕ, ◌+◌, ◌*◌, ◌%◌, ◌^◌, ◌<◌, ◌≡◌, refl, subst, Bool, true, false, List, ◌++◌, if◌then◌else◌,
  length, arith,
}
use libpomelo.Common.Bits.{bit_or-disjoint}
use libpomelo.Common.Groups.{groups}
use libpomelo.Common.Outcome.{Outcome, ok, err, fault, stuck, ◌>>=◌}
use libpomelo.Protobuf.{get_constant_type}
use libpomelo.Protobuf.Output.{
  Ostream, pb_write, pb_encode_varint, pb_encode_svarint, pb_encode_tag, pb_encode_string, zigzag,
}
use libpomelo.Protobuf.Encode.{Jansson}
use libpomelo.Protobuf.Emit.{Emits, Emits-write, Emits-varint, Emits-seq}
use libpomelo.Protobuf.Reference.{◌⋄◌, prefixed}
use libpomelo.Protobuf.RoundTrip.{zigzag_small}

-- Where the description has bytes, the part of the code writes them.
abbrev pub Agrees : (Ostream → Outcome Ostream) → Outcome (List ℕ) → Type 0
Agrees f g = (bytes : List ℕ) → g ≡ ok bytes → Emits f bytes

module _ (f : Ostream → Outcome Ostream) where
  pub Agrees-ok : (bytes : List ℕ) → Emits f bytes → Agrees f (ok bytes)
  Agrees-ok bytes emits b e = let same : bytes ≡ b = cc e in subst (Emits f) same emits

  Agrees-err : Agrees f err
  Agrees-err b e = absurd cc

  Agrees-fault : Agrees f fault
  Agrees-fault b e = absurd cc

-- A computation before both, which does not depend on the stream.
pub Agrees-bind :
    {A : Type 0} (m : Outcome A) (f : A → Ostream → Outcome Ostream) (g : A → Outcome (List ℕ))
    → ((a : A) → Agrees (f a) (g a))
    → Agrees (λ s. m >>= (λ a. f a s)) (m >>= g)
Agrees-bind (ok a) f g agrees = agrees a
Agrees-bind err f g agrees = λ b e. absurd cc
Agrees-bind fault f g agrees = λ b e. absurd cc
Agrees-bind stuck f g agrees = λ b e. absurd cc

pub Agrees-if :
    (c : Bool) (f f' : Ostream → Outcome Ostream) (g g' : Outcome (List ℕ))
    → Agrees f g
    → Agrees f' g'
    → Agrees (λ s. if c then f s else f' s) (if c then g else g')
Agrees-if true f f' g g' a a' = a
Agrees-if false f f' g g' a a' = a'

pub Agrees-seq :
    (f f' : Ostream → Outcome Ostream) (g g' : Outcome (List ℕ))
    → Agrees f g
    → Agrees f' g'
    → Agrees (λ s. f s >>= f') (g ⋄ g')
Agrees-seq f f' (ok a) (ok b) p q =
    Agrees-ok (λ s. f s >>= f') (a ++ b) (Emits-seq f f' a b (p a refl) (q b refl))
Agrees-seq f f' (ok a) err p q = λ b e. absurd cc
Agrees-seq f f' (ok a) fault p q = λ b e. absurd cc
Agrees-seq f f' (ok a) stuck p q = λ b e. absurd cc
Agrees-seq f f' err g' p q = λ b e. absurd cc
Agrees-seq f f' fault g' p q = λ b e. absurd cc
Agrees-seq f f' stuck g' p q = λ b e. absurd cc

-- What the calls of jansson give: numbers of their widths, and a `size_t` for the size of an array.
pub record Widths {J : Type 0} (json : Jansson J) : Type 0 where
  pub integer_width : (v : J) → json.integer v < 2 ^ 64
  pub float_width : (v : J) → length (json.float_bytes v) ≡ 4
  pub double_width : (v : J) → length (json.double_bytes v) ≡ 8
  pub array_width : (v : J) → length (json.elements v) < 2 ^ 64

pub constant_type_small : (type : List ℕ) → get_constant_type type < 8
unfolding get_constant_type
constant_type_small type = ground arith

pub Emits-tag :
    (wiretype field : ℕ)
    → wiretype < 8
    → Emits (λ s. pb_encode_tag s wiretype field) (groups 9 (wiretype + field % 2 ^ 29 * 8))
unfolding pb_encode_tag
Emits-tag wiretype field w s room total =
    let m : field * 8 % 2 ^ 32 ≡ field % 2 ^ 29 * 8 = omega arith in
    rw (m, bit_or-disjoint 3 wiretype (field % 2 ^ 29) w)
      (Emits-varint (wiretype + field % 2 ^ 29 * 8) (omega arith) s room total)

pub Emits-fixed :
    (n : ℕ) (bytes : List ℕ) → length bytes ≡ n → Emits (λ s. pb_write s bytes n) bytes
Emits-fixed n bytes e = subst (λ z. Emits (λ s. pb_write s bytes z) bytes) e (Emits-write bytes)

pub Emits-string :
    (str : List ℕ)
    → length str < 2 ^ 31
    → Emits (λ s. pb_encode_string s str (length str)) (prefixed str)
unfolding pb_encode_string
Emits-string str h =
    Emits-seq (λ s. pb_encode_varint s (length str)) (λ s. pb_write s str (length str))
      (groups 9 (length str)) str (Emits-varint (length str) (omega arith)) (Emits-write str)

pub Emits-svarint :
    (value : ℕ) → value < 2 ^ 64 → Emits (λ s. pb_encode_svarint s value) (groups 9 (zigzag value))
unfolding pb_encode_svarint
Emits-svarint value h = Emits-varint (zigzag value) (zigzag_small value h)
