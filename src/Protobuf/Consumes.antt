-- ===== src/Protobuf/Consumes.antt =====
-- What it means for a part of src/pb-decode.c to read certain bytes, how parts compose, and the values
-- of src/pb-encode.c that it reads.
use libpomelo.Common.{
  Bool, true, ℕ, ◌+◌, ◌-◌, ◌%◌, ◌^◌, ◌<◌, ◌≡◌, refl, subst, Option, none, some, List, [], ◌++◌,
  length, ltb-true, ltb-false, arith, if◌then◌else◌, append_assoc, length-append,
}
use libpomelo.Common.Groups.{groups}
use libpomelo.Common.Outcome.{ok, ◌>>=◌}
use libpomelo.Protobuf.Input.{
  Istream, Reads, ◌>>?◌, pb_read, pb_decode_varint, pb_decode_varint32, pb_decode_svarint,
  pb_decode_string, pb_make_string_substream, pb_close_string_substream,
}
use libpomelo.Protobuf.Output.{zigzag}
use libpomelo.Protobuf.Decode.{Builder, decode_text, put_text}
use libpomelo.Protobuf.Reference.{prefixed}
use libpomelo.Protobuf.RoundTrip.{zigzag_small, unzigzag-zigzag, pb_read-front}
use libpomelo.Protobuf.Varint.{pb_decode_varint-groups, pb_decode_varint32-groups}

-- The bytes and what follows them.
abbrev pub behind : List ℕ → List ℕ → ℕ → Istream
behind bytes rest n = record { state = bytes ++ rest; bytes_left = length bytes + n }

-- It takes the bytes, gives the value and stops behind them, whatever follows.
abbrev pub Consumes : {A : Type 0} → (Istream → Reads A) → List ℕ → A → Type 0
Consumes f bytes a =
    (rest : List ℕ) (n : ℕ)
    → f (behind bytes rest n) ≡ ok (record { state = rest; bytes_left = n }, some a)

pub Consumes-nothing : {A : Type 0} (a : A) → Consumes (λ s. ok (s, some a)) [] a
Consumes-nothing a rest n = let z : 0 + n ≡ n = omega arith in rw z

pub Consumes-map :
    {A B : Type 0} (f : Istream → Reads A) (h : A → B) (bytes : List ℕ) (a : A)
    → Consumes f bytes a
    → Consumes (λ s. f s >>? (λ s₁ v. ok (s₁, some (h v)))) bytes (h a)
Consumes-map f h bytes a c rest n = rw (c rest n)

pub behind-append :
    (as' bs rest : List ℕ) (n : ℕ)
    → behind (as' ++ bs) rest n ≡ behind as' (bs ++ rest) (length bs + n)
behind-append as' bs rest n =
    let e : length (as' ++ bs) + n ≡ length as' + (length bs + n) =
      omega (arith, length-append as' bs) in
    rw (append_assoc as' bs rest, e)

pub Consumes-then :
    {A B : Type 0} (f : Istream → Reads A) (g : Istream → A → Reads B) (as' bs : List ℕ) (a : A)
    (b : B)
    → Consumes f as' a
    → Consumes (λ s. g s a) bs b
    → Consumes (λ s. f s >>? g) (as' ++ bs) b
Consumes-then f g as' bs a b cf cg rest n =
    rw (behind-append as' bs rest n, cf (bs ++ rest) (length bs + n), cg rest n)

pub Consumes-varint : (v : ℕ) → v < 2 ^ 64 → Consumes pb_decode_varint (groups 9 v) v
Consumes-varint v h rest n = pb_decode_varint-groups v (length (groups 9 v) + n) n rest h refl

pub Consumes-varint32 : (v : ℕ) → v < 2 ^ 32 → Consumes pb_decode_varint32 (groups 9 v) v
Consumes-varint32 v h rest n = pb_decode_varint32-groups v (length (groups 9 v) + n) n rest h refl

pub Consumes-svarint : (v : ℕ) → v < 2 ^ 64 → Consumes pb_decode_svarint (groups 9 (zigzag v)) v
unfolding pb_decode_svarint
Consumes-svarint v h rest n =
    rw (Consumes-varint (zigzag v) (zigzag_small v h) rest n, unzigzag-zigzag v h)

pub Consumes-fixed :
    (size : ℕ) (bytes : List ℕ) → length bytes ≡ size → Consumes (λ s. pb_read s size) bytes bytes
Consumes-fixed size bytes e rest n =
    subst
      (λ k.
        pb_read (behind bytes rest n) k ≡ ok (record { state = rest; bytes_left = n }, some bytes))
      e (pb_read-front bytes rest n)

-- A string that the decoder has memory for.
pub Consumes-text :
    {R : Type 0} (build : Builder R) (malloc : ℕ → Bool) (result : R) (key : Option (List ℕ))
    (str : List ℕ)
    → ((n : ℕ) → malloc n ≡ true)
    → length str < 2 ^ 31
    → Consumes
        (λ s. decode_text build malloc s result key)
        (prefixed str)
        (put_text build result key (build.text_value str))
unfolding decode_text
Consumes-text build malloc result key str granted small =
    let m : (length str + 1) % 2 ^ 32 ≡ length str + 1 = omega arith in
    Consumes-then pb_decode_varint32
      (λ s₁ str_len.
        let size = (str_len + 1) % 2 ^ 32 in
        if malloc size
        then pb_decode_string s₁ size str_len
          >>? (λ s₂ read. ok (s₂, some (put_text build result key (build.text_value read))))
        else ok (s₁, none))
      (groups 9 (length str)) str (length str) (put_text build result key (build.text_value str))
      (Consumes-varint32 (length str) (omega arith))
      (λ rest n. rw (
        m,
        granted (length str + 1),
        ltb-true (length str) (length str + 1) (omega arith),
        pb_read-front str rest n,
      ))

-- A message within a message, by what reads it in its substream.
pub Consumes-submessage :
    {R : Type 0} (decode : Istream → Reads R) (bytes : List ℕ) (r : R)
    → length bytes < 2 ^ 32
    → ((rest : List ℕ)
        → decode (record { state = bytes ++ rest; bytes_left = length bytes })
          ≡ ok (record { state = rest; bytes_left = 0 }, some r))
    → Consumes
        (λ s. pb_make_string_substream s >>? (λ s₁ substream.
          decode substream >>= (λ (sub, result). ok (pb_close_string_substream s₁ sub, result))))
        (prefixed bytes)
        r
unfolding pb_make_string_substream
Consumes-submessage decode bytes r small reads rest n =
    let z : length bytes + n - length bytes ≡ n = omega arith in
    rw (
      behind-append (groups 9 (length bytes)) bytes rest n,
      Consumes-varint32 (length bytes) small (bytes ++ rest) (length bytes + n),
      ltb-false (length bytes + n) (length bytes) (omega arith),
      z,
      reads rest,
    )
