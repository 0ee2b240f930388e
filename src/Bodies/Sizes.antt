-- ===== src/Bodies/Sizes.antt =====
-- The size that src/msg-pb.c allocates, and what it returns when the message does not fit.
use libpomelo.Common.{
  ◌-◌, ◌&&◌, ◌∙◌, ap, take, drop, ℕ, ◌*◌, ◌%◌, ◌^◌, ◌<◌, ◌≡◌, Bool, true, Option, some, List, [],
  ◌∷◌, length, leb, if◌then◌else◌, arith, refl, leb-true, take_all, Bool-cases, inl, inr,
}
use libpomelo.Common.Outcome.{ok, defined}
use libpomelo.Protobuf.Encode.{Jansson}
use libpomelo.Protobuf.Reference.{bytes_of}
use libpomelo.Protobuf.Agrees.{Widths}
use libpomelo.Protobuf.Refines.{pc_pb_encode-bytes_of}
use libpomelo.Bodies.{json_decode, pb_encode_body}

-- A message has a description, its JSON text is printed, and memory for twice the text is given. Then
-- the body is the message if it is at most twice as long as the text, and otherwise a body of length
-- 0 which is not marked as a failure.
pub pb_encode_body-sized :
    {J : Type 0} (json : Jansson J) (widths : Widths json) (malloc : ℕ → Bool)
    (json_dumps : J → Option (List ℕ)) (depth : ℕ) (gprotos pb_def msg : J) (text bytes : List ℕ)
    → json_dumps msg ≡ some text
    → length text * 2 < 2 ^ 64
    → malloc (length text * 2) ≡ true
    → bytes_of json malloc gprotos depth pb_def msg ≡ ok bytes
    → length bytes < 2 ^ 64
    → pb_encode_body json malloc json_dumps depth gprotos pb_def msg
      ≡ ok (
          if leb (length bytes) (length text * 2)
          then record { len = some (length bytes); base = some bytes }
          else record { len = some 0; base = some [] })
unfolding pb_encode_body
pb_encode_body-sized json widths malloc json_dumps depth gprotos pb_def msg text bytes printed small
      granted e total =
    let m : length text * 2 % 2 ^ 64 ≡ length text * 2 = omega arith in
    rw
      (
        printed,
        m,
        granted,
        pc_pb_encode-bytes_of json widths malloc gprotos depth (length text * 2) pb_def msg bytes e
            small total,
      )
      (elim (Bool-cases (leb (length bytes) (length text * 2))) [
        | inl fits ↦ rw fits
        | inr over ↦ rw over
      ])

whole_text : (body : List ℕ) → take (length body - 0) (drop 0 body) ≡ body
whole_text [] = refl
whole_text (b ∷ bs) = take_all (length (b ∷ bs) - 0) (b ∷ bs) (omega arith)

-- The whole of a body is read.
pub json_decode-all :
    {J : Type 0} (json_loadb : List ℕ → Option J) (body : List ℕ)
    → json_decode json_loadb body 0 (length body) ≡ ok (json_loadb body)
unfolding json_decode
json_decode-all json_loadb body =
    let n : ℕ = length body in
    let inside : (leb 0 n && leb n n) ≡ true =
      rw (leb-true 0 n (omega arith), leb-true n n (omega arith)) refl in
    ap (λ b. defined b (ok (json_loadb (take (n - 0) (drop 0 body))))) inside
    ∙ ap (λ text. ok (json_loadb text)) (whole_text body)
