-- ===== src/Package/Body.antt =====
-- `pc__pkg_body` of src/package.c: one round in the body of a package.
use libpomelo.Common.{
  ℕ, zero, suc, ◌+◌, ◌-◌, ◌≤◌, ◌<◌, ◌≡◌, refl, sym, ◌∙◌, ap, subst, Option, none, some, List, [],
  ◌∷◌, ◌++◌, append_assoc, append-nil, length, take, drop, splice, length-take, length-drop,
  length-splice, take-splice, drop_all, take-append-drop, ◌≢◌, lt_or_le, ltb-true, ==_true,
  ==_false, inl, inr, min, arith,
}
use libpomelo.Package.{
  Package, Parser, head, body, head_len, head_type, parser_reset, fill, contents, body_write,
  body_done, pkg_body, body_stage, check_closed,
}
use libpomelo.Package.Stream.{Splits, whole}
use libpomelo.Package.Holds.{
  InBody, Holds, in_head, in_body, four, head_len-lt, Good, Good-shift, size_sub_lem,
}

abbrev written : Parser → ℕ → List ℕ → Parser
written p len bytes = record p {
  pkg_buf = fill p.pkg_buf p.pkg_offset (take len bytes);
  pkg_offset = p.pkg_offset + len;
}

module _ {p : Parser} {acc : List ℕ} (h : InBody p acc) where
  body_write-full :
      (len : ℕ) (bytes : List ℕ) (b : Option (List ℕ))
      → length (contents b) ≡ p.pkg_size
      → 0 < len
      → p.pkg_offset + len ≤ p.pkg_size
      → len ≤ length bytes
      → contents (fill b p.pkg_offset (take len bytes))
        ≡ splice (contents b) p.pkg_offset (take len bytes)
  body_write-full len bytes none w pos fits enough = absurd (omega arith)
  body_write-full len bytes (some buf) w pos fits enough = refl

  written-InBody :
      (len : ℕ) (bytes : List ℕ)
      → 0 < len
      → p.pkg_offset + len ≤ p.pkg_size
      → len ≤ length bytes
      → InBody (written p len bytes) (acc ++ take len bytes)
  written-InBody len bytes pos fits enough =
      let t = length-take len bytes in
      let full = body_write-full len bytes p.pkg_buf h.width pos fits enough in
      record {
        in_state = h.in_state;
        head_width = h.head_width;
        sized = h.sized;
        counted = h.counted;
        within = fits;
        width = rw full (
            length-splice (contents p.pkg_buf) p.pkg_offset (take len bytes)
              (omega (arith, h.width))
            ∙ h.width);
        reads =
            rw
              (
                full,
                take-splice (contents p.pkg_buf) p.pkg_offset (take len bytes) (p.pkg_offset + len)
                    (omega (arith, h.width)) (omega arith),
              )
              (ap (λ z. z ++ take len bytes) h.reads
                ∙ append_assoc p.head_buf (take p.pkg_offset (contents p.pkg_buf))
                    (take len bytes));
      }

  -- Writing keeps the parser in the body, and it holds the bytes written too.
  body_write-InBody :
      (len : ℕ) (bytes : List ℕ)
      → p.pkg_offset + len ≤ p.pkg_size
      → len ≤ length bytes
      → InBody (body_write p len bytes) (acc ++ take len bytes)
        × ((body_write p len bytes).pkg_offset ≡ p.pkg_offset + len)
        × ((body_write p len bytes).pkg_size ≡ p.pkg_size)
  unfolding body_write
  body_write-InBody zero bytes fits enough = (rw append-nil h, omega arith, refl)
  body_write-InBody (suc n) bytes fits enough =
      rw (ltb-true 0 (suc n) (omega arith))
        (written-InBody (suc n) bytes (omega arith) fits enough, refl, refl)

abbrev pub fresh : Parser → Parser
fresh p = record p { head_offset = 0; pkg_buf = none; pkg_offset = 0; pkg_size = 0; state = head }

pub parser_reset-fresh : (p : Parser) → p.state ≡ body → parser_reset p ≡ fresh p
unfolding parser_reset
parser_reset-fresh p e = rw e

pub fresh-Holds : {p : Parser} {acc : List ℕ} → InBody p acc → Holds (fresh p) []
fresh-Holds h = in_head (record {
  in_state = refl;
  head_width = h.head_width;
  sized = h.sized;
  offset = refl;
  within = omega arith;
  reads = refl;
  no_buffer = refl;
})

-- A complete body closes the first package of the stream.
complete-whole :
    {p : Parser} {acc : List ℕ} (h : InBody p acc) (rest : List ℕ) (qs : List Package) (u : List ℕ)
    → p.pkg_offset ≡ p.pkg_size
    → Splits rest qs u
    → Splits
        (acc ++ rest)
        (record { type = head_type p.head_buf; bytes = take p.pkg_size (contents p.pkg_buf) } ∷ qs)
        u
complete-whole {p} {acc} h rest qs u done k =
    let (a, b, c, d, e) = four p.head_buf h.head_width in
    let bs = take p.pkg_size (contents p.pkg_buf) in
    rw e (
      whole a b c d bs rest (rw (h.reads, done, e))
        (omega
          (arith, length-take p.pkg_size (contents p.pkg_buf), h.width, h.counted, ap head_len e))
        k)

body_done-Good :
    {p : Parser} {acc : List ℕ} (h : InBody p acc) (rest : List ℕ) (n : ℕ)
    → length rest < n
    → (p.pkg_offset ≢ p.pkg_size → rest ≡ [])
    → Good acc rest n (let (p', r, ps) = body_done p rest in check_closed p'.state p' r ps)
unfolding body_done
body_done-Good {p} {acc} h rest n lt all = elim (lt_or_le p.pkg_offset p.pkg_size) [
  | inl open_body ↦ rw (==_false p.pkg_offset p.pkg_size (omega arith)) (
      subst (λ st. Good acc rest n (check_closed st p rest [])) (sym h.in_state)
        (acc, in_body h open_body, lt, λ qs u k. k))
  | inr full ↦
      let done : p.pkg_offset ≡ p.pkg_size = omega (arith, h.within) in
      rw (==_true p.pkg_offset p.pkg_size done, parser_reset-fresh p h.in_state)
        ([], fresh-Holds h, lt, λ qs u k. complete-whole h rest qs u done k)
]

-- The body stage, at any number of bytes: from a head just read, or with some of the body read.
pub body_stage-Good :
    {p : Parser} {acc : List ℕ} (h : InBody p acc) (bytes : List ℕ) (n : ℕ)
    → length bytes < n + min (p.pkg_size - p.pkg_offset) (length bytes)
    → Good acc bytes n (body_stage p.state p bytes)
unfolding pkg_body
body_stage-Good {p} {acc} h bytes n lt =
    let bound = head_len-lt p.head_buf h.head_width in
    let len = min (p.pkg_size - p.pkg_offset) (length bytes) in
    let w = body_write-InBody h len bytes (omega (arith, h.within)) (omega arith) in
    subst (λ st. Good acc bytes n (body_stage st p bytes)) (sym h.in_state)
      (rw (size_sub_lem p.pkg_size p.pkg_offset h.within (omega (arith, h.counted))) (
        Good-shift (acc ++ take len bytes) acc (drop len bytes) bytes n _
          (append_assoc acc (take len bytes) (drop len bytes)
            ∙ ap (λ z. acc ++ z) (take-append-drop len bytes))
          (body_done-Good w.0 (drop len bytes) n (omega (arith, length-drop len bytes))
            (λ ne. drop_all len bytes (omega (arith, h.within, w.1, w.2))))))
