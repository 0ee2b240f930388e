-- ===== src/Package/Holds.antt =====
-- What the parser of src/package.c holds of a package between two steps, and what a round of its
-- loop does to the stream.
use libpomelo.Common.{
  ℕ, ◌-◌, ◌^◌, ◌≤◌, ◌<◌, ◌≡◌, refl, ap, none, List, [], ◌∷◌, ◌++◌, length, take, length-take, arith,
}
use libpomelo.Package.{
  Package, Parser, head, body, Round, more, stop, size_sub, head_len, parser_init, contents,
}
use libpomelo.Package.Stream.{size, IsPartial, Splits}

-- The parser stands in a body; `acc` is what it has read of the package. The body may be complete.
pub record InBody (p : Parser) (acc : List ℕ) : Type 0 where
  pub in_state : p.state ≡ body
  pub head_width : length p.head_buf ≡ 4
  pub sized : p.head_size ≡ 4
  pub counted : p.pkg_size ≡ head_len p.head_buf
  pub within : p.pkg_offset ≤ p.pkg_size
  pub width : length (contents p.pkg_buf) ≡ p.pkg_size
  pub reads : acc ≡ p.head_buf ++ take p.pkg_offset (contents p.pkg_buf)

-- The parser stands in a head, which is not complete.
pub record InHead (p : Parser) (acc : List ℕ) : Type 0 where
  pub in_state : p.state ≡ head
  pub head_width : length p.head_buf ≡ 4
  pub sized : p.head_size ≡ 4
  pub offset : p.head_offset ≡ length acc
  pub within : length acc < 4
  pub reads : acc ≡ take p.head_offset p.head_buf
  pub no_buffer : p.pkg_buf ≡ none

-- Between two reads: what the parser holds of the package that it has begun.
pub data Holds (p : Parser) (acc : List ℕ) : Type 0 where
  in_head : InHead p acc → Holds p acc
  in_body : InBody p acc → p.pkg_offset < p.pkg_size → Holds p acc

pub parser_init-Holds : Holds parser_init []
unfolding parser_init
parser_init-Holds = in_head (record {
  in_state = refl;
  head_width = refl;
  sized = refl;
  offset = refl;
  within = omega arith;
  reads = refl;
  no_buffer = refl;
})

pub four :
    (l : List ℕ) → length l ≡ 4 → (a : ℕ) × (b : ℕ) × (c : ℕ) × (d : ℕ) × (l ≡ a ∷ b ∷ c ∷ d ∷ [])
four [] h = absurd (omega arith)
four (a ∷ []) h = absurd (omega arith)
four (a ∷ b ∷ []) h = absurd (omega arith)
four (a ∷ b ∷ c ∷ []) h = absurd (omega arith)
four (a ∷ b ∷ c ∷ d ∷ []) h = (a, b, c, d, refl)
four (a ∷ b ∷ c ∷ d ∷ e ∷ l) h = absurd (omega arith)

short-IsPartial : (l : List ℕ) → length l < 4 → IsPartial l
short-IsPartial [] h = tt
short-IsPartial (a ∷ []) h = tt
short-IsPartial (a ∷ b ∷ []) h = tt
short-IsPartial (a ∷ b ∷ c ∷ []) h = tt
short-IsPartial (a ∷ b ∷ c ∷ d ∷ l) h = absurd (omega arith)

pub head_len-size : (a b c d : ℕ) → head_len (a ∷ b ∷ c ∷ d ∷ []) ≡ size b c d
head_len-size a b c d = omega arith

pub head_len-lt : (h : List ℕ) → length h ≡ 4 → head_len h < 2 ^ 24
head_len-lt h l = let (a, b, c, d, e) = four h l in omega (arith, ap head_len e)

long-IsPartial : (h bs : List ℕ) → length h ≡ 4 → length bs < head_len h → IsPartial (h ++ bs)
long-IsPartial h bs l lt =
    let (a, b, c, d, e) = four h l in
    let lt' : length bs < size b c d = omega (arith, ap head_len e) in rw e lt'

pub Holds-IsPartial : {p : Parser} {acc : List ℕ} → Holds p acc → IsPartial acc
Holds-IsPartial {p} {acc} (in_head h) = short-IsPartial acc h.within
Holds-IsPartial {p} {acc} (in_body h lt) = rw h.reads (
    long-IsPartial p.head_buf (take p.pkg_offset (contents p.pkg_buf)) h.head_width
      (omega (arith, length-take p.pkg_offset (contents p.pkg_buf), h.counted, h.width)))

-- What a round does: the bytes that are left, and the stream that stays to be split.
abbrev pub Good : List ℕ → List ℕ → ℕ → Round → Type 0
Good acc bytes n (stop s p ps) = ⊥
Good acc bytes n (more p rest ps) =
    (acc' : List ℕ) × Holds p acc'
    × (length rest < n)
    × ((qs : List Package) (u : List ℕ)
        → Splits (acc' ++ rest) qs u
        → Splits (acc ++ bytes) (ps ++ qs) u)

pub Good-shift :
    (acc acc' bytes bytes' : List ℕ) (n : ℕ) (r : Round)
    → acc ++ bytes ≡ acc' ++ bytes'
    → Good acc bytes n r
    → Good acc' bytes' n r
Good-shift acc acc' bytes bytes' n (stop s p ps) e g = g
Good-shift acc acc' bytes bytes' n (more p rest ps) e (a, held, lt, k) =
    (a, held, lt, λ qs u t. rw (← e) (k qs u t))

pub size_sub_lem : (a b : ℕ) → b ≤ a → a < 2 ^ 64 → size_sub a b ≡ a - b
size_sub_lem a b h lt = omega arith
