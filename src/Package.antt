-- ===== src/Package.antt =====
-- src/package.c and include/pomelo-protocol/package.h: the framing of the byte stream.
-- A package is a byte for its type, three bytes for the length of its body, and the body.
-- A byte is a number below 256. The parser's buffers are lists; a pointer that may be NULL is an
-- Option. `data` with `offset` and `nread` is the list of the bytes that are not read yet.
-- `malloc n` says whether an allocation of n bytes succeeds. What the callback `cb` is called with
-- is returned, in order; the callback itself leaves the parser alone.
pub mod Stream
pub mod Holds
pub mod Body
pub mod Head
pub mod Feed
pub mod Chunks
pub mod RoundTrip
mod Tests
use libpomelo.Common.{
  ℕ, zero, suc, ◌+◌, ◌-◌, ◌*◌, ◌/◌, ◌%◌, ◌^◌, ◌≡◌, Bool, true, false, not, ◌&&◌, Option, none, some,
  List, [], ◌∷◌, ◌++◌, ltb, leb, ◌==◌, if◌then◌else◌, min, length, get_or, take, drop, replicate,
  splice,
}
use mathlib.Core.List.{foldl}

pub data ParserState : Type 0 where
  head body closed : ParserState

-- `pc_pkg_parser_s` without `cb` and `attach`.
pub record Parser : Type 0 where
  pub head_buf : List ℕ
  pub pkg_buf : Option (List ℕ)
  pub head_offset : ℕ
  pub head_size : ℕ
  pub pkg_offset : ℕ
  pub pkg_size : ℕ
  pub state : ParserState

-- The arguments of one call of the callback: the type and the body.
pub record Package : Type 0 where
  pub type : ℕ
  pub bytes : List ℕ

abbrev pub head_bytes : ℕ
head_bytes = 4

abbrev pub max_body_bytes : ℕ
max_body_bytes = 2 ^ 24

-- A difference of two `size_t`.
abbrev pub size_sub : ℕ → ℕ → ℕ
size_sub a b = (a + 2 ^ 64 - b) % 2 ^ 64

-- After `memset(parser, 0, …)` and `pc_pkg_parser_init`.
unfoldable pub parser_init : Parser
parser_init = record {
  head_buf = replicate 4 0;
  pkg_buf = none;
  head_offset = 0;
  head_size = head_bytes;
  pkg_offset = 0;
  pkg_size = 0;
  state = head;
}

unfoldable pub parser_close : Parser → Parser
parser_close p = elim p.state [ closed ↦ p | _ ↦ record p { state = closed } ]

unfoldable pub parser_reset : Parser → Parser
parser_reset p = elim p.state [
  | closed ↦ p
  | _ ↦ record p { head_offset = 0; pkg_buf = none; pkg_offset = 0; pkg_size = 0; state = head }
]

-- The loop over the bytes 1 to 3 of the head: `pkg_len <<= 8; pkg_len += head_buf[i] & 0xff`.
abbrev pub head_len : List ℕ → ℕ
head_len buf = foldl (λ pkg_len b. pkg_len * 256 + b % 256) 0 (drop 1 buf)

-- `pc__pkg_type(head_buf)`
abbrev pub head_type : List ℕ → ℕ
head_type buf = get_or buf 0 0 % 256

-- `memcpy` of `len` bytes behind those that the head has.
unfoldable pub head_write : Parser → ℕ → List ℕ → Parser
head_write p len bytes = record p {
  head_buf = splice p.head_buf p.head_offset (take len bytes);
  head_offset = p.head_offset + len;
}

module _ (malloc : ℕ → Bool) where
  -- The end of `pc__pkg_head`, when the head is complete; `none` is the return of -1.
  unfoldable pub head_done : Parser → List ℕ → Parser × Option (List ℕ)
  head_done p rest =
      let pkg_len = head_len p.head_buf in
      if ltb 0 pkg_len && not (malloc pkg_len) then (record p { pkg_buf = none }, none) else (
        record p {
          pkg_buf = if ltb 0 pkg_len then some (replicate pkg_len 0) else p.pkg_buf;
          pkg_offset = 0;
          pkg_size = pkg_len;
          state = body;
        },
        some rest,
      )

  unfoldable pub pkg_head : Parser → List ℕ → Parser × Option (List ℕ)
  pkg_head p bytes =
      let len = min (size_sub p.head_size p.head_offset) (length bytes) in
      let p₁ = head_write p len bytes in
      if p₁.head_offset == p₁.head_size
      then head_done p₁ (drop len bytes)
      else (p₁, some (drop len bytes))

-- `memcpy(pkg_buf + pkg_offset, …)`: a write through NULL is not made by the code (`len > 0` needs
-- a body that is not empty, and that has a buffer).
abbrev pub fill : Option (List ℕ) → ℕ → List ℕ → Option (List ℕ)
fill none off bytes = none
fill (some buf) off bytes = some (splice buf off bytes)

-- The body as the callback sees it: `pkg_size` bytes from `pkg_buf`, none of them at NULL.
abbrev pub contents : Option (List ℕ) → List ℕ
contents none = []
contents (some buf) = buf

-- `memcpy` of `len` bytes behind those that the body has.
unfoldable pub body_write : Parser → ℕ → List ℕ → Parser
body_write p len bytes =
    if ltb 0 len
    then record p {
      pkg_buf = fill p.pkg_buf p.pkg_offset (take len bytes);
      pkg_offset = p.pkg_offset + len;
    }
    else p

-- The end of `pc__pkg_body`: the callback and the reset, when the body is complete.
unfoldable pub body_done : Parser → List ℕ → Parser × List ℕ × List Package
body_done p rest =
    if p.pkg_offset == p.pkg_size
    then (
      parser_reset p,
      rest,
      record { type = head_type p.head_buf; bytes = take p.pkg_size (contents p.pkg_buf) } ∷ [],
    )
    else (p, rest, [])

unfoldable pub pkg_body : Parser → List ℕ → Parser × List ℕ × List Package
pkg_body p bytes =
    let len = min (size_sub p.pkg_size p.pkg_offset) (length bytes) in
    body_done (body_write p len bytes) (drop len bytes)

-- The return of `pc_pkg_parser_feed`, with the packages that it passed to the callback. `stuck` is
-- no return of the code: the loop ran out of fuel.
pub data Status : Type 0 where
  fed failed stuck : Status

pub record Fed : Type 0 where
  pub status : Status
  pub parser : Parser
  pub packages : List Package

-- One round of the loop: it goes on with the bytes left, or returns.
pub data Round : Type 0 where
  more : Parser → List ℕ → List Package → Round
  stop : Status → Parser → List Package → Round

-- The tests of the state after the two stages; an enum has no other value.
abbrev pub check_closed : ParserState → Parser → List ℕ → List Package → Round
check_closed closed p rest ps = stop fed p ps
check_closed _ p rest ps = more p rest ps

-- `if(parser->state == PC_PKG_BODY)`, by the state.
abbrev pub body_stage : ParserState → Parser → List ℕ → Round
body_stage body p bytes = let (p', rest, ps) = pkg_body p bytes in check_closed p'.state p' rest ps
body_stage state p bytes = check_closed state p bytes []

-- What follows the head stage: the return of -1, or the body stage.
abbrev pub after_head : Parser × Option (List ℕ) → Round
after_head (p, none) = stop failed p []
after_head (p, some rest) = body_stage p.state p rest

abbrev pub deliver : List Package → Fed → Fed
deliver ps r = record r { packages = ps ++ r.packages }

abbrev pub after_round : (Parser → List ℕ → Fed) → Round → Fed
after_round loop (stop s p ps) = record { status = s; parser = p; packages = ps }
after_round loop (more p rest ps) = deliver ps (loop p rest)

module _ (malloc : ℕ → Bool) where
  -- `if(parser->state == PC_PKG_HEAD)`, and the rest of the round.
  unfoldable pub feed_round : ParserState → Parser → List ℕ → Round
  feed_round head p bytes = after_head (pkg_head malloc p bytes)
  feed_round state p bytes = body_stage state p bytes

  unfoldable pub feed_loop : ℕ → Parser → List ℕ → Fed
  feed_loop fuel p [] = record { status = fed; parser = p; packages = [] }
  feed_loop zero p (b ∷ bs) = record { status = stuck; parser = p; packages = [] }
  feed_loop (suc fuel) p (b ∷ bs) = after_round (feed_loop fuel) (feed_round p.state p (b ∷ bs))

  -- Every round reads a byte at least, so `nread` rounds are enough.
  unfoldable pub parser_feed : Parser → List ℕ → Fed
  unfolding feed_loop feed_round pkg_head head_write head_done pkg_body body_write body_done
      parser_reset
  parser_feed p bytes = feed_loop (length bytes) p bytes

  -- `pc_pkg_encode`; `none` is a buffer of length -1.
  unfoldable pub pkg_encode : ℕ → List ℕ → Option (List ℕ)
  pkg_encode type bytes =
      let len = length bytes in
      if leb max_body_bytes len
      then none
      else if not (malloc (head_bytes + len))
      then none
      else some (type % 256 ∷ len / 2 ^ 16 % 256 ∷ len / 2 ^ 8 % 256 ∷ len % 256 ∷ bytes)
