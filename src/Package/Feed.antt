-- ===== src/Package/Feed.antt =====
-- `pc_pkg_parser_feed` of src/package.c against the meaning of the stream.
use libpomelo.Common.{
  ℕ, zero, suc, ◌≤◌, ◌<◌, ◌≡◌, refl, sym, subst, Bool, true, List, [], ◌∷◌, ◌++◌, append-nil,
  length, arith,
}
use libpomelo.Package.{
  Parser, Fed, fed, feed_round, feed_loop, parser_feed, after_round, Round, more, stop, body_stage,
}
use libpomelo.Package.Stream.{Splits, partial}
use libpomelo.Package.Holds.{Holds, in_head, in_body, Holds-IsPartial, Good}
use libpomelo.Package.Body.{body_stage-Good}
use libpomelo.Package.Head.{head_stage-Good}

-- What a feed returns: all bytes are taken, and the packages are those of the stream.
abbrev pub Takes : List ℕ → Fed → Type 0
Takes s r = (r.status ≡ fed) × ((acc : List ℕ) × Holds r.parser acc × Splits s r.packages acc)

after_round-Takes :
    (loop : Parser → List ℕ → Fed) (n : ℕ)
    → ((q : Parser) (acc : List ℕ)
        → Holds q acc
        → (rest : List ℕ) → length rest < n
        → Takes (acc ++ rest) (loop q rest))
    → (acc bytes : List ℕ) (r : Round) → Good acc bytes n r
    → Takes (acc ++ bytes) (after_round loop r)
after_round-Takes loop n ih acc bytes (stop s q ps) g = elim g [ ]
after_round-Takes loop n ih acc bytes (more q rest ps) (acc', held, lt, k) =
    let (ok, (u, held', sp)) = ih q acc' held rest lt in (ok, (u, held', k _ u sp))

module _ (malloc : ℕ → Bool) (granted : (n : ℕ) → malloc n ≡ true) where
  -- A round of the loop on a parser between two reads.
  feed_round-Good :
      {p : Parser} {acc : List ℕ}
      → Holds p acc
      → (bytes : List ℕ) → 0 < length bytes
      → Good acc bytes (length bytes) (feed_round malloc p.state p bytes)
  unfolding feed_round
  feed_round-Good {p} {acc} (in_head h) bytes pos =
      subst (λ st. Good acc bytes (length bytes) (feed_round malloc st p bytes)) (sym h.in_state)
        (head_stage-Good malloc granted h bytes pos)
  feed_round-Good {p} {acc} (in_body h lt) bytes pos =
      subst (λ st. Good acc bytes (length bytes) (feed_round malloc st p bytes)) (sym h.in_state)
        (subst (λ st. Good acc bytes (length bytes) (body_stage st p bytes)) h.in_state
          (body_stage-Good h bytes (length bytes) (omega arith)))

  feed_loop-Takes :
      (fuel : ℕ) {p : Parser} {acc : List ℕ}
      → Holds p acc
      → (bytes : List ℕ) → length bytes ≤ fuel
      → Takes (acc ++ bytes) (feed_loop malloc fuel p bytes)
  unfolding feed_loop
  feed_loop-Takes fuel {p} {acc} h [] le =
      (refl, (acc, h, partial acc (append-nil acc) (rw append-nil (Holds-IsPartial h))))
  feed_loop-Takes zero h (b ∷ bs) le = absurd (omega arith)
  feed_loop-Takes (suc fuel) {p} {acc} h (b ∷ bs) le =
      after_round-Takes (feed_loop malloc fuel) (length (b ∷ bs))
        (λ q acc' held rest lt. feed_loop-Takes fuel held rest (omega arith)) acc (b ∷ bs)
        (feed_round malloc p.state p (b ∷ bs)) (feed_round-Good h (b ∷ bs) (omega arith))

  -- When every allocation succeeds, feeding bytes to a parser that holds `acc` of a package takes
  -- all of them, passes on the packages that the stream `acc` and then `bytes` splits into, and
  -- leaves a parser that holds the rest of the stream.
  pub parser_feed-Takes :
      {p : Parser} {acc : List ℕ}
      → Holds p acc
      → (bytes : List ℕ) → Takes (acc ++ bytes) (parser_feed malloc p bytes)
  unfolding parser_feed
  parser_feed-Takes h bytes = feed_loop-Takes (length bytes) h bytes (omega arith)
