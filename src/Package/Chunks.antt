-- ===== src/Package/Chunks.antt =====
-- src/package.c when the stream arrives in several reads, and after a reset.
use libpomelo.Common.{
  ℕ, zero, suc, ◌≤◌, ◌≡◌, refl, sym, ap, subst, Bool, true, List, [], ◌∷◌, ◌++◌, flatten, arith,
  append_assoc, append-nil, length,
}
use libpomelo.Package.{
  Package, Parser, Fed, fed, parser_feed, feed_loop, feed_round, after_round, stop, parser_init,
  parser_reset, closed, head,
}
use libpomelo.Package.Holds.{Holds, in_head, in_body, parser_init-Holds, Holds-IsPartial}
use libpomelo.Package.Stream.{Splits, partial, Splits-append, Splits-unique}
use libpomelo.Package.Body.{fresh, parser_reset-fresh, fresh-Holds}
use libpomelo.Package.Feed.{Takes, parser_feed-Takes}

-- The reads of a connection, one after the other: all the packages that they pass on.
unfoldable pub feed_all : (ℕ → Bool) → Parser → List (List ℕ) → Fed
feed_all malloc p [] = record { status = fed; parser = p; packages = [] }
feed_all malloc p (c ∷ cs) =
    let r = parser_feed malloc p c in
    let s = feed_all malloc r.parser cs in record s { packages = r.packages ++ s.packages }

module _ (malloc : ℕ → Bool) (granted : (n : ℕ) → malloc n ≡ true) where
  feed_all-Takes :
      (cs : List (List ℕ)) (p : Parser) (acc : List ℕ)
      → Holds p acc
      → Takes (acc ++ flatten cs) (feed_all malloc p cs)
  unfolding feed_all flatten
  feed_all-Takes [] p acc h =
      (refl, (acc, h, partial acc (append-nil acc) (rw append-nil (Holds-IsPartial h))))
  feed_all-Takes (c ∷ cs) p acc h =
      let (ok, (acc', held, sp)) = parser_feed-Takes malloc granted h c in
      let (ok', (u, held', sp')) = feed_all-Takes cs _ acc' held in
      (
        ok',
        (
          u,
          held',
          subst (λ z. Splits z (feed_all malloc p (c ∷ cs)).packages u)
              (append_assoc acc c (flatten cs)) (Splits-append (flatten cs) sp sp'),
        ),
      )

  -- How a stream is cut into reads does not matter: when every allocation succeeds, feeding the
  -- reads one after the other, to a parser that holds part of a package or nothing, passes on the
  -- same packages as feeding all their bytes at once.
  pub feed_all-flatten :
      {p : Parser} {acc : List ℕ}
      → Holds p acc
      → (cs : List (List ℕ))
      → (feed_all malloc p cs).packages ≡ (parser_feed malloc p (flatten cs)).packages
  feed_all-flatten {p} {acc} h cs =
      let (ok, (u, held, sp)) = feed_all-Takes cs p acc h in
      let (ok', (v, held', sp')) = parser_feed-Takes malloc granted h (flatten cs) in
      (Splits-unique sp sp').0

  -- The reads of a stream that splits into `ps` pass on `ps`.
  pub feed_all-Splits :
      (cs : List (List ℕ)) {ps : List Package} {u : List ℕ}
      → Splits (flatten cs) ps u
      → ((feed_all malloc parser_init cs).packages ≡ ps)
        × ((feed_all malloc parser_init cs).status ≡ fed)
  feed_all-Splits cs k =
      let (ok, (v, held, sp)) = feed_all-Takes cs parser_init [] parser_init-Holds in
      ((Splits-unique sp k).0, ok)

parser_reset-head : (p : Parser) → p.state ≡ head → parser_reset p ≡ fresh p
unfolding parser_reset
parser_reset-head p e = rw e

pub parser_reset-Holds : {p : Parser} {acc : List ℕ} → Holds p acc → Holds (parser_reset p) []
parser_reset-Holds {p} (in_head h) = rw (parser_reset-head p h.in_state) (
    in_head (record {
      in_state = refl;
      head_width = h.head_width;
      sized = h.sized;
      offset = refl;
      within = omega arith;
      reads = refl;
      no_buffer = refl;
    }))
parser_reset-Holds {p} (in_body h lt) = rw (parser_reset-fresh p h.in_state) (fresh-Holds h)

-- A parser that is reset in the middle of a package forgets it: when every allocation succeeds, what
-- it passes on afterwards is what a new parser passes on.
pub feed-reset :
    (malloc : ℕ → Bool)
    → ((n : ℕ) → malloc n ≡ true)
    → {p : Parser} {acc : List ℕ} → Holds p acc
    → (bytes : List ℕ)
    → (parser_feed malloc (parser_reset p) bytes).packages
      ≡ (parser_feed malloc parser_init bytes).packages
feed-reset malloc granted h bytes =
    let (ok, (u, held, sp)) = parser_feed-Takes malloc granted (parser_reset-Holds h) bytes in
    let (ok', (v, held', sp')) = parser_feed-Takes malloc granted parser_init-Holds bytes in
    (Splits-unique sp sp').0

feed_loop-closed :
    (malloc : ℕ → Bool) (fuel : ℕ) (p : Parser) (bytes : List ℕ)
    → length bytes ≤ fuel
    → p.state ≡ closed
    → feed_loop malloc fuel p bytes ≡ record { status = fed; parser = p; packages = [] }
unfolding feed_loop
feed_loop-closed malloc fuel p [] h e = refl
feed_loop-closed malloc zero p (b ∷ bs) h e = absurd (omega arith)
feed_loop-closed malloc (suc fuel) p (b ∷ bs) h e = ap (after_round (feed_loop malloc fuel)) (
    subst (λ st. feed_round malloc st p (b ∷ bs) ≡ stop fed p []) (sym e)
      (unfold feed_round in refl))

-- A closed parser takes no byte: a feed returns 0, passes nothing on and leaves it as it is, and so
-- does a reset.
pub feed-closed :
    (malloc : ℕ → Bool) (p : Parser) (bytes : List ℕ)
    → p.state ≡ closed
    → (parser_feed malloc p bytes ≡ record { status = fed; parser = p; packages = [] })
      × (parser_reset p ≡ p)
unfolding parser_feed
feed-closed malloc p bytes e = (
  feed_loop-closed malloc (length bytes) p bytes (omega arith) e,
  unfold parser_reset in rw e refl,
)
