-- ===== src/Package/Tests.antt =====
-- Runs of src/package.c on concrete bytes, and the theorems at concrete inputs.
use libpomelo.Common.{
  ℕ, ◌≡◌, refl, ◌≤◌, ◌^◌, ◌⊎◌, ◌↔◌, arith, Bool, true, false, List, [], ◌∷◌, none, flatten,
}
use libpomelo.Package.{
  Package, Parser, fed, failed, parser_init, parser_reset, parser_feed, pkg_encode, closed,
}
use libpomelo.Package.Holds.{parser_init-Holds}
use libpomelo.Package.Feed.{Takes, parser_feed-Takes}
use libpomelo.Package.Chunks.{feed_all, feed_all-flatten, feed-reset, feed-closed}
use libpomelo.Package.RoundTrip.{Encodes, done, next, pkg_encode_cases, feed_all-encode}

abbrev plenty : ℕ → Bool
plenty n = true

granted : (n : ℕ) → plenty n ≡ true
granted n = refl

-- A data package with two bytes, and a heartbeat with none.
abbrev data_package : Package
data_package = record { type = 4; bytes = 7 ∷ 9 ∷ [] }

abbrev heartbeat_package : Package
heartbeat_package = record { type = 3; bytes = [] }

abbrev sent : List ℕ
sent = 4 ∷ 0 ∷ 0 ∷ 2 ∷ 7 ∷ 9 ∷ 3 ∷ 0 ∷ 0 ∷ 0 ∷ []

abbrev reads : List (List ℕ)
reads = (4 ∷ 0 ∷ []) ∷ (0 ∷ 2 ∷ 7 ∷ []) ∷ [] ∷ (9 ∷ 3 ∷ 0 ∷ 0 ∷ 0 ∷ []) ∷ []

sent-Encodes : Encodes plenty (data_package ∷ heartbeat_package ∷ []) sent
unfolding pkg_encode
sent-Encodes =
    next data_package (4 ∷ 0 ∷ 0 ∷ 2 ∷ 7 ∷ 9 ∷ []) (omega arith) refl
      (next heartbeat_package (3 ∷ 0 ∷ 0 ∷ 0 ∷ []) (omega arith) refl done)

reads-sent : flatten reads ≡ sent
unfolding flatten
reads-sent = refl

feed_run : (parser_feed plenty parser_init sent).packages ≡ data_package ∷ heartbeat_package ∷ []
unfolding parser_feed parser_init
feed_run = refl

-- A parser in the middle of a body.
abbrev half : Parser
half = (parser_feed plenty parser_init (4 ∷ 0 ∷ 0 ∷ 2 ∷ 7 ∷ [])).parser

half_taken :
    Takes (4 ∷ 0 ∷ 0 ∷ 2 ∷ 7 ∷ []) (parser_feed plenty parser_init (4 ∷ 0 ∷ 0 ∷ 2 ∷ 7 ∷ []))
half_taken = parser_feed-Takes plenty granted parser_init-Holds (4 ∷ 0 ∷ 0 ∷ 2 ∷ 7 ∷ [])

-- A failed allocation of a body ends the feed with -1.
feed_refused : (parser_feed (λ n. false) parser_init (4 ∷ 0 ∷ 0 ∷ 2 ∷ 7 ∷ [])).status ≡ failed
unfolding parser_feed parser_init
feed_refused = refl

feed_all-encode_example :
    ((feed_all plenty parser_init reads).packages ≡ data_package ∷ heartbeat_package ∷ [])
    × ((feed_all plenty parser_init reads).status ≡ fed)
feed_all-encode_example = feed_all-encode plenty plenty granted sent-Encodes reads reads-sent

parser_feed-Takes_example : Takes sent (parser_feed plenty parser_init sent)
parser_feed-Takes_example = parser_feed-Takes plenty granted parser_init-Holds sent

feed_all-flatten_example :
    (feed_all plenty half ((9 ∷ 3 ∷ []) ∷ (0 ∷ 0 ∷ 0 ∷ []) ∷ [])).packages
    ≡ (parser_feed plenty half (flatten ((9 ∷ 3 ∷ []) ∷ (0 ∷ 0 ∷ 0 ∷ []) ∷ []))).packages
feed_all-flatten_example =
    feed_all-flatten plenty granted half_taken.1.1 ((9 ∷ 3 ∷ []) ∷ (0 ∷ 0 ∷ 0 ∷ []) ∷ [])

half_run :
    (parser_feed plenty (parser_reset half) sent).packages
    ≡ (parser_feed plenty parser_init sent).packages
half_run = feed-reset plenty granted half_taken.1.1 sent

abbrev shut : Parser
shut = record parser_init { state = closed }

shut_run :
    (parser_feed plenty shut sent ≡ record { status = fed; parser = shut; packages = [] })
    × (parser_reset shut ≡ shut)
shut_run = feed-closed plenty shut sent refl

pkg_encode_cases_run : (pkg_encode plenty 4 (7 ∷ []) ≡ none) ↔ ((2 ^ 24 ≤ 1) ⊎ (true ≡ false))
pkg_encode_cases_run = pkg_encode_cases plenty 4 (7 ∷ [])
