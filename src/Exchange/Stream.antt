-- ===== src/Exchange/Stream.antt =====
-- The reads of a socket against the packages of the stream.
use libpomelo.Common.{
  ℕ, ◌≡◌, refl, sym, ◌∙◌, ap, subst, Bool, true, not, Option, some, List, [], ◌∷◌, ◌++◌,
  if◌then◌else◌,
}
use libpomelo.Common.Outcome.{Outcome, ok, ◌>>=◌}
use libpomelo.Protobuf.Encode.{Jansson}
use libpomelo.Protobuf.Decode.{Builder, Printer}
use libpomelo.Package.{Package, Parser, Fed, parser_feed}
use libpomelo.Package.Chunks.{feed_all}
use libpomelo.Package.Feed.{parser_feed-Takes}
use libpomelo.Package.Holds.{Holds}
use libpomelo.Client.{tp_working, Client}
use libpomelo.Client.Connect.{Writing}
use libpomelo.Client.Dispatch.{Msg, pkg_cb, pkg_cbs, end_read, read_at, on_tcp_read, tp_on_tcp_read}
use libpomelo.Client.Requests.{reads_working}
use libpomelo.Exchange.{reads}

-- A read that gives bytes.
abbrev pub AreBytes : List ℕ → Type 0
AreBytes [] = ⊥
AreBytes (b ∷ bs) = Unit {0}

abbrev pub AllBytes : List (List ℕ) → Type 0
AllBytes [] = Unit {0}
AllBytes (bytes ∷ more) = AreBytes bytes × AllBytes more

abbrev pub with_parser : {J : Type 0} → Parser → Client J → Client J
with_parser q c = record c { parser = q }

module _ (malloc : ℕ → Bool) (signed_char : Bool) (rand : ℕ → ℕ) {J : Type 0} (json : Jansson J)
    (integer_value : J → ℕ) (build : Builder J) (printer : Printer) (reload : Option J → Option J)
    (accept : Option J → Bool) (json_loadb : List ℕ → Option J)
    (parse_msg : Client J → List ℕ → Outcome (Option Msg)) (memory : Bool) (env : Writing)
    (i : ℕ) where
  abbrev on_pkg : Package → Client J → Outcome (Client J)
  on_pkg =
      pkg_cb malloc signed_char rand json integer_value build printer reload accept json_loadb
        parse_msg memory env

  abbrev on_pkgs : List Package → Client J → Outcome (Client J)
  on_pkgs =
      pkg_cbs malloc signed_char rand json integer_value build printer reload accept json_loadb
        parse_msg memory env

  abbrev on_reads : List (List ℕ) → Client J → Outcome (Client J)
  on_reads =
      reads malloc signed_char rand json integer_value build printer reload accept json_loadb
        parse_msg memory env i

  -- `Handled ps c c'`: the packages take c to c', whatever the parser is, and leave the connection.
  pub data Handled : List Package → Client J → Client J → Type 0 where
    none_left : {c : Client J} → Handled [] c c
    handled :
        (p : Package) {ps : List Package} {c c₁ c₂ : Client J}
        → ((q : Parser) → on_pkg p (with_parser q c) ≡ ok (with_parser q c₁))
        → c₁.transports i ≡ tp_working
        → Handled ps c₁ c₂
        → Handled (p ∷ ps) c c₂

  pkg_cbs-Handled :
      {ps : List Package} {c c' : Client J}
      → Handled ps c c'
      → (q : Parser) → on_pkgs ps (with_parser q c) ≡ ok (with_parser q c')
  unfolding pkg_cbs
  pkg_cbs-Handled none_left q = refl
  pkg_cbs-Handled (handled p {ps = ps} e works h) q =
      ap (λ m. m >>= on_pkgs ps) (e q) ∙ pkg_cbs-Handled h q

  Handled-works :
      {ps : List Package} {c c' : Client J}
      → Handled ps c c'
      → c.transports i ≡ tp_working
      → c'.transports i ≡ tp_working
  Handled-works none_left w = w
  Handled-works (handled p e works h) w = Handled-works h works

  Handled-none : {ps : List Package} {c c' : Client J} → Handled ps c c' → ps ≡ [] → c ≡ c'
  Handled-none none_left e = refl
  Handled-none (handled p q works h) e = cc

  Handled-split :
      (ps : List Package) {qs : List Package} {c c' : Client J}
      → Handled (ps ++ qs) c c'
      → (c₁ : Client J) × Handled ps c c₁ × Handled qs c₁ c'
  Handled-split [] {c = c} h = (c, none_left, h)
  Handled-split (p ∷ ps) (handled _ e works h) =
      let (c₁, first, rest) = Handled-split ps h in (c₁, handled p e works first, rest)

  -- One read.
  read-Handled :
      (granted : (n : ℕ) → malloc n ≡ true) (bytes : List ℕ) (q : Parser) (acc : List ℕ)
      (c c' : Client J)
      → Holds q acc
      → AreBytes bytes
      → c.transports i ≡ tp_working
      → Handled (parser_feed malloc q bytes).packages c c'
      → tp_on_tcp_read malloc signed_char rand json integer_value build printer reload accept
          json_loadb parse_msg memory env i
          (some bytes)
          (with_parser q c)
        ≡ ok (with_parser (parser_feed malloc q bytes).parser c')
  unfolding tp_on_tcp_read on_tcp_read
  read-Handled granted [] q acc c c' held some_bytes works h = absurd some_bytes
  read-Handled granted (b ∷ bs) q acc c c' held some_bytes works h =
      let r : Fed = parser_feed malloc q (b ∷ bs) in
      let (all_fed, rest) = parser_feed-Takes malloc granted held (b ∷ bs) in
      ap
        (λ s. reads_working s >>= (λ w.
          if not w
          then ok (with_parser q c)
          else read_at malloc signed_char rand json integer_value build printer reload accept
              json_loadb parse_msg memory env (some (b ∷ bs)) (with_parser q c)))
        works
      ∙ ap
          (λ m. m >>= (λ c₁.
            end_read malloc signed_char rand json integer_value build printer reload accept
              json_loadb parse_msg memory env r.status (with_parser r.parser c₁)))
          (pkg_cbs-Handled h q)
      ∙ ap
          (λ s.
            end_read malloc signed_char rand json integer_value build printer reload accept
              json_loadb parse_msg memory env s (with_parser r.parser c'))
          all_fed

  -- The reads of a stream do what its packages do, one after the other, wherever the stream is cut: if
  -- the transport works, every allocation of the parser succeeds, each read gives bytes, and what a
  -- package does is defined and leaves the connection.
  pub reads-Handled :
      (granted : (n : ℕ) → malloc n ≡ true) (cs : List (List ℕ)) (q : Parser) (acc : List ℕ)
      (ps : List Package) (c c' : Client J)
      → Holds q acc
      → AllBytes cs
      → c.transports i ≡ tp_working
      → (feed_all malloc q cs).packages ≡ ps
      → Handled ps c c'
      → on_reads cs (with_parser q c) ≡ ok (with_parser (feed_all malloc q cs).parser c')
  unfolding reads feed_all
  reads-Handled granted [] q acc ps c c' held all works e h =
      ap (λ d. ok (with_parser q d)) (Handled-none h (sym e))
  reads-Handled granted (bytes ∷ more) q acc ps c c' held (some_bytes, all) works e h =
      let r : Fed = parser_feed malloc q bytes in
      let split : Handled (r.packages ++ (feed_all malloc r.parser more).packages) c c' =
        subst (λ z. Handled z c c') (sym e) h in
      let (c₁, first, rest) = Handled-split r.packages split in
      let (all_fed, (acc', held', sp)) = parser_feed-Takes malloc granted held bytes in
      ap (λ m. m >>= on_reads more)
        (read-Handled granted bytes q acc c c₁ held some_bytes works first)
      ∙ reads-Handled granted more r.parser acc' _ c₁ c' held' all (Handled-works first works) refl
          rest
