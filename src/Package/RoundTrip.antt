-- ===== src/Package/RoundTrip.antt =====
-- `pc_pkg_encode` of src/package.c against the parser.
use libpomelo.Common.{
  ℕ, ◌≡◌, ◌+◌, ◌≤◌, ◌<◌, ◌%◌, ◌/◌, ◌^◌, refl, ap, subst, Bool, true, false, List, [], ◌∷◌, ◌++◌,
  flatten, arith, none, some, length, ◌⊎◌, ◌↔◌,
}
use libpomelo.Package.{Package, fed, parser_init, pkg_encode}
use libpomelo.Package.Stream.{Splits, partial, whole}
use libpomelo.Package.Chunks.{feed_all, feed_all-Splits}

module _ (malloc : ℕ → Bool) where
  -- A package of up to 2 ^ 24 - 1 bytes is encoded in four bytes more, if the allocation of those
  -- succeeds; any other is refused.
  pub pkg_encode_cases :
      (type : ℕ) (bytes : List ℕ)
      → (pkg_encode malloc type bytes ≡ none)
        ↔ ((2 ^ 24 ≤ length bytes) ⊎ (malloc (4 + length bytes) ≡ false))
  unfolding pkg_encode
  pkg_encode_cases type bytes = ground arith

  encoded :
      (type : ℕ) (bytes out : List ℕ)
      → pkg_encode malloc type bytes ≡ some out
      → (length bytes < 2 ^ 24)
        × (out
            ≡ type % 256
              ∷ length bytes / 2 ^ 16 % 256
              ∷ length bytes / 2 ^ 8 % 256
              ∷ length bytes % 256
              ∷ bytes)
  unfolding pkg_encode
  encoded type bytes out e = ground arith

  pkg_encode-Splits :
      (p : Package) (out rest : List ℕ) {ps : List Package} {r : List ℕ}
      → p.type < 256
      → pkg_encode malloc p.type p.bytes ≡ some out
      → Splits rest ps r
      → Splits (out ++ rest) (p ∷ ps) r
  pkg_encode-Splits p out rest {ps} {r} small e k =
      let (fits, shape) = encoded p.type p.bytes out e in
      let n = length p.bytes in
      let t : p.type % 256 % 256 ≡ p.type = omega arith in
      let framed : Splits (out ++ rest) (record { type = p.type % 256 % 256; bytes = p.bytes } ∷ ps)
          r =
        whole (p.type % 256) (n / 2 ^ 16 % 256) (n / 2 ^ 8 % 256) (n % 256) p.bytes rest
          (ap (λ z. z ++ rest) shape) (omega arith) k in
      subst (λ z. Splits (out ++ rest) (record { type = z; bytes = p.bytes } ∷ ps) r) t framed

-- `Encodes malloc ps out`: the packages `ps`, encoded one after the other.
pub data Encodes (malloc : ℕ → Bool) : List Package → List ℕ → Type 0 where
  done : Encodes malloc [] []
  next :
      (p : Package) {ps : List Package} (out : List ℕ) {outs : List ℕ}
      → p.type < 256
      → pkg_encode malloc p.type p.bytes ≡ some out
      → Encodes malloc ps outs
      → Encodes malloc (p ∷ ps) (out ++ outs)

Encodes-Splits :
    {malloc : ℕ → Bool} {ps : List Package} {out : List ℕ}
    → Encodes malloc ps out
    → Splits out ps []
Encodes-Splits done = partial [] refl tt
Encodes-Splits {malloc} (next p out small e k) =
    pkg_encode-Splits malloc p out _ small e (Encodes-Splits k)

-- Encoded packages, whose types are bytes, sent one after the other and read in pieces of any size,
-- come out of the parser of the other end as they went in and in order, if its allocations succeed.
pub feed_all-encode :
    (malloc alloc : ℕ → Bool) {ps : List Package} {out : List ℕ}
    → ((n : ℕ) → alloc n ≡ true)
    → Encodes malloc ps out
    → (cs : List (List ℕ)) → flatten cs ≡ out
    → ((feed_all alloc parser_init cs).packages ≡ ps)
      × ((feed_all alloc parser_init cs).status ≡ fed)
feed_all-encode malloc alloc granted k cs e =
    feed_all-Splits alloc granted cs {u = []} (rw e (Encodes-Splits k))
