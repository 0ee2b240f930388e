-- ===== src/Package/Stream.antt =====
-- What the framing of src/package.c means: how a byte stream splits into packages. The relation
-- knows nothing of buffers, offsets or of how the stream was cut into reads.
use libpomelo.Common.{
  ℕ, ◌+◌, ◌*◌, ◌%◌, ◌<◌, ◌≡◌, refl, sym, ◌∙◌, ap, List, [], ◌∷◌, ◌++◌, append_assoc, length, take,
  drop, take_left, drop_left, length-append, arith,
}
use libpomelo.Package.{Package}

-- The length of a body by the bytes 1 to 3 of its head, the highest first.
abbrev pub size : ℕ → ℕ → ℕ → ℕ
size b₁ b₂ b₃ = (b₁ % 256 * 256 + b₂ % 256) * 256 + b₃ % 256

-- A stream that ends inside its first package.
abbrev pub IsPartial : List ℕ → Type 0
IsPartial (t ∷ b₁ ∷ b₂ ∷ b₃ ∷ bs) = length bs < size b₁ b₂ b₃
IsPartial _ = Unit {0}

-- `Splits s ps r`: the stream `s` is the packages `ps`, and then `r`, which is not a whole package.
pub data Splits : List ℕ → List Package → List ℕ → Type 0 where
  partial : {s : List ℕ} (r : List ℕ) → s ≡ r → IsPartial s → Splits s [] r
  whole :
      {s : List ℕ} (t b₁ b₂ b₃ : ℕ) (bs rest : List ℕ) {ps : List Package} {r : List ℕ}
      → s ≡ t ∷ b₁ ∷ b₂ ∷ b₃ ∷ (bs ++ rest)
      → length bs ≡ size b₁ b₂ b₃
      → Splits rest ps r
      → Splits s (record { type = t % 256; bytes = bs } ∷ ps) r

not_partial :
    {s : List ℕ} (t b₁ b₂ b₃ : ℕ) (bs rest : List ℕ)
    → s ≡ t ∷ b₁ ∷ b₂ ∷ b₃ ∷ (bs ++ rest)
    → length bs ≡ size b₁ b₂ b₃
    → IsPartial s
    → ⊥
not_partial t b₁ b₂ b₃ bs rest e l h =
    let h' : length (bs ++ rest) < size b₁ b₂ b₃ = rw e at h in omega (arith, length-append bs rest)

-- Two lists that begin with parts of one length have the same parts.
pub append-split {ℓ} :
    {A : Type ℓ} (xs xs' ys ys' : List A)
    → length xs ≡ length xs'
    → xs ++ ys ≡ xs' ++ ys'
    → (xs ≡ xs') × (ys ≡ ys')
append-split xs xs' ys ys' l e = (
  sym (take_left (length xs) xs ys refl)
      ∙ ap (take (length xs)) e
      ∙ take_left (length xs) xs' ys' l,
  sym (drop_left (length xs) xs ys refl)
      ∙ ap (drop (length xs)) e
      ∙ drop_left (length xs) xs' ys' l,
)

-- A stream splits in one way only.
pub Splits-unique :
    {s : List ℕ} {ps qs : List Package} {r u : List ℕ}
    → Splits s ps r
    → Splits s qs u
    → (ps ≡ qs) × (r ≡ u)
Splits-unique (partial r e h) (partial u e' h') = (refl, sym e ∙ e')
Splits-unique (partial r e h) (whole t b₁ b₂ b₃ bs rest e' l k) =
    absurd (not_partial t b₁ b₂ b₃ bs rest e' l h)
Splits-unique (whole t b₁ b₂ b₃ bs rest e l k) (partial u e' h) =
    absurd (not_partial t b₁ b₂ b₃ bs rest e l h)
Splits-unique (whole t b₁ b₂ b₃ bs rest e l k) (whole t' c₁ c₂ c₃ cs rest' e' l' k') =
    let joined : t ∷ b₁ ∷ b₂ ∷ b₃ ∷ (bs ++ rest) ≡ t' ∷ c₁ ∷ c₂ ∷ c₃ ∷ (cs ++ rest') = sym e ∙ e' in
    let len : length bs ≡ length cs = ground (arith, joined) in
    let parts = append-split bs cs rest rest' len (cc joined) in
    let ih = Splits-unique k (rw (← parts.1) at k') in (cc (joined, parts.0, ih.0), ih.1)

-- Reading on: what is left of a first part is the front of the next.
pub Splits-append :
    {s : List ℕ} {ps qs : List Package} {r u : List ℕ} (more : List ℕ)
    → Splits s ps r
    → Splits (r ++ more) qs u
    → Splits (s ++ more) (ps ++ qs) u
Splits-append more (partial r e h) k = rw e k
Splits-append more (whole t b₁ b₂ b₃ bs rest e l k') k =
    whole t b₁ b₂ b₃ bs (rest ++ more)
      (ap (λ z. z ++ more) e ∙ ap (λ z. t ∷ b₁ ∷ b₂ ∷ b₃ ∷ z) (append_assoc bs rest more)) l
      (Splits-append more k' k)
