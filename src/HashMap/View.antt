-- ===== src/HashMap/View.antt =====
-- What a map of src/map.c means: a function from keys to values.
use libpomelo.Common.{
  ℕ, zero, suc, ◌+◌, ◌%◌, ◌≤◌, ◌<◌, ◌≡◌, refl, Bool, Option, none, some, List, [], ◌∷◌, ◌++◌,
  if◌then◌else◌, length, get_or, arith,
}
use libpomelo.Common.Bytes.{same_str, same_str_iff}
use libpomelo.Common.Outcome.{ok}
use libpomelo.HashMap.{Pair, Map, hash, bucket_at, find, remove, map_get}

module _ {ℓ} {V : Type ℓ} where
  -- How often a queue holds a key.
  unfoldable pub count : List ℕ → List (Pair V) → ℕ
  count k [] = 0
  count k (e ∷ es) = (if same_str k e.key then 1 else 0) + count k es

  -- The map has a queue for each of its hashes, and at most one pair for each key.
  pub record IsMap (m : Map V) : Type ℓ where
    pub room : 0 < m.capacity
    pub width : length m.buckets ≡ m.capacity
    pub once : (k : List ℕ) (i : ℕ) → count k (get_or m.buckets i []) ≤ 1

  abbrev pub index : Bool → Map V → List ℕ → ℕ
  index signed_char m k = hash signed_char k % m.capacity

  abbrev pub queue_of : Bool → Map V → List ℕ → List (Pair V)
  queue_of signed_char m k = get_or m.buckets (index signed_char m k) []

  unfoldable pub view : Bool → Map V → List ℕ → Option V
  view signed_char m k = find k (queue_of signed_char m k)

  pub bucket_at-get_or :
      (bs : List (List (Pair V))) (i : ℕ) → i < length bs → bucket_at bs i ≡ ok (get_or bs i [])
  bucket_at-get_or [] i h = absurd (omega arith)
  bucket_at-get_or (b ∷ bs) zero h = refl
  bucket_at-get_or (b ∷ bs) (suc i) h = bucket_at-get_or bs i (omega arith)

  pub index-lt :
      (signed_char : Bool) {m : Map V} (v : IsMap m) (k : List ℕ)
      → index signed_char m k < length m.buckets
  index-lt signed_char {m} v k = omega (arith, v.room, v.width)

  -- `pc_map_get` reads the function.
  pub map_get-view :
      (signed_char : Bool) {m : Map V} (v : IsMap m) (k : List ℕ)
      → map_get signed_char m k ≡ ok (view signed_char m k)
  unfolding map_get view
  map_get-view signed_char {m} v k =
      rw (bucket_at-get_or m.buckets (index signed_char m k) (index-lt signed_char v k))

  pub find-eq-none : (k : List ℕ) (es : List (Pair V)) → count k es ≡ 0 → find k es ≡ none
  unfolding count find
  find-eq-none k [] h = refl
  find-eq-none k (e ∷ es) h = ground (arith, find-eq-none k es)

  pub count-eq-zero : (k : List ℕ) (es : List (Pair V)) → find k es ≡ none → count k es ≡ 0
  unfolding count find
  count-eq-zero k [] h = refl
  count-eq-zero k (e ∷ es) h = ground (arith, count-eq-zero k es)

  pub find-append :
      (j : List ℕ) (es : List (Pair V)) (e : Pair V)
      → find j (es ++ e ∷ []) ≡ (elim (find j es) [
        | some x ↦ some x
        | none ↦ if same_str j e.key then some e.value else none
      ])
  unfolding find
  find-append j [] e = refl
  find-append j (x ∷ es) e = ground (arith, find-append j es e)

  pub count-append :
      (j : List ℕ) (es : List (Pair V)) (e : Pair V)
      → count j (es ++ e ∷ []) ≡ count j es + (if same_str j e.key then 1 else 0)
  unfolding count
  count-append j [] e = ground arith
  count-append j (x ∷ es) e = omega (arith, count-append j es e)

  pub find-remove :
      (k j : List ℕ) (es : List (Pair V))
      → count k es ≤ 1
      → find j (remove k es) ≡ (if same_str k j then none else find j es)
  unfolding find remove count
  find-remove k j [] h = ground arith
  find-remove k j (e ∷ es) h = ground (
    arith,
    find-remove k j es,
    find-eq-none k es,
    same_str_iff k j,
    same_str_iff k e.key,
    same_str_iff j e.key,
  )

  pub count-remove : (k j : List ℕ) (es : List (Pair V)) → count j (remove k es) ≤ count j es
  unfolding remove count
  count-remove k j [] = omega arith
  count-remove k j (e ∷ es) = ground (arith, count-remove k j es)
