-- ===== src/HashMap/Writes.antt =====
-- The writes of src/map.c against the function that a map stands for.
use libpomelo.Common.{
  ℕ, ◌+◌, ◌≤◌, ◌<◌, ◌≡◌, ◌∙◌, ap, Bool, true, Option, none, some, List, [], ◌∷◌, ◌++◌,
  if◌then◌else◌, length, set, arith, ◌≢◌, eq_or_ne, Bool-cases, inl, inr, length-set,
  get_or-set_self, get_or-set_ne,
}
use libpomelo.Common.Bytes.{same_str, same_str_iff, same_str→eq}
use libpomelo.Common.Outcome.{ok, stuck, ◌>>=◌}
use libpomelo.HashMap.{Pair, Map, find, remove, at, set_loop, released, map_set, map_del}
use libpomelo.HashMap.View.{
  count, IsMap, index, queue_of, view, index-lt, bucket_at-get_or, find-append, count-append,
  find-remove, count-remove, count-eq-zero,
}
use libpomelo.HashMap.SetLoop.{same_str_comm, set_loop-absent, set_loop-single, set_loop-present}

-- The map with another queue for the hash of a key.
abbrev pub with_queue {ℓ} : {V : Type ℓ} → Bool → Map V → List ℕ → List (Pair V) → Map V
with_queue signed_char m k q = record m { buckets = set m.buckets (index signed_char m k) q }

module _ {ℓ} {V : Type ℓ} (signed_char : Bool) {m : Map V} (v : IsMap m) (k : List ℕ) where
  with_queue-IsMap :
      (q : List (Pair V)) → ((j : List ℕ) → count j q ≤ 1) → IsMap (with_queue signed_char m k q)
  with_queue-IsMap q few = record {
    room = v.room;
    width = length-set m.buckets (index signed_char m k) q ∙ v.width;
    once = λ j i. elim (eq_or_ne (index signed_char m k) i) [
      | inl e ↦
          rw
            (← e, get_or-set_self m.buckets (index signed_char m k) q [] (index-lt signed_char v k))
            (few j)
      | inr ne ↦ rw (get_or-set_ne m.buckets (index signed_char m k) i q [] ne) (v.once j i)
    ];
  }

  -- A write to the queue of `k` shows at the keys of that queue only.
  with_queue-view :
      (q : List (Pair V)) (x : Option V)
      → ((j : List ℕ) → find j q ≡ (if same_str k j then x else find j (queue_of signed_char m k)))
      → (j : List ℕ)
      → view signed_char (with_queue signed_char m k q) j
        ≡ (if same_str k j then x else view signed_char m j)
  unfolding view
  with_queue-view q x reads j = elim (eq_or_ne (index signed_char m k) (index signed_char m j)) [
    | inl e ↦
        rw (← e, get_or-set_self m.buckets (index signed_char m k) q [] (index-lt signed_char v k))
          (reads j)
    | inr ne ↦
        rw (get_or-set_ne m.buckets (index signed_char m k) (index signed_char m j) q [] ne)
          (elim (Bool-cases (same_str k j)) [
            | inl same ↦ absurd (ne (ap (index signed_char m) (same_str→eq k j same)))
            | inr other ↦ rw other
          ])
  ]

  -- `pc_map_del` returns what the key had, and afterwards the map has nothing for that key and what
  -- it had for every other. It keeps a map one.
  pub map_del-view :
      (m' : Map V) × (map_del signed_char m k ≡ ok (m', view signed_char m k))
      × IsMap m'
      × ((j : List ℕ)
          → view signed_char m' j ≡ (if same_str k j then none else view signed_char m j))
  map_del-view =
      let q = queue_of signed_char m k in
      (
        with_queue signed_char m k (remove k q),
        unfold map_del view in
            rw (bucket_at-get_or m.buckets (index signed_char m k) (index-lt signed_char v k)),
        with_queue-IsMap (remove k q)
            (λ j. omega (arith, count-remove k j q, v.once j (index signed_char m k))),
        with_queue-view (remove k q) none
            (λ j. find-remove k j q (v.once k (index signed_char m k))),
      )

-- The queues for which the loop of `pc_map_set` ends: the key is not in it, or alone in it.
pub data Settles {ℓ} {V : Type ℓ} (k : List ℕ) : List (Pair V) → Option (Pair V) → Type ℓ where
  absent : {q : List (Pair V)} → find k q ≡ none → Settles k q none
  single : {q : List (Pair V)} (e : Pair V) → q ≡ e ∷ [] → e.key ≡ k → Settles k q (some e)

-- What is left of the queue.
abbrev pub kept {ℓ} : {V : Type ℓ} → List (Pair V) → Option (Pair V) → List (Pair V)
kept q none = q
kept q (some e) = []

module _ {ℓ} {V : Type ℓ} (k : List ℕ) where
  set_loop-Settles :
      {q : List (Pair V)} {old : Option (Pair V)} (fuel : ℕ)
      → Settles k q old
      → length q + 1 < fuel
      → set_loop fuel k (at [] q none) ≡ ok (kept q old, old)
  set_loop-Settles {q} fuel (absent e) h = set_loop-absent k [] q fuel (omega arith) e
  set_loop-Settles {q} fuel (single e shape same) h =
      rw shape (set_loop-single k e fuel same (omega arith))

  kept-reads :
      {q : List (Pair V)} {old : Option (Pair V)} (s : Settles k q old) (x : V) (j : List ℕ)
      → find j (kept q old ++ record { key = k; value = x } ∷ [])
        ≡ (if same_str k j then some x else find j q)
  unfolding find
  kept-reads {q} (absent e) x j =
      find-append j q (record { key = k; value = x })
      ∙ ground (arith, same_str_comm k j, same_str_iff k j)
  kept-reads {q} (single e shape same) x j = rw (shape, same, same_str_comm k j) (ground arith)

  kept-once :
      {q : List (Pair V)} {old : Option (Pair V)} (s : Settles k q old) (x : V)
      → ((j : List ℕ) → count j q ≤ 1)
      → (j : List ℕ) → count j (kept q old ++ record { key = k; value = x } ∷ []) ≤ 1
  kept-once {q} (absent e) x few j = ground (
    arith,
    count-append j q (record { key = k; value = x }),
    count-eq-zero k q e,
    few j,
    same_str_iff j k,
  )
  kept-once {q} (single e shape same) x few j = unfold count in ground arith

module _ {ℓ} {V : Type ℓ} (malloc : ℕ → Bool) (signed_char : Bool) {m : Map V} (v : IsMap m)
    (k : List ℕ) (x : V) where
  -- Where the loop of `pc_map_set` ends and the two allocations succeed, the map has the value for
  -- the key and what it had for every other; it stays a map, and the pair that was replaced, if there
  -- was one, is released. The fuel is any number above the length of the queue by two.
  pub map_set-view :
      {old : Option (Pair V)} (fuel : ℕ)
      → Settles k (queue_of signed_char m k) old
      → length (queue_of signed_char m k) + 1 < fuel
      → malloc 32 ≡ true
      → malloc (length k + 1) ≡ true
      → (m' : Map V) × (map_set malloc signed_char fuel m k x ≡ ok (m', released old))
        × IsMap m'
        × ((j : List ℕ)
            → view signed_char m' j ≡ (if same_str k j then some x else view signed_char m j))
  map_set-view {old} fuel settles enough pair_given key_given =
      let q = queue_of signed_char m k in
      let new = kept q old ++ record { key = k; value = x } ∷ [] in
      (
        with_queue signed_char m k new,
        unfold map_set in
            rw (
              pair_given,
              key_given,
              bucket_at-get_or m.buckets (index signed_char m k) (index-lt signed_char v k),
              ◌>>=◌,
              set_loop-Settles k fuel settles enough,
            ),
        with_queue-IsMap signed_char v k new
            (kept-once k settles x (λ j. v.once j (index signed_char m k))),
        with_queue-view signed_char v k new (some x) (kept-reads k settles x),
      )

  -- `pc_map_set` on a key that the map has does not end when another key is in the same queue: it
  -- runs out of any fuel.
  pub map_set-diverges :
      (fuel : ℕ)
      → view signed_char m k ≢ none
      → 1 < length (queue_of signed_char m k)
      → malloc 32 ≡ true
      → malloc (length k + 1) ≡ true
      → map_set malloc signed_char fuel m k x ≡ stuck
  unfolding map_set view
  map_set-diverges fuel there crowded pair_given key_given = rw (
    pair_given,
    key_given,
    bucket_at-get_or m.buckets (index signed_char m k) (index-lt signed_char v k),
    ◌>>=◌,
    set_loop-present k fuel [] (queue_of signed_char m k) none there (omega arith),
  )
