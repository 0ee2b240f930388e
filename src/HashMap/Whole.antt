-- ===== src/HashMap/Whole.antt =====
-- The operations of src/map.c on the whole map: the new map and the cleared one.
use libpomelo.Common.{
  ℕ, zero, suc, ◌%◌, ◌≤◌, ◌<◌, ◌≡◌, refl, sym, ◌∙◌, ap, Bool, none, List, [], ◌∷◌, ◌++◌, ltb,
  if◌then◌else◌, length, get_or, replicate, arith, append-nil, append_assoc, length-replicate,
  flatten,
}
use libpomelo.Common.Outcome.{ok}
use libpomelo.HashMap.{
  Pair, Map, hash, find, map_init, clear_queue, clear_buckets, map_clear, default_capacity,
}
use libpomelo.HashMap.View.{count, IsMap, view}

get_or-replicate {ℓ} : {A : Type ℓ} (n i : ℕ) (a : A) → get_or (replicate n a) i a ≡ a
get_or-replicate zero i a = refl
get_or-replicate (suc n) zero a = refl
get_or-replicate (suc n) (suc i) a = get_or-replicate n i a

-- A map whose queues are all empty has nothing for any key.
empty-view {ℓ} :
    {V : Type ℓ} (signed_char : Bool) (m : Map V) (n : ℕ)
    → 0 < m.capacity
    → n ≡ m.capacity
    → m.buckets ≡ replicate n []
    → IsMap m × ((j : List ℕ) → view signed_char m j ≡ none)
unfolding view find count
empty-view {V} signed_char m n pos e shape = (
  record {
    room = pos;
    width = rw shape (length-replicate n [] ∙ e);
    once = λ k i. rw (shape, get_or-replicate n i (let q : List (Pair V) = [] in q)) (omega arith);
  },
  λ j. rw (
    shape,
    get_or-replicate n (hash signed_char j % m.capacity) (let q : List (Pair V) = [] in q),
  ),
)

-- A new map has room for 64 queues at least, and nothing for any key; its allocation may fail.
pub map_init-view {ℓ} :
    {V : Type ℓ} (malloc : ℕ → Bool) (signed_char : Bool) (capacity : ℕ) (m : Map V)
    → map_init malloc capacity ≡ ok m
    → IsMap m
      × (64 ≤ m.capacity)
      × (capacity ≤ m.capacity)
      × ((j : List ℕ) → view signed_char m j ≡ none)
unfolding map_init
map_init-view malloc signed_char capacity m e =
    let n = if ltb capacity default_capacity then default_capacity else capacity in
    let big : (64 ≤ n) × (capacity ≤ n) = ground arith in
    let shape : (m.buckets ≡ replicate n []) × (m.capacity ≡ n) = ground arith in
    let (is_map, reads) = empty-view signed_char m n (omega arith) (sym shape.1) shape.0 in
    (is_map, omega arith, omega arith, reads)

clear_queue-append {ℓ} : {V : Type ℓ} (q out : List (Pair V)) → clear_queue q out ≡ out ++ q
unfolding clear_queue
clear_queue-append [] out = sym (append-nil out)
clear_queue-append (e ∷ es) out =
    clear_queue-append es (out ++ e ∷ []) ∙ append_assoc out (e ∷ []) es

clear_buckets-flatten {ℓ} :
    {V : Type ℓ} (qs : List (List (Pair V))) (out : List (Pair V))
    → clear_buckets qs out ≡ (replicate (length qs) [], out ++ flatten qs)
unfolding clear_buckets flatten
clear_buckets-flatten [] out = rw append-nil
clear_buckets-flatten (q ∷ qs) out = rw (
  clear_buckets-flatten qs (clear_queue q out),
  clear_queue-append q out,
  append_assoc out q (flatten qs),
)

-- `pc_map_clear` releases each pair of the map once, queue after queue, and leaves a map of the same
-- capacity that has nothing for any key.
pub map_clear-view {ℓ} :
    {V : Type ℓ} (signed_char : Bool) {m : Map V}
    → IsMap m
    → IsMap (map_clear m).0
      × ((map_clear m).0.capacity ≡ m.capacity)
      × ((map_clear m).1 ≡ flatten m.buckets)
      × ((j : List ℕ) → view signed_char (map_clear m).0 j ≡ none)
unfolding map_clear
map_clear-view signed_char {m} v =
    let e = clear_buckets-flatten m.buckets [] in
    let (is_map, reads) =
      empty-view signed_char (map_clear m).0 (length m.buckets) v.room v.width (ap (λ z. z.0) e) in
    (is_map, refl, ap (λ z. z.1) e, reads)
