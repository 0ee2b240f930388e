-- ===== src/HashMap.antt =====
-- src/map.c and include/pomelo-private/map.h: a hash map from C strings to pointers, with a queue
-- (include/pomelo-private/ngx-queue.h) for each bucket. A queue is the list of its pairs from the
-- head's `next` on. What `release_value` is called with is returned, in order. A map whose buckets
-- are NULL has none in its list.
pub mod View
pub mod Writes
pub mod SetLoop
pub mod Whole
mod Tests
use libpomelo.Common.{
  ℕ, zero, suc, ◌+◌, ◌*◌, ◌%◌, ◌^◌, Bool, true, false, Option, none, some, List, [], ◌∷◌, ◌++◌, ltb,
  ◌==◌, if◌then◌else◌, length, replicate, set,
}
use mathlib.Core.List.{foldl}
use libpomelo.Common.Bytes.{size_of_char, same_str}
use libpomelo.Common.Outcome.{Outcome, ok, err, fault, stuck, ◌>>=◌, checked}

-- `pc__pair_s` without its link.
pub record Pair {ℓ} (V : Type ℓ) : Type ℓ where
  pub key : List ℕ
  pub value : V

-- `pc_map_s` without the callback.
pub record Map {ℓ} (V : Type ℓ) : Type ℓ where
  pub capacity : ℕ
  pub buckets : List (List (Pair V))

abbrev pub default_capacity : ℕ
default_capacity = 64

-- `pc__hash`: the sum of the characters, each converted to a `size_t`.
unfoldable pub hash : Bool → List ℕ → ℕ
hash signed_char key = foldl (λ h c. (h + size_of_char signed_char c) % 2 ^ 64) 0 key

module _ {ℓ} {V : Type ℓ} where
  -- `&map->buckets[i]`
  abbrev pub bucket_at : List (List (Pair V)) → ℕ → Outcome (List (Pair V))
  bucket_at [] i = fault
  bucket_at (b ∷ bs) zero = ok b
  bucket_at (b ∷ bs) (suc i) = bucket_at bs i

  -- The loop of `pc_map_get`.
  unfoldable pub find : List ℕ → List (Pair V) → Option V
  find k [] = none
  find k (e ∷ es) = if same_str k e.key then some e.value else find k es

  -- The loop of `pc_map_del`: the queue without the first pair of the key.
  unfoldable pub remove : List ℕ → List (Pair V) → List (Pair V)
  remove k [] = []
  remove k (e ∷ es) = if same_str k e.key then es else e ∷ remove k es

-- The loop of `pc_map_set`. It stands at the first pair of `after`, with `old_pair` left by the
-- round before; or at a pair that it has taken out of the queue, whose link leads to itself.
pub data Cursor {ℓ} (V : Type ℓ) : Type ℓ where
  at : List (Pair V) → List (Pair V) → Option (Pair V) → Cursor V
  detached : Pair V → List (Pair V) → Cursor V

module _ {ℓ} {V : Type ℓ} where
  -- The test of `ngx_queue_foreach` (the queue and `old_pair` if it ends the loop), and a round.
  abbrev pub ends : Cursor V → Option (List (Pair V) × Option (Pair V))
  ends (at before [] old) = some (before, old)
  ends (at before (e ∷ after) old) = none
  ends (detached e []) = some ([], some e)
  ends (detached e (x ∷ xs)) = none

  abbrev pub set_round : List ℕ → Cursor V → Cursor V
  set_round k (at before [] old) = at before [] old
  set_round k (at before (e ∷ after) old) =
      if same_str e.key k then detached e (before ++ after) else at (before ++ e ∷ []) after none
  set_round k (detached e xs) = detached e xs

  unfoldable pub set_loop : ℕ → List ℕ → Cursor V → Outcome (List (Pair V) × Option (Pair V))
  set_loop zero k c = stuck
  set_loop (suc fuel) k c = elim (ends c) [
    | some result ↦ ok result
    | none ↦ set_loop fuel k (set_round k c)
  ]

  abbrev pub released : Option (Pair V) → List (Pair V)
  released none = []
  released (some old) = old ∷ []

module _ {ℓ} {V : Type ℓ} (malloc : ℕ → Bool) where
  -- `pc_map_init`, with the size of a queue's head.
  unfoldable pub map_init : ℕ → Outcome (Map V)
  map_init capacity =
      let n = if ltb capacity default_capacity then default_capacity else capacity in
      checked (malloc (16 * n)) (ok (record { capacity = n; buckets = replicate n [] }))

  -- `pc_map_new`
  unfoldable pub map_new : ℕ → Outcome (Map V)
  map_new capacity = checked (malloc 24) (map_init capacity)

  -- `pc_map_set`: what it returns at 0, with the pairs that `release_value` is called with. An
  -- allocation is made for the pair and for the copy of the key.
  unfoldable pub map_set : Bool → ℕ → Map V → List ℕ → V → Outcome (Map V × List (Pair V))
  map_set signed_char fuel m k v = checked (malloc 32) (
      checked (malloc (length k + 1)) (do
        let i = hash signed_char k % m.capacity
        queue ← bucket_at m.buckets i
        (kept, old) ← set_loop fuel k (at [] queue none)
        ok (
          record m { buckets = set m.buckets i (kept ++ record { key = k; value = v } ∷ []) },
          released old,
        )))

module _ {ℓ} {V : Type ℓ} (signed_char : Bool) (m : Map V) where
  -- `pc_map_get`; `none` is NULL.
  unfoldable pub map_get : List ℕ → Outcome (Option V)
  map_get k = do queue ← bucket_at m.buckets (hash signed_char k % m.capacity); ok (find k queue)

  -- `pc_map_del`
  unfoldable pub map_del : List ℕ → Outcome (Map V × Option V)
  map_del k = do
    let i = hash signed_char k % m.capacity
    queue ← bucket_at m.buckets i
    ok (record m { buckets = set m.buckets i (remove k queue) }, find k queue)

module _ {ℓ} {V : Type ℓ} where
  -- The inner loop of `pc_map_clear`: the pairs released so far, and then those of the queue from its
  -- head on.
  unfoldable pub clear_queue : List (Pair V) → List (Pair V) → List (Pair V)
  clear_queue [] out = out
  clear_queue (e ∷ es) out = clear_queue es (out ++ e ∷ [])

  -- The outer loop: the emptied queues, and all the pairs released.
  unfoldable pub clear_buckets :
      List (List (Pair V)) → List (Pair V) → List (List (Pair V)) × List (Pair V)
  clear_buckets [] out = ([], out)
  clear_buckets (q ∷ qs) out =
      let (rest, all) = clear_buckets qs (clear_queue q out) in ([] ∷ rest, all)

  -- `pc_map_clear`
  unfoldable pub map_clear : Map V → Map V × List (Pair V)
  map_clear m =
      let (queues, all) = clear_buckets m.buckets [] in (record m { buckets = queues }, all)

  -- `pc_map_close`
  unfoldable pub map_close : Map V → Map V × List (Pair V)
  map_close m = let (m', all) = map_clear m in (record m' { buckets = [] }, all)

  -- `pc_map_destroy`
  unfoldable pub map_destroy : Map V → Map V × List (Pair V)
  map_destroy m = map_close m
