-- ===== src/HashMap/Tests.antt =====
-- Runs of src/map.c on concrete keys, and the theorems at concrete inputs.
use libpomelo.Common.{
  ℕ, ◌≤◌, ◌≡◌, refl, subst, Bool, true, none, some, List, [], ◌∷◌, if◌then◌else◌, set, replicate,
  arith, ◌≢◌, flatten,
}
use libpomelo.Common.Bytes.{same_str}
use libpomelo.Common.Outcome.{Outcome, ok, stuck}
use libpomelo.HashMap.{Pair, Map, hash, find, map_init, map_set, map_del, map_clear, set_loop}
use libpomelo.HashMap.View.{IsMap, view, queue_of}
use libpomelo.HashMap.Writes.{Settles, absent, map_set-view, map_set-diverges, map_del-view}
use libpomelo.HashMap.Whole.{map_init-view, map_clear-view}

abbrev plenty : ℕ → Bool
plenty n = true

-- The map that `pc_map_new(256, …)` makes.
abbrev new_map : Map ℕ
new_map = record { capacity = 256; buckets = replicate 256 [] }

new_map_lem : map_init plenty 256 ≡ ok new_map
unfolding map_init
new_map_lem = refl

init_run : IsMap new_map × (64 ≤ 256) × (256 ≤ 256) × ((j : List ℕ) → view true new_map j ≡ none)
init_run = map_init-view plenty true 256 new_map new_map_lem

-- "12" and "21" have one hash.
abbrev key_a : List ℕ
key_a = 49 ∷ 50 ∷ []

abbrev key_b : List ℕ
key_b = 50 ∷ 49 ∷ []

abbrev one : Map ℕ
one = record {
  capacity = 256;
  buckets = set (replicate 256 []) 99 (record { key = key_a; value = 1 } ∷ []);
}

abbrev both : Map ℕ
both = record {
  capacity = 256;
  buckets =
      set (replicate 256 []) 99
        (record { key = key_a; value = 1 } ∷ record { key = key_b; value = 2 } ∷ []);
}

one_lem : map_set plenty true 5 new_map key_a 1 ≡ ok (one, [])
unfolding map_set set_loop hash
one_lem = refl

both_lem : map_set plenty true 5 one key_b 2 ≡ ok (both, [])
unfolding map_set set_loop hash
both_lem = refl

-- A write to a key that is alone in its queue replaces and releases its pair.
replaced_lem :
    map_set plenty true 5 one key_a 7
    ≡ ok (
      record {
        capacity = 256;
        buckets = set (replicate 256 []) 99 (record { key = key_a; value = 7 } ∷ []);
      },
      record { key = key_a; value = 1 } ∷ [],
    )
unfolding map_set set_loop hash
replaced_lem = refl

same_result :
    {a b : Map ℕ} {r : Outcome (Map ℕ × List (Pair ℕ))} {p q : List (Pair ℕ)}
    → r ≡ ok (a, p)
    → r ≡ ok (b, q)
    → a ≡ b
same_result e f = cc

new_map-Settles : Settles {V = ℕ} key_a (queue_of true new_map key_a) none
unfolding hash find
new_map-Settles = absent refl

map_set-view_example :
    (m' : Map ℕ) × (map_set plenty true 5 new_map key_a 1 ≡ ok (m', []))
    × IsMap m'
    × ((j : List ℕ) → view true m' j ≡ (if same_str key_a j then some 1 else view true new_map j))
map_set-view_example =
    map_set-view plenty true init_run.0 key_a 1 5 new_map-Settles (unfold hash in omega arith) refl
      refl

one-IsMap : IsMap one
one-IsMap = subst IsMap (same_result map_set-view_example.1 one_lem) map_set-view_example.2

one-Settles : Settles {V = ℕ} key_b (queue_of true one key_b) none
unfolding hash find
one-Settles = absent refl

second_set :
    (m' : Map ℕ) × (map_set plenty true 5 one key_b 2 ≡ ok (m', []))
    × IsMap m'
    × ((j : List ℕ) → view true m' j ≡ (if same_str key_b j then some 2 else view true one j))
second_set =
    map_set-view plenty true one-IsMap key_b 2 5 one-Settles (unfold hash in omega arith) refl refl

both-IsMap : IsMap both
both-IsMap = subst IsMap (same_result second_set.1 both_lem) second_set.2

both_has : view true both key_a ≢ none
unfolding view hash find
both_has = λ e. cc

map_set-diverges_example : map_set plenty true 1000 both key_a 7 ≡ stuck
map_set-diverges_example =
    map_set-diverges plenty true both-IsMap key_a 7 1000 both_has (unfold hash in omega arith) refl
      refl

map_del-view_example :
    (m' : Map ℕ) × (map_del true both key_a ≡ ok (m', view true both key_a))
    × IsMap m'
    × ((j : List ℕ) → view true m' j ≡ (if same_str key_a j then none else view true both j))
map_del-view_example = map_del-view true both-IsMap key_a

map_clear-view_example :
    IsMap (map_clear both).0
    × ((map_clear both).0.capacity ≡ 256)
    × ((map_clear both).1 ≡ flatten both.buckets)
    × ((j : List ℕ) → view true (map_clear both).0 j ≡ none)
map_clear-view_example = map_clear-view true both-IsMap
